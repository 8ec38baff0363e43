-- ===== src/Query/RoundTrip.antt =====
-- Statements of KNIRVQL and their text: what Parse (query/knirvql.go) reads back.
use Prim.Native.Char.{Char, char, code}
use Prim.Native.String.append
use Prim.Native.String.{◌++◌ as append}
use text.Mathlib.TextLemmas.{append-nil}
use knirvbase.Base.{
  String, ◌≡◌, refl, sym, ap, ◌∙◌, Bool, true, false, not, ◌&&◌, List, [], ◌∷◌, if◌then◌else◌,
  arith, All, eqb, eq_refl,
}
use knirvbase.GoStrings.{
  is_space, trim, split, split_from, split_push, join, to_upper, Words, has_prefix,
}
use knirvbase.Floats.{Floats}
use knirvbase.Types.{entry_type_auth}
use knirvbase.Query.{
  Query, query_set, query_delete, query_create_index, query_create_collection, query_drop_index,
  query_drop_collection,
}
use knirvbase.Query.Parsed.{parsed, no_query}
use knirvbase.Query.Parse.{parse_query, parse_words}
use knirvbase.Query.Values.{is_quote}
use knirvbase.Query.Schema.{parse_drop_reference}
use knirvbase.Query.Words.{is_word, is_solid, fields-trim_space, fields-join, word-solid}

-- the statements that change something, with the fields of an index left out
pub data Statement : Type 0 where
  set : String → String → Statement
  delete : String → Statement
  create_index : String → String → Bool → Statement
  create_collection drop_collection : String → Statement
  drop_index : String → String → Statement

abbrev reference : String → String → String
reference collection name = append collection (append ":" name)

abbrev pub words_of : Statement → List String
words_of (set k v) = "SET" ∷ k ∷ "=" ∷ v ∷ []
words_of (delete id) = "DELETE" ∷ "WHERE" ∷ "id" ∷ "=" ∷ id ∷ []
words_of (create_index c n true) = "CREATE" ∷ "INDEX" ∷ reference c n ∷ "ON" ∷ c ∷ "UNIQUE" ∷ []
words_of (create_index c n false) = "CREATE" ∷ "INDEX" ∷ reference c n ∷ "ON" ∷ c ∷ []
words_of (create_collection c) = "CREATE" ∷ "COLLECTION" ∷ c ∷ []
words_of (drop_collection c) = "DROP" ∷ "COLLECTION" ∷ c ∷ []
words_of (drop_index c n) = "DROP" ∷ "INDEX" ∷ reference c n ∷ []

unfoldable pub statement_text : Statement → String
statement_text st = join " " (words_of st)

-- no colon in the text
abbrev pub no_colon : String → Bool
no_colon String.[] = true
no_colon (String.◌∷◌ c s) = not (eqb (code c) b':') && no_colon s

-- A name is a word with no colon in it; a value is a word with no quotation mark at its ends.
abbrev pub IsName : String → Type 0
IsName s = (is_word s ≡ true) × (no_colon s ≡ true)

abbrev pub IsPlain : Statement → Type 0
IsPlain (set k v) = (is_word k ≡ true) × (is_word v ≡ true) × (trim is_quote v ≡ v)
IsPlain (delete id) = is_word id ≡ true
IsPlain (create_index c n u) = IsName c × IsName n
IsPlain (create_collection c) = is_word c ≡ true
IsPlain (drop_collection c) = is_word c ≡ true
IsPlain (drop_index c n) = IsName c × IsName n

split_from-cons :
    (c : Char) (s : String)
    → split_from b':' (String.◌∷◌ c s) ≡ split_push b':' c (split_from b':' s)
unfolding split_from
split_from-cons c s = refl

split_push_other :
    (c : Char) (a : String) (b : List String)
    → eqb (code c) b':' ≡ false
    → split_push b':' c (a, b) ≡ (String.◌∷◌ c a, b)
unfolding split_push
split_push_other c a b e = ap (λ x. if x then (String.[], a ∷ b) else (String.◌∷◌ c a, b)) e

no_colon_head :
    (c : Char) (s : String) → no_colon (String.◌∷◌ c s) ≡ true → eqb (code c) b':' ≡ false
no_colon_head c s h = ground arith

no_colon_tail : (c : Char) (s : String) → no_colon (String.◌∷◌ c s) ≡ true → no_colon s ≡ true
no_colon_tail c s h = ground arith

split_from-append :
    (c n : String)
    → no_colon c ≡ true
    → split_from b':' (append c n) ≡ (append c (split_from b':' n).0, (split_from b':' n).1)
split_from-append String.[] n h =
    ap (split_from b':') (append.nil n)
    ∙ sym (ap (λ a. (a, (split_from b':' n).1)) (append.nil (split_from b':' n).0))
split_from-append (String.◌∷◌ d c) n h =
    ap (split_from b':') (append.cons d c n)
    ∙ split_from-cons d (append c n)
    ∙ ap (split_push b':' d) (split_from-append c n (no_colon_tail d c h))
    ∙ split_push_other d (append c (split_from b':' n).0) (split_from b':' n).1
        (no_colon_head d c h)
    ∙ ap (λ a. (a, (split_from b':' n).1)) (sym (append.cons d c (split_from b':' n).0))

split_from_whole : (n : String) → no_colon n ≡ true → split_from b':' n ≡ (n, [])
unfolding split_from
split_from_whole n h =
    ap (split_from b':') (sym (append-nil n))
    ∙ split_from-append n "" h
    ∙ ap (λ a. (a, [])) (append-nil n)

abbrev colon : Char
colon = char 58 tt

split_at_colon : (n : String) → no_colon n ≡ true → split_from b':' (append ":" n) ≡ ("", n ∷ [])
unfolding split_push
split_at_colon n h =
    ap (split_from b':') (append.cons colon "" n ∙ ap (String.◌∷◌ colon) (append.nil n))
    ∙ split_from-cons colon n
    ∙ ap (split_push b':' colon) (split_from_whole n h)

-- A reference is split into its two names.
split-reference :
    (c n : String) → no_colon c ≡ true → no_colon n ≡ true → split b':' (reference c n) ≡ c ∷ n ∷ []
unfolding split
split-reference c n hc hn =
    ap (λ (p : Words). p.0 ∷ p.1)
      (split_from-append c (append ":" n) hc
        ∙ ap (λ (p : Words). (append c p.0, p.1)) (split_at_colon n hn)
        ∙ ap (λ a. (a, n ∷ [])) (append-nil c))

is_solid-append :
    (a b : String) → is_solid a ≡ true → is_solid b ≡ true → is_solid (append a b) ≡ true
is_solid-append String.[] b ha hb = rw (append.nil b) hb
is_solid-append (String.◌∷◌ c a) b ha hb =
    rw (append.cons c a b) (ground (arith, is_solid-append a b))

is_word-append : (a b : String) → is_word a ≡ true → is_solid b ≡ true → is_word (append a b) ≡ true
is_word-append String.[] b ha hb = cc
is_word-append (String.◌∷◌ c a) b ha hb =
    rw (append.cons c a b) (ground (arith, is_solid-append a b))

is_word-reference :
    (c n : String) → is_word c ≡ true → is_word n ≡ true → is_word (reference c n) ≡ true
unfolding is_space
is_word-reference c n hc hn =
    is_word-append c (append ":" n) hc (is_solid-append ":" n refl (word-solid n hn))

module _ (fl : Floats) where
  open fl use {Float}

  -- the query that a statement stands for
  abbrev pub query_of : Statement → Query Float
  query_of (set k v) = record (no_query fl query_set) {
    key = k;
    value = v;
    entry_type = entry_type_auth;
  }
  query_of (delete id) = record (no_query fl query_delete) { id = id }
  query_of (create_index c n u) = record (no_query fl query_create_index) {
    collection = c;
    index_name = n;
    unique = u;
  }
  query_of (create_collection c) = record (no_query fl query_create_collection) { collection = c }
  query_of (drop_collection c) = record (no_query fl query_drop_collection) { collection = c }
  query_of (drop_index c n) = record (no_query fl query_drop_index) {
    collection = c;
    index_name = n;
  }

  -- Parse reads a text of words joined by single spaces as those words.
  parse_query-join :
      (ws : List String)
      → All (λ w. is_word w ≡ true) ws
      → parse_query fl (join " " ws) ≡ parse_words fl ws
  unfolding parse_query
  parse_query-join ws h = ap (parse_words fl) (fields-trim_space (join " " ws) ∙ fields-join ws h)

  parse_words-words_of :
      (st : Statement) → IsPlain st → parse_words fl (words_of st) ≡ parsed (query_of st)
  unfolding parse_words join to_upper has_prefix
  parse_words-words_of (set k v) h = ap (λ x. parsed (query_of (set k x))) h.2
  parse_words-words_of (delete id) h = refl
  parse_words-words_of (create_index c n true) h = rw (split-reference c n h.0.1 h.1.1, eq_refl c)
  parse_words-words_of (create_index c n false) h = rw (split-reference c n h.0.1 h.1.1, eq_refl c)
  parse_words-words_of (create_collection c) h = refl
  parse_words-words_of (drop_collection c) h = refl
  parse_words-words_of (drop_index c n) h =
      ap (parse_drop_reference fl) (split-reference c n h.0.1 h.1.1)

  words_of-words : (st : Statement) → IsPlain st → All (λ w. is_word w ≡ true) (words_of st)
  unfolding is_space
  words_of-words (set k v) h = (refl, (h.0, (refl, (h.1, tt))))
  words_of-words (delete id) h = (refl, (refl, (refl, (refl, (h, tt)))))
  words_of-words (create_index c n true) h =
      (refl, (refl, (is_word-reference c n h.0.0 h.1.0, (refl, (h.0.0, (refl, tt))))))
  words_of-words (create_index c n false) h =
      (refl, (refl, (is_word-reference c n h.0.0 h.1.0, (refl, (h.0.0, tt)))))
  words_of-words (create_collection c) h = (refl, (refl, (h, tt)))
  words_of-words (drop_collection c) h = (refl, (refl, (h, tt)))
  words_of-words (drop_index c n) h = (refl, (refl, (is_word-reference c n h.0.0 h.1.0, tt)))

  -- The text of a statement is parsed to the query that the statement stands for, if its names are
  -- words with no colon and its value is a word with no quotation mark at its ends.
  pub parse_query-statement_text :
      (st : Statement) → IsPlain st → parse_query fl (statement_text st) ≡ parsed (query_of st)
  unfolding statement_text
  parse_query-statement_text st h =
      parse_query-join (words_of st) (words_of-words st h) ∙ parse_words-words_of st h
