-- ===== src/Query/Words.antt =====
-- The words of a query text: Parse of query/knirvql.go trims the text and splits it at white space.
use Prim.Native.Char.{Char, char}
use Prim.Native.String.append
use Prim.Native.String.{◌++◌ as append}
use text.Mathlib.TextLemmas.{append-nil}
use knirvbase.Base.{
  String, ◌≡◌, refl, sym, ap, ◌∙◌, Bool, true, false, not, ◌&&◌, List, [], ◌∷◌, if◌then◌else◌,
  arith, All, Bool-cases, inl, inr,
}
use knirvbase.GoStrings.{
  is_space, words_from, fields, trim_left, trim_right, trim_space, join, cons_word, Words,
  cons_unless, push,
}

fields-trim_left : (s : String) → fields (trim_left is_space s) ≡ fields s
unfolding fields trim_left
fields-trim_left String.[] = refl
fields-trim_left (String.◌∷◌ c s) = elim (Bool-cases (is_space c)) [
  | inl e ↦ rw e (fields-trim_left s)
  | inr e ↦ ap (λ b. fields (if b then trim_left is_space s else String.◌∷◌ c s)) e
]

words_from-cons : (c : Char) (s : String) → words_from (String.◌∷◌ c s) ≡ push c (words_from s)
unfolding words_from
words_from-cons c s = refl

push_blank :
    (c : Char) (t : String) → words_from (cons_unless (is_space c) c t) ≡ push c (words_from t)
unfolding words_from push
push_blank c String.[] = elim (Bool-cases (is_space c)) [
  | inl e ↦
      ap (λ b. words_from (cons_unless b c String.[])) e
      ∙ sym (ap (λ b. if b then (String.[], []) else (String.◌∷◌ c String.[], [])) e)
  | inr e ↦ ap (λ b. words_from (cons_unless b c String.[])) e
]
push_blank c (String.◌∷◌ d t) = refl

words_from-trim_right : (s : String) → words_from (trim_right is_space s) ≡ words_from s
unfolding trim_right words_from
words_from-trim_right String.[] = refl
words_from-trim_right (String.◌∷◌ c s) =
    push_blank c (trim_right is_space s) ∙ ap (push c) (words_from-trim_right s)

-- Trimming white space at either end does not change the words.
pub fields-trim_space : (s : String) → fields (trim_space s) ≡ fields s
unfolding fields trim_space
fields-trim_space s =
    ap (λ (w : Words). cons_word w.0 w.1) (words_from-trim_right (trim_left is_space s))
    ∙ fields-trim_left s

-- a word: some text with no white space in it
abbrev pub is_solid : String → Bool
is_solid String.[] = true
is_solid (String.◌∷◌ c s) = not (is_space c) && is_solid s

abbrev pub is_word : String → Bool
is_word String.[] = false
is_word (String.◌∷◌ c s) = is_solid (String.◌∷◌ c s)

push_solid :
    (c : Char) (a : String) (b : List String)
    → is_space c ≡ false
    → push c (a, b) ≡ (String.◌∷◌ c a, b)
unfolding push
push_solid c a b e = ap (λ x. if x then (String.[], cons_word a b) else (String.◌∷◌ c a, b)) e

solid_head : (c : Char) (w : String) → is_solid (String.◌∷◌ c w) ≡ true → is_space c ≡ false
solid_head c w h = ground arith

solid_tail : (c : Char) (w : String) → is_solid (String.◌∷◌ c w) ≡ true → is_solid w ≡ true
solid_tail c w h = ground arith

-- A text with no white space goes in front of the first word.
words_from-append :
    (w s : String)
    → is_solid w ≡ true
    → words_from (append w s) ≡ (append w (words_from s).0, (words_from s).1)
words_from-append String.[] s h =
    ap words_from (append.nil s)
    ∙ sym (ap (λ a. (a, (words_from s).1)) (append.nil (words_from s).0))
words_from-append (String.◌∷◌ c w) s h =
    ap words_from (append.cons c w s)
    ∙ words_from-cons c (append w s)
    ∙ ap (push c) (words_from-append w s (solid_tail c w h))
    ∙ push_solid c (append w (words_from s).0) (words_from s).1 (solid_head c w h)
    ∙ ap (λ a. (a, (words_from s).1)) (sym (append.cons c w (words_from s).0))

pub word-solid : (w : String) → is_word w ≡ true → is_solid w ≡ true
word-solid String.[] h = refl
word-solid (String.◌∷◌ c w) h = h

abbrev space : Char
space = char 32 tt

space_ends : (s : String) → words_from (append " " s) ≡ ("", fields s)
unfolding fields push is_space
space_ends s =
    ap words_from (append.cons (space) "" s ∙ ap (String.◌∷◌ space) (append.nil s))
    ∙ words_from-cons space s

word_then_space :
    (w s : String) → is_word w ≡ true → words_from (append w (append " " s)) ≡ (w, fields s)
word_then_space w s h =
    words_from-append w (append " " s) (word-solid w h)
    ∙ ap (λ (p : Words). (append w p.0, p.1)) (space_ends s)
    ∙ ap (λ a. (a, fields s)) (append-nil w)

cons_word-word : (w : String) (ws : List String) → is_word w ≡ true → cons_word w ws ≡ w ∷ ws
cons_word-word String.[] ws h = cc
cons_word-word (String.◌∷◌ c w) ws h = refl

-- Words joined by single spaces are read back as they were.
pub fields-join : (ws : List String) → All (λ w. is_word w ≡ true) ws → fields (join " " ws) ≡ ws
unfolding join fields
fields-join [] h = refl
fields-join (w ∷ []) h =
    ap fields (sym (append-nil w))
    ∙ ap (λ (p : Words). cons_word p.0 p.1) (words_from-append w "" (word-solid w h.0))
    ∙ ap (λ a. cons_word a []) (append-nil w)
    ∙ cons_word-word w [] h.0
fields-join (w ∷ v ∷ ws) h =
    ap (λ (p : Words). cons_word p.0 p.1) (word_then_space w (join " " (v ∷ ws)) h.0)
    ∙ cons_word-word w (fields (join " " (v ∷ ws))) h.0
    ∙ ap (◌∷◌ w) (fields-join (v ∷ ws) h.1)
