-- ===== src/Query/Parse.antt =====
-- KNIRVQLParser of go/internal/query/knirvql.go, but for CREATE and DROP (Schema). A slice of words
-- that the code indexes is a list here, and the index into it the words that are left.
use knirvbase.Base.{String, ◌&&◌, none, some, List, [], ◌∷◌, ◌++◌, if◌then◌else◌, ◌==◌}
use knirvbase.Base.Int.{ℤ, pos}
use knirvbase.GoStrings.{fields, trim, trim_space, to_upper, join}
use knirvbase.Floats.{Floats}
use knirvbase.Types.{entry_type_auth}
use knirvbase.Query.{Filter, query_get, query_set, query_delete}
use knirvbase.Query.Parsed.{
  Parsed, parsed, refused, out_of_range, no_query, empty_query, invalid_get, invalid_set,
  invalid_delete, unknown_command,
}
use knirvbase.Query.Values.{is_quote, atoi, parse_value, parse_vector}
use knirvbase.Query.Schema.{parse_create, parse_drop}

module _ (fl : Floats) where
  open fl use {Float}

  -- the variables of the loop of parseGet
  pub record Clause : Type 0 where
    pub filters : List (Filter Float)
    pub similar_to : List Float
    pub limit : ℤ

  abbrev pub no_clause : Clause
  no_clause = record { filters = []; similar_to = []; limit = pos 0 }

  unfoldable pub parse_filter : String → String → String → Filter Float
  unfolding parse_value
  parse_filter key operator word = record {
    key = key;
    operator = operator;
    operand = parse_value fl (trim is_quote word);
  }

  unfoldable pub read_similar : List String → Clause → Clause
  unfolding parse_vector
  read_similar [] c = c
  read_similar (vec ∷ rest) c = record c { similar_to = parse_vector fl vec }

  unfoldable pub read_limit : List String → Clause → Clause
  read_limit [] c = c
  read_limit (n ∷ rest) c = elim (atoi n) [ none ↦ c | some l ↦ record c { limit = l } ]

  abbrev add_filter : Filter Float → Clause → Clause
  add_filter f c = record c { filters = c.filters ++ f ∷ [] }

  -- the loop of parseGet over the words after WHERE
  unfoldable pub parse_clauses : List String → Clause → Clause
  unfolding read_similar read_limit parse_filter
  parse_clauses [] c = c
  parse_clauses (a ∷ []) c = c
  parse_clauses (a ∷ b ∷ []) c =
      if a == "SIMILAR" && b == "TO" then c else if a == "LIMIT" then read_limit (b ∷ []) c else c
  parse_clauses (a ∷ b ∷ v ∷ rest) c =
      let more = parse_clauses rest (add_filter (parse_filter a b v) c) in
      if a == "SIMILAR" && b == "TO"
      then read_similar (v ∷ rest) c
      else if a == "LIMIT"
      then read_limit (b ∷ v ∷ rest) c
      else more

  abbrev pub get_query : String → Clause → Parsed Float
  get_query entry_type c = parsed (record (no_query fl query_get) {
    entry_type = to_upper entry_type;
    filters = c.filters;
    similar_to = c.similar_to;
    limit = c.limit;
  })

  unfoldable pub parse_get : List String → Parsed Float
  unfolding parse_clauses
  parse_get (t ∷ w ∷ rest) =
      get_query t (if w == "WHERE" then parse_clauses rest no_clause else no_clause)
  parse_get _ = refused invalid_get

  unfoldable pub parse_set : List String → Parsed Float
  parse_set (key ∷ eq ∷ word ∷ rest) =
      if eq == "="
      then parsed (record (no_query fl query_set) {
        key = key;
        value = trim is_quote (join " " (word ∷ rest));
        entry_type = entry_type_auth;
      })
      else refused invalid_set
  parse_set _ = refused invalid_set

  -- The code tests for two words, and reads the third and the fourth.
  unfoldable pub parse_delete_id : List String → Parsed Float
  parse_delete_id [] = out_of_range
  parse_delete_id (eq ∷ []) = if eq == "=" then out_of_range else refused invalid_delete
  parse_delete_id (eq ∷ id ∷ rest) =
      if eq == "="
      then parsed (record (no_query fl query_delete) { id = id })
      else refused invalid_delete

  unfoldable pub parse_delete : List String → Parsed Float
  unfolding parse_delete_id
  parse_delete (w ∷ i ∷ rest) =
      if w == "WHERE"
      then (if i == "id" then parse_delete_id rest else refused invalid_delete)
      else refused invalid_delete
  parse_delete _ = refused invalid_delete

  -- the switch of Parse, on the command's upper-case spelling
  unfoldable pub parse_command : String → List String → Parsed Float
  unfolding parse_get parse_set parse_delete parse_create parse_drop
  parse_command cmd parts =
      if cmd == "GET"
      then parse_get parts
      else if cmd == "SET"
      then parse_set parts
      else if cmd == "DELETE"
      then parse_delete parts
      else if cmd == "CREATE"
      then parse_create fl parts
      else if cmd == "DROP"
      then parse_drop fl parts
      else refused (unknown_command cmd)

  unfoldable pub parse_words : List String → Parsed Float
  unfolding parse_command
  parse_words [] = refused empty_query
  parse_words (cmd ∷ parts) = parse_command (to_upper cmd) parts

  unfoldable pub parse_query : String → Parsed Float
  unfolding parse_words
  parse_query query = parse_words (fields (trim_space query))
