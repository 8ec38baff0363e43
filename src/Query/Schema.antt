-- ===== src/Query/Schema.antt =====
-- go/internal/query/knirvql.go: parseCreate and parseDrop. A slice of words that the code
-- indexes is a list here, and the index into it the words that are left.
use knirvbase.Base.{String, Bool, false, List, [], ◌∷◌, if◌then◌else◌, ◌==◌}
use knirvbase.GoStrings.{split, trim, trim_space, to_upper, has_prefix}
use knirvbase.Floats.{Floats}
use knirvbase.Query.{
  query_create_index, query_create_collection, query_drop_index, query_drop_collection,
}
use knirvbase.Query.Parsed.{
  Parsed, parsed, refused, no_query, invalid_create, invalid_create_index, invalid_reference,
  expected_on, collection_mismatch, invalid_create_collection, invalid_drop, invalid_drop_index,
  invalid_drop_collection, unknown_create, unknown_drop,
}
use knirvbase.Query.Values.{is_paren}

module _ (fl : Floats) where
  open fl use {Float}

  -- the loop over the names between the parentheses
  unfoldable pub field_list : List String → List String
  field_list [] = []
  field_list (f ∷ fs) =
      let rest = field_list fs in if trim_space f == "" then rest else trim_space f ∷ rest

  unfoldable pub parse_field_names : String → List String
  unfolding field_list
  parse_field_names word =
      if trim is_paren word == "" then [] else field_list (split b',' (trim is_paren word))

  abbrev is_unique : List String → Bool
  is_unique [] = false
  is_unique (word ∷ rest) = to_upper word == "UNIQUE"

  abbrev index_query : String → String → List String → Bool → Parsed Float
  index_query collection name fs unique = parsed (record (no_query fl query_create_index) {
    index_name = name;
    collection = collection;
    field_names = fs;
    unique = unique;
  })

  -- the words after the collection: the fields, if there are any, and UNIQUE
  unfoldable pub parse_index_options : String → String → List String → Parsed Float
  unfolding parse_field_names
  parse_index_options collection name [] = index_query collection name [] false
  parse_index_options collection name (word ∷ rest) =
      if has_prefix word "("
      then index_query collection name (parse_field_names word) (is_unique rest)
      else index_query collection name [] (is_unique (word ∷ rest))

  unfoldable pub parse_reference : List String → String → String → List String → Parsed Float
  unfolding parse_index_options
  parse_reference (collection ∷ name ∷ []) on_word target rest =
      if on_word == "ON"
      then (if target == collection
          then parse_index_options collection name rest
          else refused collection_mismatch)
      else refused expected_on
  parse_reference _ on_word target rest = refused invalid_reference

  unfoldable pub parse_create_index : List String → Parsed Float
  unfolding parse_reference
  parse_create_index (ref ∷ on_word ∷ target ∷ rest) =
      parse_reference (split b':' ref) on_word target rest
  parse_create_index _ = refused invalid_create_index

  unfoldable pub parse_create_collection : List String → Parsed Float
  parse_create_collection [] = refused invalid_create_collection
  parse_create_collection (name ∷ rest) =
      parsed (record (no_query fl query_create_collection) { collection = name })

  unfoldable pub parse_create : List String → Parsed Float
  unfolding parse_create_index parse_create_collection
  parse_create (sub ∷ word ∷ rest) =
      if to_upper sub == "INDEX"
      then parse_create_index (word ∷ rest)
      else if to_upper sub == "COLLECTION"
      then parse_create_collection (word ∷ rest)
      else refused (unknown_create (to_upper sub))
  parse_create _ = refused invalid_create

  unfoldable pub parse_drop_reference : List String → Parsed Float
  parse_drop_reference (collection ∷ name ∷ []) =
      parsed (record (no_query fl query_drop_index) { collection = collection; index_name = name })
  parse_drop_reference _ = refused invalid_reference

  unfoldable pub parse_drop_index : List String → Parsed Float
  unfolding parse_drop_reference
  parse_drop_index [] = refused invalid_drop_index
  parse_drop_index (ref ∷ rest) = parse_drop_reference (split b':' ref)

  unfoldable pub parse_drop_collection : List String → Parsed Float
  parse_drop_collection [] = refused invalid_drop_collection
  parse_drop_collection (name ∷ rest) =
      parsed (record (no_query fl query_drop_collection) { collection = name })

  unfoldable pub parse_drop : List String → Parsed Float
  unfolding parse_drop_index parse_drop_collection
  parse_drop (sub ∷ word ∷ rest) =
      if to_upper sub == "INDEX"
      then parse_drop_index (word ∷ rest)
      else if to_upper sub == "COLLECTION"
      then parse_drop_collection (word ∷ rest)
      else refused (unknown_drop (to_upper sub))
  parse_drop _ = refused invalid_drop
