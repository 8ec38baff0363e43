-- ===== src/Query/Parsed.antt =====
-- go/internal/query/knirvql.go: what KNIRVQLParser makes of a text.
use knirvbase.Base.{String, false, []}
use knirvbase.Base.Int.{pos}
use knirvbase.Floats.{Floats}
use knirvbase.Query.{Query, QueryType}

pub data ParseError : Type 0 where
  empty_query invalid_get invalid_set invalid_delete invalid_create invalid_create_index :
      ParseError
  invalid_reference expected_on collection_mismatch invalid_create_collection : ParseError
  invalid_drop invalid_drop_index invalid_drop_collection : ParseError
  unknown_command unknown_create unknown_drop : String → ParseError

-- what the parser does: a query, an error, or a panic for an index out of range
pub data Parsed (F : Type 0) : Type 0 where
  parsed : Query F → Parsed F
  refused : ParseError → Parsed F
  out_of_range : Parsed F

module _ (fl : Floats) where
  open fl use {Float}

  abbrev pub no_query : QueryType → Query Float
  no_query t = record {
    query_type = t;
    entry_type = "";
    collection = "";
    id = "";
    key = "";
    value = "";
    filters = [];
    similar_to = [];
    limit = pos 0;
    index_name = "";
    field_names = [];
    unique = false;
  }
