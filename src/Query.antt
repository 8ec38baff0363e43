-- ===== src/Query.antt =====
-- go/internal/query/knirvql.go: parsed queries.
pub mod Parsed
pub mod Values
pub mod Schema
pub mod Parse
pub mod Words
pub mod RoundTrip
pub mod Clauses
pub mod Execute
pub mod Results
pub mod Statements
pub mod Effects
pub mod IndexEffects
use knirvbase.Base.{String, Bool, List}
use knirvbase.Base.Int.{ℤ}
use knirvbase.Types.{EntryType}
use knirvbase.Value.{Value}

pub data QueryType : Type 0 where
  query_get query_set query_delete query_create_index query_create_collection : QueryType
  query_drop_index query_drop_collection : QueryType

-- Filter, over the type of floats; `operand` is the field Value.
pub record Filter (F : Type 0) : Type 0 where
  pub key : String
  pub operator : String
  pub operand : Value F

-- Query; `field_names` is the field Fields.
pub record Query (F : Type 0) : Type 0 where
  pub query_type : QueryType
  pub entry_type : EntryType
  pub collection : String
  pub id : String
  pub key : String
  pub value : String
  pub filters : List (Filter F)
  pub similar_to : List F
  pub limit : ℤ
  pub index_name : String
  pub field_names : List String
  pub unique : Bool
