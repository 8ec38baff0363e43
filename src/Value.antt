-- ===== src/Value.antt =====
-- The dynamic values that the code keeps in interface{}: what encoding/json decodes, and the Go
-- types that the code itself stores or tests for. `entry_type` is a types.EntryType, which a type
-- assertion to string does not accept.
pub mod Print
use Prim.Native.String.{◌++◌ as append}
use knirvbase.Base.{
  ℕ, zero, suc, ◌+◌, ◌/◌, ◌%◌, String, Bool, true, false, Option, none, some, List, [], ◌∷◌,
  if◌then◌else◌, ◌==◌, ltb,
}
use knirvbase.Base.Int.{ℤ, pos, negsuc}
use knirvbase.Base.Text.{str_lt}

mutual
  pub data Value (F : Type 0) : Type 0 where
    null : Value F
    bool : Bool → Value F
    int : ℤ → Value F
    float : F → Value F
    str : String → Value F
    entry_type : String → Value F
    floats : List F → Value F
    arr : Items F → Value F
    obj : Fields F → Value F

  pub data Items (F : Type 0) : Type 0 where
    no_items : Items F
    item : Value F → Items F → Items F

  pub data Fields (F : Type 0) : Type 0 where
    no_fields : Fields F
    field : String → Value F → Fields F → Fields F

-- A document: a made map from names to values.
abbrev pub Document : Type 0 → Type 0
Document F = List (String × Value F)

module _ {F : Type 0} where
  -- v, ok := x.(string)
  abbrev pub as_string : Value F → Option String
  as_string (str s) = some s
  as_string _ = none

  unfoldable pub document : Fields F → Document F
  document no_fields = []
  document (field k v fs) = (k, v) ∷ document fs

  unfoldable pub fields_of : Document F → Fields F
  fields_of [] = no_fields
  fields_of ((k, v) ∷ es) = field k v (fields_of es)

  -- v, ok := x.(map[string]interface{})
  unfoldable pub as_document : Value F → Option (Document F)
  unfolding document
  as_document (obj fs) = some (document fs)
  as_document _ = none
