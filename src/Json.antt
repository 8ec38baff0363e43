-- ===== src/Json.antt =====
-- encoding/json, encoding/base64 and fmt's %x, as a parameter, over the bytes of Crypto. A value that
-- is encoded comes back with the types that encoding/json gives: a types.EntryType as a string, and
-- every number as a float64.
pub mod Laws
use knirvbase.Base.{ℕ, String, Bool, List, [], ◌∷◌, ◌≡◌}
use knirvbase.Base.Int.{ℤ}
use knirvbase.Floats.{Floats}
use knirvbase.Result.{Result, ok, err}
use knirvbase.Value.{
  Value, Items, Fields, Document, document, null, bool, int, float, str, entry_type, floats, arr,
  obj, no_items, item, no_fields, field,
}

pub record Codec (F Byte : Type 0) : Type 0 where
  pub encode : Value F → Result (List Byte)
  pub decode : List Byte → Result (Value F)
  pub base64 : List Byte → String
  pub unbase64 : String → Result (List Byte)
  pub hex : List Byte → String

module _ (fl : Floats) where
  open fl use {Float, of_int}

  abbrev pub float_items : List Float → Items Float
  float_items [] = no_items
  float_items (x ∷ xs) = item (float x) (float_items xs)

  -- what a value is after json.Marshal and json.Unmarshal into interface{}
  unfoldable mutual
    pub json_value : Value Float → Value Float
    json_value null = null
    json_value (bool b) = bool b
    json_value (int n) = float (of_int n)
    json_value (float x) = float x
    json_value (str s) = str s
    json_value (entry_type s) = str s
    json_value (floats xs) = arr (float_items xs)
    json_value (arr xs) = arr (json_items xs)
    json_value (obj fs) = obj (json_fields fs)

    pub json_items : Items Float → Items Float
    json_items no_items = no_items
    json_items (item v vs) = item (json_value v) (json_items vs)

    pub json_fields : Fields Float → Fields Float
    json_fields no_fields = no_fields
    json_fields (field k v fs) = field k (json_value v) (json_fields fs)

  -- encoding/json decodes what it has encoded.
  abbrev pub JsonDecodes : {Byte : Type 0} → Codec Float Byte → Type 0
  JsonDecodes c =
      (v : Value Float) (bs : List _) → c.encode v ≡ ok bs → c.decode bs ≡ ok (json_value v)

  -- base64 decodes what it has encoded.
  abbrev pub Base64Decodes : {Byte : Type 0} → Codec Float Byte → Type 0
  Base64Decodes c = (bs : List _) → c.unbase64 (c.base64 bs) ≡ ok bs

  -- json.Unmarshal into a map[string]interface{}: null leaves the map nil, which reads as empty
  unfoldable pub as_object : Value Float → Result (Document Float)
  unfolding document
  as_object null = ok []
  as_object (obj fs) = ok (document fs)
  as_object (bool b) =
      err "json: cannot unmarshal bool into Go value of type map[string]interface {}"
  as_object (str s) =
      err "json: cannot unmarshal string into Go value of type map[string]interface {}"
  as_object (entry_type s) =
      err "json: cannot unmarshal string into Go value of type map[string]interface {}"
  as_object (arr xs) =
      err "json: cannot unmarshal array into Go value of type map[string]interface {}"
  as_object (floats xs) =
      err "json: cannot unmarshal array into Go value of type map[string]interface {}"
  as_object v = err "json: cannot unmarshal number into Go value of type map[string]interface {}"
