-- ===== src/Query/Values.antt =====
-- go/internal/query/knirvql.go: parseValue, and the vector and the number of a query.
use Prim.Native.Char.{Char, code}
use knirvbase.Base.{
  ℕ, zero, suc, ◌+◌, ◌*◌, ◌-◌, String, Bool, ◌&&◌, ◌||◌, Option, none, some, List, [], ◌∷◌,
  if◌then◌else◌, leb, eqb,
}
use knirvbase.Base.Int.{ℤ, pos, negsuc, max_int64}
use knirvbase.GoStrings.{split, trim, trim_space}
use knirvbase.Floats.{Floats}
use knirvbase.Value.{Value, str, int, float}

-- the cutsets of strings.Trim
unfoldable pub is_quote : Char → Bool
is_quote c = eqb (code c) b'"'

unfoldable pub is_bracket : Char → Bool
is_bracket c = eqb (code c) b'[' || eqb (code c) b']'

unfoldable pub is_paren : Char → Bool
is_paren c = eqb (code c) b'(' || eqb (code c) b')'

-- strconv.Atoi and strconv.ParseInt at base 10, with none for an error
unfoldable pub read_digits : ℕ → String → Option ℕ
read_digits n String.[] = some n
read_digits n (String.◌∷◌ c s) =
    let rest = read_digits (n * 10 + (code c - b'0')) s in
    if leb b'0' (code c) && leb (code c) b'9' then rest else none

unfoldable pub read_number : String → Option ℕ
unfolding read_digits
read_number String.[] = none
read_number (String.◌∷◌ c s) = read_digits 0 (String.◌∷◌ c s)

abbrev positive : Option ℕ → Option ℤ
positive none = none
positive (some n) = if leb n max_int64 then some (pos n) else none

abbrev negative : Option ℕ → Option ℤ
negative none = none
negative (some zero) = some (pos 0)
negative (some (suc n)) = if leb n max_int64 then some (negsuc n) else none

unfoldable pub atoi : String → Option ℤ
unfolding read_number
atoi String.[] = none
atoi (String.◌∷◌ c s) =
    if eqb (code c) b'+'
    then positive (read_number s)
    else if eqb (code c) b'-'
    then negative (read_number s)
    else positive (read_number (String.◌∷◌ c s))

module _ (fl : Floats) where
  open fl use {Float, parse}

  -- the value of a filter: a float, else an integer, else the text
  unfoldable pub parse_value : String → Value Float
  parse_value s = elim (parse s) [
    | some x ↦ float x
    | none ↦ elim (atoi s) [ some n ↦ int n | none ↦ str s ]
  ]

  -- the numbers of a vector; parts that do not parse are skipped
  unfoldable pub parse_parts : List String → List Float
  parse_parts [] = []
  parse_parts (vp ∷ vps) = elim (parse (trim_space vp)) [
    | none ↦ parse_parts vps
    | some v ↦ v ∷ parse_parts vps
  ]

  unfoldable pub parse_vector : String → List Float
  unfolding parse_parts
  parse_vector s = parse_parts (split b',' (trim is_bracket s))
