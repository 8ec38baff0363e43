-- ===== src/Value/Print.antt =====
-- fmt.Sprintf("%v", x) on dynamic values. The keys of a map are printed in order, as fmt does.
use Prim.Native.String.{◌++◌ as append}
use knirvbase.Base.{
  ℕ, zero, suc, ◌+◌, ◌/◌, ◌%◌, String, true, false, List, [], ◌∷◌, if◌then◌else◌, ltb,
}
use knirvbase.Base.Int.{ℤ, pos, negsuc}
use knirvbase.Base.Text.{str_lt}
use knirvbase.GoStrings.{join}
use knirvbase.Floats.{Floats}
use knirvbase.Value.{
  Value, Items, Fields, null, bool, int, float, str, entry_type, floats, arr, obj, no_items, item,
  no_fields, field,
}

abbrev digit : ℕ → String
digit zero = "0"
digit (suc zero) = "1"
digit (suc (suc zero)) = "2"
digit (suc (suc (suc zero))) = "3"
digit (suc (suc (suc (suc zero)))) = "4"
digit (suc (suc (suc (suc (suc zero))))) = "5"
digit (suc (suc (suc (suc (suc (suc zero)))))) = "6"
digit (suc (suc (suc (suc (suc (suc (suc zero))))))) = "7"
digit (suc (suc (suc (suc (suc (suc (suc (suc zero)))))))) = "8"
digit _ = "9"

-- The decimal digits of a number; as many as the first argument, which 20 is enough of for int64.
unfoldable pub decimal : ℕ → ℕ → String
decimal zero n = ""
decimal (suc fuel) n =
    let front = decimal fuel (n / 10) in if ltb n 10 then digit n else append front (digit (n % 10))

unfoldable pub print_int : ℤ → String
unfolding decimal
print_int (pos n) = decimal 20 n
print_int (negsuc n) = append "-" (decimal 20 (n + 1))

-- a list of printed entries, in the order of the keys
unfoldable pub insert_sorted : String → String → List (String × String) → List (String × String)
insert_sorted k s [] = (k, s) ∷ []
insert_sorted k s ((j, t) ∷ es) =
    if str_lt k j then (k, s) ∷ (j, t) ∷ es else (j, t) ∷ insert_sorted k s es

abbrev pairs : List (String × String) → List String
pairs [] = []
pairs ((k, s) ∷ es) = append k (append ":" s) ∷ pairs es

module _ (fl : Floats) where
  open fl use {Float, format}

  abbrev print_floats : List Float → List String
  print_floats [] = []
  print_floats (x ∷ xs) = format x ∷ print_floats xs

  unfoldable mutual
    unfolding print_int insert_sorted join

    pub sprint : Value Float → String
    sprint null = "<nil>"
    sprint (bool true) = "true"
    sprint (bool false) = "false"
    sprint (int n) = print_int n
    sprint (float x) = format x
    sprint (str s) = s
    sprint (entry_type s) = s
    sprint (floats xs) = append "[" (append (join " " (print_floats xs)) "]")
    sprint (arr xs) = append "[" (append (join " " (sprint_items xs)) "]")
    sprint (obj fs) = append "map[" (append (join " " (pairs (sprint_fields fs))) "]")

    pub sprint_items : Items Float → List String
    sprint_items no_items = []
    sprint_items (item v vs) = sprint v ∷ sprint_items vs

    pub sprint_fields : Fields Float → List (String × String)
    sprint_fields no_fields = []
    sprint_fields (field k v fs) = insert_sorted k (sprint v) (sprint_fields fs)
