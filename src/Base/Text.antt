-- ===== src/Base/Text.antt =====
-- Go's order of strings. It compares bytes; on UTF-8 text that is the order of code points, which
-- the native comparison takes.
use Prim.Native.Nat.{Ordering, compare as compare_ℕ}
use Prim.Native.Char.{code}
use Prim.Native.String.compare
use Prim.Native.String.{String, [], ◌∷◌, compare, then}
use mathlib.Core.Path.{◌≡◌, refl, sym, ap, ◌∙◌}
use mathlib.Core.Bool.{Bool, false, not, ◌&&◌}
use mathlib.Core.Logic.{◌≢◌}
use native.Mathlib.Omega.{arith}
use text.Mathlib.Text.{is_lt, ◌==◌}
use text.Mathlib.TextEquality.{path_by_compare, eq_iff}

-- s < t
abbrev pub str_lt : String → String → Bool
str_lt s t = is_lt (compare s t)

-- s >= t
abbrev pub str_ge : String → String → Bool
str_ge s t = not (is_lt (compare s t))

reverse : Ordering → Ordering
reverse Ordering.lt = Ordering.gt
reverse Ordering.eq = Ordering.eq
reverse Ordering.gt = Ordering.lt

compare_ℕ-reverse : (m n : Prim.Native.Nat.ℕ) → compare_ℕ n m ≡ reverse (compare_ℕ m n)
unfolding reverse
compare_ℕ-reverse m n = ground arith

reverse-then : (o p : Ordering) → reverse (then o p) ≡ then (reverse o) (reverse p)
unfolding reverse
reverse-then Ordering.lt p = refl
reverse-then Ordering.eq p = refl
reverse-then Ordering.gt p = refl

compare-reverse : (s t : String) → compare t s ≡ reverse (compare s t)
compare-reverse [] [] = compare.nil-nil ∙ unfold reverse in ap reverse (sym compare.nil-nil)
compare-reverse [] (d ∷ t) =
    compare.cons-nil d t ∙ unfold reverse in ap reverse (sym (compare.nil-cons d t))
compare-reverse (c ∷ s) [] =
    compare.nil-cons c s ∙ unfold reverse in ap reverse (sym (compare.cons-nil c s))
compare-reverse (c ∷ s) (d ∷ t) =
    compare.cons-cons d c t s
    ∙ ap (λ o. then o (compare t s)) (compare_ℕ-reverse (code c) (code d))
    ∙ ap (then (reverse (compare_ℕ (code c) (code d)))) (compare-reverse s t)
    ∙ sym (reverse-then (compare_ℕ (code c) (code d)) (compare s t))
    ∙ ap reverse (sym (compare.cons-cons c d s t))

-- Of two different strings exactly one is at least the other.
pub str_ge-swap : (s t : String) → s ≢ t → str_ge t s ≡ not (str_ge s t)
unfolding reverse
str_ge-swap s t h = ground (arith, compare-reverse s t, path_by_compare s t)

-- Of two strings the one comes first unless they are equal or the other does.
pub str_lt-swap : (s t : String) → str_lt t s ≡ (not (str_lt s t) && not (s == t))
unfolding reverse
str_lt-swap s t = ground (arith, compare-reverse s t, path_by_compare s t, eq_iff s t)

pub str_lt_irrefl : (s : String) → str_lt s s ≡ false
str_lt_irrefl s = ground (arith, str_lt-swap s s, eq_iff s s)
