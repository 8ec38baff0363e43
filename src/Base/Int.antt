-- ===== src/Base/Int.antt =====
-- Signed integers over the native numbers, and Go's int64 as those of them between -2^63 and
-- 2^63 - 1, with the wrap-around of its addition written out.
use Prim.Native.Nat.{ℕ, suc, ◌+◌, ◌-◌, ◌≤◌, ◌<◌}
use mathlib.Core.Path.{◌≡◌, refl}
use mathlib.Core.Bool.{Bool, true, false}
use native.Mathlib.Omega.{arith}
use knirvbase.Base.Tests.{ltb, leb, if◌then◌else◌}

-- `negsuc n` is -(n + 1).
pub data ℤ : Type 0 where
  pos : ℕ → ℤ
  negsuc : ℕ → ℤ

abbrev pub pos_part : ℤ → ℕ
pos_part (pos n) = n
pos_part (negsuc n) = 0

abbrev pub neg_part : ℤ → ℕ
neg_part (pos n) = 0
neg_part (negsuc n) = suc n

abbrev pub sub_ℕ : ℕ → ℕ → ℤ
sub_ℕ a b = if leb b a then pos (a - b) else negsuc (b - a - 1)

infix 50 ◌≤ℤ◌ ◌<ℤ◌
abbrev pub ◌≤ℤ◌ : ℤ → ℤ → Type 0
a ≤ℤ b = pos_part a + neg_part b ≤ pos_part b + neg_part a

abbrev pub ◌<ℤ◌ : ℤ → ℤ → Type 0
a <ℤ b = pos_part a + neg_part b < pos_part b + neg_part a

-- a < b on int64
abbrev pub ltb_ℤ : ℤ → ℤ → Bool
ltb_ℤ a b = ltb (pos_part a + neg_part b) (pos_part b + neg_part a)

infixl 65 ◌+ℤ◌
abbrev pub ◌+ℤ◌ : ℤ → ℤ → ℤ
a +ℤ b = sub_ℕ (pos_part a + pos_part b) (neg_part a + neg_part b)

-- The greatest int64, 2^63 - 1; the least is its negsuc.
abbrev pub max_int64 : ℕ
max_int64 = 9223372036854775807

abbrev pub two_64 : ℕ
two_64 = 18446744073709551616

-- Brings a sum of two int64 values back into range.
unfoldable pub wrap64 : ℤ → ℤ
wrap64 (pos n) = if leb n max_int64 then pos n else sub_ℕ n two_64
wrap64 (negsuc n) = if leb n max_int64 then negsuc n else sub_ℕ two_64 (n + 1)

-- a + b on int64
unfoldable pub add64 : ℤ → ℤ → ℤ
unfolding wrap64
add64 a b = wrap64 (a +ℤ b)

-- Below the greatest value one is added, and no wrap takes place.
pub add64-one : (n : ℕ) → n < max_int64 → add64 (pos n) (pos 1) ≡ pos (n + 1)
unfolding add64
add64-one n h = ground arith

-- At the greatest value the sum wraps to the least.
pub add64-max : add64 (pos max_int64) (pos 1) ≡ negsuc max_int64
unfolding add64
add64-max = refl

unfoldable pub maxℤ : ℤ → ℤ → ℤ
maxℤ a b = if ltb_ℤ a b then b else a

pub eq_of_le : (a b : ℤ) → a ≤ℤ b → b ≤ℤ a → a ≡ b
eq_of_le a b h k = ground arith

pub maxℤ_comm : (a b : ℤ) → maxℤ a b ≡ maxℤ b a
unfolding maxℤ
maxℤ_comm a b = ground arith

pub maxℤ_assoc : (a b c : ℤ) → maxℤ (maxℤ a b) c ≡ maxℤ a (maxℤ b c)
unfolding maxℤ
maxℤ_assoc a b c = ground arith

pub maxℤ_self : (a : ℤ) → maxℤ a a ≡ a
unfolding maxℤ
maxℤ_self a = ground arith

pub le-max_left : (a b : ℤ) → a ≤ℤ maxℤ a b
unfolding maxℤ
le-max_left a b = ground arith

pub le-max_right : (a b : ℤ) → b ≤ℤ maxℤ a b
unfolding maxℤ
le-max_right a b = ground arith

pub max-le : (a b c : ℤ) → a ≤ℤ c → b ≤ℤ c → maxℤ a b ≤ℤ c
unfolding maxℤ
max-le a b c h k = ground arith

pub ltb-lt : (a b : ℤ) → ltb_ℤ a b ≡ true → a <ℤ b
ltb-lt a b h = ground arith

pub ltb-le : (a b : ℤ) → ltb_ℤ a b ≡ false → b ≤ℤ a
ltb-le a b h = ground arith

pub ≤ℤ_of_eq : {a b : ℤ} → a ≡ b → a ≤ℤ b
≤ℤ_of_eq e = ground arith

-- The values of int64.
abbrev pub IsInt64 : ℤ → Type 0
IsInt64 v = (negsuc max_int64 ≤ℤ v) × (v ≤ℤ pos max_int64)

-- Below the greatest int64, adding 1 gives a greater int64.
pub add64-one-lt :
    (v : ℤ) → IsInt64 v → v <ℤ pos max_int64 → (v <ℤ add64 v (pos 1)) × IsInt64 (add64 v (pos 1))
unfolding add64
add64-one-lt v r h = ground arith

pub ≤ℤ_refl : (a : ℤ) → a ≤ℤ a
≤ℤ_refl a = omega arith

pub max-eq_left : (a b : ℤ) → b ≤ℤ a → maxℤ a b ≡ a
unfolding maxℤ
max-eq_left a b h = ground arith

pub max-eq_right : (a b : ℤ) → a ≤ℤ b → maxℤ a b ≡ b
unfolding maxℤ
max-eq_right a b h = ground arith

pub ≤ℤ_trans : (a b c : ℤ) → a ≤ℤ b → b ≤ℤ c → a ≤ℤ c
≤ℤ_trans a b c h k = omega arith
