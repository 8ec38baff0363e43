-- ===== src/Result.antt =====
-- What a Go call that returns a value and an error gives: a value, or the text of the error.
use Prim.Native.String.{String, ◌++◌ as append}
use mathlib.Core.Path.{◌≡◌, refl}
use mathlib.Core.Option.{Option, none, some}
use knirvbase.Base.{Bool, true, false, if◌then◌else◌, ◌⊎◌, inl, inr}

pub data Result {ℓ} (V : Type ℓ) : Type ℓ where
  err : String → Result V
  ok : V → Result V

infixl 5 ◌>>=◌
abbrev pub ◌>>=◌ {κ μ} : {V : Type κ} {W : Type μ} → Result V → (V → Result W) → Result W
err text >>= next = err text
ok v >>= next = next v

-- fmt.Errorf("text: %w", err)
abbrev pub wrap {ℓ} : {A : Type ℓ} → String → Result A → Result A
wrap text (ok a) = ok a
wrap text (err e) = err (append text (append ": " e))

-- a value that may be missing, with the error for that
abbrev pub required {ℓ} : {A : Type ℓ} → String → Option A → Result A
required e none = err e
required e (some a) = ok a

-- Inversion of a chain that succeeds.
pub bind-ok {κ μ} :
    {V : Type κ} {W : Type μ} (call : Result V) (next : V → Result W) {w : W}
    → (call >>= next) ≡ ok w
    → (v : V) × (call ≡ ok v) × (next v ≡ ok w)
bind-ok (err text) next h = cc
bind-ok (ok v) next h = (v, refl, h)

pub wrap-ok {ℓ} :
    {A : Type ℓ} (text : String) (m : Result A) {a : A} → wrap text m ≡ ok a → m ≡ ok a
wrap-ok text (ok a) h = h
wrap-ok text (err e) h = cc

pub required-ok {ℓ} :
    {A : Type ℓ} (e : String) (m : Option A) {a : A} → required e m ≡ ok a → m ≡ some a
required-ok e none h = cc
required-ok e (some a) h = cc

-- A guarded call that succeeds has passed its guard.
pub guarded-ok {ℓ} :
    {A : Type ℓ} (b : Bool) (m : Result A) (e : String) {a : A}
    → (if b then m else err e) ≡ ok a
    → (b ≡ true) × (m ≡ ok a)
guarded-ok true m e h = (refl, h)
guarded-ok false m e h = cc

pub ok-injective {ℓ} : {A : Type ℓ} {a b : A} → ok a ≡ ok b → a ≡ b
ok-injective h = cc

pub Result-cases {ℓ} :
    {A : Type ℓ} (m : Result A) → ((a : A) × (m ≡ ok a)) ⊎ ((e : String) × (m ≡ err e))
Result-cases (ok a) = inl (a, refl)
Result-cases (err e) = inr (e, refl)
