-- ===== src/Call.antt =====
-- Go calls that take locks, and that may panic: sync.RWMutex as the calls of one goroutine find it.
use knirvbase.Base.{String, ◌≡◌, refl, Option, none, some}
use knirvbase.Outcome.{Outcome, returns, panics}

-- A writer that waits keeps new readers out.
pub data Mutex : Type 0 where
  unlocked read_locked read_locked_writer_waits write_locked : Mutex

-- What becomes of a call: a call that waits for a lock that its own caller holds never returns.
pub data Call {ℓ} (A : Type ℓ) : Type ℓ where
  done : A → Call A
  panicked : Call A
  deadlocked : Call A

infixl 5 ◌>>=◌
abbrev pub ◌>>=◌ {ℓ κ} : {A : Type ℓ} {B : Type κ} → Call A → (A → Call B) → Call B
done a >>= f = f a
panicked >>= f = panicked
deadlocked >>= f = deadlocked

abbrev pub of_outcome {ℓ} : {A : Type ℓ} → Outcome A → Call A
of_outcome (returns a) = done a
of_outcome panics = panicked

-- mu.Lock() and a deferred mu.Unlock() around a body, which finds the lock held
abbrev pub with_lock {ℓ} : {A : Type ℓ} → Mutex → (Mutex → Call A) → Call A
with_lock unlocked body = body write_locked
with_lock m body = deadlocked

-- mu.RLock() and a deferred mu.RUnlock()
abbrev pub with_read_lock {ℓ} : {A : Type ℓ} → Mutex → (Mutex → Call A) → Call A
with_read_lock unlocked body = body read_locked
with_read_lock read_locked body = body read_locked
with_read_lock m body = deadlocked

-- Whoever holds the lock cannot take it again.
pub with_lock-held {ℓ} :
    {A : Type ℓ} (m : Mutex) (body : Mutex → Call A)
    → (body write_locked ≡ deadlocked)
    → with_lock m body ≡ deadlocked
with_lock-held unlocked body h = h
with_lock-held read_locked body h = refl
with_lock-held read_locked_writer_waits body h = refl
with_lock-held write_locked body h = refl

pub bind_assoc {ℓ κ μ} :
    {A : Type ℓ} {B : Type κ} {C : Type μ} (m : Call A) (f : A → Call B) (g : B → Call C)
    → ((m >>= f) >>= g) ≡ (m >>= λ a. f a >>= g)
bind_assoc (done a) f g = refl
bind_assoc panicked f g = refl
bind_assoc deadlocked f g = refl

-- A call that has returned an error has not returned without one.
pub not_done {ℓ} :
    {A : Type ℓ} {a b : A} {text : String}
    → ◌≡◌ {A = Call (A × Option String)} (done (a, some text)) (done (b, none))
    → ⊥
not_done h = cc

pub of_outcome-done {ℓ} :
    {A : Type ℓ} (m : Outcome A) {a : A} → of_outcome m ≡ done a → m ≡ returns a
of_outcome-done (returns a) h = cc
of_outcome-done panics h = cc

-- Inversion of a chain that is done.
pub bind-done {ℓ κ} :
    {A : Type ℓ} {B : Type κ} (m : Call A) (f : A → Call B) {b : B}
    → (m >>= f) ≡ done b
    → (a : A) × (m ≡ done a) × (f a ≡ done b)
bind-done (done a) f h = (a, refl, h)
bind-done panicked f h = cc
bind-done deadlocked f h = cc

pub done-injective {ℓ} : {A : Type ℓ} {a b : A} → done a ≡ done b → a ≡ b
done-injective h = cc
