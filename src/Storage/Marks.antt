-- ===== src/Storage/Marks.antt =====
-- go/internal/storage/storage.go: decryptPayload after encryptPayload, which marks the fields that it
-- encrypts by others whose names end in _encrypted.
use Prim.Native.String.{◌++◌ as append}
use text.Mathlib.TextLemmas.{cons-append, append_cancel_right}
use knirvbase.Base.{
  arith, String, ◌≡◌, ◌≢◌, refl, sym, subst, Bool, true, false, Option, none, some, List, [], ◌∷◌,
  All, ◌==◌, ◌⊎◌, inl, inr, eq_iff, eq_refl, Bool-cases,
}
use knirvbase.Base.Int.{ℤ}
use knirvbase.GoMap.{lookup, insert, Distinct}
use knirvbase.GoMap.Laws.{lookup-insert, insert-Distinct}
use knirvbase.GoStrings.{has_suffix}
use knirvbase.Result.{ok, bind-ok, wrap-ok, wrap, ok-injective}
use knirvbase.Floats.{Floats}
use knirvbase.Value.{Value, Document, bool, str}
use knirvbase.Json.{Codec}
use knirvbase.Crypto.{Primitives}
use knirvbase.Crypto.Encryption.{EncryptionManager, encrypt_data, decrypt_data}
use knirvbase.Storage.{is_sensitive_field, encrypt_payload}

-- the name of the field that marks another one as encrypted
abbrev pub mark : String → String
mark k = append k "_encrypted"

abbrev pub is_mark : String → Bool
is_mark k = has_suffix k "_encrypted"

is_mark-mark : (k : String) → is_mark (mark k) ≡ true
unfolding has_suffix
is_mark-mark String.[] = refl
is_mark-mark (String.◌∷◌ c s) = rw (cons-append c s "_encrypted") (ground (arith, is_mark-mark s))

mark-injective : (k j : String) → mark k ≡ mark j → k ≡ j
mark-injective k j h = append_cancel_right k j "_encrypted" h

-- A name that is no mark is not the mark of another one.
mark-ne : (k j : String) → is_mark j ≡ false → mark k ≢ j
mark-ne k j h e = let m = is_mark-mark k in cc

pub lookup-All {ℓ} :
    {V : Type ℓ} (P : String × V → Type 0) (es : List (String × V))
    → Distinct es
    → ((k : String) (v : V) → lookup k es ≡ some v → P (k, v))
    → All P es
unfolding lookup
lookup-All P [] d f = tt
lookup-All P ((k, v) ∷ es) (fresh, d) f =
    (f k v (rw (eq_refl k) refl), lookup-All P es d (λ j w h. f j w (ground (arith, eq_iff k j))))

module _ (p : Primitives) (fl : Floats) (c : Codec fl.Float p.Byte) where
  open p use {Byte, Seed}
  open fl use {Float}

  module _ (now later : ℤ) (seeds : String → Seed × Seed) (em : EncryptionManager p fl c)
      (collection key_id : String) where
    -- DecryptData gives back what EncryptData makes with this key, for every field
    abbrev pub Opens : Type 0
    Opens =
        (k s : String) (bs : List Byte)
        → encrypt_data p fl c now ((seeds k).0) ((seeds k).1) em bs key_id ≡ ok s
        → decrypt_data p fl c later em s ≡ ok bs

    -- what an encrypted payload has of a field that the payload has, or that it does not have
    abbrev pub Encrypted : Document Float → String → Option (Value Float) → Type 0
    Encrypted e k none = (lookup k e ≡ none) × (lookup (mark k) e ≡ none)
    Encrypted e k (some v) =
        ((is_sensitive_field collection k ≡ false)
          × (lookup k e ≡ some v)
          × (lookup (mark k) e ≡ none))
        ⊎ ((is_sensitive_field collection k ≡ true)
            × (bs : List Byte) × (s : String) × (c.encode v ≡ ok bs)
            × (encrypt_data p fl c now ((seeds k).0) ((seeds k).1) em bs key_id ≡ ok s)
            × (lookup k e ≡ some (str s))
            × (lookup (mark k) e ≡ some (bool true)))

    -- a payload whose names are no marks
    abbrev pub IsUnmarked : Document Float → Type 0
    IsUnmarked payload = All (λ f. is_mark (f.0) ≡ false) payload

    encrypt_payload-step :
        (k : String) (v : Value Float) (es e : Document Float)
        → encrypt_payload p fl c now seeds em collection ((k, v) ∷ es) key_id ≡ ok e
        → (rest : Document Float) × (encrypt_payload p fl c now seeds em collection es key_id
            ≡ ok rest)
          × (((is_sensitive_field collection k ≡ false) × (e ≡ insert k v rest))
              ⊎ ((is_sensitive_field collection k ≡ true)
                  × (bs : List Byte) × (s : String) × (c.encode v ≡ ok bs)
                  × (encrypt_data p fl c now ((seeds k).0) ((seeds k).1) em bs key_id ≡ ok s)
                  × (e ≡ insert (mark k) (bool true) (insert k (str s) rest))))
    unfolding encrypt_payload
    encrypt_payload-step k v es e h =
        let (rest, f, g) = bind-ok (encrypt_payload p fl c now seeds em collection es key_id) _ h in
        elim (Bool-cases (is_sensitive_field collection k)) [
          | inr plain ↦ (rest, f, inl (plain, sym (ok-injective (rw plain at g))))
          | inl sensitive ↦
              let g' = rw sensitive at g in
              let (bs, f1, h1) =
                bind-ok (wrap (append "failed to marshal field " k) (c.encode v)) _ g' in
              let (s, f2, h2) =
                bind-ok
                  (wrap (append "failed to encrypt field " k)
                    (encrypt_data p fl c now ((seeds k).0) ((seeds k).1) em bs key_id))
                  _ h1 in
              (
                rest,
                f,
                inr (
                  sensitive,
                  bs,
                  s,
                  wrap-ok _ (c.encode v) f1,
                  wrap-ok _ (encrypt_data p fl c now ((seeds k).0) ((seeds k).1) em bs key_id) f2,
                  sym (ok-injective h2),
                ),
              )
        ]

    -- The fields of an encrypted payload are distinct.
    pub encrypt_payload-Distinct :
        (es e : Document Float)
        → encrypt_payload p fl c now seeds em collection es key_id ≡ ok e
        → Distinct e
    unfolding encrypt_payload
    encrypt_payload-Distinct [] e h = subst Distinct (ok-injective h) tt
    encrypt_payload-Distinct ((k, v) ∷ es) e h =
        let (rest, f, cases) = encrypt_payload-step k v es e h in
        let d = encrypt_payload-Distinct es rest f in
        elim cases [
          | inl (plain, same) ↦ rw same (insert-Distinct k v rest d)
          | inr (sensitive, bs, s, _, _, same) ↦
              rw same (insert-Distinct (mark k) (bool true) _ (insert-Distinct k (str s) rest d))
        ]

    -- Encrypted speaks of two entries only.
    carried :
        (rest e : Document Float) (j : String) (o : Option (Value Float))
        → lookup j e ≡ lookup j rest
        → lookup (mark j) e ≡ lookup (mark j) rest
        → Encrypted rest j o
        → Encrypted e j o
    carried rest e j none f g h = rw (f, g) h
    carried rest e j (some v) f g h = rw (f, g) h

    lookup-insert_sensitive :
        (k j : String) (v : Value Float) (rest : Document Float)
        → k ≢ j
        → is_mark k ≡ false
        → is_mark j ≡ false
        → (lookup j (insert (mark k) (bool true) (insert k v rest)) ≡ lookup j rest)
          × (lookup (mark j) (insert (mark k) (bool true) (insert k v rest)) ≡ lookup (mark j) rest)
    lookup-insert_sensitive k j v rest differ a b = (
      ground (
        arith,
        eq_iff (mark k) j,
        eq_iff k j,
        mark-ne k j b,
        lookup-insert (mark k) j (bool true) (insert k v rest),
        lookup-insert k j v rest,
      ),
      ground (
        arith,
        eq_iff (mark k) (mark j),
        eq_iff k (mark j),
        mark-ne j k a,
        mark-injective k j,
        lookup-insert (mark k) (mark j) (bool true) (insert k v rest),
        lookup-insert k (mark j) v rest,
      ),
    )

    lookup-insert_plain :
        (k j : String) (v : Value Float) (rest : Document Float)
        → k ≢ j
        → is_mark k ≡ false
        → (lookup j (insert k v rest) ≡ lookup j rest)
          × (lookup (mark j) (insert k v rest) ≡ lookup (mark j) rest)
    lookup-insert_plain k j v rest differ a = (
      ground (arith, eq_iff k j, lookup-insert k j v rest),
      ground (arith, eq_iff k (mark j), mark-ne j k a, lookup-insert k (mark j) v rest),
    )

    entry_here :
        (k : String) (v : Value Float) (rest e : Document Float)
        → is_mark k ≡ false
        → lookup (mark k) rest ≡ none
        → ((is_sensitive_field collection k ≡ false) × (e ≡ insert k v rest))
          ⊎ ((is_sensitive_field collection k ≡ true)
              × (bs : List Byte) × (s : String) × (c.encode v ≡ ok bs)
              × (encrypt_data p fl c now ((seeds k).0) ((seeds k).1) em bs key_id ≡ ok s)
              × (e ≡ insert (mark k) (bool true) (insert k (str s) rest)))
        → Encrypted e k (some v)
    entry_here k v rest e a unmarked (inl (plain, same)) = inl (
      plain,
      rw same (ground (arith, eq_refl k, lookup-insert k k v rest)),
      rw same (ground (arith, eq_iff k (mark k), mark-ne k k a, lookup-insert k (mark k) v rest)),
    )
    entry_here k v rest e a unmarked (inr (sensitive, bs, s, f, g, same)) = inr (
      sensitive,
      bs,
      s,
      f,
      g,
      rw same (
          ground (
            arith,
            eq_refl k,
            eq_iff (mark k) k,
            mark-ne k k a,
            lookup-insert (mark k) k (bool true) (insert k (str s) rest),
            lookup-insert k k (str s) rest,
          )),
      rw same (
          ground (
            arith,
            eq_refl (mark k),
            lookup-insert (mark k) (mark k) (bool true) (insert k (str s) rest),
          )),
    )

    pub encrypt_payload-Encrypted :
        (payload e : Document Float)
        → Distinct payload
        → IsUnmarked payload
        → encrypt_payload p fl c now seeds em collection payload key_id ≡ ok e
        → (j : String) → is_mark j ≡ false
        → Encrypted e j (lookup j payload)
    unfolding encrypt_payload lookup
    encrypt_payload-Encrypted [] e d u h j b =
        subst (λ e. Encrypted e j none) (ok-injective h) (refl, refl)
    encrypt_payload-Encrypted ((k, v) ∷ es) e (fresh, d) (a, u) h j b =
        let (rest, f, cases) = encrypt_payload-step k v es e h in
        let ih = encrypt_payload-Encrypted es rest d u f j b in
        elim (Bool-cases (k == j)) [
          | inr differ ↦
              let k-ne-j : k ≢ j = λ same. ground (arith, eq_iff k j) in
              rw differ (elim cases [
                | inl (plain, same) ↦
                    let (f, g) = lookup-insert_plain k j v rest k-ne-j a in
                    rw same (carried rest (insert k v rest) j (lookup j es) f g ih)
                | inr (sensitive, bs, s, _, _, same) ↦
                    let (f, g) = lookup-insert_sensitive k j (str s) rest k-ne-j a b in
                    rw same (carried rest _ j (lookup j es) f g ih)
              ])
          | inl same_name ↦
              let ih_k = encrypt_payload-Encrypted es rest d u f k a in
              let (_, unmarked) = subst (Encrypted rest k) fresh ih_k in
              let here = entry_here k v rest e a unmarked cases in
              subst (λ i. Encrypted e i (lookup i ((k, v) ∷ es))) ((eq_iff k j).0 same_name)
                (rw (eq_refl k) here)
        ]
