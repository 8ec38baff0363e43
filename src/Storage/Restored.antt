-- ===== src/Storage/Restored.antt =====
-- go/internal/storage/storage.go: decryptPayload gives back what encryptPayload has encrypted.
use knirvbase.Base.{
  arith, String, ◌≡◌, refl, subst, ◌∙◌, true, false, Option, none, some, List, [], ◌∷◌, All,
  if◌then◌else◌, ◌==◌, ◌⊎◌, inl, inr, eq_iff, Bool-cases,
}
use knirvbase.Base.Int.{ℤ}
use knirvbase.GoMap.{lookup, insert, Distinct}
use knirvbase.GoMap.Laws.{lookup-insert}
use knirvbase.Result.{ok}
use knirvbase.Floats.{Floats}
use knirvbase.Value.{Value, Document, str}
use knirvbase.Json.{Codec, JsonDecodes, Base64Decodes, json_value}
use knirvbase.Crypto.{Primitives, GcmOpens, RandomFills}
use knirvbase.Crypto.Keys.{KeyPair, is_active}
use knirvbase.Crypto.Encryption.{EncryptionManager, find_key, encrypt_data}
use knirvbase.Crypto.Pairs.{IsComplete}
use knirvbase.Crypto.Envelope.{decrypt_data-encrypt_data}
use knirvbase.Storage.{is_marked, encrypt_payload, decrypt_field, decrypt_entries, decrypt_payload}
use knirvbase.Storage.Marks.{
  is_mark, lookup-All, Opens, Encrypted, IsUnmarked, encrypt_payload-Distinct,
  encrypt_payload-Encrypted,
}

module _ (p : Primitives) (fl : Floats) (c : Codec fl.Float p.Byte) where
  open p use {Byte, Seed}
  open fl use {Float}

  -- values that JSON keeps as they are
  abbrev pub IsStable : Document Float → Type 0
  IsStable payload = All (λ f. json_value fl (f.1) ≡ f.1) payload

  lookup-IsStable :
      (payload : Document Float) (k : String) (w : Value Float)
      → IsStable payload
      → lookup k payload ≡ some w
      → json_value fl w ≡ w
  unfolding lookup
  lookup-IsStable [] k w s h = cc
  lookup-IsStable ((j, v) ∷ es) k w (a, s) h = elim (Bool-cases (j == k)) [
    | inl e ↦
        let same : some v ≡ some w = rw e at h in
        let v_w : v ≡ w = cc in subst (λ x. json_value fl x ≡ x) v_w a
    | inr e ↦ lookup-IsStable es k w s (rw e at h)
  ]

  lookup-marked :
      (payload : Document Float) (k : String)
      → All (λ f. is_mark (f.0) ≡ false) payload
      → is_mark k ≡ true
      → lookup k payload ≡ none
  unfolding lookup
  lookup-marked [] k u h = refl
  lookup-marked ((j, v) ∷ es) k (a, u) h =
      let ih = lookup-marked es k u h in ground (arith, eq_iff j k)

  module _ (later : ℤ) (em : EncryptionManager p fl c) (e payload : Document Float) where
    -- an entry of the encrypted payload that decryptPayload makes into one of the payload
    abbrev pub Good : String × Value Float → Type 0
    Good f =
        (is_mark (f.0) ≡ true)
        ⊎ ((is_mark (f.0) ≡ false)
            × (w : Value Float) × (lookup (f.0) payload ≡ some w)
            × (((is_marked p fl c e (f.0) ≡ true)
                  × (decrypt_field p fl c later em (f.0) (f.1) ≡ ok w))
                ⊎ ((is_marked p fl c e (f.0) ≡ false) × (f.1 ≡ w))))

    abbrev pub expected : String → Option (Value Float) → Option (Value Float)
    expected j none = none
    expected j (some _) = lookup j payload

    insert-expected :
        (k j : String) (v w : Value Float) (es rest : Document Float)
        → is_mark k ≡ false
        → lookup k payload ≡ some w
        → lookup j rest ≡ (if is_mark j then none else expected j (lookup j es))
        → lookup j (insert k w rest)
          ≡ (if is_mark j then none else expected j (lookup j ((k, v) ∷ es)))
    unfolding lookup
    insert-expected k j v w es rest a f g = elim (Bool-cases (k == j)) [
      | inr differ ↦ rw (lookup-insert k j w rest, differ, g) refl
      | inl same ↦
          let at_j = subst (λ i. lookup i payload ≡ some w) ((eq_iff k j).0 same) f in
          let b = subst (λ i. is_mark i ≡ false) ((eq_iff k j).0 same) a in
          rw (lookup-insert k j w rest, same, b, at_j) refl
    ]

    decrypt_entries-Good :
        (es : Document Float)
        → All Good es
        → (d : Document Float) × (decrypt_entries p fl c later em e es ≡ ok d)
          × ((j : String) → lookup j d ≡ (if is_mark j then none else expected j (lookup j es)))
    unfolding decrypt_entries lookup
    decrypt_entries-Good [] good = ([], refl, λ j. ground arith)
    decrypt_entries-Good ((k, v) ∷ es) (inl m, good) =
        let (rest, f, g) = decrypt_entries-Good es good in
        (rest, rw (f, m) refl, λ j. ground (arith, eq_iff k j, g j))
    decrypt_entries-Good ((k, v) ∷ es) (inr (m, w, at_k, inl (marked, opened)), good) =
        let (rest, f, g) = decrypt_entries-Good es good in
        (
          insert k w rest,
          rw (f, m, marked, opened) refl,
          λ j. insert-expected k j v w es rest m at_k (g j),
        )
    decrypt_entries-Good ((k, v) ∷ es) (inr (m, w, at_k, inr (plain, same)), good) =
        let (rest, f, g) = decrypt_entries-Good es good in
        (
          insert k w rest,
          rw (f, m, plain, same) refl,
          λ j. insert-expected k j v w es rest m at_k (g j),
        )

  module _ (now later : ℤ) (seeds : String → Seed × Seed) (em : EncryptionManager p fl c)
      (collection key_id : String) where
    decrypt_field-sealed :
        JsonDecodes fl c
        → Opens p fl c now later seeds em collection key_id
        → (k s : String) (w : Value Float) (bs : List Byte) → json_value fl w ≡ w
        → c.encode w ≡ ok bs
        → encrypt_data p fl c now ((seeds k).0) ((seeds k).1) em bs key_id ≡ ok s
        → decrypt_field p fl c later em k (str s) ≡ ok w
    unfolding decrypt_field
    decrypt_field-sealed json opens k s w bs stable f g =
        rw (opens k s bs g, json w bs f, stable) refl

    entry-Good :
        JsonDecodes fl c
        → Opens p fl c now later seeds em collection key_id
        → (payload e : Document Float) (k : String) (v : Value Float) (o : Option (Value Float))
        → IsStable payload
        → is_mark k ≡ false
        → lookup k payload ≡ o
        → Encrypted p fl c now later seeds em collection key_id e k o
        → lookup k e ≡ some v
        → Good later em e payload (k, v)
    entry-Good json opens payload e k v none stable m at_k (gone, _) h = elim (contradicts h) [ ]
      where
        contradicts : lookup k e ≡ some v → ⊥
        contradicts h = cc
    entry-Good json opens payload e k v (some w) stable m at_k (inl (plain, here, unmarked)) h =
        inr (m, w, at_k, inr (rw (unmarked, is_marked) refl, cc))
    entry-Good json opens payload e k v (some w) stable m at_k
          (inr (sensitive, bs, s, f, g, here, marked)) h =
        let same : str s ≡ v = cc in
        inr (
          m,
          w,
          at_k,
          inl (
            rw (marked, is_marked) refl,
            rw (← same) (
                decrypt_field-sealed json opens k s w bs (lookup-IsStable payload k w stable at_k) f
                  g),
          ),
        )

    payload-Good :
        JsonDecodes fl c
        → Opens p fl c now later seeds em collection key_id
        → (payload e : Document Float) → Distinct payload
        → IsUnmarked p fl c now later seeds em collection key_id payload
        → IsStable payload
        → encrypt_payload p fl c now seeds em collection payload key_id ≡ ok e
        → All (Good later em e payload) e
    payload-Good json opens payload e d u stable h =
        lookup-All (Good later em e payload) e
          (encrypt_payload-Distinct p fl c now later seeds em collection key_id payload e h)
          (λ k v at_e. elim (Bool-cases (is_mark k)) [
            | inl m ↦ inl m
            | inr m ↦
                entry-Good json opens payload e k v (lookup k payload) stable m refl
                  (encrypt_payload-Encrypted p fl c now later seeds em collection key_id payload e d
                    u h k m)
                  at_e
          ])

    expected-payload :
        (payload e : Document Float) (j : String) (o : Option (Value Float))
        → lookup j payload ≡ o
        → Encrypted p fl c now later seeds em collection key_id e j o
        → expected later em e payload j (lookup j e) ≡ o
    expected-payload payload e j none at_j (gone, _) = rw (gone, expected) refl
    expected-payload payload e j (some w) at_j (inl (_, here, _)) = rw (here, expected) at_j
    expected-payload payload e j (some w) at_j (inr (_, _, _, _, _, here, _)) =
        rw (here, expected) at_j

    -- decryptPayload gives back every field of the payload that encryptPayload has encrypted, and no
    -- other one, at any time at which the key is still active: if the names of the fields are distinct
    -- and do not end in _encrypted, JSON keeps the values as they are, the key pair is complete, and
    -- JSON, base64, AES-GCM and the random bytes do what they are documented to do.
    pub decrypt_payload-encrypt_payload :
        JsonDecodes fl c
        → Base64Decodes fl c
        → GcmOpens p
        → RandomFills p
        → (kp : KeyPair p) → find_key p fl c em key_id ≡ ok kp
        → IsComplete p kp
        → is_active p later kp ≡ true
        → (payload e : Document Float) → Distinct payload
        → IsUnmarked p fl c now later seeds em collection key_id payload
        → IsStable payload
        → encrypt_payload p fl c now seeds em collection payload key_id ≡ ok e
        → (d : Document Float) × (decrypt_payload p fl c later em e ≡ ok d)
          × ((j : String) → lookup j d ≡ lookup j payload)
    unfolding decrypt_payload
    decrypt_payload-encrypt_payload json b64 gcm fills kp found complete active payload e d u stable
          h =
        let opens : Opens p fl c now later seeds em collection key_id = λ k s bs g.
          decrypt_data-encrypt_data p fl c json b64 gcm fills now later ((seeds k).0) ((seeds k).1)
            em bs key_id s kp found complete active g in
        let (r, f, g) =
          decrypt_entries-Good later em e payload e
            (payload-Good json opens payload e d u stable h) in
        (
          r,
          f,
          λ j. elim (Bool-cases (is_mark j)) [
            | inl m ↦ g j ∙ rw (m, lookup-marked payload j u m) refl
            | inr m ↦
                g j
                ∙ rw m (
                    expected-payload payload e j (lookup j payload) refl (
                      encrypt_payload-Encrypted p fl c now later seeds em collection key_id payload
                        e d u h j m))
          ],
        )
