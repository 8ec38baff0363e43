-- ===== src/Crypto/Envelope.antt =====
-- What DecryptData makes of what EncryptData gives (crypto/pqc/encryption.go).
use mathlib.Core.Path.{subst}
use knirvbase.Base.{String, ◌≡◌, refl, sym, ap, ◌∙◌, true, List}
use knirvbase.Base.Int.{ℤ}
use knirvbase.GoMap.{lookup}
use knirvbase.Result.{ok, wrap, ◌>>=◌, bind-ok, wrap-ok, guarded-ok, ok-injective}
use knirvbase.Floats.{Floats}
use knirvbase.Value.{document}
use knirvbase.Json.{Codec, JsonDecodes, Base64Decodes, json_value}
use knirvbase.Crypto.{Primitives, GcmOpens, RandomFills}
use knirvbase.Crypto.Keys.{KeyPair, encrypt, decrypt, sign_message, verify_message, is_active}
use knirvbase.Crypto.Pairs.{IsComplete, decrypt-encrypt, verify-sign}
use knirvbase.Crypto.Encryption.{
  EncryptionManager, find_key, find_active_key, payload_of, envelope_of, encrypt_data, Opened,
  read_envelope, open_payload, decrypt_data,
}

module _ (p : Primitives) (fl : Floats) (c : Codec fl.Float p.Byte) where
  open p use {Byte, Seed}
  open fl use {Float}

  read_envelope_of :
      JsonDecodes fl c
      → Base64Decodes fl c
      → (key_id : String) (ct payload_bytes signature final : List Byte)
      → c.encode (payload_of p fl c key_id ct) ≡ ok payload_bytes
      → c.encode (envelope_of p fl c (payload_of p fl c key_id ct) signature) ≡ ok final
      → read_envelope p fl c (c.base64 final)
        ≡ ok (record {
          payload_bytes = payload_bytes;
          signature = signature;
          key_id = key_id;
          ciphertext = ct;
        })
  unfolding read_envelope json_value lookup document
  read_envelope_of json b64 key_id ct payload_bytes signature final e f =
      rw (b64 final, json _ final f, b64 signature, e, json _ payload_bytes e, b64 ct) refl

  find_active_key-ok :
      (now : ℤ) (em : EncryptionManager p fl c) (key_id : String) (kp : KeyPair p)
      → find_active_key p fl c now em key_id ≡ ok kp
      → (find_key p fl c em key_id ≡ ok kp) × (is_active p now kp ≡ true)
  unfolding find_active_key
  find_active_key-ok now em key_id kp h =
      let (k, e, g) = bind-ok (find_key p fl c em key_id) _ h in
      let (a, f) = guarded-ok (is_active p now k) (ok k) _ g in
      let same : k ≡ kp = cc in (rw (← same) e, rw (← same) a)

  -- Nothing is decrypted without a valid signature: DecryptData returns a text only if the key that
  -- the data names is in the cache or the master key, is active, verifies the signature of the
  -- payload, and decrypts its ciphertext to that text.
  pub decrypt_data_authentic :
      (now : ℤ) (em : EncryptionManager p fl c) (s : String) (text : List Byte)
      → decrypt_data p fl c now em s ≡ ok text
      → (o : Opened p fl c) × (kp : KeyPair p) × (read_envelope p fl c s ≡ ok o)
        × (find_key p fl c em o.key_id ≡ ok kp)
        × (is_active p now kp ≡ true)
        × (verify_message p kp o.payload_bytes o.signature ≡ true)
        × (decrypt p kp o.ciphertext ≡ ok text)
  unfolding decrypt_data open_payload
  decrypt_data_authentic now em s text h =
      let (o, e, rest) = bind-ok (read_envelope p fl c s) _ h in
      let (kp, f, g) = bind-ok (find_active_key p fl c now em o.key_id) _ rest in
      let (v, d) = guarded-ok (verify_message p kp o.payload_bytes o.signature) _ _ g in
      let (found, active) = find_active_key-ok now em o.key_id kp f in
      (o, kp, e, found, active, v, wrap-ok _ (decrypt p kp o.ciphertext) d)

  decrypt_data-opened :
      (later : ℤ) (em : EncryptionManager p fl c) {text : List Byte} (encrypted : String)
      (o : Opened p fl c)
      → read_envelope p fl c encrypted ≡ ok o
      → open_payload p fl c later em o ≡ ok text
      → decrypt_data p fl c later em encrypted ≡ ok text
  unfolding decrypt_data
  decrypt_data-opened later em encrypted o r d = ap (λ m. m >>= open_payload p fl c later em) r ∙ d

  -- what EncryptData has made on its way, when it succeeds
  record Sealed (now : ℤ) (s s' : Seed) (em : EncryptionManager p fl c) (text : List Byte)
      (key_id encrypted : String) : Type 0 where
    kp : KeyPair p
    ciphertext : List Byte
    payload_bytes : List Byte
    signature : List Byte
    final : List Byte
    found : find_key p fl c em key_id ≡ ok kp
    encrypts : encrypt p s s' kp text ≡ ok ciphertext
    marshals : c.encode (payload_of p fl c key_id ciphertext) ≡ ok payload_bytes
    signs : sign_message p kp payload_bytes ≡ ok signature
    encloses :
        c.encode (envelope_of p fl c (payload_of p fl c key_id ciphertext) signature) ≡ ok final
    result : c.base64 final ≡ encrypted

  encrypt_data-Sealed :
      (now : ℤ) (s s' : Seed) (em : EncryptionManager p fl c) (text : List Byte)
      (key_id encrypted : String)
      → encrypt_data p fl c now s s' em text key_id ≡ ok encrypted
      → Sealed now s s' em text key_id encrypted
  unfolding encrypt_data
  encrypt_data-Sealed now s s' em text key_id encrypted h =
      let (kp, e1, h1) = bind-ok (find_active_key p fl c now em key_id) _ h in
      let (ct, e2, h2) = bind-ok (wrap "failed to encrypt data" (encrypt p s s' kp text)) _ h1 in
      let (bs, e3, h3) =
        bind-ok (wrap "failed to marshal payload" (c.encode (payload_of p fl c key_id ct))) _ h2 in
      let (sig, e4, h4) = bind-ok (wrap "failed to sign payload" (sign_message p kp bs)) _ h3 in
      let (final, e5, h5) =
        bind-ok
          (wrap "failed to marshal encrypted data"
            (c.encode (envelope_of p fl c (payload_of p fl c key_id ct) sig)))
          _ h4 in
      record {
        kp = kp;
        ciphertext = ct;
        payload_bytes = bs;
        signature = sig;
        final = final;
        found = (find_active_key-ok now em key_id kp e1).0;
        encrypts = wrap-ok _ (encrypt p s s' kp text) e2;
        marshals = wrap-ok _ (c.encode (payload_of p fl c key_id ct)) e3;
        signs = wrap-ok _ (sign_message p kp bs) e4;
        encloses = wrap-ok _ (c.encode (envelope_of p fl c (payload_of p fl c key_id ct) sig)) e5;
        result = ok-injective h5;
      }

  open_payload-ok :
      (now : ℤ) (em : EncryptionManager p fl c) (o : Opened p fl c) (kp : KeyPair p)
      (text : List Byte)
      → find_key p fl c em o.key_id ≡ ok kp
      → is_active p now kp ≡ true
      → verify_message p kp o.payload_bytes o.signature ≡ true
      → decrypt p kp o.ciphertext ≡ ok text
      → open_payload p fl c now em o ≡ ok text
  unfolding open_payload
  open_payload-ok now em o kp text f a v d = simp (f, a, v, d)

  -- DecryptData gives back what EncryptData has encrypted, at any time at which the key is still
  -- active, if the key pair is complete, and JSON, base64, AES-GCM and the random bytes do what they
  -- are documented to do.
  pub decrypt_data-encrypt_data :
      JsonDecodes fl c
      → Base64Decodes fl c
      → GcmOpens p
      → RandomFills p
      → (now later : ℤ) (s s' : Seed) (em : EncryptionManager p fl c) (text : List Byte)
        (key_id encrypted : String) (kp : KeyPair p)
      → find_key p fl c em key_id ≡ ok kp
      → IsComplete p kp
      → is_active p later kp ≡ true
      → encrypt_data p fl c now s s' em text key_id ≡ ok encrypted
      → decrypt_data p fl c later em encrypted ≡ ok text
  decrypt_data-encrypt_data json b64 opens fills now later s s' em text key_id encrypted kp found w
        active h =
      decrypt_data-Sealed (encrypt_data-Sealed now s s' em text key_id encrypted h)
    where
      decrypt_data-Sealed :
          Sealed now s s' em text key_id encrypted
          → decrypt_data p fl c later em encrypted ≡ ok text
      decrypt_data-Sealed z =
          let same : z.kp ≡ kp = ok-injective (sym z.found ∙ found) in
          let o : Opened p fl c = record {
            payload_bytes = z.payload_bytes;
            signature = z.signature;
            key_id = key_id;
            ciphertext = z.ciphertext;
          } in
          let read : read_envelope p fl c encrypted ≡ ok o =
            subst (λ t. read_envelope p fl c t ≡ ok o) z.result
              (read_envelope_of json b64 key_id z.ciphertext z.payload_bytes z.signature z.final
                z.marshals z.encloses) in
          let opened : open_payload p fl c later em o ≡ ok text =
            open_payload-ok later em o kp text found active
              (verify-sign p kp w z.payload_bytes z.signature
                (subst (λ k. sign_message p k z.payload_bytes ≡ ok z.signature) same z.signs))
              (decrypt-encrypt p kp w opens fills s s' text z.ciphertext
                (subst (λ k. encrypt p s s' k text ≡ ok z.ciphertext) same z.encrypts)) in
          decrypt_data-opened later em encrypted o read opened
