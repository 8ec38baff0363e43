-- ===== src/Crypto/Pairs.antt =====
-- Key pairs whose halves fit together, and what they encrypt and sign (crypto/pqc/keys.go).
use mathlib.Core.Path.{subst}
use knirvbase.Base.{String, ◌≡◌, refl, sym, ◌∙◌, true, none, some, List}
use knirvbase.Base.Int.{ℤ}
use knirvbase.Result.{ok, wrap, bind-ok, wrap-ok, ok-injective}
use knirvbase.Crypto.{Primitives, KemPair, GcmOpens, RandomFills}
use knirvbase.Crypto.Hybrid.{kyber_decrypt-encrypt}
use knirvbase.Crypto.Kyber.{KyberKeyPair, generate_kyber_key_pair}
use knirvbase.Crypto.Dilithium.{DilithiumKeyPair, generate_dilithium_key_pair}
use knirvbase.Crypto.Keys.{
  KeyPair, Records, generate_key_pair, encrypt, decrypt, sign_message, verify_message, is_active,
}

module _ (p : Primitives) where
  open p use {Byte, PublicKey, PrivateKey, VerifyKey, SignKey, Seed, sign, verify}

  -- A key pair with both pairs of keys, each of which fits together.
  pub record IsComplete (kp : KeyPair p) : Type 0 where
    pub pub_key : PublicKey
    pub priv_key : PrivateKey
    pub ver_key : VerifyKey
    pub sig_key : SignKey
    pub has_pub : kp.kyber_public_key ≡ some pub_key
    pub has_priv : kp.kyber_private_key ≡ some priv_key
    pub has_ver : kp.dilithium_public_key ≡ some ver_key
    pub has_sig : kp.dilithium_private_key ≡ some sig_key
    pub kem_pair : KemPair p pub_key priv_key
    pub verifies : (m : List Byte) → verify ver_key m (sign sig_key m) ≡ true

  -- The generators of the two schemes give keys that fit together.
  abbrev pub GeneratesPairs : Type 0
  GeneratesPairs =
      ((seed : Seed) (k : PublicKey) (k' : PrivateKey)
        → p.generate_kem seed ≡ ok (k, k')
        → KemPair p k k')
      × ((seed : Seed) (k : VerifyKey) (k' : SignKey) (m : List Byte)
          → p.generate_sign seed ≡ ok (k, k')
          → verify k m (sign k' m) ≡ true)

  -- what a generated pair has of the two generators
  record Generated (s1 s2 : Seed) (kp : KeyPair p) : Type 0 where
    kyber : KyberKeyPair p
    dilithium : DilithiumKeyPair p
    kyber_made : generate_kyber_key_pair p s1 ≡ ok kyber
    dilithium_made : generate_dilithium_key_pair p s2 ≡ ok dilithium
    has_pub : kp.kyber_public_key ≡ some kyber.public_key
    has_priv : kp.kyber_private_key ≡ some kyber.private_key
    has_ver : kp.dilithium_public_key ≡ some dilithium.public_key
    has_sig : kp.dilithium_private_key ≡ some dilithium.private_key
    active : kp.status ≡ "active"
    unlimited : kp.expires_at ≡ none

  generate_key_pair-Generated :
      (r : Records p) (s1 s2 s3 : Seed) (now : ℤ) (name purpose : String) (kp : KeyPair p)
      → generate_key_pair p r s1 s2 s3 now name purpose ≡ ok kp
      → Generated s1 s2 kp
  unfolding generate_key_pair
  generate_key_pair-Generated r s1 s2 s3 now name purpose kp h =
      let (ky, e1, h1) =
        bind-ok (wrap "failed to generate Kyber keys" (generate_kyber_key_pair p s1)) _ h in
      let (dil, e2, h2) =
        bind-ok (wrap "failed to generate Dilithium keys" (generate_dilithium_key_pair p s2)) _
          h1 in
      let (ids, e3, h3) = bind-ok (wrap "failed to generate ID" (p.random s3 16)) _ h2 in
      let (b1, e4, h4) = bind-ok (wrap _ (p.public_key_bytes ky.public_key)) _ h3 in
      let (b2, e5, h5) = bind-ok (wrap _ (p.private_key_bytes ky.private_key)) _ h4 in
      let (b3, e6, h6) = bind-ok (wrap _ (p.verify_key_bytes dil.public_key)) _ h5 in
      let (b4, e7, h7) = bind-ok (wrap _ (p.sign_key_bytes dil.private_key)) _ h6 in
      subst (Generated s1 s2) (ok-injective h7) (record {
        kyber = ky;
        dilithium = dil;
        kyber_made = wrap-ok _ (generate_kyber_key_pair p s1) e1;
        dilithium_made = wrap-ok _ (generate_dilithium_key_pair p s2) e2;
        has_pub = refl;
        has_priv = refl;
        has_ver = refl;
        has_sig = refl;
        active = refl;
        unlimited = refl;
      })

  kyber_pair :
      GeneratesPairs
      → (seed : Seed) (k : KyberKeyPair p) → generate_kyber_key_pair p seed ≡ ok k
      → KemPair p k.public_key k.private_key
  unfolding generate_kyber_key_pair
  kyber_pair (kems, signs) seed k h =
      let ((a, b), e, f) =
        bind-ok (wrap "failed to generate Kyber key pair" (p.generate_kem seed)) _ h in
      subst (λ k. KemPair p k.public_key k.private_key) (ok-injective f)
        (kems seed a b (wrap-ok _ (p.generate_kem seed) e))

  dilithium_pair :
      GeneratesPairs
      → (seed : Seed) (k : DilithiumKeyPair p) (m : List Byte)
      → generate_dilithium_key_pair p seed ≡ ok k
      → verify k.public_key m (sign k.private_key m) ≡ true
  unfolding generate_dilithium_key_pair
  dilithium_pair (kems, signs) seed k m h =
      let ((a, b), e, f) =
        bind-ok (wrap "failed to generate Dilithium key pair" (p.generate_sign seed)) _ h in
      subst (λ k. verify k.public_key m (sign k.private_key m) ≡ true) (ok-injective f)
        (signs seed a b m (wrap-ok _ (p.generate_sign seed) e))

  -- A generated key pair is complete, and active at any time.
  pub generate_key_pair-IsComplete :
      GeneratesPairs
      → (r : Records p) (s1 s2 s3 : Seed) (now later : ℤ) (name purpose : String) (kp : KeyPair p)
      → generate_key_pair p r s1 s2 s3 now name purpose ≡ ok kp
      → IsComplete kp × (is_active p later kp ≡ true)
  unfolding is_active
  generate_key_pair-IsComplete pairs r s1 s2 s3 now later name purpose kp h =
      let g = generate_key_pair-Generated r s1 s2 s3 now name purpose kp h in
      (
        record {
          pub_key = g.kyber.public_key;
          priv_key = g.kyber.private_key;
          ver_key = g.dilithium.public_key;
          sig_key = g.dilithium.private_key;
          has_pub = g.has_pub;
          has_priv = g.has_priv;
          has_ver = g.has_ver;
          has_sig = g.has_sig;
          kem_pair = kyber_pair pairs s1 g.kyber g.kyber_made;
          verifies = λ m. dilithium_pair pairs s2 g.dilithium m g.dilithium_made;
        },
        rw (g.active, g.unlimited) refl,
      )

  pub decrypt-encrypt :
      (kp : KeyPair p)
      → IsComplete kp
      → GcmOpens p
      → RandomFills p
      → (s s' : Seed) (text ct : List Byte) → encrypt p s s' kp text ≡ ok ct
      → decrypt p kp ct ≡ ok text
  unfolding encrypt decrypt
  decrypt-encrypt kp w opens fills s s' text ct h = rw w.has_priv (
      kyber_decrypt-encrypt p w.pub_key w.priv_key w.kem_pair opens fills s s' text ct
        (sym (rw w.has_pub refl) ∙ h))

  pub verify-sign :
      (kp : KeyPair p)
      → IsComplete kp
      → (m signature : List Byte) → sign_message p kp m ≡ ok signature
      → verify_message p kp m signature ≡ true
  unfolding sign_message verify_message
  verify-sign kp w m signature h =
      let e : sign w.sig_key m ≡ signature =
        let g : ok (sign w.sig_key m) ≡ ok signature = sym (rw w.has_sig refl) ∙ h in cc in
      rw w.has_ver (rw (← e) (w.verifies m))
