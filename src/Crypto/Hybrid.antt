-- ===== src/Crypto/Hybrid.antt =====
-- What KyberDecrypt makes of what KyberEncrypt gives (crypto/pqc/kyber.go).
use knirvbase.Base.{
  ℕ, zero, suc, ◌≡◌, refl, ap, List, [], ◌∷◌, ◌++◌, ltb, length, take, drop, false, arith,
  length-append,
}
use knirvbase.Result.{ok, wrap, bind-ok, wrap-ok}
use knirvbase.Crypto.{Primitives, KemPair, GcmOpens, RandomFills}
use knirvbase.Crypto.Kyber.{
  copy_into, derive_key, aes_encrypt, aes_decrypt, kyber_encrypt, kyber_decrypt,
}

module _ (p : Primitives) where
  open p use {
    Byte, PublicKey, PrivateKey, Seed, ciphertext_size, encapsulate, decapsulate, Gcm, new_gcm,
    nonce_size, seal, open_sealed, random,
  }

  copy_into_whole : (n : ℕ) (bs : List Byte) → length bs ≡ n → copy_into p n bs ≡ bs
  copy_into_whole zero [] h = refl
  copy_into_whole zero (b ∷ bs) h = absurd (omega arith)
  copy_into_whole (suc n) [] h = absurd (omega arith)
  copy_into_whole (suc n) (b ∷ bs) h = ap (◌∷◌ b) (copy_into_whole n bs (omega arith))

  take_front : (n : ℕ) (xs bs : List Byte) → length xs ≡ n → take n (xs ++ bs) ≡ xs
  take_front zero [] bs h = refl
  take_front zero (a ∷ xs) bs h = absurd (omega arith)
  take_front (suc n) [] bs h = absurd (omega arith)
  take_front (suc n) (a ∷ xs) bs h = ap (◌∷◌ a) (take_front n xs bs (omega arith))

  drop_front : (n : ℕ) (xs bs : List Byte) → length xs ≡ n → drop n (xs ++ bs) ≡ bs
  drop_front zero [] bs h = refl
  drop_front zero (a ∷ xs) bs h = absurd (omega arith)
  drop_front (suc n) [] bs h = absurd (omega arith)
  drop_front (suc n) (a ∷ xs) bs h = drop_front n xs bs (omega arith)

  long_enough : (n : ℕ) (xs bs : List Byte) → length xs ≡ n → ltb (length (xs ++ bs)) n ≡ false
  long_enough n xs bs h = ground (arith, length-append xs bs)

  aes_decrypt-sealed :
      GcmOpens p
      → (key text nonce : List Byte) (g : Gcm) → new_gcm (derive_key p key) ≡ ok g
      → length nonce ≡ nonce_size g
      → aes_decrypt p key (nonce ++ seal g nonce text) ≡ ok text
  unfolding aes_decrypt
  aes_decrypt-sealed opens key text nonce g e l =
      let n = nonce_size g in
      let body = seal g nonce text in
      rw (e, long_enough n nonce body l, take_front n nonce body l, drop_front n nonce body l)
        (opens g nonce text l)

  aes_decrypt-encrypt :
      GcmOpens p
      → RandomFills p
      → (seed : Seed) (key text c : List Byte) → aes_encrypt p seed key text ≡ ok c
      → aes_decrypt p key c ≡ ok text
  unfolding aes_encrypt
  aes_decrypt-encrypt opens fills seed key text c h =
      let (gcm, e, rest) = bind-ok (new_gcm (derive_key p key)) _ h in
      let (nonce, f, g) = bind-ok (random seed (nonce_size gcm)) _ rest in
      let s : nonce ++ seal gcm nonce text ≡ c = cc in
      rw (← s) (aes_decrypt-sealed opens key text nonce gcm e (fills seed (nonce_size gcm) nonce f))

  kyber_decrypt-joined :
      (key : PrivateKey) (ct secret body text : List Byte)
      → length ct ≡ ciphertext_size
      → decapsulate key ct ≡ ok secret
      → aes_decrypt p secret body ≡ ok text
      → kyber_decrypt p key (copy_into p ciphertext_size ct ++ body) ≡ ok text
  unfolding kyber_decrypt
  kyber_decrypt-joined key ct secret body text l d a =
      let n = ciphertext_size in
      rw
        (
          copy_into_whole n ct l,
          long_enough n ct body l,
          take_front n ct body l,
          drop_front n ct body l,
          d,
          a,
        )
        refl

  -- KyberDecrypt with the private key gives back what KyberEncrypt has encrypted for the public one,
  -- if the two are a pair, AES-GCM opens what it seals, and the random bytes fill their slice.
  pub kyber_decrypt-encrypt :
      (pub_key : PublicKey) (priv_key : PrivateKey)
      → KemPair p pub_key priv_key
      → GcmOpens p
      → RandomFills p
      → (s s' : Seed) (text c : List Byte) → kyber_encrypt p s s' pub_key text ≡ ok c
      → kyber_decrypt p priv_key c ≡ ok text
  unfolding kyber_encrypt
  kyber_decrypt-encrypt pub_key priv_key pair opens fills s s' text c h =
      let ((ct, secret), e, rest) =
        bind-ok (wrap "failed to encapsulate" (encapsulate s pub_key)) _ h in
      let (body, f, g) =
        bind-ok (wrap "failed to encrypt data" (aes_encrypt p s' secret text)) _ rest in
      let (l, d) = pair s ct secret (wrap-ok _ (encapsulate s pub_key) e) in
      let same : copy_into p ciphertext_size ct ++ body ≡ c = cc in
      rw (← same) (
        kyber_decrypt-joined priv_key ct secret body text l d (
          aes_decrypt-encrypt opens fills s' secret text body
            (wrap-ok _ (aes_encrypt p s' secret text) f)))
