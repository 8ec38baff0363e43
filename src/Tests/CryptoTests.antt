-- ===== src/Tests/CryptoTests.antt =====
-- Runs of go/internal/crypto/pqc with small libraries.
use knirvbase.Base.{String, ◌≡◌, refl, sym, ap, ◌∙◌, true, none, some, [], ◌∷◌, List}
use knirvbase.Base.Int.{pos}
use knirvbase.GoMap.{lookup}
use knirvbase.Result.{ok, err, Result, ok-injective}
use knirvbase.Crypto.Kyber.{kyber_encrypt, kyber_decrypt}
use knirvbase.Crypto.Keys.{KeyPair, Records, generate_key_pair, is_active, verify_message, decrypt}
use knirvbase.Crypto.Encryption.{
  EncryptionManager, encrypt_data, decrypt_data, Opened, find_key, read_envelope,
}
use knirvbase.Crypto.Pairs.{IsComplete}
use knirvbase.Crypto.Envelope.{decrypt_data_authentic, decrypt_data-encrypt_data}
use knirvbase.Tests.WholeFloats.{whole}
use knirvbase.Tests.TestLibraries.{
  join_texts, to_json, test_primitives, texts_codec, texts_codec-JsonDecodes,
  texts_codec-Base64Decodes, test_primitives-GcmOpens, test_primitives-RandomFills,
  test_primitives-KemPair, test_primitives-verifies,
}

abbrev text : List String
text = "hello" ∷ "world" ∷ []

abbrev ciphertext : List String
ciphertext = "s1" ∷ "s2" ∷ "s2" ∷ "sealed" ∷ "hello" ∷ "world" ∷ []

encrypted : kyber_encrypt test_primitives "s1" "s2" "k" text ≡ ok ciphertext
unfolding kyber_encrypt
encrypted = refl

short_ciphertext : kyber_decrypt test_primitives "k" [] ≡ err "ciphertext too short"
unfolding kyber_decrypt
short_ciphertext = refl

abbrev records : Records test_primitives
records = record {
  marshal_record = λ kp. err "unused";
  unmarshal_record = λ bs. err "unused";
  hex = join_texts;
}

abbrev pub master : KeyPair test_primitives
master = record {
  id = "i";
  name = "master";
  purpose = "encryption";
  algorithm = "Kyber-768+Dilithium-3";
  created_at = pos 5;
  expires_at = none;
  status = "active";
  kyber_public_key = some "k";
  kyber_private_key = some "k";
  dilithium_public_key = some "d";
  dilithium_private_key = some "d";
  kyber_public_key_bytes = "k" ∷ [];
  kyber_private_key_bytes = "k" ∷ [];
  dilithium_public_key_bytes = "d" ∷ [];
  dilithium_private_key_bytes = "d" ∷ [];
}

pub master-IsComplete : IsComplete test_primitives master
master-IsComplete = record {
  pub_key = "k";
  priv_key = "k";
  ver_key = "d";
  sig_key = "d";
  has_pub = refl;
  has_priv = refl;
  has_ver = refl;
  has_sig = refl;
  kem_pair = test_primitives-KemPair "k";
  verifies = test_primitives-verifies "d";
}

abbrev manager : EncryptionManager test_primitives whole texts_codec
manager = record { master_key = some master; key_cache = [] }

generated_pair :
    (kp : KeyPair test_primitives) × (generate_key_pair test_primitives records "k" "d" "i"
        (pos 5)
        "master"
        "encryption"
      ≡ ok kp)
unfolding generate_key_pair join_texts
generated_pair = (_, refl)

same_key : {s k k' : String} → ◌≡◌ {A = Result (String × String)} (ok (s, s)) (ok (k, k')) → k ≡ k'
same_key h = sym (ap (λ r. r.0) (ok-injective h)) ∙ ap (λ r. r.1) (ok-injective h)

abbrev sealed_text : String
sealed_text =
    "1e01p1a1y1l1o1a1d01s1i1g1n1a1t1u1r1e0111d10111f10111k111e111y111_111i111d10111i10111a111l111g111o111r111i111t111h111m10111K111y111b111e111r111-111711161118111+111A111E111S111-111211151116111-111G111C111M10111c111i111p111h111e111r111t111e111x111t101111111s1111111111101111111s1111111211101111111s1111111211101111111s1111111e1111111a1111111l1111111e1111111d11101111111h1111111e1111111l1111111l1111111o11101111111w1111111o1111111r1111111l1111111d11101001k1e1y1_1i1d01i01a1l1g1o1r1i1t1h1m01K1y1b1e1r1-1716181+1A1E1S1-1215161-1G1C1M01c1i1p1h1e1r1t1e1x1t0111s111110111s111210111s111210111s111e111a111l111e111d10111h111e111l111l111o10111w111o111r111l111d100"

sealed :
    encrypt_data test_primitives whole texts_codec (pos 6) "s1" "s2" manager text "i"
    ≡ ok sealed_text
unfolding encrypt_data to_json join_texts lookup
sealed = refl

decrypt_data-encrypt_data_example :
    decrypt_data test_primitives whole texts_codec (pos 7) manager sealed_text ≡ ok text
unfolding find_key is_active lookup
decrypt_data-encrypt_data_example =
    decrypt_data-encrypt_data test_primitives whole texts_codec texts_codec-JsonDecodes
      texts_codec-Base64Decodes test_primitives-GcmOpens test_primitives-RandomFills (pos 6) (pos 7)
      "s1" "s2" manager text "i" sealed_text master refl master-IsComplete refl sealed

decrypt_data_authentic_example :
    (o : Opened test_primitives whole texts_codec) × (kp : KeyPair test_primitives) × (read_envelope
        test_primitives whole texts_codec sealed_text
      ≡ ok o)
    × (find_key test_primitives whole texts_codec manager o.key_id ≡ ok kp)
    × (is_active test_primitives (pos 7) kp ≡ true)
    × (verify_message test_primitives kp o.payload_bytes o.signature ≡ true)
    × (decrypt test_primitives kp o.ciphertext ≡ ok text)
decrypt_data_authentic_example =
    decrypt_data_authentic test_primitives whole texts_codec (pos 7) manager sealed_text text
      decrypt_data-encrypt_data_example
