-- ===== src/Tests/FieldTests.antt =====
-- The encryption of the sensitive fields of go/internal/storage/storage.go, with small libraries.
use knirvbase.Base.{String, ◌≡◌, refl, true, some, [], ◌∷◌}
use knirvbase.Base.Int.{pos}
use knirvbase.GoMap.{lookup, insert}
use knirvbase.Result.{ok}
use knirvbase.GoStrings.{has_suffix}
use knirvbase.Value.{Document, str, bool}
use knirvbase.Json.{json_value}
use knirvbase.Crypto.Keys.{is_active}
use knirvbase.Crypto.Encryption.{EncryptionManager, find_key}
use knirvbase.Storage.{encrypt_payload, decrypt_payload, is_sensitive_field}
use knirvbase.Storage.Restored.{decrypt_payload-encrypt_payload}
use knirvbase.Tests.WholeFloats.{whole}
use knirvbase.Tests.CryptoTests.{master, master-IsComplete}
use knirvbase.Tests.TestLibraries.{
  join_texts, to_json, test_primitives, texts_codec, texts_codec-JsonDecodes,
  texts_codec-Base64Decodes, test_primitives-GcmOpens, test_primitives-RandomFills,
}

abbrev manager : EncryptionManager test_primitives whole texts_codec
manager = record { master_key = some master; key_cache = [] }

abbrev seeds : String → String × String
seeds name = ("s1", "s2")

abbrev payload : Document whole.Float
payload = ("hash", str "h") ∷ ("user", str "u") ∷ []

abbrev encrypted : Document whole.Float
encrypted =
    ("user", str "u")
    ∷ (
      "hash",
      str
          "1e01p1a1y1l1o1a1d01s1i1g1n1a1t1u1r1e0111d10111f10111k111e111y111_111i111d10111i10111a111l111g111o111r111i111t111h111m10111K111y111b111e111r111-111711161118111+111A111E111S111-111211151116111-111G111C111M10111c111i111p111h111e111r111t111e111x111t101111111s1111111111101111111s1111111211101111111s1111111211101111111s1111111e1111111a1111111l1111111e1111111d11101111111s11101111111h11101001k1e1y1_1i1d01i01a1l1g1o1r1i1t1h1m01K1y1b1e1r1-1716181+1A1E1S1-1215161-1G1C1M01c1i1p1h1e1r1t1e1x1t0111s111110111s111210111s111210111s111e111a111l111e111d10111s10111h100",
    )
    ∷ ("hash_encrypted", bool true)
    ∷ []

encrypts :
    encrypt_payload test_primitives whole texts_codec
      (pos 6)
      seeds
      manager
      "credentials"
      payload
      "i"
    ≡ ok encrypted
unfolding encrypt_payload to_json join_texts lookup insert is_sensitive_field
encrypts = refl

decrypt_payload-encrypt_payload_example :
    (d : Document whole.Float) × (decrypt_payload test_primitives whole texts_codec
        (pos 7)
        manager
        encrypted
      ≡ ok d)
    × ((j : String) → lookup j d ≡ lookup j payload)
unfolding find_key is_active lookup has_suffix json_value
decrypt_payload-encrypt_payload_example =
    decrypt_payload-encrypt_payload test_primitives whole texts_codec (pos 6) (pos 7) seeds manager
      "credentials" "i" texts_codec-JsonDecodes texts_codec-Base64Decodes test_primitives-GcmOpens
      test_primitives-RandomFills master refl master-IsComplete refl payload encrypted
      (refl, (refl, tt)) (refl, (refl, tt)) (refl, (refl, tt)) encrypts
