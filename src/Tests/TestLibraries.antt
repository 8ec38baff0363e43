-- ===== src/Tests/TestLibraries.antt =====
-- Small libraries in place of those that the code calls, so that it runs in the tests: bytes are
-- texts, and JSON is that of null, of strings and of objects with strings.
use Prim.Native.Char.{Char, code}
use knirvbase.Base.{
  ℕ, zero, suc, ◌≡◌, refl, ap, ◌∙◌, String, Bool, true, false, ◌&&◌, Option, none, some, List, [],
  ◌∷◌, if◌then◌else◌, ◌==◌, eqb, eq_refl, length, subst, sym, inl, inr, Option-cases,
}
use knirvbase.Result.{Result, ok, err, ok-injective}
use knirvbase.Value.{Value, Fields, null, str, entry_type, obj, no_fields, field}
use knirvbase.Json.{Codec, JsonDecodes, Base64Decodes, json_value, json_fields}
use knirvbase.Crypto.{Primitives, KemPair, GcmOpens, RandomFills}
use knirvbase.Tests.WholeFloats.{whole}

some_injective : {a b : List String} → some a ≡ some b → a ≡ b
some_injective h = cc

no_some : {a : List String} → none ≡ some a → ⊥
no_some h = cc

no_ok : {a : List String} {e : String} → err e ≡ ok a → ⊥
no_ok h = cc

-- the names and the strings of an object that has nothing but strings
unfoldable as_texts : Fields ℕ → Option (List String)
as_texts no_fields = some []
as_texts (field k (str s) fs) = elim (as_texts fs) [ none ↦ none | some ts ↦ some (k ∷ s ∷ ts) ]
as_texts (field k v fs) = none

unfoldable of_texts : List String → Fields ℕ
of_texts [] = no_fields
of_texts (k ∷ []) = no_fields
of_texts (k ∷ s ∷ ts) = field k (str s) (of_texts ts)

of_texts-as_texts :
    (fs : Fields ℕ) (ts : List String) → as_texts fs ≡ some ts → of_texts ts ≡ json_fields whole fs
unfolding as_texts of_texts json_value
of_texts-as_texts no_fields ts h = subst (λ t. of_texts t ≡ no_fields) (some_injective h) refl
of_texts-as_texts (field k (str s) fs) ts h = elim (Option-cases (as_texts fs)) [
  | inl f ↦ elim (no_some (rw (f, as_texts) at h)) [ ]
  | inr (rest, f) ↦
      subst (λ t. of_texts t ≡ json_fields whole (field k (str s) fs))
        (some_injective (rw (f, as_texts) at h))
        (ap (field k (str s)) (of_texts-as_texts fs rest f))
]
of_texts-as_texts (field k v fs) ts h = elim (no_some h) [ ]

-- an object with an object of strings and a string
unfoldable as_envelope : Fields ℕ → Option (List String)
unfolding as_texts
as_envelope (field k (obj fs) (field j (str s) no_fields)) = elim (as_texts fs) [
  | none ↦ none
  | some ts ↦ some (k ∷ j ∷ s ∷ ts)
]
as_envelope fs = none

unfoldable of_envelope : List String → Fields ℕ
unfolding of_texts
of_envelope (k ∷ j ∷ s ∷ ts) = field k (obj (of_texts ts)) (field j (str s) no_fields)
of_envelope ts = no_fields

of_envelope-as_envelope :
    (fs : Fields ℕ) (ts : List String)
    → as_envelope fs ≡ some ts
    → of_envelope ts ≡ json_fields whole fs
unfolding as_envelope of_envelope json_value
of_envelope-as_envelope (field k (obj fs) (field j (str s) no_fields)) ts h =
    elim (Option-cases (as_texts fs)) [
      | inl f ↦ elim (no_some (rw (f, as_envelope) at h)) [ ]
      | inr (rest, f) ↦
          subst
            (λ t. of_envelope t ≡ json_fields whole (field k (obj fs) (field j (str s) no_fields)))
            (some_injective (rw (f, as_envelope) at h))
            (ap (λ gs. field k (obj gs) (field j (str s) no_fields)) (of_texts-as_texts fs rest f))
    ]
of_envelope-as_envelope fs ts h = elim (no_some h) [ ]

-- an object with a string, a string or an entry type, and an object of strings
unfoldable as_entry : Fields ℕ → Option (List String)
unfolding as_texts
as_entry (field a (str s) (field b (str t) (field k (obj fs) no_fields))) = elim (as_texts fs) [
  | none ↦ none
  | some ts ↦ some (a ∷ s ∷ b ∷ t ∷ k ∷ ts)
]
as_entry (field a (str s) (field b (entry_type t) (field k (obj fs) no_fields))) =
    elim (as_texts fs) [ none ↦ none | some ts ↦ some (a ∷ s ∷ b ∷ t ∷ k ∷ ts) ]
as_entry fs = none

unfoldable of_entry : List String → Fields ℕ
unfolding of_texts
of_entry (a ∷ s ∷ b ∷ t ∷ k ∷ ts) =
    field a (str s) (field b (str t) (field k (obj (of_texts ts)) no_fields))
of_entry ts = no_fields

of_entry-as_entry :
    (fs : Fields ℕ) (ts : List String) → as_entry fs ≡ some ts → of_entry ts ≡ json_fields whole fs
unfolding as_entry of_entry json_value
of_entry-as_entry (field a (str s) (field b (str t) (field k (obj fs) no_fields))) ts h =
    elim (Option-cases (as_texts fs)) [
      | inl f ↦ elim (no_some (rw (f, as_entry) at h)) [ ]
      | inr (rest, f) ↦
          subst
            (λ u.
              of_entry u
              ≡ json_fields whole (field a (str s) (field b (str t) (field k (obj fs) no_fields))))
            (some_injective (rw (f, as_entry) at h))
            (ap (λ gs. field a (str s) (field b (str t) (field k (obj gs) no_fields)))
              (of_texts-as_texts fs rest f))
    ]
of_entry-as_entry (field a (str s) (field b (entry_type t) (field k (obj fs) no_fields))) ts h =
    elim (Option-cases (as_texts fs)) [
      | inl f ↦ elim (no_some (rw (f, as_entry) at h)) [ ]
      | inr (rest, f) ↦
          subst
            (λ u.
              of_entry u
              ≡ json_fields whole
                  (field a (str s) (field b (entry_type t) (field k (obj fs) no_fields))))
            (some_injective (rw (f, as_entry) at h))
            (ap (λ gs. field a (str s) (field b (str t) (field k (obj gs) no_fields)))
              (of_texts-as_texts fs rest f))
    ]
of_entry-as_entry fs ts h = elim (no_some h) [ ]

unfoldable pub to_json : Value ℕ → Result (List String)
unfolding as_envelope as_entry
to_json null = ok ("n" ∷ [])
to_json (str s) = ok ("s" ∷ s ∷ [])
to_json (obj fs) = elim (as_texts fs) [
  | some ts ↦ ok ("f" ∷ ts)
  | none ↦ elim (as_envelope fs) [
    | some ts ↦ ok ("e" ∷ ts)
    | none ↦ elim (as_entry fs) [ some ts ↦ ok ("d" ∷ ts) | none ↦ err "unsupported value" ]
  ]
]
to_json v = err "unsupported value"

unfoldable pub of_json : List String → Result (Value ℕ)
unfolding of_envelope of_entry
of_json (tag ∷ ts) =
    if tag == "n"
    then ok null
    else if tag == "s"
    then ok (elim ts [ [] ↦ null | s ∷ rest ↦ str s ])
    else if tag == "f"
    then ok (obj (of_texts ts))
    else if tag == "e"
    then ok (obj (of_envelope ts))
    else ok (obj (of_entry ts))
of_json [] = err "unexpected end of JSON input"

to_json-decodes :
    (v : Value ℕ) (bs : List String) → to_json v ≡ ok bs → of_json bs ≡ ok (json_value whole v)
unfolding to_json of_json json_value
to_json-decodes null bs h = rw (← (ok-injective h)) refl
to_json-decodes (str s) bs h = rw (← (ok-injective h)) refl
to_json-decodes (obj fs) bs h = elim (Option-cases (as_texts fs)) [
  | inr (ts, f) ↦
      rw (← (ok-injective (rw (f, to_json) at h)))
        (ap (λ gs. ok (obj gs)) (of_texts-as_texts fs ts f))
  | inl f ↦ elim (Option-cases (as_envelope fs)) [
    | inr (ts, g) ↦
        rw (← (ok-injective (rw (f, to_json, g, to_json) at h)))
          (ap (λ gs. ok (obj gs)) (of_envelope-as_envelope fs ts g))
    | inl g ↦ elim (Option-cases (as_entry fs)) [
      | inr (ts, e) ↦
          rw (← (ok-injective (rw (f, to_json, g, to_json, e, to_json) at h)))
            (ap (λ gs. ok (obj gs)) (of_entry-as_entry fs ts e))
      | inl e ↦ elim (no_ok (rw (f, to_json, g, to_json, e, to_json) at h)) [ ]
    ]
  ]
]
to_json-decodes v bs h = elim (no_ok h) [ ]

-- texts after one another: "1" before every character, "0" at the end of a text
unfoldable put : String → String → String
put String.[] rest = String.◌∷◌ "0" rest
put (String.◌∷◌ c s) rest = String.◌∷◌ "1" (String.◌∷◌ c (put s rest))

unfoldable pub join_texts : List String → String
unfolding put
join_texts [] = ""
join_texts (s ∷ ss) = put s (join_texts ss)

abbrev extend : Char → List String → List String
extend c [] = []
extend c (s ∷ ss) = String.◌∷◌ c s ∷ ss

unfoldable pub split_texts : String → List String
split_texts String.[] = []
split_texts (String.◌∷◌ d String.[]) = "" ∷ []
split_texts (String.◌∷◌ d (String.◌∷◌ c s)) =
    if eqb (code d) 48 then "" ∷ split_texts (String.◌∷◌ c s) else extend c (split_texts s)

split_texts-put : (s rest : String) → split_texts (put s rest) ≡ s ∷ split_texts rest
unfolding split_texts put
split_texts-put String.[] String.[] = refl
split_texts-put String.[] (String.◌∷◌ c s) = refl
split_texts-put (String.◌∷◌ c s) rest = ap (extend c) (split_texts-put s rest)

split_texts-join_texts : (ss : List String) → split_texts (join_texts ss) ≡ ss
unfolding split_texts join_texts
split_texts-join_texts [] = refl
split_texts-join_texts (s ∷ ss) =
    split_texts-put s (join_texts ss) ∙ ap (λ r. s ∷ r) (split_texts-join_texts ss)

abbrev pub texts_codec : Codec ℕ String
texts_codec = record {
  encode = to_json;
  decode = of_json;
  base64 = join_texts;
  unbase64 = λ s. ok (split_texts s);
  hex = join_texts;
}

pub texts_codec-JsonDecodes : JsonDecodes whole texts_codec
texts_codec-JsonDecodes = to_json-decodes

pub texts_codec-Base64Decodes : Base64Decodes whole texts_codec
texts_codec-Base64Decodes bs = ap ok (split_texts-join_texts bs)

abbrev pub same_texts : List String → List String → Bool
same_texts [] [] = true
same_texts (a ∷ as') (b ∷ bs) = a == b && same_texts as' bs
same_texts _ _ = false

same_texts_refl : (ts : List String) → same_texts ts ts ≡ true
same_texts_refl [] = refl
same_texts_refl (t ∷ ts) = rw (eq_refl t, same_texts_refl ts) refl

abbrev pub replicate : ℕ → String → List String
replicate zero s = []
replicate (suc n) s = s ∷ replicate n s

length-replicate : (n : ℕ) (s : String) → length (replicate n s) ≡ n
length-replicate zero s = refl
length-replicate (suc n) s = ap suc (length-replicate n s)

abbrev pub read_key : List String → Result String
read_key [] = err "no key"
read_key (k ∷ ks) = ok k

abbrev pub decapsulate_text : String → List String → Result (List String)
decapsulate_text k [] = err "no ciphertext"
decapsulate_text k (s ∷ ss) = ok (s ∷ k ∷ [])

abbrev pub unseal : List String → Result (List String)
unseal [] = err "cipher: message authentication failed"
unseal (s ∷ ss) = ok ss

-- a key is a text, which both sides share
abbrev pub test_primitives : Primitives
test_primitives = record {
  Byte = String;
  zero_byte = "";
  PublicKey = String;
  PrivateKey = String;
  VerifyKey = String;
  SignKey = String;
  Seed = String;
  ciphertext_size = 1;
  encapsulate = λ s k. ok (s ∷ [], s ∷ k ∷ []);
  decapsulate = decapsulate_text;
  public_key = read_key;
  private_key = read_key;
  public_key_bytes = λ k. ok (k ∷ []);
  private_key_bytes = λ k. ok (k ∷ []);
  generate_kem = λ s. ok (s, s);
  sign = λ k m. k ∷ m;
  verify = λ k m s. same_texts s (k ∷ m);
  verify_key = read_key;
  sign_key = read_key;
  verify_key_bytes = λ k. ok (k ∷ []);
  sign_key_bytes = λ k. ok (k ∷ []);
  generate_sign = λ s. ok (s, s);
  Gcm = List String;
  new_gcm = λ k. ok k;
  nonce_size = λ g. 2;
  seal = λ g nonce text. "sealed" ∷ text;
  open_sealed = λ g nonce text. unseal text;
  sha256 = λ bs. bs;
  random = λ s n. ok (replicate n s);
}

pub test_primitives-GcmOpens : GcmOpens test_primitives
test_primitives-GcmOpens g nonce text h = refl

pub test_primitives-RandomFills : RandomFills test_primitives
test_primitives-RandomFills s n bs h = ap length (sym (ok-injective h)) ∙ length-replicate n s

pub test_primitives-KemPair : (k : String) → KemPair test_primitives k k
test_primitives-KemPair k s ct secret h = (
  ap length (sym (ap (λ r. r.0) (ok-injective h))),
  rw (← (ap (λ r. r.0) (ok-injective h))) (ap (λ r. ok (r.1)) (ok-injective h)),
)

pub test_primitives-verifies :
    (k : String) (m : List String) → test_primitives.verify k m (test_primitives.sign k m) ≡ true
test_primitives-verifies k m = same_texts_refl (k ∷ m)
