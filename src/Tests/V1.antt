-- ===== src/Tests/V1.antt =====
-- Runs of src/api/v1.rs, over one default store.
use secret_management.Prelude.{ℕ, ◌≡◌, ◌↔◌, refl, [], ◌∷◌, Bytes, Option, none, some, ok, arith}
use secret_management.Std.Map.{get}
use secret_management.Std.Text.{trim, is_whitespace, lower_char, to_ascii_lowercase}
use secret_management.Std.Text.Case.{normalize}
use secret_management.Policy.{strategis}
use secret_management.Hash.{Hasher, hash}
use secret_management.Kek.{KekStore}
use secret_management.Envelope.{EncryptedEnvelope}
use secret_management.Services.KeyService.{KeyService, get_store}
use secret_management.Services.CryptoService.{store_for}
use secret_management.Api.Dto.{EncryptDto, HashDto, EncryptV1Response, HashResponse}
use secret_management.Api.V1.{class, encrypt_v1}
use secret_management.Api.V1.Hashes.{hash_v1}
use secret_management.Api.V1.RoundTrip.{Carries, envelope_of_v1, encrypt_v1_iff}
use secret_management.Api.V1.HashNames.{served_hashes, hash_v1_iff}
use secret_management.Tests.Toy.{key_a}
use secret_management.Tests.Short.{short, short-IsLawful}
use secret_management.Tests.Signing.{signing}

abbrev store : KekStore Bytes
store = record {
  current_id = "k1";
  current = key_a;
  current_raw = key_a;
  previous = [];
  previous_raw = [];
}

abbrev service : KeyService Bytes Bytes ℕ
service = record { stores = ("default", store) ∷ []; ed25519_cache = []; rsa_cache = [] }

store_found : store_for service "shop" ≡ some store
unfolding store_for get_store get
store_found = refl

abbrev payload : Bytes
payload = 3 ∷ 1 ∷ []

abbrev encrypt_dto : EncryptDto
encrypt_dto = record {
  policy = "aes";
  tenant_id = "shop";
  purpose = "pay";
  content = "111010";
  classification = "tinggi";
}

encrypt_v1_iff_example :
    ((resp : EncryptV1Response) × (encrypt_v1 short service encrypt_dto 0 ≡ (ok resp, 3)))
    ↔ ((m : Bytes) × Carries short service encrypt_dto m)
encrypt_v1_iff_example =
    encrypt_v1_iff short service short-IsLawful encrypt_dto 0 store store_found refl
      (omega arith, omega arith, omega arith)

-- An answer for the payload.
answered : (resp : EncryptV1Response) × (encrypt_v1 short service encrypt_dto 0 ≡ (ok resp, 3))
answered = encrypt_v1_iff_example.1 (payload, (refl, omega arith, omega arith))

-- A parser that reads that answer from texts that are not empty.
abbrev parse : Bytes → Option EncryptedEnvelope
parse [] = none
parse (b ∷ bs) = some (envelope_of_v1 answered.0)

abbrev hash_dto : HashDto
hash_dto = record {
  policy = "";
  tenant_id = "shop";
  purpose = "pay";
  content = "111010";
  algo = " SHA-512";
  classification = "strategis";
}

abbrev hashed : HashResponse
hashed = record { hash_b64 = short.b64_encode (2 ∷ payload); algo = " SHA-512" }

strictest : class hash_dto.classification ≡ strategis
unfolding class normalize trim is_whitespace lower_char to_ascii_lowercase
strictest = refl

hash_v1_iff_example : (hash_v1 short signing hash_dto ≡ ok hashed) ↔ (
    (h : Hasher) × (get (normalize hash_dto.algo) served_hashes ≡ some h)
    × (record { hash_b64 = short.b64_encode (hash signing h payload); algo = hash_dto.algo }
        ≡ hashed))
hash_v1_iff_example = hash_v1_iff short signing hash_dto payload hashed strictest refl
