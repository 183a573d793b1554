-- ===== src/Tests/Memory.antt =====
-- The handlers over buffers, from a memory with the bytes of an earlier payload.
use secret_management.Prelude.{ℕ, ◌≡◌, refl, true, false, [], ◌∷◌, Bytes, Option, some, arith}
use secret_management.Kek.{KekStore}
use secret_management.Envelope.{EncryptedEnvelope}
use secret_management.Services.KeyService.{KeyService}
use secret_management.Api.Models.{EncryptRequest, DecryptRequest}
use secret_management.Api.Dto.{EncryptDto, DecryptDto}
use secret_management.Api.Handlers.{encrypt_handler, decrypt_handler}
use secret_management.Api.Limits.{payload_of_iff}
use secret_management.Api.V1.{encrypt_v1, decrypt_v1}
use secret_management.Memory.{Memory, kept, zeroed}
use secret_management.Memory.Handlers.{
  encrypt_handler_in, decrypt_handler_in, encrypt_v1_in, decrypt_v1_in,
}
use secret_management.Memory.Cells.{Erased}
use secret_management.Memory.Erasing.{Erases}
use secret_management.Memory.Erasure.{secrets_are_wiped, accepted_payload_leaves}
use secret_management.Kek.FromEnv.{pair_from_hex}
use secret_management.Memory.Kek.{pair_from_hex_in}
use secret_management.Tests.Toy.{hex_a, key_a, copies}
use secret_management.Tests.Short.{short}

abbrev store : KekStore Bytes
store = record {
  current_id = "k1";
  current = key_a;
  current_raw = key_a;
  previous = [];
  previous_raw = [];
}

abbrev service : KeyService Bytes Bytes ℕ
service = record { stores = ("default", store) ∷ []; ed25519_cache = []; rsa_cache = [] }

-- a text that was freed, and a payload that was erased
abbrev used : Memory
used =
    record { to_erase = false; content = 7 ∷ 8 ∷ [] }
    ∷ record { to_erase = true; content = 0 ∷ [] }
    ∷ []

abbrev request : EncryptRequest
request = record { payload_b64 = "111010" }

-- an envelope for `store`
abbrev envelope : EncryptedEnvelope
envelope = record {
  ciphertext_b64 = short.b64_encode (0 ∷ 3 ∷ 1 ∷ []);
  nonce_b64 = short.b64_encode (copies 1 12);
  encrypted_dek_b64 = short.b64_encode (0 ∷ copies 1 32);
  dek_nonce_b64 = short.b64_encode (copies 1 12);
  key_id = "k1";
  tenant_id = "shop";
  purpose = "pay";
  algorithm = "aes-256-gcm";
}

abbrev decrypt_request : DecryptRequest
decrypt_request = record {
  ciphertext_b64 = envelope.ciphertext_b64;
  nonce_b64 = envelope.nonce_b64;
  encrypted_dek_b64 = envelope.encrypted_dek_b64;
  dek_nonce_b64 = envelope.dek_nonce_b64;
  key_id = "k1";
}

abbrev encrypt_dto : EncryptDto
encrypt_dto = record {
  policy = "aes";
  tenant_id = "shop";
  purpose = "pay";
  content = "111010";
  classification = "tinggi";
}

abbrev decrypt_dto : DecryptDto
decrypt_dto = record {
  policy = "aes";
  tenant_id = "shop";
  purpose = "pay";
  content = "111010";
  classification = "tinggi";
}

-- a parser of JSON that reads `envelope` from every text
abbrev parse : Bytes → Option EncryptedEnvelope
parse text = some envelope

used-Erased : Erased used
used-Erased = ((λ w. cc w), ((λ _. (refl, tt)), tt))

secrets_are_wiped_example :
    Erases (encrypt_handler short store request 0) (encrypt_handler_in short store request 0 used)
    × Erases
        (decrypt_handler short store decrypt_request, 0)
        (decrypt_handler_in short store decrypt_request 0 used)
    × Erases
        (encrypt_v1 short service encrypt_dto 0)
        (encrypt_v1_in short service encrypt_dto 0 used)
    × Erases
        (decrypt_v1 short parse service decrypt_dto, 0)
        (decrypt_v1_in short service parse decrypt_dto 0 used)
    × Erases (pair_from_hex short hex_a, 0) (pair_from_hex_in short hex_a 0 used)
secrets_are_wiped_example =
    secrets_are_wiped short store service parse request decrypt_request encrypt_dto decrypt_dto
      hex_a 0 used used-Erased

accepted_payload_leaves_example :
    encrypt_handler_in short store request 0 used
    ≡ kept
        (record { to_erase = true; content = zeroed (copies 1 32) }
          ∷ record { to_erase = false; content = copies 1 32 }
          ∷ record { to_erase = true; content = zeroed (3 ∷ 1 ∷ []) }
          ∷ used)
        (encrypt_handler short store request 0)
accepted_payload_leaves_example = accepted_payload_leaves short store request (3 ∷ 1 ∷ []) 0 used (
    (payload_of_iff short request (3 ∷ 1 ∷ [])).1
      ((omega arith, omega arith), refl, omega arith, omega arith))
