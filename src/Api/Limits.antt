-- ===== src/Api/Limits.antt =====
-- What the validation of src/api/models.rs and the first lines of /encrypt accept.
use Prim.Native.String.{len}
use secret_management.Prelude.{ℕ, ◌<◌, ◌≤◌, String, ◌≡◌, ◌↔◌, Bytes, length, arith, ok, some}
use secret_management.Crates.{Crates}
use secret_management.Api.Models.{
  max_b64_len, max_field_len, validate_max_len, EncryptRequest, DecryptRequest, validate_encrypt,
  validate_decrypt,
}
use secret_management.Api.Handlers.{payload_of}

-- A field that is filled and within its limit.
abbrev pub Within : ℕ → String → Type 0
Within max s = (0 < len s) × (len s ≤ max)

validate_max_len_iff :
    (s : String) (max : ℕ) (name : String) → (validate_max_len s max name ≡ ok tt) ↔ Within max s
unfolding validate_max_len
validate_max_len_iff s max name = ground arith

-- A request to /decrypt is valid exactly if its four fields are filled and within their limits.
pub validate_decrypt_iff :
    (req : DecryptRequest)
    → (validate_decrypt req ≡ ok tt) ↔ (
        Within max_b64_len req.ciphertext_b64
        × Within max_field_len req.nonce_b64
        × Within max_field_len req.encrypted_dek_b64
        × Within max_field_len req.dek_nonce_b64)
unfolding validate_decrypt
validate_decrypt_iff req = ground (
  arith,
  validate_max_len_iff req.ciphertext_b64 max_b64_len "ciphertext_b64",
  validate_max_len_iff req.nonce_b64 max_field_len "nonce_b64",
  validate_max_len_iff req.encrypted_dek_b64 max_field_len "encrypted_dek_b64",
  validate_max_len_iff req.dek_nonce_b64 max_field_len "dek_nonce_b64",
)

pub validate_encrypt_iff :
    (req : EncryptRequest) → (validate_encrypt req ≡ ok tt) ↔ Within max_b64_len req.payload_b64
unfolding validate_encrypt
validate_encrypt_iff req =
    ground (arith, validate_max_len_iff req.payload_b64 max_b64_len "payload_b64")

-- The bytes that a request to /encrypt gives, and the sizes that are checked.
abbrev pub Accepts : {C D : Type 0} → Crates C D → EncryptRequest → Bytes → Type 0
Accepts x req m =
    Within max_b64_len req.payload_b64
    × (x.b64_decode req.payload_b64 ≡ some m)
    × (0 < length m)
    × (length m ≤ 1000000)

-- /encrypt takes the payload `m` from a request exactly if the text is filled and within its limit,
-- is Base64 of `m`, and `m` has a byte and at most a million bytes.
pub payload_of_iff :
    {C D : Type 0} (x : Crates C D) (req : EncryptRequest) (m : Bytes)
    → (payload_of x req ≡ ok m) ↔ Accepts x req m
unfolding payload_of
payload_of_iff x req m = ground (arith, validate_encrypt_iff req)
