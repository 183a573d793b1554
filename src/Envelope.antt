-- ===== src/Envelope.antt =====
-- src/crypto/envelope.rs: a fresh data key encrypts the payload, and the key encryption key wraps
-- the data key, bound to its context. The module `Decrypt` has the way back.
pub mod Decrypt
pub mod Sealed
pub mod Sizes
pub mod Opened
pub mod RoundTrip
pub mod Legacy
pub mod Errors
pub mod Context
pub mod Binding
pub mod Supported
use secret_management.Prelude.{
  ℕ, suc, String, Bool, ◌==◌, [], Bytes, if◌then◌else◌, Result, ok, err, map_err,
}
use Prim.Native.String.{◌++◌ as ◌<>◌}
use secret_management.Std.Text.{trim, eq_ignore_ascii_case}
use secret_management.Std.Text.Case.{normalize}
use secret_management.Errors.{CryptoError, encryption_failed, policy_violation}
use secret_management.Policy.{strategis, validate_primitive_compliance}
use secret_management.Aad
use secret_management.Aad.{encode}
use secret_management.Crates.{Crates}
use secret_management.Kek.{KekStore}
use secret_management.Symmetric.AesGcm
use secret_management.Symmetric.ChaCha

pub record EncryptedEnvelope : Type 0 where
  pub ciphertext_b64 : String
  pub nonce_b64 : String
  pub encrypted_dek_b64 : String
  pub dek_nonce_b64 : String
  pub key_id : String
  pub tenant_id : String
  pub purpose : String
  pub algorithm : String

unfoldable pub is_chacha : String → Bool
is_chacha algorithm = eq_ignore_ascii_case (trim algorithm) "chacha20-poly1305"

unfoldable pub aad_bytes : String → String → String → String → Bytes
aad_bytes tenant_id purpose key_id algorithm = encode (Aad.new tenant_id purpose key_id algorithm)

unfoldable pub unsupported : String → CryptoError
unsupported algorithm = policy_violation ("unsupported algorithm '" <> algorithm <> "'")

-- Code that draws from `OsRng`: the state counts the draws.
abbrev pub Rand : Type 0 → Type 0
Rand A = ℕ → Result CryptoError A × ℕ

-- An error ends the code, and keeps the draws that were made.
abbrev pub resume :
    {A B : Type 0} → Result CryptoError A × ℕ → (A → Rand B) → Result CryptoError B × ℕ
resume (ok a, j) f = f a j
resume (err e, j) f = (err e, j)

infixl 5 ◌>>=◌ ◌>>◌
abbrev pub ◌>>=◌ : {A B : Type 0} → Rand A → (A → Rand B) → Rand B
◌>>=◌ m f i = resume (m i) f

abbrev pub ◌>>◌ : {A B : Type 0} → Rand A → Rand B → Rand B
m >> k = m >>= λ _. k

abbrev pub lift : {A : Type 0} → Result CryptoError A → Rand A
lift r i = (r, i)

module _ {C D : Type 0} (x : Crates C D) where
  -- `OsRng.fill_bytes(&mut buffer)` for a buffer of `n` bytes
  abbrev pub fill_bytes : ℕ → Rand Bytes
  fill_bytes n i = (ok (x.random n i), suc i)

  -- the payload under the data key
  unfoldable pub encrypt_data : String → String → Bytes → Bytes → Bytes → Result CryptoError Bytes
  encrypt_data algorithm normalized dek nonce plaintext =
      if is_chacha normalized
      then map_err (λ _. encryption_failed)
          (ChaCha.encrypt x.chacha (ChaCha.new x.chacha dek) nonce plaintext [])
      else if normalized == "aes-256-gcm"
      then map_err (λ _. encryption_failed)
          (AesGcm.encrypt x.aes (AesGcm.new x.aes dek) nonce plaintext [])
      else err (unsupported algorithm)

  -- the data key under the key encryption key
  unfoldable pub wrap_key : String → Bytes → Bytes → Bytes → Bytes → Result CryptoError Bytes
  wrap_key normalized kek dek_nonce dek aad =
      if is_chacha normalized
      then map_err (λ _. encryption_failed)
          (ChaCha.encrypt x.chacha (ChaCha.new x.chacha kek) dek_nonce dek aad)
      else map_err (λ _. encryption_failed)
          (AesGcm.encrypt x.aes (AesGcm.new x.aes kek) dek_nonce dek aad)

  unfoldable pub encrypt_envelope :
      KekStore C → String → String → String → Bytes → Rand EncryptedEnvelope
  encrypt_envelope st tenant_id purpose algorithm plaintext = do
    let normalized = normalize algorithm
    lift (validate_primitive_compliance normalized strategis)
    dek ← fill_bytes 32
    nonce ← fill_bytes 12
    ciphertext ← lift (encrypt_data algorithm normalized dek nonce plaintext)
    let aad = aad_bytes tenant_id purpose st.current_id normalized
    dek_nonce ← fill_bytes 12
    encrypted_dek ← lift (wrap_key normalized st.current_raw dek_nonce dek aad)
    lift (
        ok (record {
          ciphertext_b64 = x.b64_encode ciphertext;
          nonce_b64 = x.b64_encode nonce;
          encrypted_dek_b64 = x.b64_encode encrypted_dek;
          dek_nonce_b64 = x.b64_encode dek_nonce;
          key_id = st.current_id;
          tenant_id = tenant_id;
          purpose = purpose;
          algorithm = normalized;
        }))
