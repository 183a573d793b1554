-- ===== src/Envelope/Binding.antt =====
-- A wrapped key of src/crypto/envelope.rs opens in its own context only: the tenant and the purpose
-- of an envelope cannot be exchanged, not by way of the legacy associated data either.
use secret_management.Prelude.{
  String, ◌≡◌, ◌≢◌, sym, ap, ◌∙◌, inl, inr, Bytes, length, arith, Result, ok, err, eq_iff,
  Bool-cases,
}
use secret_management.Std.Utf8.{as_bytes, length-as_bytes}
use secret_management.Std.Text.Case.{normalize}
use secret_management.Errors.{CryptoError, decryption_failed}
use secret_management.Aad.{CanonicalAad}
use secret_management.Aad.Injective.{Fits, AllFit, encode_inj, length-encode}
use secret_management.Crates.{Crates, IsLawful, IsAuthentic}
use secret_management.Symmetric.Laws.{aes_rejects, chacha_rejects}
use secret_management.Envelope.{EncryptedEnvelope, is_chacha, aad_bytes, wrap_key}
use secret_management.Envelope.Decrypt.{or_legacy, unwrap_key}
use secret_management.Envelope.Sealed.{HasCipher}
use secret_management.Envelope.Supported.{IsSupported, is_chacha-normalize}

-- The canonical associated data is longer than the legacy one, which is the key id alone.
pub aad_bytes-ne-key_id : (t p k a : String) → aad_bytes t p k a ≢ as_bytes k
unfolding aad_bytes
aad_bytes-ne-key_id t p k a e = omega (
  arith,
  ap length e,
  length-encode (record { tenant_id = t; purpose = p; key_id = k; algorithm = a }),
  length-as_bytes k,
)

pub aad_bytes_inj :
    (t p k a t' p' : String)
    → AllFit (record { tenant_id = t; purpose = p; key_id = k; algorithm = a })
    → Fits t'
    → Fits p'
    → aad_bytes t p k a ≡ aad_bytes t' p' k a
    → (t ≡ t') × (p ≡ p')
unfolding aad_bytes
aad_bytes_inj t p k a t' p' h ft fp e =
    let same =
      encode_inj (record { tenant_id = t; purpose = p; key_id = k; algorithm = a })
        (record { tenant_id = t'; purpose = p'; key_id = k; algorithm = a }) h (ft, fp, h.2, h.3)
        e in
    (ap (λ (r : CanonicalAad). r.tenant_id) same, ap (λ (r : CanonicalAad). r.purpose) same)

pub HasCipher-IsSupported : (a : String) → HasCipher (normalize a) → IsSupported (normalize a)
HasCipher-IsSupported a (inl h) =
    inr ((eq_iff (normalize a) "chacha20-poly1305").0 (sym (is_chacha-normalize a) ∙ h))
HasCipher-IsSupported a (inr h) = inl h

pub Fits-IsSupported : (n : String) → IsSupported n → Fits n
Fits-IsSupported n (inl e) = rw e (omega arith)
Fits-IsSupported n (inr e) = rw e (omega arith)

-- The two attempts at a wrapped key fail if both associated data are refused.
pub or_legacy_refused :
    (env : EncryptedEnvelope) (f : Bytes → Result CryptoError Bytes) (aad : Bytes)
    → f aad ≡ err decryption_failed
    → f (as_bytes env.key_id) ≡ err decryption_failed
    → or_legacy env f (f aad) ≡ err decryption_failed
unfolding or_legacy
or_legacy_refused env f aad p q = rw p (ground arith)

module _ {C D : Type 0} (x : Crates C D) (lawful : IsLawful x) (authentic : IsAuthentic x) where
  pub unwrap_key-refuses :
      (algorithm normalized : String) (kek nonce dek aad aad' c : Bytes)
      → HasCipher normalized
      → wrap_key x normalized kek nonce dek aad ≡ ok c
      → aad ≢ aad'
      → unwrap_key x algorithm normalized kek nonce c aad' ≡ err decryption_failed
  unfolding wrap_key unwrap_key
  unwrap_key-refuses algorithm normalized kek nonce dek aad aad' c h e other =
      elim (Bool-cases (is_chacha normalized)) [
        | inl cha ↦ rw (
          cha,
          unwrap_key,
          chacha_rejects x.chacha authentic.chacha kek nonce dek aad aad' c (ground arith) other,
        )
        | inr aes ↦ ground (
          arith,
          eq_iff normalized "aes-256-gcm",
          aes_rejects x.aes authentic.aes kek nonce dek aad aad' c (ground arith) other,
        )
      ]
