-- ===== src/Symmetric/ChaCha.antt =====
-- src/crypto/symmetric/chacha20.rs: `ChaChaCipher`. The `Zeroize` of the source is empty,
-- so dropping a cipher changes no buffer.
use secret_management.Prelude.{Bytes, length, Result, not, eqb, if◌then◌else◌, ok_or, err}
use secret_management.Errors.{CryptoError, encryption_failed, decryption_failed}
use secret_management.Crates.{Aead}

pub record ChaChaCipher (C : Type 0) : Type 0 where
  pub cipher : C

module _ {C : Type 0} (a : Aead C) where
  unfoldable pub new : Bytes → ChaChaCipher C
  new key = record { cipher = a.new key }

  unfoldable pub encrypt : ChaChaCipher C → Bytes → Bytes → Bytes → Result CryptoError Bytes
  encrypt self nonce plaintext aad =
      if not (eqb (length nonce) 12)
      then err encryption_failed
      else ok_or encryption_failed (a.encrypt self.cipher nonce plaintext aad)

  unfoldable pub decrypt : ChaChaCipher C → Bytes → Bytes → Bytes → Result CryptoError Bytes
  decrypt self nonce ciphertext aad =
      if not (eqb (length nonce) 12)
      then err decryption_failed
      else ok_or decryption_failed (a.decrypt self.cipher nonce ciphertext aad)
