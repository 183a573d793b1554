-- ===== src/Symmetric/Laws.antt =====
-- The ciphers of src/crypto/symmetric keep the laws of the crates, through their check of the nonce.
use secret_management.Prelude.{length, ◌+◌, Bytes, IsBytes, ◌≡◌, ◌≢◌, ok, err, arith}
use secret_management.Crates.{Aead, IsLawfulAead, IsBinding, IsTagged}
use secret_management.Errors.{decryption_failed}
use secret_management.Symmetric.AesGcm
use secret_management.Symmetric.ChaCha

module _ {C : Type 0} (a : Aead C) (lawful : IsLawfulAead a) (key nonce m aad c : Bytes) where
  pub aes_opens :
      AesGcm.encrypt a (AesGcm.new a key) nonce m aad ≡ ok c
      → AesGcm.decrypt a (AesGcm.new a key) nonce c aad ≡ ok m
  unfolding AesGcm.encrypt AesGcm.decrypt AesGcm.new
  aes_opens e = ground (arith, lawful.opens key nonce m aad c)

  pub chacha_opens :
      ChaCha.encrypt a (ChaCha.new a key) nonce m aad ≡ ok c
      → ChaCha.decrypt a (ChaCha.new a key) nonce c aad ≡ ok m
  unfolding ChaCha.encrypt ChaCha.decrypt ChaCha.new
  chacha_opens e = ground (arith, lawful.opens key nonce m aad c)

  pub aes_IsBytes : IsBytes m → AesGcm.encrypt a (AesGcm.new a key) nonce m aad ≡ ok c → IsBytes c
  unfolding AesGcm.encrypt AesGcm.new
  aes_IsBytes h e = lawful.ciphertext_IsBytes key nonce m aad c h (ground arith)

  pub chacha_IsBytes :
      IsBytes m → ChaCha.encrypt a (ChaCha.new a key) nonce m aad ≡ ok c → IsBytes c
  unfolding ChaCha.encrypt ChaCha.new
  chacha_IsBytes h e = lawful.ciphertext_IsBytes key nonce m aad c h (ground arith)

module _ {C : Type 0} (a : Aead C) (binding : IsBinding a) (key nonce m aad aad' c : Bytes) where
  pub aes_rejects :
      AesGcm.encrypt a (AesGcm.new a key) nonce m aad ≡ ok c
      → aad ≢ aad'
      → AesGcm.decrypt a (AesGcm.new a key) nonce c aad' ≡ err decryption_failed
  unfolding AesGcm.encrypt AesGcm.decrypt AesGcm.new
  aes_rejects e h = ground (arith, binding.rejects key nonce m aad aad' c (ground arith) h)

  pub chacha_rejects :
      ChaCha.encrypt a (ChaCha.new a key) nonce m aad ≡ ok c
      → aad ≢ aad'
      → ChaCha.decrypt a (ChaCha.new a key) nonce c aad' ≡ err decryption_failed
  unfolding ChaCha.encrypt ChaCha.decrypt ChaCha.new
  chacha_rejects e h = ground (arith, binding.rejects key nonce m aad aad' c (ground arith) h)

module _ {C : Type 0} (a : Aead C) (tagged : IsTagged a) (key nonce m aad c : Bytes) where
  pub aes_length : AesGcm.encrypt a (AesGcm.new a key) nonce m aad ≡ ok c → length c ≡ length m + 16
  unfolding AesGcm.encrypt AesGcm.new
  aes_length e = tagged.length-encrypt key nonce m aad c (ground arith)

  pub chacha_length :
      ChaCha.encrypt a (ChaCha.new a key) nonce m aad ≡ ok c → length c ≡ length m + 16
  unfolding ChaCha.encrypt ChaCha.new
  chacha_length e = tagged.length-encrypt key nonce m aad c (ground arith)
