-- ===== src/Symmetric.antt =====
-- src/crypto/symmetric: the two ciphers behind the trait `AeadCipher`, which check the nonce.
pub mod AesGcm
pub mod ChaCha
pub mod Laws
