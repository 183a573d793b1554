-- ===== src/Crates.antt =====
-- The third-party crates that the program calls: each is a parameter of the model. `Crates` has
-- the operations, with no law; `IsLawful` states what their documentation promises.
use Prim.Native.String.{len}
use secret_management.Prelude.{
  ◌+◌, ◌*◌, ◌/◌, ℕ, ◌^◌, ◌<◌, ◌≡◌, ◌≢◌, String, Bool, true, Option, none, some, Bytes, IsBytes,
  length,
}

-- `aes_gcm::Aes256Gcm` and `chacha20poly1305::ChaCha20Poly1305`: a cipher is made from a key;
-- `encrypt` and `decrypt` take the nonce, the message and the associated data, and may fail.
pub record Aead (C : Type 0) : Type 0 where
  pub new : Bytes → C
  pub encrypt : C → Bytes → Bytes → Bytes → Option Bytes
  pub decrypt : C → Bytes → Bytes → Bytes → Option Bytes

pub record Crates (C D : Type 0) : Type 0 where
  -- `aes_gcm::Aes256Gcm`
  pub aes : Aead C
  -- `chacha20poly1305::ChaCha20Poly1305`
  pub chacha : Aead D
  -- `<[u8; 32]>::from_hex`
  pub from_hex : String → Option Bytes
  -- `BASE64.encode` and `BASE64.decode`
  pub b64_encode : Bytes → String
  pub b64_decode : String → Option Bytes
  -- what the `i`-th call of `OsRng.fill_bytes` writes into a buffer of `n` bytes, as `random n i`
  pub random : ℕ → ℕ → Bytes
  -- `str::to_lowercase`, for its tables of Unicode
  pub to_lowercase : String → String

-- The crates of the signatures and hashes: `ed25519_dalek`, `rsa`, `sha2`, `sha3` and `blake2`. The
-- keys are of types `K` and `R`.
pub record SigningCrates (K R : Type 0) : Type 0 where
  -- `Sha256::digest`, `Sha512::digest`, `Sha3_256::digest` and `Blake2b512::digest`
  pub sha256 : Bytes → Bytes
  pub sha512 : Bytes → Bytes
  pub sha3_256 : Bytes → Bytes
  pub blake2b512 : Bytes → Bytes
  -- `SigningKey::from_bytes`
  pub from_bytes : Bytes → K
  -- `SigningKey::sign(msg).to_vec()`
  pub ed25519_sign : K → Bytes → Bytes
  -- `verifying_key().verify(msg, &Signature::from_bytes(sig)).is_ok()`
  pub ed25519_verify : K → Bytes → Bytes → Bool
  -- `RsaPrivateKey::new` with 3072 bits, at the `i`-th use of `OsRng`
  pub rsa_new : ℕ → R
  -- `sign_with_rng` under PSS of a digest, at the `i`-th use of `OsRng`
  pub rsa_sign : R → ℕ → Bytes → Option Bytes
  -- `to_public_key().verify` under PSS of a digest and a signature
  pub rsa_verify : R → Bytes → Bytes → Bool

-- What is signed is verified with the public half of the same key.
pub record IsLawfulSigning {K R : Type 0} (s : SigningCrates K R) : Type 0 where
  pub ed25519_verify-sign :
      (key : K) (msg : Bytes) → s.ed25519_verify key msg (s.ed25519_sign key msg) ≡ true
  pub length-ed25519_sign : (key : K) (msg : Bytes) → length (s.ed25519_sign key msg) ≡ 64
  pub ed25519_sign-IsBytes : (key : K) (msg : Bytes) → IsBytes (s.ed25519_sign key msg)
  pub rsa_verify-sign :
      (key : R) (i : ℕ) (digest sig : Bytes)
      → s.rsa_sign key i digest ≡ some sig
      → s.rsa_verify key digest sig ≡ true
  pub rsa_sign-IsBytes :
      (key : R) (i : ℕ) (digest sig : Bytes) → s.rsa_sign key i digest ≡ some sig → IsBytes sig

pub record IsLawfulAead {C : Type 0} (a : Aead C) : Type 0 where
  -- what was encrypted is decrypted with the same key, nonce and associated data
  pub opens :
      (key nonce msg aad c : Bytes)
      → a.encrypt (a.new key) nonce msg aad ≡ some c
      → a.decrypt (a.new key) nonce c aad ≡ some msg
  -- a ciphertext of bytes is made of bytes
  pub ciphertext_IsBytes :
      (key nonce msg aad c : Bytes)
      → IsBytes msg
      → a.encrypt (a.new key) nonce msg aad ≡ some c
      → IsBytes c
  -- a message and associated data below the limits of the crates (2^36 bytes) are encrypted
  pub seals :
      (key nonce msg aad : Bytes)
      → length key ≡ 32
      → length nonce ≡ 12
      → length msg < 2 ^ 36
      → length aad < 2 ^ 36
      → (c : Bytes) × (a.encrypt (a.new key) nonce msg aad ≡ some c)

-- Authenticity, of an ideal cipher: a ciphertext is refused under other associated data than its own.
pub record IsBinding {C : Type 0} (a : Aead C) : Type 0 where
  pub rejects :
      (key nonce msg aad aad' c : Bytes)
      → a.encrypt (a.new key) nonce msg aad ≡ some c
      → aad ≢ aad'
      → a.decrypt (a.new key) nonce c aad' ≡ none

pub record IsLawful {C D : Type 0} (x : Crates C D) : Type 0 where
  pub aes : IsLawfulAead x.aes
  pub chacha : IsLawfulAead x.chacha
  pub b64_decode-encode : (b : Bytes) → IsBytes b → x.b64_decode (x.b64_encode b) ≡ some b
  pub length-random : (n i : ℕ) → length (x.random n i) ≡ n
  pub random-IsBytes : (n i : ℕ) → IsBytes (x.random n i)
  pub b64_decode-IsBytes : (s : String) (b : Bytes) → x.b64_decode s ≡ some b → IsBytes b
  pub length-from_hex : (s : String) (b : Bytes) → x.from_hex s ≡ some b → length b ≡ 32

-- A ciphertext is the message's length and the 16 bytes of the tag.
pub record IsTagged {C : Type 0} (a : Aead C) : Type 0 where
  pub length-encrypt :
      (key nonce msg aad c : Bytes)
      → a.encrypt (a.new key) nonce msg aad ≡ some c
      → length c ≡ length msg + 16

-- The lengths that the ciphers and Base64 with padding give.
pub record IsSized {C D : Type 0} (x : Crates C D) : Type 0 where
  pub aes : IsTagged x.aes
  pub chacha : IsTagged x.chacha
  pub len-b64_encode : (b : Bytes) → IsBytes b → len (x.b64_encode b) ≡ (length b + 2) / 3 * 4

pub record IsAuthentic {C D : Type 0} (x : Crates C D) : Type 0 where
  pub aes : IsBinding x.aes
  pub chacha : IsBinding x.chacha
