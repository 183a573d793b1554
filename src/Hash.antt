-- ===== src/Hash.antt =====
-- src/crypto/hash/mod.rs: the four hashes, as one function each of the crates.
use secret_management.Prelude.{Bytes}
use secret_management.Crates.{SigningCrates}

pub data Hasher : Type 0 where
  sha256 sha512 sha3_256 blake2b512 : Hasher

-- `Hasher::hash`, for each of the four types
unfoldable pub hash : {K R : Type 0} → SigningCrates K R → Hasher → Bytes → Bytes
hash s sha256 bytes = s.sha256 bytes
hash s sha512 bytes = s.sha512 bytes
hash s sha3_256 bytes = s.sha3_256 bytes
hash s blake2b512 bytes = s.blake2b512 bytes
