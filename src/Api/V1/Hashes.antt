-- ===== src/Api/V1/Hashes.antt =====
-- `hash_v1` of src/api/v1.rs.
use secret_management.Prelude.{
  String, ◌||◌, ◌==◌, if◌then◌else◌, Option, none, some, Result, ok, ok_or, ◌>>=◌, ◌>>◌,
}
use secret_management.Http.{bad_request}
use secret_management.Std.Text.Case.{normalize}
use secret_management.Crates.{Crates, SigningCrates}
use secret_management.Hash.{Hasher, sha256, sha512, sha3_256, blake2b512, hash}
use secret_management.Api.Models.{Failure}
use secret_management.Api.Dto.{HashDto, HashResponse}
use secret_management.Api.V1.{check_policy, b64d}

-- the name that the policy is asked about
unfoldable pub canon : String → String
canon lower =
    if lower == "sha256"
    then "sha-256"
    else if lower == "sha512"
    then "sha-512"
    else if lower == "sha3_256"
    then "sha3-256"
    else if lower == "blake2b512"
    then "blake2b"
    else lower

-- the hash of a name
unfoldable pub hasher_of : String → Option Hasher
hasher_of lower =
    if lower == "sha256" || lower == "sha-256"
    then some sha256
    else if lower == "sha512" || lower == "sha-512"
    then some sha512
    else if lower == "sha3-256" || lower == "sha3_256"
    then some sha3_256
    else if lower == "blake2b" || lower == "blake2b-512"
    then some blake2b512
    else none

unfoldable pub hash_v1 :
    {C D K R : Type 0} → Crates C D → SigningCrates K R → HashDto → Result Failure HashResponse
hash_v1 x s d = do
  check_policy (canon (normalize d.algo)) d.classification
  bytes ← b64d x d.content
  hasher ← ok_or (bad_request, "Unsupported algo") (hasher_of (normalize d.algo))
  ok (record { hash_b64 = x.b64_encode (hash s hasher bytes); algo = d.algo })
