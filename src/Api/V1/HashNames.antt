-- ===== src/Api/V1/HashNames.antt =====
-- Which names `hash_v1` of src/api/v1.rs serves at the strictest classification, against a table.
use secret_management.Prelude.{
  String, ◌≡◌, refl, sym, ap, ◌∙◌, ◌↔◌, inl, inr, false, Bool-cases, none, some, List, All, [], ◌∷◌,
  Bytes, arith, ok, Option-cases, Result-cases, ok_inj, eq_iff,
}
use secret_management.Std.Map.{HashMap, get}
use secret_management.Std.OneOf.{All-OneOf, one_of, one_of_iff}
use secret_management.Std.Text.{trim, is_whitespace, lower_char, to_ascii_lowercase}
use secret_management.Std.Text.Case.{normalize}
use secret_management.Policy.{
  strategis, is_strategis, is_allowed, not_allowed, validate_primitive_compliance,
}
use secret_management.Crates.{Crates, SigningCrates}
use secret_management.Hash.{Hasher, sha256, sha512, sha3_256, blake2b512, hash}
use secret_management.Api.Dto.{HashDto, HashResponse}
use secret_management.Api.V1.{class, check_policy, b64d}
use secret_management.Api.V1.Hashes.{canon, hasher_of, hash_v1}

-- The names that are served, with their hashes.
abbrev pub served_hashes : HashMap Hasher
served_hashes =
    ("sha256", sha256)
    ∷ ("sha-256", sha256)
    ∷ ("sha512", sha512)
    ∷ ("sha-512", sha512)
    ∷ ("sha3-256", sha3_256)
    ∷ ("sha3_256", sha3_256)
    ∷ ("blake2b", blake2b512)
    ∷ []

-- The names that the last match of the code knows.
abbrev known : List String
known =
    "sha256" ∷ "sha-256" ∷ "sha512" ∷ "sha-512" ∷ "sha3-256" ∷ "sha3_256" ∷ "blake2b"
    ∷ "blake2b-512" ∷ []

-- A name passes the policy and has a hash exactly if the table has it.
abbrev IsServed : String → Type 0
IsServed n =
    (h : Hasher)
    → ((validate_primitive_compliance (canon n) strategis ≡ ok tt) × (hasher_of n ≡ some h))
      ↔ (get n served_hashes ≡ some h)

both-IsServed :
    (n : String)
    → validate_primitive_compliance (canon n) strategis ≡ ok tt
    → hasher_of n ≡ get n served_hashes
    → IsServed n
both-IsServed n p q h = (λ e. sym q ∙ e.1, λ e. (p, q ∙ e))

known-IsServed : All IsServed known
unfolding validate_primitive_compliance is_strategis is_allowed canon hasher_of get normalize trim
    is_whitespace lower_char to_ascii_lowercase not_allowed
known-IsServed = (
  both-IsServed "sha256" refl refl,
  (
    both-IsServed "sha-256" refl refl,
    (
      both-IsServed "sha512" refl refl,
      (
        both-IsServed "sha-512" refl refl,
        (
          both-IsServed "sha3-256" refl refl,
          (
            both-IsServed "sha3_256" refl refl,
            (both-IsServed "blake2b" refl refl, (λ h. (λ p. cc p.0, λ q. cc), tt)),
          ),
        ),
      ),
    ),
  ),
)

unknown-none :
    (n : String) → one_of n known ≡ false → (hasher_of n ≡ none) × (get n served_hashes ≡ none)
unfolding hasher_of get one_of
unknown-none n h = ground (
  arith,
  eq_iff n "sha256",
  eq_iff "sha256" n,
  eq_iff n "sha-256",
  eq_iff "sha-256" n,
  eq_iff n "sha512",
  eq_iff "sha512" n,
  eq_iff n "sha-512",
  eq_iff "sha-512" n,
  eq_iff n "sha3-256",
  eq_iff "sha3-256" n,
  eq_iff n "sha3_256",
  eq_iff "sha3_256" n,
  eq_iff n "blake2b",
  eq_iff "blake2b" n,
)

every-IsServed : (n : String) → IsServed n
every-IsServed n = elim (Bool-cases (one_of n known)) [
  | inl e ↦ All-OneOf IsServed n known known-IsServed ((one_of_iff n known).0 e)
  | inr e ↦ let (p, q) = unknown-none n e in λ h. (λ r. cc (p, r.1), λ r. cc (q, r))
]

-- At the strictest classification and with a content that is the Base64 of `m`, the answer is the
-- Base64 of the hash of `m` that the table has for the name, trimmed and in lower case; a name that is
-- not in the table is refused. "blake2b512" and "blake2b-512" are not in it.
pub hash_v1_iff :
    {C D K R : Type 0} (x : Crates C D) (s : SigningCrates K R) (d : HashDto) (m : Bytes)
    (resp : HashResponse)
    → class d.classification ≡ strategis
    → x.b64_decode d.content ≡ some m
    → (hash_v1 x s d ≡ ok resp) ↔ (
        (h : Hasher) × (get (normalize d.algo) served_hashes ≡ some h)
        × (record { hash_b64 = x.b64_encode (hash s h m); algo = d.algo } ≡ resp))
unfolding hash_v1 check_policy b64d
hash_v1_iff x s d m resp strict decoded =
    let served = every-IsServed (normalize d.algo) in
    (
      λ e.
          elim (Result-cases (validate_primitive_compliance (canon (normalize d.algo)) strategis)) [
            | inr (c, p) ↦ cc (rw (strict, hash_v1, p, check_policy) at e)
            | inl (_, p) ↦ elim (Option-cases (hasher_of (normalize d.algo))) [
              | inl q ↦ cc (rw (strict, hash_v1, p, decoded, q, check_policy) at e)
              | inr (h, q) ↦ (
                h,
                (served h).0 (p, q),
                ok_inj (rw (strict, hash_v1, p, decoded, q, check_policy) at e),
              )
            ]
          ],
      λ p.
          let (valid, found) = (served p.0).1 p.1 in
          rw (strict, hash_v1, valid, decoded, found, check_policy) (ap ok p.2),
    )
