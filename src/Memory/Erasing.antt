-- ===== src/Memory/Erasing.antt =====
-- What code that returns leaves in memory, for the parts that the handlers share.
use secret_management.Prelude.{
  ℕ, String, ◌≡◌, refl, true, false, ◌∷◌, length, Bytes, Result, ok, err, map_err, arith,
}
use secret_management.Prelude.{◌>>=◌ as ◌>?◌}
use secret_management.Std.Text.{trim, is_whitespace, lower_char, to_ascii_lowercase}
use secret_management.Std.Text.Case.{normalize}
use secret_management.Errors.{CryptoError}
use secret_management.Policy.{strategis, validate_primitive_compliance}
use secret_management.Services.Tenants.{always_compliant}
use secret_management.Crates.{Crates}
use secret_management.Kek.{KekStore}
use secret_management.Envelope.{encrypt_envelope}
use secret_management.Api.Models.{Failure}
use secret_management.Memory.{
  Cell, Memory, Mem, resume, renamed, ◌>>=◌, lift, kept, with_dropped, wiped,
}
use secret_management.Memory.Cells.{content_at-new, update-new, update-old, zeroed-IsZero, Erased}
use secret_management.Memory.Envelope.{encrypt_envelope_in}
use secret_management.Memory.Sealing.{left_by_key, encrypt_envelope_in_lem}
use secret_management.Memory.Opening.{Opens}
use secret_management.Memory.Handlers.{encoded}

-- Code returns what it should, and leaves no buffer that a type should have erased.
abbrev pub Erases : {E A : Type 0} → Result E A × ℕ → Result E A × ℕ × Memory → Type 0
Erases r outcome = (m' : Memory) × (outcome ≡ kept m' r) × Erased m'

pub Erases-lift :
    {E A B V : Type 0} (finish : Result E B → Result E V × ℕ) (r : Result E A) (f : A → Mem E V)
    (g : A → Result E B) (i : ℕ) (m : Memory)
    → Erased m
    → ((e : E) → finish (err e) ≡ (err e, i))
    → ((a : A) → Erases (finish (g a)) (f a i m))
    → Erases (finish (r >? g)) ((lift r >>= f) i m)
Erases-lift finish (ok a) f g i m d q h = h a
Erases-lift finish (err e) f g i m d q h = (m, rw (q e) refl, d)

normalize_aes : normalize "aes-256-gcm" ≡ "aes-256-gcm"
unfolding normalize trim is_whitespace lower_char to_ascii_lowercase
normalize_aes = refl

aes_complies : validate_primitive_compliance (normalize "aes-256-gcm") strategis ≡ ok tt
aes_complies = rw normalize_aes (always_compliant strategis)

abbrev pub owned : Bytes → Cell
owned b = record { to_erase = true; content = b }

module _ {C D : Type 0} (x : Crates C D) where
  -- The memory after a payload was encrypted: its buffer, and those of the data key.
  abbrev pub after_payload : Bytes → ℕ → Memory → Memory
  after_payload b i m = left_by_key (x.random 32 i) (wiped (owned b) ∷ m)

  pub dropped_lem :
      (st : KekStore C) (t pu : String) (b : Bytes) (i : ℕ) (m : Memory)
      → with_dropped
          (length m)
          (encrypt_envelope_in x st t pu "aes-256-gcm" (length m) i (owned b ∷ m))
        ≡ kept (after_payload b i m) (encrypt_envelope x st t pu "aes-256-gcm" b i)
  dropped_lem st t pu b i m =
      let dek : Cell = wiped (record { to_erase = true; content = x.random 32 i }) in
      let array : Cell = record { to_erase = false; content = x.random 32 i } in
      let below : Memory = array ∷ owned b ∷ m in
      rw
        (
          encrypt_envelope_in_lem x st t pu "aes-256-gcm" (length m) i (owned b ∷ m) (omega arith)
              aes_complies,
          content_at-new (owned b) m,
          update-old (length m) wiped dek below (omega arith),
          update-old (length m) wiped array (owned b ∷ m) (omega arith),
          update-new wiped (owned b) m,
        )
        refl

  pub after_payload-Erased :
      (b : Bytes) (i : ℕ) (m : Memory) → Erased m → Erased (after_payload b i m)
  after_payload-Erased b i m d =
      (λ _. zeroed-IsZero (x.random 32 i), ((λ w. cc w), ((λ _. zeroed-IsZero b), d)))

  pub encoded-Erases :
      {A : Type 0} (f : CryptoError → Failure) (to_answer : String → A)
      (r : Result CryptoError Bytes) (i : ℕ) (m : Memory)
      (outcome : Result CryptoError ℕ × ℕ × Memory)
      → Opens r i m outcome
      → Erased m
      → Erases
          (map_err f r >? (λ b. ok (to_answer (x.b64_encode b))), i)
          (resume (renamed f outcome) (encoded x to_answer))
  encoded-Erases f to_answer (ok b) i m outcome (m', q, e) d =
      rw (q, content_at-new (owned b) m', update-new wiped (owned b) m')
        (_, refl, ((λ _. zeroed-IsZero b), e d))
  encoded-Erases f to_answer (err c) i m outcome (m', q, e) d = rw q (m', refl, e d)
