-- ===== src/Memory/Opening.antt =====
-- What `decrypt_envelope` returns and what it leaves in memory.
use secret_management.Prelude.{
  ℕ, suc, String, ◌≡◌, refl, true, false, not, eqb, ◌∷◌, length, Bytes, Result, ok, err, ok_or,
  ◌||◌, fail_if, inl, inr, Bool-cases, Result-cases, arith,
}
use secret_management.Prelude.{◌>>=◌ as ◌>?◌}
use secret_management.Errors.{CryptoError, decryption_failed, unknown_key_id}
use secret_management.Crates.{Crates}
use secret_management.Kek.{KekStore, resolve_raw}
use secret_management.Envelope.{EncryptedEnvelope, aad_bytes}
use secret_management.Policy.{strategis, validate_primitive_compliance}
use secret_management.Std.Text.Case.{normalize}
use secret_management.Envelope.Decrypt.{
  algorithm_of, or_legacy, unwrap_key, b64_field, decrypt_data, open_envelope, decrypt_envelope,
}
use secret_management.Memory.{Cell, Memory, Mem, ◌>>=◌, lift, wiped, with_dropped}
use secret_management.Memory.Cells.{
  content_at-new, content_at-old, update-new, update-old, zeroed-IsZero, Erased,
}
use secret_management.Memory.Envelope.{zeros, unseal, with_dek, with_vec, decrypt_envelope_in}

-- The outcome of code that opens an envelope, against what it should return: the error, or the
-- address of a new buffer with the payload, which its type erases when it is dropped. Of the buffers
-- before it those are erased that their types erase.
abbrev pub Opens :
    Result CryptoError Bytes → ℕ → Memory → Result CryptoError ℕ × ℕ × Memory → Type 0
Opens (err e) i m outcome = (m' : Memory) × (outcome ≡ (err e, i, m')) × (Erased m → Erased m')
Opens (ok b) i m outcome =
    (m' : Memory) × (outcome ≡ (ok (length m'), i, record { to_erase = true; content = b } ∷ m'))
    × (Erased m → Erased m')

Opens-lift :
    {A : Type 0} (r : Result CryptoError A) (f : A → Mem CryptoError ℕ)
    (g : A → Result CryptoError Bytes) (i : ℕ) (m : Memory)
    → ((a : A) → Opens (g a) i m (f a i m))
    → Opens (r >? g) i m ((lift r >>= f) i m)
Opens-lift (ok a) f g i m h = h a
Opens-lift (err e) f g i m h = (m, refl, λ d. d)

module _ {C D : Type 0} (x : Crates C D) where
  -- The buffers as `unseal` finds them: the data key, the array it came from, and the vector.
  abbrev prepared : Bytes → Memory → Memory
  prepared key m =
      record { to_erase = true; content = key }
      ∷ record { to_erase = false; content = key }
      ∷ wiped (record { to_erase = true; content = key })
      ∷ m

  with_dek-prepared :
      (normalized : String) (key nonce ciphertext : Bytes) (i : ℕ) (m : Memory)
      → with_dek x normalized
          (length m)
          nonce
          ciphertext
          i
          (record { to_erase = true; content = key } ∷ m)
        ≡ with_dropped
            (suc (suc (length m)))
            (unseal x normalized (suc (suc (length m))) nonce ciphertext i (prepared key m))
  unfolding with_dek
  with_dek-prepared normalized key nonce ciphertext i m =
      let vec : Cell = record { to_erase = true; content = key } in
      let array : Cell = record { to_erase = false; content = key } in
      let blank : Cell = record { to_erase = false; content = zeros 32 } in
      rw
        (
          content_at-old (length m) blank (vec ∷ m) (omega arith),
          content_at-new vec m,
          update-new _ blank (vec ∷ m),
          update-old (length m) wiped array (vec ∷ m) (omega arith),
          update-new wiped vec m,
          content_at-new array (wiped vec ∷ m),
        )
        refl

  unseal-Opens :
      (normalized : String) (key nonce ciphertext : Bytes) (i : ℕ) (m : Memory)
      → Opens (decrypt_data x normalized key nonce ciphertext) i m (
          with_dropped
            (suc (suc (length m)))
            (unseal x normalized (suc (suc (length m))) nonce ciphertext i (prepared key m)))
  unfolding unseal
  unseal-Opens normalized key nonce ciphertext i m =
      let array : Cell = record { to_erase = false; content = key } in
      let dek : Cell = record { to_erase = true; content = key } in
      let below = array ∷ wiped dek ∷ m in
      let erased : Erased m → Erased (wiped dek ∷ below) =
        λ h. (λ _. zeroed-IsZero key, ((λ w. cc w), ((λ _. zeroed-IsZero key), h))) in
      elim (Result-cases (decrypt_data x normalized key nonce ciphertext)) [
        | inr (e, q) ↦
            rw (content_at-new dek below, q, update-new wiped dek below) (_, refl, erased)
        | inl (b, q) ↦
            let plain : Cell = record { to_erase = false; content = b } in
            let owned : Cell = record { to_erase = true; content = b } in
            rw
              (
                content_at-new dek below,
                q,
                update-new (λ c. record c { to_erase = true }) plain (dek ∷ below),
                update-old (length below) wiped owned (dek ∷ below) (omega arith),
                update-new wiped dek below,
              )
              (_, refl, erased)
      ]

  with_dek-Opens :
      (normalized : String) (key nonce ciphertext : Bytes) (i : ℕ) (m : Memory)
      → Opens (decrypt_data x normalized key nonce ciphertext) i m (
          with_dek x normalized
            (length m)
            nonce
            ciphertext
            i
            (record { to_erase = true; content = key } ∷ m))
  with_dek-Opens normalized key nonce ciphertext i m =
      rw (with_dek-prepared normalized key nonce ciphertext i m)
        (unseal-Opens normalized key nonce ciphertext i m)

  with_vec-Opens :
      (normalized : String) (key nonce ciphertext : Bytes) (i : ℕ) (m : Memory)
      → Opens
          (fail_if {0} (not (eqb (length key) 32)) decryption_failed >? λ _.
            decrypt_data x normalized key nonce ciphertext)
          i
          m
          (with_vec x normalized key nonce ciphertext i m)
  unfolding with_vec
  with_vec-Opens normalized key nonce ciphertext i m =
      elim (Bool-cases (not (eqb (length key) 32))) [
        | inl e ↦ rw (e, update-new) (_, refl, λ h. (λ _. zeroed-IsZero key, h))
        | inr e ↦ rw e (with_dek-Opens normalized key nonce ciphertext i m)
      ]

  pub decrypt_envelope_in-Opens :
      (st : KekStore C) (env : EncryptedEnvelope) (i : ℕ) (m : Memory)
      → Opens (decrypt_envelope x st env) i m (decrypt_envelope_in x st env i m)
  unfolding decrypt_envelope_in decrypt_envelope open_envelope
  decrypt_envelope_in-Opens st env i m =
      let algorithm = algorithm_of env in
      let normalized = normalize algorithm in
      Opens-lift (b64_field x env.ciphertext_b64) _ _ i m λ ciphertext.
        Opens-lift (b64_field x env.nonce_b64) _ _ i m λ nonce.
          Opens-lift (b64_field x env.encrypted_dek_b64) _ _ i m λ encrypted_dek.
            Opens-lift (b64_field x env.dek_nonce_b64) _ _ i m λ dek_nonce.
              Opens-lift
                (fail_if {0} (not (eqb (length nonce) 12) || not (eqb (length dek_nonce) 12))
                  decryption_failed)
                _ _ i m
                λ _. Opens-lift (validate_primitive_compliance normalized strategis) _ _ i m λ _.
                  Opens-lift (ok_or unknown_key_id (resolve_raw st env.key_id)) _ _ i m λ kek.
                    let try_decrypt =
                      unwrap_key x algorithm normalized kek dek_nonce encrypted_dek in
                    Opens-lift
                      (or_legacy env try_decrypt
                        (try_decrypt (aad_bytes env.tenant_id env.purpose env.key_id normalized)))
                      _ _ i m λ key. with_vec-Opens normalized key nonce ciphertext i m
