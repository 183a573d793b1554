-- ===== src/Memory/Sealing.antt =====
-- What `encrypt_envelope` returns and what it leaves in memory.
use secret_management.Prelude.{
  ℕ, suc, String, ◌<◌, ◌≡◌, refl, true, false, ◌∷◌, length, Bytes, ok, inl, inr, Result-cases,
  arith,
}
use secret_management.Std.Text.Case.{normalize}
use secret_management.Policy.{strategis, validate_primitive_compliance}
use secret_management.Crates.{Crates}
use secret_management.Kek.{KekStore}
use secret_management.Envelope.{
  ◌>>=◌, Rand, lift, fill_bytes, EncryptedEnvelope, aad_bytes, encrypt_data, wrap_key,
  encrypt_envelope,
}
use secret_management.Memory.{Cell, Memory, content_at, kept, wiped}
use secret_management.Memory.Cells.{content_at-new, content_at-old, update-new}
use secret_management.Memory.Envelope.{seal, encrypt_envelope_in}

abbrev dek_cell : Bytes → Cell
dek_cell key = record { to_erase = true; content = key }

abbrev array_cell : Bytes → Cell
array_cell key = record { to_erase = false; content = key }

-- The buffers that the data key was in, after the code.
abbrev pub left_by_key : Bytes → Memory → Memory
left_by_key key m = wiped (dek_cell key) ∷ array_cell key ∷ m

module _ {C D : Type 0} (x : Crates C D) (st : KekStore C) (t pu alg : String) where
  -- `seal`, of the bytes themselves
  abbrev sealed : Bytes → Bytes → Rand EncryptedEnvelope
  sealed key message = do
    let normalized = normalize alg
    nonce ← fill_bytes x 12
    ciphertext ← lift (encrypt_data x alg normalized key nonce message)
    let aad = aad_bytes t pu st.current_id normalized
    dek_nonce ← fill_bytes x 12
    encrypted_dek ← lift (wrap_key x normalized st.current_raw dek_nonce key aad)
    lift (
        ok (record {
          ciphertext_b64 = x.b64_encode ciphertext;
          nonce_b64 = x.b64_encode nonce;
          encrypted_dek_b64 = x.b64_encode encrypted_dek;
          dek_nonce_b64 = x.b64_encode dek_nonce;
          key_id = st.current_id;
          tenant_id = t;
          purpose = pu;
          algorithm = normalized;
        }))

  seal-sealed :
      (p dek i : ℕ) (m : Memory)
      → seal x st t pu alg p dek i m ≡ kept m (sealed (content_at dek m) (content_at p m) i)
  unfolding seal
  seal-sealed p dek i m =
      let key = content_at dek m in
      let aad = aad_bytes t pu st.current_id (normalize alg) in
      elim (Result-cases
        (encrypt_data x alg (normalize alg) key (x.random 12 i) (content_at p m))) [
          | inr (e, q) ↦ rw q refl
          | inl (c, q) ↦
              elim (Result-cases
                (wrap_key x (normalize alg) st.current_raw (x.random 12 (suc i)) key aad)) [
                  | inr (e, r) ↦ rw (q, r) refl
                  | inl (d, r) ↦ rw (q, r) refl
                ]
        ]

  encrypt_envelope-sealed :
      (message : Bytes) (i : ℕ)
      → validate_primitive_compliance (normalize alg) strategis ≡ ok tt
      → encrypt_envelope x st t pu alg message i ≡ sealed (x.random 32 i) message (suc i)
  unfolding encrypt_envelope
  encrypt_envelope-sealed message i e = rw e refl

  pub encrypt_envelope_in_lem :
      (p i : ℕ) (m : Memory)
      → p < length m
      → validate_primitive_compliance (normalize alg) strategis ≡ ok tt
      → encrypt_envelope_in x st t pu alg p i m
        ≡ kept (left_by_key (x.random 32 i) m) (encrypt_envelope x st t pu alg (content_at p m) i)
  unfolding encrypt_envelope_in
  encrypt_envelope_in_lem p i m h e =
      let arr = array_cell (x.random 32 i) in
      let dek = dek_cell (x.random 32 i) in
      rw
        (
          e,
          update-new,
          content_at-new,
          seal-sealed,
          update-new,
          content_at-new,
          content_at-old p dek (arr ∷ m) (omega (arith, h)),
          content_at-old p arr m h,
          encrypt_envelope-sealed (content_at p m) i e,
        )
        refl
