-- ===== src/Memory/Erasure.antt =====
-- What the handlers leave in memory, and what all code with secrets does.
use secret_management.Prelude.{
  String, ℕ, ◌≡◌, refl, ltb, eqb, true, false, ◌∷◌, length, Bytes, Option, Result, ok, err, ok_or,
  fail_if, arith,
}
use secret_management.Http.{bad_request, payload_too_large, internal_server_error}
use secret_management.Errors.{CryptoError}
use secret_management.Crates.{Crates}
use secret_management.Kek.{KekStore}
use secret_management.Envelope.{EncryptedEnvelope}
use secret_management.Envelope.Decrypt.{decrypt_envelope}
use secret_management.Api.Models.{
  EncryptRequest, DecryptRequest, Failure, validate_encrypt, validate_decrypt,
}
use secret_management.Api.Handlers.{
  response_of, envelope_of, decrypt_failure, payload_of, encrypted, encrypt_payload,
  encrypt_handler, decrypt_handler,
}
use secret_management.Memory.{zeroed, Cell, Memory, resume, renamed, lift, kept, with_dropped}
use secret_management.Memory.Cells.{update-new, Erased}
use secret_management.Memory.Opening.{decrypt_envelope_in-Opens}
use secret_management.Memory.Handlers.{respond, encrypt_handler_in, decrypt_handler_in}
use secret_management.Services.KeyService.{KeyService}
use secret_management.Api.Limits.{payload_of_iff, validate_encrypt_iff}
use secret_management.Api.Dto.{EncryptDto, DecryptDto}
use secret_management.Api.V1.{encrypt_v1, decrypt_v1}
use secret_management.Memory.Handlers.{encrypt_v1_in, decrypt_v1_in}
use secret_management.Memory.V1.{encrypt_v1_in-Erases, decrypt_v1_in-Erases}
use secret_management.Kek.FromEnv.{pair_from_hex}
use secret_management.Memory.Kek.{pair_from_hex_in, pair_from_hex_in-Erases}
use secret_management.Memory.Erasing.{
  Erases, Erases-lift, owned, after_payload, dropped_lem, after_payload-Erased, encoded-Erases,
}

-- the answer for the result of `encrypt_envelope`, after which the payload is dropped
settled :
    (p : ℕ) (outcome : Result CryptoError EncryptedEnvelope × ℕ × Memory) (m : Memory)
    (r : Result CryptoError EncryptedEnvelope × ℕ)
    → with_dropped p outcome ≡ kept m r
    → with_dropped p (
        resume
          (renamed {E = CryptoError} {F = Failure}
            (λ _. (internal_server_error, "Encryption failed"))
            outcome)
          (λ a. lift (ok (response_of a))))
      ≡ kept m (encrypted r)
settled p (ok a, i, m) n (ok b, j) e = cc
settled p (ok a, i, m) n (err b, j) e = cc
settled p (err a, i, m) n (ok b, j) e = cc
settled p (err a, i, m) n (err b, j) e = cc

module _ {C D : Type 0} (x : Crates C D) where
  respond_lem :
      (st : KekStore C) (b : Bytes) (i : ℕ) (m : Memory)
      → with_dropped (length m) (respond x st (length m) i (owned b ∷ m))
        ≡ kept (after_payload x b i m) (encrypt_payload x st (ok b) i)
  respond_lem st b i m = settled (length m) _ _ _ (dropped_lem x st "default" "default" b i m)

  encrypt_handler_in-Erases :
      (st : KekStore C) (payload : EncryptRequest) (i : ℕ) (m : Memory)
      → Erased m
      → Erases (encrypt_handler x st payload i) (encrypt_handler_in x st payload i m)
  unfolding encrypt_handler payload_of encrypt_handler_in
  encrypt_handler_in-Erases st payload i m d =
      let finish = λ (r : Result Failure Bytes). encrypt_payload x st r i in
      Erases-lift finish (validate_encrypt payload) _ _ i m d (λ e. refl)
        λ _.
          Erases-lift finish
            (ok_or (bad_request, "Invalid base64 encoding") (x.b64_decode payload.payload_b64)) _ _
            i m d (λ e. refl)
            λ b.
              let plain : Cell = record { to_erase = false; content = b } in
              let d' : Erased (plain ∷ m) = ((λ w. cc w), d) in
              Erases-lift finish
                (fail_if {0} (eqb (length b) 0) (bad_request, "Plaintext must not be empty")) _ _ i
                (plain ∷ m) d' (λ e. refl)
                λ _.
                  Erases-lift finish
                    (fail_if {0} (ltb 1000000 (length b))
                      (payload_too_large, "Decoded payload exceeds 1MB"))
                    _ _ i (plain ∷ m) d' (λ e. refl)
                    λ _. (
                      after_payload x b i m,
                      rw (update-new (λ c. record c { to_erase = true }) plain m)
                          (respond_lem st b i m),
                      after_payload-Erased x b i m d,
                    )

  decrypt_handler_in-Erases :
      (st : KekStore C) (payload : DecryptRequest) (i : ℕ) (m : Memory)
      → Erased m
      → Erases (decrypt_handler x st payload, i) (decrypt_handler_in x st payload i m)
  unfolding decrypt_handler decrypt_handler_in
  decrypt_handler_in-Erases st payload i m d =
      Erases-lift (λ r. (r, i)) (validate_decrypt payload) _ _ i m d (λ e. refl)
        λ _.
          encoded-Erases x (decrypt_failure payload.key_id) (λ text. record { payload_b64 = text })
            (decrypt_envelope x st (envelope_of payload)) i m _
            (decrypt_envelope_in-Opens x st (envelope_of payload) i m) d

  -- Over buffers that keep their bytes after they are freed, each of the four handlers that see a
  -- plaintext, and the code that reads a key encryption key, returns what it returns by its bytes
  -- alone, with any result and after as many draws, and whether it succeeds or not, where it starts
  -- with every buffer erased whose owner erases it, it ends so: the wrapped payload, the wrapped keys
  -- and the vector that a data key was unwrapped into are wiped on every path.
  pub secrets_are_wiped :
      {K R : Type 0} (st : KekStore C) (ks : KeyService C K R)
      (from_slice : Bytes → Option EncryptedEnvelope) (encrypt_req : EncryptRequest)
      (decrypt_req : DecryptRequest) (encrypt_dto : EncryptDto) (decrypt_dto : DecryptDto)
      (hex : String) (i : ℕ) (m : Memory)
      → Erased m
      → Erases (encrypt_handler x st encrypt_req i) (encrypt_handler_in x st encrypt_req i m)
        × Erases (decrypt_handler x st decrypt_req, i) (decrypt_handler_in x st decrypt_req i m)
        × Erases (encrypt_v1 x ks encrypt_dto i) (encrypt_v1_in x ks encrypt_dto i m)
        × Erases
            (decrypt_v1 x from_slice ks decrypt_dto, i)
            (decrypt_v1_in x ks from_slice decrypt_dto i m)
        × Erases (pair_from_hex x hex, i) (pair_from_hex_in x hex i m)
  secrets_are_wiped st ks from_slice encrypt_req decrypt_req encrypt_dto decrypt_dto hex i m d = (
    encrypt_handler_in-Erases st encrypt_req i m d,
    decrypt_handler_in-Erases st decrypt_req i m d,
    encrypt_v1_in-Erases x ks encrypt_dto i m d,
    decrypt_v1_in-Erases x ks from_slice decrypt_dto i m d,
    pair_from_hex_in-Erases x hex i m d,
  )

  -- A payload that /encrypt accepts leaves three buffers, wherever the encryption ends: its own
  -- and that of the data key have only zeros, and between them stays the array with which the data
  -- key was drawn, which nothing erases, with its bytes.
  pub accepted_payload_leaves :
      (st : KekStore C) (req : EncryptRequest) (b : Bytes) (i : ℕ) (m : Memory)
      → payload_of x req ≡ ok b
      → encrypt_handler_in x st req i m
        ≡ kept
            (record { to_erase = true; content = zeroed (x.random 32 i) }
              ∷ record { to_erase = false; content = x.random 32 i }
              ∷ record { to_erase = true; content = zeroed b }
              ∷ m)
            (encrypt_handler x st req i)
  unfolding encrypt_handler_in encrypt_handler
  accepted_payload_leaves st req b i m h =
      let plain : Cell = record { to_erase = false; content = b } in
      let (valid, decoded, nonempty, small) = (payload_of_iff x req b).0 h in
      let is_filled : eqb (length b) 0 ≡ false = ground (arith, nonempty) in
      let is_small : ltb 1000000 (length b) ≡ false = ground (arith, small) in
      rw
        (
          h,
          (validate_encrypt_iff req).1 valid,
          decoded,
          is_filled,
          is_small,
          update-new (λ c. record c { to_erase = true }) plain m,
        )
        (respond_lem st b i m)
