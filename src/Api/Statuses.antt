-- ===== src/Api/Statuses.antt =====
-- The statuses with which the handlers of src/api/handlers.rs refuse.
use secret_management.Prelude.{
  Fails, Fails-bind, Fails-map_err, Fails-fail_if, Fails-ok_or, ℕ, ltb, eqb, String, Bytes, length,
  Result, ok, err, fail_if, map_err,
}
use secret_management.Http.{StatusCode, bad_request, payload_too_large, internal_server_error}
use secret_management.Errors.{CryptoError, unknown_key_id}
use secret_management.Crates.{Crates}
use secret_management.Kek.{KekStore}
use secret_management.Envelope.{EncryptedEnvelope, encrypt_envelope}
use secret_management.Envelope.Decrypt.{decrypt_envelope}
use secret_management.Api.Models.{
  EncryptRequest, DecryptRequest, Failure, with_status, validate_max_len, validate_encrypt,
  validate_decrypt,
}
use secret_management.Api.Handlers.{
  encrypted, payload_of, encrypt_payload, encrypt_handler, envelope_of, decrypt_failure,
  decrypt_handler,
}

module _ (P : Failure → Type 0) (bad : (msg : String) → P (bad_request, msg))
    (large : (msg : String) → P (payload_too_large, msg)) where
  module _ {C D : Type 0} (x : Crates C D) where
    payload_of-Fails : (req : EncryptRequest) → Fails P (payload_of x req)
    unfolding payload_of validate_encrypt
    payload_of-Fails req =
        Fails-bind P _ _ (Fails-map_err P (with_status payload_too_large) _ (λ e. large e)) λ _.
          Fails-bind P _ _ (Fails-ok_or P _ (x.b64_decode req.payload_b64) (λ _. bad _)) λ m.
            Fails-bind P _ _ (Fails-fail_if P (eqb (length m) 0) _ (bad _)) λ _.
              Fails-bind P (fail_if {0} (ltb 1000000 (length m)) _) (λ _. ok m)
                (Fails-fail_if P (ltb 1000000 (length m)) _ (large _)) (λ _. tt)

    pub encrypt_handler-Fails :
        ((msg : String) → P (internal_server_error, msg))
        → (st : KekStore C) (req : EncryptRequest) (i : ℕ) → Fails P (encrypt_handler x st req i).0
    unfolding encrypt_handler
    encrypt_handler-Fails internal st req i = of_payload (payload_of x req) (payload_of-Fails req)
      where
        of_result : (r : Result CryptoError EncryptedEnvelope × ℕ) → Fails P (encrypted r).0
        of_result (ok env, j) = tt
        of_result (err e, j) = internal _

        of_payload : (r : Result Failure Bytes) → Fails P r → Fails P (encrypt_payload x st r i).0
        of_payload (ok m) h =
            of_result (encrypt_envelope x st "default" "default" "aes-256-gcm" m i)
        of_payload (err e) h = h

    decrypt_failure-holds : (key_id : String) (e : CryptoError) → P (decrypt_failure key_id e)
    decrypt_failure-holds key_id unknown_key_id = bad _
    decrypt_failure-holds key_id _ = bad _

    sized-Fails :
        (status : StatusCode)
        → ((msg : String) → P (status, msg))
        → (field : String) (max : ℕ) (name : String)
        → Fails P (map_err (with_status status) (validate_max_len field max name))
    sized-Fails status h field max name =
        Fails-map_err P (with_status status) (validate_max_len field max name) h

    validate_decrypt-Fails : (req : DecryptRequest) → Fails P (validate_decrypt req)
    unfolding validate_decrypt
    validate_decrypt-Fails req =
        Fails-bind P _ _ (sized-Fails payload_too_large large req.ciphertext_b64 _ _) λ _.
          Fails-bind P _ _ (sized-Fails bad_request bad req.nonce_b64 _ _) λ _.
            Fails-bind P _ _ (sized-Fails bad_request bad req.encrypted_dek_b64 _ _)
              λ _. sized-Fails bad_request bad req.dek_nonce_b64 _ _

    pub decrypt_handler-Fails :
        (st : KekStore C) (req : DecryptRequest) → Fails P (decrypt_handler x st req)
    unfolding decrypt_handler
    decrypt_handler-Fails st req =
        Fails-bind P (validate_decrypt req) _ (validate_decrypt-Fails req) λ _.
          Fails-bind P _ _
            (Fails-map_err P (decrypt_failure req.key_id) (decrypt_envelope x st (envelope_of req))
              (decrypt_failure-holds req.key_id))
            λ m. tt
