-- ===== src/Tests/Envelope.antt =====
-- Runs of src/crypto/envelope.rs and src/crypto/aad.rs: two stores, a payload, and envelopes of it.
use secret_management.Prelude.{
  Fails, ne_of_==, ℕ, ◌≡◌, ◌≢◌, refl, inl, inr, ◌⊎◌, sym, ◌∙◌, ◌++◌, [], ◌∷◌, Bytes, some, arith,
  ok, err, Result, true,
}
use secret_management.Errors.{CryptoError}
use secret_management.Std.Text.{
  eq_ignore_ascii_case, trim, is_whitespace, lower_char, to_ascii_lowercase,
}
use secret_management.Std.Text.Case.{normalize}
use secret_management.Std.Map.{get}
use secret_management.Policy.{
  strategis, is_strategis, is_allowed, validate_primitive_compliance, not_allowed,
}
use secret_management.Kek.{KekStore, resolve_raw, get_raw}
use secret_management.Envelope.{
  EncryptedEnvelope, is_chacha, encrypt_data, wrap_key, encrypt_envelope, unsupported,
}
use secret_management.Envelope.Decrypt.{decrypt_envelope, is_legacy, algorithm_of}
use secret_management.Envelope.RoundTrip.{decrypt-encrypt}
use secret_management.Envelope.Context.{stays_in_context}
use secret_management.Envelope.Supported.{
  IsSupported, encrypt_envelope_total, encrypt_envelope_refuses,
}
use secret_management.Envelope.Legacy.{IsOldSealed, decrypt_old}
use secret_management.Envelope.Errors.{Explains, decrypt_envelope-Fails}
use secret_management.Std.Utf8.{as_bytes}
use secret_management.Symmetric.AesGcm
use secret_management.Tests.Toy.Seal.{marked}
use secret_management.Tests.Toy.{copies-IsBytes, toy, toy-IsLawful, toy-IsAuthentic, key_a, key_b}

abbrev before : KekStore Bytes
before = record {
  current_id = "k1";
  current = key_a;
  current_raw = key_a;
  previous = [];
  previous_raw = [];
}

abbrev after : KekStore Bytes
after = record {
  current_id = "k2";
  current = key_b;
  current_raw = key_b;
  previous = ("k1", key_a) ∷ [];
  previous_raw = ("k1", key_a) ∷ [];
}

abbrev payload : Bytes
payload = 1 ∷ 2 ∷ 250 ∷ []

normal : normalize " ChaCha20-Poly1305" ≡ "chacha20-poly1305"
unfolding normalize trim is_whitespace lower_char to_ascii_lowercase
normal = refl

-- An envelope of the payload.
sealed :
    (env : EncryptedEnvelope) × ◌≡◌ {A = Result CryptoError EncryptedEnvelope × ℕ}
      (encrypt_envelope toy before "t1" "pay" " ChaCha20-Poly1305" payload 7)
      (ok env, 10)
sealed =
    encrypt_envelope_total toy toy-IsLawful before "t1" "pay" " ChaCha20-Poly1305" payload 7
      (inr normal) refl (omega arith, omega arith, omega arith) (omega arith)

encrypt_envelope_total_example :
    (env : EncryptedEnvelope) × ◌≡◌ {A = Result CryptoError EncryptedEnvelope × ℕ}
      (encrypt_envelope toy before "t1" "pay" " ChaCha20-Poly1305" payload 7)
      (ok env, 10)
encrypt_envelope_total_example =
    encrypt_envelope_total toy toy-IsLawful before "t1" "pay" " ChaCha20-Poly1305" payload 7
      (inr normal) refl (omega arith, omega arith, omega arith) (omega arith)

still_known : resolve_raw after "k1" ≡ some key_a
unfolding resolve_raw get_raw get
still_known = refl

decrypt-encrypt_example : decrypt_envelope toy after sealed.0 ≡ ok payload
decrypt-encrypt_example =
    decrypt-encrypt toy toy-IsLawful before after "t1" "pay" " ChaCha20-Poly1305" payload 7 10
      sealed.0 (ground arith) sealed.1 still_known

stays_in_context_example :
    decrypt_envelope toy after (record sealed.0 { tenant_id = "t2"; purpose = "pay" }) ≢ ok payload
stays_in_context_example =
    stays_in_context toy toy-IsLawful toy-IsAuthentic before after "t1" "pay" " ChaCha20-Poly1305"
      payload 7 10 sealed.0 (record sealed.0 { tenant_id = "t2"; purpose = "pay" }) sealed.1
      (record { encrypted_dek = refl; dek_nonce = refl; key_id = refl; algorithm = refl })
      (omega arith, omega arith, omega arith) (omega arith, omega arith)
      (inl (ne_of_== "t2" "t1" refl)) still_known payload

unserved : normalize "x25519" ≡ "x25519"
unfolding normalize trim is_whitespace lower_char to_ascii_lowercase
unserved = refl

no_cipher : ¬ IsSupported (normalize "x25519")
no_cipher (inl e) = ne_of_== "x25519" "aes-256-gcm" refl (sym unserved ∙ e)
no_cipher (inr e) = ne_of_== "x25519" "chacha20-poly1305" refl (sym unserved ∙ e)

encrypt_envelope_refuses_example :
    ((encrypt_envelope toy before "t1" "pay" "x25519" payload 0).0
      ≡ err (not_allowed (normalize "x25519")))
    ⊎ ((encrypt_envelope toy before "t1" "pay" "x25519" payload 0).0 ≡ err (unsupported "x25519"))
encrypt_envelope_refuses_example =
    encrypt_envelope_refuses toy before "t1" "pay" "x25519" payload 0 no_cipher

-- An envelope of the old format, which names no algorithm: the parts, and the fields.
abbrev old_nonce : Bytes
old_nonce = toy.random 12 0

abbrev old_ciphertext : Bytes
old_ciphertext = marked (key_b ++ (old_nonce ++ [])) payload

abbrev old_encrypted_dek : Bytes
old_encrypted_dek = marked (key_a ++ (old_nonce ++ as_bytes "k1")) key_b

abbrev old_envelope : EncryptedEnvelope
old_envelope = record {
  ciphertext_b64 = toy.b64_encode old_ciphertext;
  nonce_b64 = toy.b64_encode old_nonce;
  encrypted_dek_b64 = toy.b64_encode old_encrypted_dek;
  dek_nonce_b64 = toy.b64_encode old_nonce;
  key_id = "k1";
  tenant_id = "";
  purpose = "";
  algorithm = "";
}

old_normal : normalize (algorithm_of old_envelope) ≡ "aes-256-gcm"
unfolding algorithm_of normalize trim is_whitespace lower_char to_ascii_lowercase
old_normal = refl

old_IsOldSealed : IsOldSealed toy key_a key_b payload old_envelope
unfolding eq_ignore_ascii_case encrypt_data wrap_key is_chacha AesGcm.new AesGcm.encrypt
    algorithm_of normalize trim is_whitespace lower_char to_ascii_lowercase
old_IsOldSealed = record {
  nonce = old_nonce;
  dek_nonce = old_nonce;
  ciphertext = old_ciphertext;
  encrypted_dek = old_encrypted_dek;
  length_dek = refl;
  length_nonce = refl;
  length_dek_nonce = refl;
  payload_IsBytes = ground arith;
  dek_IsBytes = copies-IsBytes 9 32 (omega arith);
  nonce_IsBytes = copies-IsBytes 5 12 (omega arith);
  dek_nonce_IsBytes = copies-IsBytes 5 12 (omega arith);
  data_sealed = refl;
  key_wrapped = refl;
  ciphertext_field = refl;
  nonce_field = refl;
  encrypted_dek_field = refl;
  dek_nonce_field = refl;
}

old_is_legacy : is_legacy old_envelope ≡ true
unfolding is_legacy
old_is_legacy = refl

old_valid : validate_primitive_compliance (normalize (algorithm_of old_envelope)) strategis ≡ ok tt
unfolding algorithm_of validate_primitive_compliance is_strategis is_allowed normalize trim
    is_whitespace lower_char to_ascii_lowercase
old_valid = refl

decrypt_old_example : decrypt_envelope toy after old_envelope ≡ ok payload
decrypt_old_example =
    decrypt_old toy toy-IsLawful toy-IsAuthentic after key_a key_b payload old_envelope
      old_IsOldSealed old_is_legacy old_valid still_known

decrypt_envelope-Fails_example :
    Fails
      (Explains toy after (record old_envelope { key_id = "k3" }))
      (decrypt_envelope toy after (record old_envelope { key_id = "k3" }))
decrypt_envelope-Fails_example =
    decrypt_envelope-Fails toy after (record old_envelope { key_id = "k3" })
