-- ===== src/Tests/Api.antt =====
-- Runs of src/api.
use secret_management.Prelude.{ℕ, ◌≡◌, refl, [], ◌∷◌, Bytes, some, Result, ok, arith}
use secret_management.Std.Text.{
  trim, is_whitespace, lower_char, to_ascii_lowercase, eq_ignore_ascii_case, decimal,
}
use secret_management.Std.Text.Case.{normalize}
use secret_management.Policy.{is_strategis, is_allowed, validate_primitive_compliance}
use secret_management.Symmetric.AesGcm
use secret_management.Kek.{KekStore, resolve_raw, get_raw}
use secret_management.Envelope.{is_chacha, encrypt_data, wrap_key, encrypt_envelope}
use secret_management.Api.Models.{
  validate_max_len, EncryptRequest, EncryptResponse, Failure, validate_encrypt, validate_decrypt,
}
use secret_management.Api.Handlers.{payload_of, encrypt_handler}
use secret_management.Api.Limits.{Accepts}
use secret_management.Api.RoundTrip.{request_of, encrypt_handler_total}
use secret_management.Tests.Toy.{key_a, copies}
use secret_management.Tests.Short.{short, short-IsLawful}

decimal_of_limit : decimal 1500000 ≡ "1500000"
unfolding decimal
decimal_of_limit = refl

abbrev store : KekStore Bytes
store = record {
  current_id = "k1";
  current = key_a;
  current_raw = key_a;
  previous = [];
  previous_raw = [];
}

abbrev payload : Bytes
payload = 3 ∷ 1 ∷ []

abbrev request : EncryptRequest
request = record { payload_b64 = "111010" }

request_accepted : Accepts short request payload
request_accepted = ((omega arith, omega arith), refl, omega arith, omega arith)

encrypt_handler_total_example :
    (resp : EncryptResponse) × ◌≡◌ {A = Result Failure EncryptResponse × ℕ}
      (encrypt_handler short store request 0)
      (ok resp, 3)
encrypt_handler_total_example =
    encrypt_handler_total short short-IsLawful store request payload 0 refl (omega arith)
      request_accepted

abbrev answer : EncryptResponse
answer = record {
  ciphertext_b64 = short.b64_encode (0 ∷ payload);
  nonce_b64 = short.b64_encode (copies 1 12);
  encrypted_dek_b64 = short.b64_encode (0 ∷ copies 1 32);
  dek_nonce_b64 = short.b64_encode (copies 1 12);
  key_id = "k1";
}

answered :
    ◌≡◌ {A = Result Failure EncryptResponse × ℕ}
      (encrypt_handler short store request 0)
      (ok answer, 3)
unfolding encrypt_handler payload_of validate_encrypt validate_max_len encrypt_envelope encrypt_data
    wrap_key is_chacha eq_ignore_ascii_case normalize trim is_whitespace lower_char
    to_ascii_lowercase validate_primitive_compliance is_strategis is_allowed AesGcm.new
    AesGcm.encrypt
answered = refl

answer_valid : validate_decrypt (request_of answer) ≡ ok tt
unfolding validate_decrypt validate_max_len
answer_valid = refl

key_known : resolve_raw store "k1" ≡ some key_a
unfolding resolve_raw get_raw
key_known = refl
