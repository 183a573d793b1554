-- ===== src/Tests/Fresh.antt =====
-- Two requests of src/app.rs to encrypt that wait at once.
use secret_management.Prelude.{ℕ, ◌+◌, ◌≤◌, ◌≡◌, refl, some, true, [], ◌∷◌, Bytes, String}
use secret_management.Std.Map.{get}
use secret_management.Std.Text.{
  trim, is_whitespace, lower_char, to_ascii_lowercase, eq_ignore_ascii_case,
}
use secret_management.Std.Text.Case.{normalize}
use secret_management.Http.{Response}
use secret_management.Headers.{security_headers}
use secret_management.Policy.{is_strategis, is_allowed, validate_primitive_compliance}
use secret_management.Symmetric.AesGcm
use secret_management.Envelope.{is_chacha, encrypt_data, wrap_key, encrypt_envelope}
use secret_management.Services.KeyService.{get_store}
use secret_management.Services.CryptoService.{store_for, encrypt}
use secret_management.Api.Models.{validate_max_len, validate_encrypt}
use secret_management.Api.Handlers.{payload_of, encrypt_handler}
use secret_management.Api.V1.{class, check_policy, check_tenant, b64d, v1_payload, encrypt_v1}
use secret_management.App.Routes.{post_encrypt, post_encrypt_v1, Body, handle, into_response}
use secret_management.App.Serve.{Call}
use secret_management.App.Overlap.{Process, cleans, pick, finish, turn, run}
use secret_management.App.Overlap.Signed.{IsWaiting}
use secret_management.App.Overlap.Nonces.{is_envelope}
use secret_management.App.Overlap.Fresh.{SealedAt, sealed_with_fresh_draws}
use secret_management.Tests.Short.{short}
use secret_management.Tests.Signing.{signing}
use secret_management.Tests.App.{app, axum, call, first, keys}

abbrev v1_call : Call String
v1_call = call "Bearer key" "/v1/crypto/encrypt" 6

abbrev old_call : Call String
old_call = call "Bearer key" "/encrypt" 5

abbrev both_wait : Process String Bytes Bytes ℕ
both_wait = record {
  world = first;
  waiting = (some post_encrypt_v1, v1_call) ∷ (some post_encrypt, old_call) ∷ [];
}

v1_waits : IsWaiting axum short signing keys 100 both_wait 0 post_encrypt_v1 v1_call
unfolding pick
v1_waits = record { others = _; found = refl; posted = refl }

abbrev v1_answer : Response Body
v1_answer =
    security_headers (into_response axum (handle axum short signing post_encrypt_v1 app "{}" 0).0)

v1_answered : (finish axum short signing keys 100 0 both_wait).0 ≡ some v1_answer
unfolding finish pick
v1_answered = refl

v1_enveloped : is_envelope v1_answer.body ≡ true
unfolding handle encrypt_v1 v1_payload check_policy check_tenant b64d store_for get_store get class
    encrypt normalize trim is_whitespace lower_char to_ascii_lowercase validate_primitive_compliance
    is_strategis is_allowed into_response security_headers encrypt_envelope encrypt_data wrap_key
    is_chacha eq_ignore_ascii_case AesGcm.new AesGcm.encrypt
v1_enveloped = refl

abbrev one_waits : Process String Bytes Bytes ℕ
one_waits =
    run axum short signing keys 100 (cleans 9 ∷ [])
      (finish axum short signing keys 100 0 both_wait).1

old_waits : IsWaiting axum short signing keys 100 one_waits 0 post_encrypt old_call
unfolding run turn finish pick
old_waits = record { others = _; found = refl; posted = refl }

abbrev old_answer : Response Body
old_answer = security_headers (
    into_response axum
      (handle axum short signing post_encrypt one_waits.world.app "{}" one_waits.world.draws).0)

old_answered : (finish axum short signing keys 100 0 one_waits).0 ≡ some old_answer
unfolding run turn finish pick
old_answered = refl

old_enveloped : is_envelope old_answer.body ≡ true
unfolding run turn finish pick handle encrypt_handler payload_of validate_encrypt validate_max_len
    encrypt_v1 v1_payload check_policy check_tenant b64d store_for get_store get class encrypt
    normalize trim is_whitespace lower_char to_ascii_lowercase validate_primitive_compliance
    is_strategis is_allowed into_response security_headers encrypt_envelope encrypt_data wrap_key
    is_chacha eq_ignore_ascii_case AesGcm.new AesGcm.encrypt
old_enveloped = refl

sealed_with_fresh_draws_example :
    (both_wait.world.draws + 3 ≤ one_waits.world.draws)
    × SealedAt axum short signing post_encrypt_v1 app "{}" 0 v1_answer.body
    × SealedAt axum short signing post_encrypt one_waits.world.app "{}" one_waits.world.draws
        old_answer.body
sealed_with_fresh_draws_example =
    sealed_with_fresh_draws axum short signing keys 100 (cleans 9 ∷ []) both_wait one_waits 0 0
      post_encrypt_v1 post_encrypt v1_call old_call v1_answer old_answer v1_waits v1_answered
      v1_enveloped refl old_waits old_answered old_enveloped
