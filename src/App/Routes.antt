-- ===== src/App/Routes.antt =====
-- The routes of src/app.rs, and what their handlers do with the shared state.
use secret_management.Prelude.{ℕ, String, Option, [], ◌∷◌, Bytes, Result, ok, err}
use secret_management.Std.Map.{get}
use secret_management.Http.{StatusCode, HeaderMap, Response, ok_status}
use secret_management.Crates.{Crates, SigningCrates}
use secret_management.Envelope.{EncryptedEnvelope}
use secret_management.Api.Models.{
  EncryptRequest, EncryptResponse, DecryptRequest, DecryptResponse, Failure,
}
use secret_management.Api.Handlers.{encrypt_handler, decrypt_handler}
use secret_management.Api.Dto.{
  EncryptDto, DecryptDto, SignDto, VerifyDto, HashDto, EncryptV1Response, DecryptV1Response,
  SignResponse, VerifyResponse, HashResponse,
}
use secret_management.Api.V1.{encrypt_v1, decrypt_v1}
use secret_management.Api.V1.Sign.{Signed, sign_v1, verify_v1}
use secret_management.Api.V1.Hashes.{hash_v1}
use secret_management.App.{AppState}

pub data Route : Type 0 where
  post_encrypt post_decrypt : Route
  post_encrypt_v1 post_decrypt_v1 post_sign_v1 post_verify_v1 post_hash_v1 : Route

unfoldable pub route_of : String → Option Route
route_of path = get path (
    ("/encrypt", post_encrypt)
    ∷ ("/decrypt", post_decrypt)
    ∷ ("/v1/crypto/encrypt", post_encrypt_v1)
    ∷ ("/v1/crypto/decrypt", post_decrypt_v1)
    ∷ ("/v1/crypto/sign", post_sign_v1)
    ∷ ("/v1/crypto/verify", post_verify_v1)
    ∷ ("/v1/crypto/hash", post_hash_v1)
    ∷ [])

-- What a body says: an answer of a handler, the text of an error, or nothing.
pub data Body : Type 0 where
  encrypted : EncryptResponse → Body
  decrypted : DecryptResponse → Body
  encrypted_v1 : EncryptV1Response → Body
  decrypted_v1 : DecryptV1Response → Body
  signed_v1 : SignResponse → Body
  verified_v1 : VerifyResponse → Body
  hashed_v1 : HashResponse → Body
  failed : String → Body
  nothing : Body

-- What the routes take from axum and serde, for bodies of requests of type `B`: the extractors of
-- `Json`, which refuse a body with a status and a text, `serde_json::from_slice`, the headers that
-- `into_response` gives to an answer, and the answers of the router to a path that is no route, and
-- of a route to a method other than POST.
pub record Axum (B : Type 0) : Type 0 where
  pub json_encrypt : B → Result Failure EncryptRequest
  pub json_decrypt : B → Result Failure DecryptRequest
  pub json_encrypt_v1 : B → Result Failure EncryptDto
  pub json_decrypt_v1 : B → Result Failure DecryptDto
  pub json_sign_v1 : B → Result Failure SignDto
  pub json_verify_v1 : B → Result Failure VerifyDto
  pub json_hash_v1 : B → Result Failure HashDto
  pub from_slice : Bytes → Option EncryptedEnvelope
  pub headers : StatusCode → Body → HeaderMap
  pub not_found : Response Body
  pub method_not_allowed : Response Body

-- What a handler gives: its result, the state with its caches as they are then, and the draws.
abbrev pub Handled : Type 0 → Type 0 → Type 0 → Type 0
Handled C K R = Result Failure Body × AppState C K R × ℕ

abbrev pub body_of : {A : Type 0} → (A → Body) → Result Failure A → Result Failure Body
body_of to_body (ok a) = ok (to_body a)
body_of to_body (err e) = err e

module _ {C K R : Type 0} where
  -- a handler that draws, and leaves the state
  abbrev pub drawn :
      {A : Type 0} → AppState C K R → (A → Body) → Result Failure A × ℕ → Handled C K R
  drawn app to_body (r, i) = (body_of to_body r, app, i)

  -- a handler that may fill a cache
  abbrev pub cached :
      {A : Type 0} → AppState C K R → (A → Body) → Signed C K R (Result Failure A) → Handled C K R
  cached app to_body (r, ks, i) = (body_of to_body r, record app { key_service = ks }, i)

  -- the extractor first
  abbrev pub extracted :
      {A : Type 0} → AppState C K R → ℕ → Result Failure A → (A → Handled C K R) → Handled C K R
  extracted app i (ok a) handler = handler a
  extracted app i (err e) handler = (err e, app, i)

module _ {B C D K R : Type 0} (ax : Axum B) (x : Crates C D) (s : SigningCrates K R) where
  unfoldable pub handle : Route → AppState C K R → B → ℕ → Handled C K R
  handle post_encrypt app b i =
      extracted app i (ax.json_encrypt b)
        λ req. drawn app encrypted (encrypt_handler x app.kek_store req i)
  handle post_decrypt app b i =
      extracted app i (ax.json_decrypt b)
        λ req. drawn app decrypted (decrypt_handler x app.kek_store req, i)
  handle post_encrypt_v1 app b i =
      extracted app i (ax.json_encrypt_v1 b)
        λ d. drawn app encrypted_v1 (encrypt_v1 x app.key_service d i)
  handle post_decrypt_v1 app b i =
      extracted app i (ax.json_decrypt_v1 b)
        λ d. drawn app decrypted_v1 (decrypt_v1 x ax.from_slice app.key_service d, i)
  handle post_sign_v1 app b i =
      extracted app i (ax.json_sign_v1 b)
        λ d. cached app signed_v1 (sign_v1 x s app.key_service d i)
  handle post_verify_v1 app b i =
      extracted app i (ax.json_verify_v1 b)
        λ d. cached app verified_v1 (verify_v1 x s app.key_service d i)
  handle post_hash_v1 app b i =
      extracted app i (ax.json_hash_v1 b) λ d. drawn app hashed_v1 (hash_v1 x s d, i)

module _ {B : Type 0} (ax : Axum B) where
  -- the answer that axum makes of the result
  unfoldable pub into_response : Result Failure Body → Response Body
  into_response (ok body) = record {
    status = ok_status;
    headers = ax.headers ok_status body;
    body = body;
  }
  into_response (err (status, text)) = record {
    status = status;
    headers = ax.headers status (failed text);
    body = failed text;
  }

  -- the answer to an `Err` of a layer
  unfoldable pub refusal : StatusCode → Response Body
  refusal status = record { status = status; headers = ax.headers status nothing; body = nothing }
