-- ===== src/App/Sessions.antt =====
-- What the routes of src/app.rs answer to a request, given answers that they gave before.
use secret_management.Prelude.{
  or_else, ℕ, String, ◌≡◌, refl, ap, ◌∙◌, true, [], Bytes, some, Result, ok, err, ok_inj, subst,
}
use secret_management.Std.Map.{Env, get}
use secret_management.Http.{ok_status}
use secret_management.Crates.{Crates, IsLawful, SigningCrates, IsLawfulSigning}
use secret_management.Auth.{ApiKeyStore}
use secret_management.Services.Growth.{IsDerived, fresh-IsDerived, Grows}
use secret_management.Services.KeyService.{KeyService, get_store}
use secret_management.Services.CryptoService.{store_for}
use secret_management.Api.Models.{Failure}
use secret_management.Api.Dto.{EncryptDto, DecryptDto, EncryptV1Response, SignDto, SignResponse}
use secret_management.Api.V1.{encrypt_v1}
use secret_management.Api.V1.Sign.{sign_v1}
use secret_management.Api.V1.RoundTrip.{envelope_of_v1, decrypt_v1-encrypt_v1}
use secret_management.Api.V1.Signatures.{verify_of, verify_v1-sign_v1}
use secret_management.App.{AppState, create_app}
use secret_management.App.Start.{create_app_iff}
use secret_management.App.Routes.{
  post_encrypt_v1, post_decrypt_v1, post_sign_v1, post_verify_v1, Body, encrypted_v1, decrypted_v1,
  signed_v1, verified_v1, Axum, body_of, handle,
}
use secret_management.App.Serve.{Call, World, serve}
use secret_management.App.Steps.{Reach, Extends, Extends-trans, serve-Extends, Reach-Extends}
use secret_management.App.Admitted.{IsAdmitted, result_of, serve-Handles, served_ok}

-- The process at its start.
abbrev pub start : {C K R : Type 0} → AppState C K R → ℕ → World C K R
start app i = record { app = app; draws = i; clients = [] }

pub body_of-eq-ok :
    {A : Type 0} (to_body : A → Body) (r : Result Failure A) (b : Body)
    → body_of to_body r ≡ ok b
    → (a : A) × (r ≡ ok a) × (to_body a ≡ b)
body_of-eq-ok to_body (ok a) b e = (a, refl, ok_inj e)
body_of-eq-ok to_body (err f) b e = cc

pub store_for-same :
    {C K R : Type 0} (ks ks' : KeyService C K R) (t : String)
    → ks'.stores ≡ ks.stores
    → store_for ks' t ≡ store_for ks t
unfolding store_for get_store
store_for-same ks ks' t e = ap (λ m. or_else (get t m) (get "default" m)) e

module _ {B C D K R : Type 0} (ax : Axum B) (x : Crates C D) (s : SigningCrates K R)
    (keys : ApiKeyStore) (max : ℕ) where
  module _ (w : World C K R) (c : Call B) where
    signed_of :
        (d : SignDto) (resp : SignResponse)
        → IsAdmitted ax x s keys max w c post_sign_v1
        → ax.json_sign_v1 c.content ≡ ok d
        → (serve ax x s keys max w c).0.body ≡ signed_v1 resp
        → ((sign_v1 x s w.app.key_service d w.draws).0 ≡ ok resp)
          × ((serve ax x s keys max w c).1.app.key_service
              ≡ (sign_v1 x s w.app.key_service d w.draws).1)
    unfolding handle
    signed_of d resp a parsed e =
        let done = result_of ax x s keys max w c post_sign_v1 (signed_v1 resp) a (λ text. cc) e in
        let (r, made, same) =
          body_of-eq-ok signed_v1 (sign_v1 x s w.app.key_service d w.draws).0 (signed_v1 resp)
            (rw (parsed, handle) at done) in
        (
          made ∙ cc same,
          ap (λ (app : AppState C K R). app.key_service)
                ((serve-Handles ax x s keys max w c post_sign_v1 a).app)
              ∙ rw (parsed, handle) refl,
        )

    pub sealed_of :
        (d : EncryptDto) (resp : EncryptV1Response)
        → IsAdmitted ax x s keys max w c post_encrypt_v1
        → ax.json_encrypt_v1 c.content ≡ ok d
        → (serve ax x s keys max w c).0.body ≡ encrypted_v1 resp
        → (encrypt_v1 x w.app.key_service d w.draws).0 ≡ ok resp
    unfolding handle
    sealed_of d resp a parsed e =
        let done =
          result_of ax x s keys max w c post_encrypt_v1 (encrypted_v1 resp) a (λ text. cc) e in
        let (r, made, same) =
          body_of-eq-ok encrypted_v1 (encrypt_v1 x w.app.key_service d w.draws).0
            (encrypted_v1 resp) (rw (parsed, handle) at done) in
        made ∙ cc same

    pub after-Extends :
        (w' : World C K R) → Reach ax x s keys max (serve ax x s keys max w c).1 w' → Extends s w w'
    after-Extends w' r =
        Extends-trans s (serve-Extends ax x s keys max w c) (Reach-Extends ax x s keys max r)

  pub create_app-IsDerived :
      (env : Env) (app : AppState C K R) → create_app x env ≡ ok app → IsDerived s app.key_service
  create_app-IsDerived env app e =
      fresh-IsDerived s x env app.key_service ((create_app_iff x env app).0.0 e).1

  -- With crates that keep their laws: what an admitted request to /v1/crypto/sign was signed, after
  -- any events since the start, is verified with status 200 by every later admitted request to
  -- /v1/crypto/verify that sends it back with the same tenant, policy, classification and content,
  -- whatever happens in between.
  pub signed_is_verified :
      IsLawful x
      → IsLawfulSigning s
      → (env : Env) (app : AppState C K R) (i : ℕ) (w w' : World C K R) (c c' : Call B)
        (d : SignDto) (resp : SignResponse)
      → create_app x env ≡ ok app
      → Reach ax x s keys max (start app i) w
      → IsAdmitted ax x s keys max w c post_sign_v1
      → ax.json_sign_v1 c.content ≡ ok d
      → (serve ax x s keys max w c).0.body ≡ signed_v1 resp
      → Reach ax x s keys max (serve ax x s keys max w c).1 w'
      → IsAdmitted ax x s keys max w' c' post_verify_v1
      → ax.json_verify_v1 c'.content ≡ ok (verify_of d resp)
      → ((serve ax x s keys max w' c').0.status ≡ ok_status)
        × ((serve ax x s keys max w' c').0.body ≡ verified_v1 (record { valid = true }))
  unfolding handle
  signed_is_verified lawful signing env app i w w' c c' d resp started before a sent e after a'
        asked =
      let (made, kept) = signed_of w c d resp a sent e in
      let derived =
        (Reach-Extends ax x s keys max before).grows.derived_kept
          (create_app-IsDerived env app started) in
      let grows =
        subst (λ ks. Grows s ks w'.app.key_service) kept
          (Reach-Extends ax x s keys max after).grows in
      let valid =
        verify_v1-sign_v1 x s lawful signing w.app.key_service
          (sign_v1 x s w.app.key_service d w.draws).1 w'.app.key_service d w.draws
          (sign_v1 x s w.app.key_service d w.draws).2 w'.draws resp derived
          (ap
            (λ r. (
              r,
              (sign_v1 x s w.app.key_service d w.draws).1,
              (sign_v1 x s w.app.key_service d w.draws).2,
            ))
            made)
          grows in
      served_ok ax x s keys max w' c' post_verify_v1 (verified_v1 (record { valid = true })) a'
        (rw (asked, handle, valid) refl)

  -- With crates that keep their laws: what an admitted request to /v1/crypto/encrypt was answered is
  -- opened with status 200 by every later admitted request to /v1/crypto/decrypt for a tenant with
  -- the same store, whatever happens in between, if its content is the Base64 of a text that the JSON
  -- parser reads as that answer. The answer has the Base64 of the payload.
  pub sealed_is_opened :
      IsLawful x
      → (w w' : World C K R) (c c' : Call B) (d : EncryptDto) (dd : DecryptDto)
        (resp : EncryptV1Response) (m raw : Bytes)
      → IsAdmitted ax x s keys max w c post_encrypt_v1
      → ax.json_encrypt_v1 c.content ≡ ok d
      → x.b64_decode d.content ≡ some m
      → (serve ax x s keys max w c).0.body ≡ encrypted_v1 resp
      → Reach ax x s keys max (serve ax x s keys max w c).1 w'
      → IsAdmitted ax x s keys max w' c' post_decrypt_v1
      → ax.json_decrypt_v1 c'.content ≡ ok dd
      → store_for w.app.key_service dd.tenant_id ≡ store_for w.app.key_service d.tenant_id
      → x.b64_decode dd.content ≡ some raw
      → ax.from_slice raw ≡ some (envelope_of_v1 resp)
      → ((serve ax x s keys max w' c').0.status ≡ ok_status)
        × ((serve ax x s keys max w' c').0.body
            ≡ decrypted_v1 (record { payload_b64 = x.b64_encode m }))
  unfolding handle
  sealed_is_opened lawful w w' c c' d dd resp m raw a sent content e after a' asked same decoded
        parsed =
      let made = sealed_of w c d resp a sent e in
      let stores = (after-Extends w c w' after).grows.same_stores in
      let opened =
        decrypt_v1-encrypt_v1 x ax.from_slice lawful w.app.key_service w'.app.key_service d dd
          w.draws (encrypt_v1 x w.app.key_service d w.draws).1 resp m raw
          (ap (λ r. (r, (encrypt_v1 x w.app.key_service d w.draws).1)) made) content
          (store_for-same w.app.key_service w'.app.key_service dd.tenant_id stores ∙ same) decoded
          parsed in
      served_ok ax x s keys max w' c' post_decrypt_v1
        (decrypted_v1 (record { payload_b64 = x.b64_encode m })) a'
        (rw (asked, handle, opened) refl)
