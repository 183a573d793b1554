-- ===== src/App/Restart.antt =====
-- What src/app.rs answers after a restart with a new key encryption key.
use secret_management.Prelude.{
  ℕ, String, ◌≡◌, ◌≢◌, refl, sym, ap, ◌∙◌, none, some, ok, Bytes, unwrap_or, ok_inj, subst,
}
use secret_management.Std.Map.{Env, var}
use secret_management.Http.{ok_status}
use secret_management.Crates.{Crates, IsLawful, SigningCrates}
use secret_management.Kek.{KekStore, resolve_raw}
use secret_management.Kek.Invariant.{store_of, from_env_lem}
use secret_management.Kek.Rotation.{from_env_rotates}
use secret_management.Auth.{ApiKeyStore}
use secret_management.Services.KeyService.{get_store}
use secret_management.Services.CryptoService.{store_for}
use secret_management.Api.Dto.{EncryptDto, DecryptDto, EncryptV1Response}
use secret_management.Api.V1.{encrypt_v1}
use secret_management.Api.V1.RoundTrip.{envelope_of_v1, decrypt_v1_kept}
use secret_management.App.{AppState, create_app}
use secret_management.App.Start.{create_app_iff}
use secret_management.App.Routes.{
  post_encrypt_v1, post_decrypt_v1, encrypted_v1, decrypted_v1, Axum, handle,
}
use secret_management.App.Serve.{Call, World, serve}
use secret_management.App.Steps.{Reach, Reach-Extends}
use secret_management.App.Admitted.{IsAdmitted, served_ok}
use secret_management.App.Sessions.{start, sealed_of, store_for-same}

-- The second environment has a new key, and the key of the first one as the old key, with its id.
pub record Rotates {C D : Type 0} (x : Crates C D) (env env' : Env) : Type 0 where
  pub hex : String
  pub hex' : String
  pub raw : Bytes
  pub raw' : Bytes
  pub set : var "APP_KEK" env ≡ some hex
  pub read : x.from_hex hex ≡ some raw
  pub set' : var "APP_KEK" env' ≡ some hex'
  pub read' : x.from_hex hex' ≡ some raw'
  pub old : var "APP_KEK_OLD" env' ≡ some hex
  pub old_id :
      unwrap_or (var "APP_KEK_OLD_ID" env') "previous" ≡ unwrap_or (var "APP_KEK_ID" env) "primary"
  pub new_id :
      unwrap_or (var "APP_KEK_OLD_ID" env') "previous" ≢ unwrap_or (var "APP_KEK_ID" env') "primary"

module _ {C D K R : Type 0} (x : Crates C D) where
  -- The store for a tenant that has none of its own is that of /encrypt.
  default_for :
      (env : Env) (app : AppState C K R) (t : String)
      → create_app x env ≡ ok app
      → get_store app.key_service t ≡ none
      → store_for app.key_service t ≡ some app.kek_store
  unfolding store_for
  default_for env app t e missing = rw (missing, (create_app_iff x env app).1 e) refl

  kept_by_rotation :
      (env env' : Env) (app app' : AppState C K R)
      → IsLawful x
      → Rotates x env env'
      → create_app x env ≡ ok app
      → create_app x env' ≡ ok app'
      → resolve_raw app'.kek_store app.kek_store.current_id ≡ some app.kek_store.current_raw
  kept_by_rotation env env' app app' lawful r e e' =
      let before : store_of x env r.raw ≡ app.kek_store = ok_inj (
        sym (from_env_lem x env r.hex r.raw r.set r.read) ∙ ((create_app_iff x env app).0.0 e).0) in
      let (st, made, _, found) =
        from_env_rotates x lawful env' r.hex' r.hex r.raw' r.raw r.set' r.read' r.old r.read
          r.new_id in
      let after : st ≡ app'.kek_store =
        ok_inj (sym made ∙ ((create_app_iff x env' app').0.0 e').0) in
      subst (λ (a : KekStore C). resolve_raw app'.kek_store a.current_id ≡ some a.current_raw)
        before
        (subst
          (λ (b : KekStore C).
            resolve_raw b (unwrap_or (var "APP_KEK_ID" env) "primary") ≡ some r.raw)
          after (subst (λ (id : String). resolve_raw st id ≡ some r.raw) r.old_id found))

-- With crates that keep their laws, and a restart after which `APP_KEK` has a new key under a new id
-- and `APP_KEK_OLD` the former one under its id: what an admitted request to /v1/crypto/encrypt was
-- answered before the restart is opened with status 200 by every admitted request to
-- /v1/crypto/decrypt after it, whatever happens before and in between, and whatever API keys and
-- limits are set, if neither tenant has a store of its own, and the content is the Base64 of a text
-- that the JSON parser reads as the answer. The answer has the Base64 of the payload.
pub rotated_is_opened :
    {B C D K R : Type 0} (ax : Axum B) (x : Crates C D) (s : SigningCrates K R)
    (keys keys' : ApiKeyStore) (max max' : ℕ)
    → IsLawful x
    → (env env' : Env) → Rotates x env env'
    → (app app' : AppState C K R) (i i' : ℕ) (w w' : World C K R) (c c' : Call B) (d : EncryptDto)
      (dd : DecryptDto) (resp : EncryptV1Response) (m raw : Bytes)
    → create_app x env ≡ ok app
    → Reach ax x s keys max (start app i) w
    → get_store app.key_service d.tenant_id ≡ none
    → IsAdmitted ax x s keys max w c post_encrypt_v1
    → ax.json_encrypt_v1 c.content ≡ ok d
    → x.b64_decode d.content ≡ some m
    → (serve ax x s keys max w c).0.body ≡ encrypted_v1 resp
    → create_app x env' ≡ ok app'
    → Reach ax x s keys' max' (start app' i') w'
    → get_store app'.key_service dd.tenant_id ≡ none
    → IsAdmitted ax x s keys' max' w' c' post_decrypt_v1
    → ax.json_decrypt_v1 c'.content ≡ ok dd
    → x.b64_decode dd.content ≡ some raw
    → ax.from_slice raw ≡ some (envelope_of_v1 resp)
    → ((serve ax x s keys' max' w' c').0.status ≡ ok_status)
      × ((serve ax x s keys' max' w' c').0.body
          ≡ decrypted_v1 (record { payload_b64 = x.b64_encode m }))
unfolding handle
rotated_is_opened ax x s keys keys' max max' lawful env env' r app app' i i' w w' c c' d dd resp m
      raw e before missing a sent content answer e' after missing' a' asked decoded parsed =
    let made = sealed_of ax x s keys max w c d resp a sent answer in
    let found =
      store_for-same app.key_service w.app.key_service d.tenant_id
        (Reach-Extends ax x s keys max before).grows.same_stores
      ∙ default_for x env app d.tenant_id e missing in
    let found' =
      store_for-same app'.key_service w'.app.key_service dd.tenant_id
        (Reach-Extends ax x s keys' max' after).grows.same_stores
      ∙ default_for x env' app' dd.tenant_id e' missing' in
    let opened =
      decrypt_v1_kept x ax.from_slice lawful w.app.key_service w'.app.key_service d dd w.draws
        (encrypt_v1 x w.app.key_service d w.draws).1 resp m raw app.kek_store app'.kek_store
        (ap (λ result. (result, (encrypt_v1 x w.app.key_service d w.draws).1)) made) content found
        found' (kept_by_rotation x env env' app app' lawful r e e') decoded parsed in
    served_ok ax x s keys' max' w' c' post_decrypt_v1
      (decrypted_v1 (record { payload_b64 = x.b64_encode m })) a' (rw (asked, handle, opened) refl)
