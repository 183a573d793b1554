-- ===== src/App/Envelopes.antt =====
-- What /encrypt of src/app.rs answers, sent back to /decrypt.
use secret_management.Prelude.{ℕ, ◌≡◌, refl, sym, ap, ◌∙◌, some, Bytes, ok, subst}
use secret_management.Http.{ok_status}
use secret_management.Crates.{Crates, IsLawful, IsSized, SigningCrates}
use secret_management.Kek.{KekStore, resolve_raw}
use secret_management.Auth.{ApiKeyStore}
use secret_management.Services.Tenants.{resolve_raw-current}
use secret_management.Api.Models.{EncryptRequest, EncryptResponse}
use secret_management.Api.Handlers.{encrypt_handler}
use secret_management.Api.Limits.{Accepts}
use secret_management.Api.RoundTrip.{request_of, every_answer_opens}
use secret_management.App.Routes.{post_encrypt, post_decrypt, encrypted, decrypted, Axum, handle}
use secret_management.App.Serve.{Call, World, serve}
use secret_management.App.Steps.{Reach}
use secret_management.App.Admitted.{IsAdmitted, result_of, served_ok}
use secret_management.App.Sessions.{body_of-eq-ok, after-Extends}

module _ {B C D K R : Type 0} (ax : Axum B) (x : Crates C D) (s : SigningCrates K R)
    (keys : ApiKeyStore) (max : ℕ) where
  encrypted_of :
      (w : World C K R) (c : Call B) (req : EncryptRequest) (resp : EncryptResponse)
      → IsAdmitted ax x s keys max w c post_encrypt
      → ax.json_encrypt c.content ≡ ok req
      → (serve ax x s keys max w c).0.body ≡ encrypted resp
      → (encrypt_handler x w.app.kek_store req w.draws).0 ≡ ok resp
  unfolding handle
  encrypted_of w c req resp a parsed e =
      let done = result_of ax x s keys max w c post_encrypt (encrypted resp) a (λ text. cc) e in
      let (r, made, same) =
        body_of-eq-ok encrypted (encrypt_handler x w.app.kek_store req w.draws).0 (encrypted resp)
          (rw (parsed, handle) at done) in
      made ∙ cc same

  -- With crates that keep their laws and give the lengths that they document: an admitted request to
  -- /encrypt that was answered with an envelope had the Base64 of some payload within the limits, and
  -- every later admitted request to /decrypt that sends the answer back is answered with status 200
  -- and the Base64 of that payload, whatever happens in between.
  pub encrypted_is_decrypted :
      IsLawful x
      → IsSized x
      → (w w' : World C K R) (c c' : Call B) (req : EncryptRequest) (resp : EncryptResponse)
      → IsAdmitted ax x s keys max w c post_encrypt
      → ax.json_encrypt c.content ≡ ok req
      → (serve ax x s keys max w c).0.body ≡ encrypted resp
      → Reach ax x s keys max (serve ax x s keys max w c).1 w'
      → IsAdmitted ax x s keys max w' c' post_decrypt
      → ax.json_decrypt c'.content ≡ ok (request_of resp)
      → (m : Bytes) × Accepts x req m
        × ((serve ax x s keys max w' c').0.status ≡ ok_status)
        × ((serve ax x s keys max w' c').0.body
            ≡ decrypted (record { payload_b64 = x.b64_encode m }))
  unfolding handle
  encrypted_is_decrypted lawful sized w w' c c' req resp a sent e after a' asked =
      let st = w.app.kek_store in
      let same = (after-Extends ax x s keys max w c w' after).same_store in
      let kept : resolve_raw w'.app.kek_store st.current_id ≡ some st.current_raw =
        subst (λ (t : KekStore C). resolve_raw t st.current_id ≡ some st.current_raw) (sym same)
          (resolve_raw-current st) in
      let made = encrypted_of w c req resp a sent e in
      let (m, accepted, opened) =
        every_answer_opens x lawful sized st w'.app.kek_store req w.draws
          (encrypt_handler x st req w.draws).1 resp
          (ap (λ r. (r, (encrypt_handler x st req w.draws).1)) made) kept in
      let (status, body) =
        served_ok ax x s keys max w' c' post_decrypt
          (decrypted (record { payload_b64 = x.b64_encode m })) a'
          (rw (asked, handle, opened) refl) in
      (m, accepted, status, body)
