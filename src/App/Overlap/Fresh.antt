-- ===== src/App/Overlap/Fresh.antt =====
-- The draws of `OsRng` that requests of src/app.rs make while they overlap.
use secret_management.Prelude.{
  ℕ, ◌+◌, ◌≤◌, ◌≡◌, refl, sym, ap, ◌∙◌, ◌==◌, none, some, some_inj, List, [], ◌∷◌, Result, ok, err,
  Result-cases, inl, inr, arith, Bool-cases, Option-cases, true, false,
}
use secret_management.Http.{Response}
use secret_management.Headers.{security_headers}
use secret_management.Crates.{Crates, SigningCrates}
use secret_management.Auth.{ApiKeyStore}
use secret_management.Api.Models.{Failure, EncryptRequest, EncryptResponse}
use secret_management.Api.Dto.{EncryptDto, EncryptV1Response}
use secret_management.Api.Handlers.{encrypt_handler}
use secret_management.Api.V1.{encrypt_v1}
use secret_management.App.{AppState}
use secret_management.App.Routes.{
  Route, post_encrypt, post_decrypt, post_encrypt_v1, post_decrypt_v1, post_sign_v1, post_verify_v1,
  post_hash_v1, Body, encrypted, encrypted_v1, decrypted, decrypted_v1, signed_v1, verified_v1,
  hashed_v1, body_of, Axum, Handled, handle, extracted,
}
use secret_management.App.Serve.{Call}
use secret_management.App.Overlap.{
  Process, Turn, arrives, finishes, cleans, pick, finish, turn, run,
}
use secret_management.App.Overlap.Serial.{draws-arrive}
use secret_management.App.Sessions.{body_of-eq-ok}
use secret_management.App.Overlap.Nonces.{
  is_envelope, HandlerSealed, V1Sealed, encrypt_handler-HandlerSealed, encrypt_v1-V1Sealed,
}
use secret_management.App.Admitted.{into_response-eq-ok}
use secret_management.App.Overlap.Signed.{IsWaiting, finish-answer, finish-drawn}
use secret_management.App.Overlap.Draws.{
  encrypt_handler-draws, encrypt_v1-draws, sign_v1-draws, verify_v1-draws,
}

module _ {B C D K R : Type 0} (ax : Axum B) (x : Crates C D) (s : SigningCrates K R) where
  extracted-draws :
      {A : Type 0} (app : AppState C K R) (i : ℕ) (r : Result Failure A)
      (handler : A → Handled C K R)
      → ((a : A) → i ≤ (handler a).2)
      → i ≤ (extracted app i r handler).2
  extracted-draws app i (ok a) handler h = h a
  extracted-draws app i (err e) handler h = omega arith

  handle-draws :
      (route : Route) (app : AppState C K R) (b : B) (i : ℕ) → i ≤ (handle ax x s route app b i).2
  unfolding handle
  handle-draws post_encrypt app b i =
      extracted-draws app i (ax.json_encrypt b) _ λ req. encrypt_handler-draws x app.kek_store req i
  handle-draws post_decrypt app b i = extracted-draws app i (ax.json_decrypt b) _ λ req. omega arith
  handle-draws post_encrypt_v1 app b i =
      extracted-draws app i (ax.json_encrypt_v1 b) _ λ d. encrypt_v1-draws x app.key_service d i
  handle-draws post_decrypt_v1 app b i =
      extracted-draws app i (ax.json_decrypt_v1 b) _ λ d. omega arith
  handle-draws post_sign_v1 app b i =
      extracted-draws app i (ax.json_sign_v1 b) _ λ d. sign_v1-draws x app.key_service s d i
  handle-draws post_verify_v1 app b i =
      extracted-draws app i (ax.json_verify_v1 b) _ λ d. verify_v1-draws x app.key_service s d i
  handle-draws post_hash_v1 app b i = extracted-draws app i (ax.json_hash_v1 b) _ λ d. omega arith

  -- The body answers the content of a request at a route with an envelope, which is sealed over the
  -- shared state with the draws from the `i`-th on: the data key and the two nonces.
  abbrev pub SealedAt : Route → AppState C K R → B → ℕ → Body → Type 0
  SealedAt post_encrypt app content i body =
      (req : EncryptRequest) × (resp : EncryptResponse) × (ax.json_encrypt content ≡ ok req)
      × (body ≡ encrypted resp)
      × HandlerSealed x app.kek_store req i resp
  SealedAt post_encrypt_v1 app content i body =
      (d : EncryptDto) × (resp : EncryptV1Response) × (ax.json_encrypt_v1 content ≡ ok d)
      × (body ≡ encrypted_v1 resp)
      × V1Sealed x app.key_service d i resp
  SealedAt _ app content i body = ⊥

  -- The answer of a handler that has no envelope.
  without_envelope :
      {A : Type 0} {P : Type 0} (to_body : A → Body) (r : Result Failure A) (body : Body)
      → ((resp : A) → is_envelope (to_body resp) ≡ false)
      → body_of to_body r ≡ ok body
      → is_envelope body ≡ true
      → P
  without_envelope to_body r body silent e q =
      let (resp, made, said) = body_of-eq-ok to_body r body e in cc (silent resp, said, q)

  handle-SealedAt :
      (route : Route) (app : AppState C K R) (b : B) (i : ℕ) (body : Body)
      → (handle ax x s route app b i).0 ≡ ok body
      → is_envelope body ≡ true
      → SealedAt route app b i body × ((handle ax x s route app b i).2 ≡ i + 3)
  unfolding handle
  handle-SealedAt post_encrypt app b i body e q = elim (Result-cases (ax.json_encrypt b)) [
    | inr (f, p) ↦ cc (rw (p, handle) at e)
    | inl (req, p) ↦
        let r = encrypt_handler x app.kek_store req i in
        let (resp, made, said) = body_of-eq-ok encrypted r.0 body (rw (p, handle) at e) in
        let (sealed, drawn) =
          encrypt_handler-HandlerSealed x app.kek_store req i r.1 resp (ap (λ v. (v, r.1)) made) in
        ((req, resp, p, sym said, sealed), rw (p, handle) drawn)
  ]
  handle-SealedAt post_encrypt_v1 app b i body e q = elim (Result-cases (ax.json_encrypt_v1 b)) [
    | inr (f, p) ↦ cc (rw (p, handle) at e)
    | inl (d, p) ↦
        let r = encrypt_v1 x app.key_service d i in
        let (resp, made, said) = body_of-eq-ok encrypted_v1 r.0 body (rw (p, handle) at e) in
        let (sealed, drawn) =
          encrypt_v1-V1Sealed x app.key_service d i r.1 resp (ap (λ v. (v, r.1)) made) in
        ((d, resp, p, sym said, sealed), rw (p, handle) drawn)
  ]
  handle-SealedAt post_decrypt app b i body e q = elim (Result-cases (ax.json_decrypt b)) [
    | inr (f, p) ↦ cc (rw (p, handle) at e)
    | inl (req, p) ↦ without_envelope decrypted _ body (λ resp. refl) (rw (p, handle) at e) q
  ]
  handle-SealedAt post_decrypt_v1 app b i body e q = elim (Result-cases (ax.json_decrypt_v1 b)) [
    | inr (f, p) ↦ cc (rw (p, handle) at e)
    | inl (req, p) ↦ without_envelope decrypted_v1 _ body (λ resp. refl) (rw (p, handle) at e) q
  ]
  handle-SealedAt post_sign_v1 app b i body e q = elim (Result-cases (ax.json_sign_v1 b)) [
    | inr (f, p) ↦ cc (rw (p, handle) at e)
    | inl (req, p) ↦ without_envelope signed_v1 _ body (λ resp. refl) (rw (p, handle) at e) q
  ]
  handle-SealedAt post_verify_v1 app b i body e q = elim (Result-cases (ax.json_verify_v1 b)) [
    | inr (f, p) ↦ cc (rw (p, handle) at e)
    | inl (req, p) ↦ without_envelope verified_v1 _ body (λ resp. refl) (rw (p, handle) at e) q
  ]
  handle-SealedAt post_hash_v1 app b i body e q = elim (Result-cases (ax.json_hash_v1 b)) [
    | inr (f, p) ↦ cc (rw (p, handle) at e)
    | inl (req, p) ↦ without_envelope hashed_v1 _ body (λ resp. refl) (rw (p, handle) at e) q
  ]

  module _ (keys : ApiKeyStore) (max : ℕ) where
    finish-draws :
        (n : ℕ) (p : Process B C K R) → p.world.draws ≤ (finish ax x s keys max n p).1.world.draws
    unfolding finish
    finish-draws n p = elim (Option-cases (pick n p.waiting)) [
      | inl e ↦ rw (e, finish) (omega arith)
      | inr (((none, c), rest), e) ↦ rw (e, finish) (omega arith)
      | inr (((some route, c), rest), e) ↦ elim (Bool-cases (c.method == "POST")) [
        | inl posted ↦
            rw (e, finish, posted) (handle-draws route p.world.app c.content p.world.draws)
        | inr other ↦ rw (e, finish, other) (omega arith)
      ]
    ]

    run-draws :
        (ts : List (Turn B)) (p : Process B C K R)
        → p.world.draws ≤ (run ax x s keys max ts p).world.draws
    unfolding run turn
    run-draws [] p = omega arith
    run-draws (arrives c ∷ ts) p = omega (
      arith,
      draws-arrive ax x s keys max p c,
      run-draws ts (turn ax x s keys max (arrives c) p).1,
    )
    run-draws (finishes n ∷ ts) p =
        omega (arith, finish-draws n p, run-draws ts (turn ax x s keys max (finishes n) p).1)
    run-draws (cleans now ∷ ts) p = run-draws ts (turn ax x s keys max (cleans now) p).1

    finish-SealedAt :
        (p : Process B C K R) (n : ℕ) (route : Route) (c : Call B) (answer : Response Body)
        → IsWaiting ax x s keys max p n route c
        → (finish ax x s keys max n p).0 ≡ some answer
        → is_envelope answer.body ≡ true
        → SealedAt route p.world.app c.content p.world.draws answer.body
          × ((finish ax x s keys max n p).1.world.draws ≡ p.world.draws + 3)
    unfolding security_headers
    finish-SealedAt p n route c answer h e q =
        let same = some_inj (sym (finish-answer ax x s keys max p n route c h) ∙ e) in
        let done =
          into_response-eq-ok ax x s keys max
            (handle ax x s route p.world.app c.content p.world.draws).0 answer.body
            (λ text r. cc (ap is_envelope r, q)) (ap (λ (r : Response Body). r.body) same) in
        let (sealed, drawn) =
          handle-SealedAt route p.world.app c.content p.world.draws answer.body done q in
        (sealed, finish-drawn ax x s keys max p n route c h ∙ drawn)

    -- Whatever requests overlap: where two requests to /encrypt or /v1/crypto/encrypt are answered with
    -- envelopes, the handler of the second running after that of the first with any turns of the process
    -- in between, each answer is the envelope of its own request's payload, sealed over the key store,
    -- or the store of the tenant, at that turn. The payload is under a data key that is the next draw at
    -- that turn, with the draw after it as its nonce, and the data key is wrapped with the third as its
    -- nonce. The three draws of the second come after the three of the first.
    pub sealed_with_fresh_draws :
        (ts : List (Turn B)) (p p' : Process B C K R) (n n' : ℕ) (route route' : Route)
        (c c' : Call B) (answer answer' : Response Body)
        → IsWaiting ax x s keys max p n route c
        → (finish ax x s keys max n p).0 ≡ some answer
        → is_envelope answer.body ≡ true
        → run ax x s keys max ts (finish ax x s keys max n p).1 ≡ p'
        → IsWaiting ax x s keys max p' n' route' c'
        → (finish ax x s keys max n' p').0 ≡ some answer'
        → is_envelope answer'.body ≡ true
        → (p.world.draws + 3 ≤ p'.world.draws)
          × SealedAt route p.world.app c.content p.world.draws answer.body
          × SealedAt route' p'.world.app c'.content p'.world.draws answer'.body
    sealed_with_fresh_draws ts p p' n n' route route' c c' answer answer' h e q after h' e' q' =
        let (first, drawn) = finish-SealedAt p n route c answer h e q in
        let (second, drawn') = finish-SealedAt p' n' route' c' answer' h' e' q' in
        let later = run-draws ts (finish ax x s keys max n p).1 in
        let reached = ap (λ (r : Process B C K R). r.world.draws) after in
        (omega (arith, drawn, later, reached), first, second)
