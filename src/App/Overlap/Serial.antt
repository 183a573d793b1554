-- ===== src/App/Overlap/Serial.antt =====
-- Overlapping requests of src/app.rs and requests one after another.
use secret_management.Prelude.{
  Option, ℕ, String, ◌≡◌, refl, sym, ap, ◌∙◌, none, some, List, [], ◌∷◌, ok, err, inl, inr,
  Option-cases, if◌then◌else◌, ◌&&◌, arith, is_some, not, ◌==◌, ◌+◌,
}
use secret_management.Http.{StatusCode, Response, too_many_requests}
use secret_management.Crates.{Crates, SigningCrates}
use secret_management.Auth.{Role, ApiKeyStore, require_api_key}
use secret_management.Auth.Access.{require_api_key-bind}
use secret_management.RateLimit.{bucket_key, sweep, rate_limit_middleware}
use secret_management.App.Routes.{Route, route_of, Body, Axum, refusal}
use secret_management.Std.Map.{HashMap}
use secret_management.RateLimit.{ClientTracker}
use secret_management.Headers.{security_headers}
use secret_management.App.{AppState}
use secret_management.App.Serve.{endpoint, Call, World, serve}
use secret_management.App.Answers.{counted, serve-Served, unauthorised, over_limit, admitted}
use secret_management.App.Overlap.{
  Process, Turn, arrives, finishes, cleans, pick, held_or_refused, arrive, finish, turn, at_once,
  run_at_once,
}
use secret_management.RateLimit.Window.{is_ok}
use secret_management.App.Traffic.{Moment, called, cleaned, is_authorised, clients-serve, reached}

-- The same requests, served one after another in the order in which they come.
unfoldable pub in_order : {B : Type 0} → List (Turn B) → List (Moment B)
in_order [] = []
in_order (arrives c ∷ ts) = called c ∷ in_order ts
in_order (finishes n ∷ ts) = in_order ts
in_order (cleans now ∷ ts) = cleaned now ∷ in_order ts

module _ {B C D K R : Type 0} (ax : Axum B) (x : Crates C D) (s : SigningCrates K R)
    (keys : ApiKeyStore) (max : ℕ) where
  endpoint-clients :
      (target : Option Route) (w : World C K R) (c : Call B) (clients : HashMap ClientTracker)
      → endpoint ax x s target (record w { clients = clients }) c ≡ endpoint ax x s target w c
  endpoint-clients none w c clients = refl
  endpoint-clients (some route) w c clients = refl

  module _ (p : Process B C K R) (c : Call B) where
    arrive-unauthorised :
        (status : StatusCode)
        → require_api_key keys c.request ok ≡ err status
        → arrive ax x s keys max c p ≡ (some (refusal ax status), p)
    unfolding arrive
    arrive-unauthorised status q = rw (arrive, require_api_key-bind keys c.request _, q) refl

    arrive-counted :
        (role : Role)
        → require_api_key keys c.request ok ≡ ok role
        → arrive ax x s keys max c p
          ≡ held_or_refused ax x s keys max p (
              rate_limit_middleware max p.world.clients c.opened c.now c.request
                λ req. ok (route_of c.request.path, c))
    unfolding arrive
    arrive-counted role q = rw (arrive, require_api_key-bind keys c.request _, q) refl

    arrive-held :
        (role : Role)
        → require_api_key keys c.request ok ≡ ok role
        → (counted ax x s keys max p.world c).0 ≡ ok tt
        → arrive ax x s keys max c p ≡ (
          none,
          record {
            world = record p.world { clients = (counted ax x s keys max p.world c).1 };
            waiting = (route_of c.request.path, c) ∷ p.waiting;
          },
        )
    unfolding rate_limit_middleware
    arrive-held role q e = arrive-counted role q ∙ rw (e, rate_limit_middleware) refl

    arrive-over :
        (role : Role)
        → require_api_key keys c.request ok ≡ ok role
        → (counted ax x s keys max p.world c).0 ≡ err too_many_requests
        → arrive ax x s keys max c p ≡ (
          some (refusal ax too_many_requests),
          record p { world = record p.world { clients = (counted ax x s keys max p.world c).1 } },
        )
    unfolding rate_limit_middleware
    arrive-over role q e = arrive-counted role q ∙ rw (e, rate_limit_middleware) refl

    -- Served at once: the layers and then the handler, over any process, give the answer and the
    -- state that the router gives, and leave the requests that wait as they are.
    pub at_once-eq-serve : at_once ax x s keys max c p ≡ (
      some (serve ax x s keys max p.world c).0,
      record { world = (serve ax x s keys max p.world c).1; waiting = p.waiting },
    )
    unfolding turn finish pick
    at_once-eq-serve = elim (serve-Served ax x s keys max p.world c) [
      | unauthorised status q e ↦ rw (turn, arrive-unauthorised status q, e) refl
      | over_limit role q t e ↦ rw (turn, arrive-over role q t, e) refl
      | admitted role q t e ↦
          rw (turn, arrive-held role q t, e)
            (ap
              (λ (h : Response Body × AppState C K R × ℕ). (
                some (security_headers h.0),
                record {
                  world = record {
                    app = h.1;
                    draws = h.2;
                    clients = (counted ax x s keys max p.world c).1;
                  };
                  waiting = p.waiting;
                },
              ))
              (endpoint-clients (route_of c.request.path) p.world c
                (counted ax x s keys max p.world c).1))
    ]

  pub clients-finish :
      (n : ℕ) (p : Process B C K R) → (finish ax x s keys max n p).1.world.clients ≡ p.world.clients
  unfolding finish
  clients-finish n p = elim (Option-cases (pick n p.waiting)) [
    | inl e ↦ rw (e, finish) refl
    | inr (((target, c), rest), e) ↦ rw (e, finish) refl
  ]

  clients-run_at_once :
      (a : Option (Response Body) × Process B C K R)
      → (run_at_once ax x s keys max a).1.world.clients ≡ a.1.world.clients
  unfolding turn
  clients-run_at_once (some answer, p) = refl
  clients-run_at_once (none, p) = clients-finish 0 p

  -- What a request does to the clients depends on nothing but the clients.
  pub clients-arrive :
      (p : Process B C K R) (w : World C K R) (c : Call B)
      → p.world.clients ≡ w.clients
      → (arrive ax x s keys max c p).1.world.clients ≡ (serve ax x s keys max w c).1.clients
  unfolding turn
  clients-arrive p w c e =
      sym (clients-run_at_once (arrive ax x s keys max c p))
      ∙ ap (λ (a : Option (Response Body) × Process B C K R). a.1.world.clients)
          (at_once-eq-serve p c)
      ∙ clients-serve ax x s keys max "" p.world c
      ∙ rw e (sym (clients-serve ax x s keys max "" w c))

  pub app-arrive :
      (p : Process B C K R) (c : Call B) → (arrive ax x s keys max c p).1.world.app ≡ p.world.app
  app-arrive p c = elim (serve-Served ax x s keys max p.world c) [
    | unauthorised status q t ↦ rw (arrive-unauthorised p c status q) refl
    | over_limit role q t _ ↦ rw (arrive-over p c role q t) refl
    | admitted role q t _ ↦ rw (arrive-held p c role q t) refl
  ]

  pub draws-arrive :
      (p : Process B C K R) (c : Call B)
      → (arrive ax x s keys max c p).1.world.draws ≡ p.world.draws
  draws-arrive p c = elim (serve-Served ax x s keys max p.world c) [
    | unauthorised status q t ↦ rw (arrive-unauthorised p c status q) refl
    | over_limit role q t _ ↦ rw (arrive-over p c role q t) refl
    | admitted role q t _ ↦ rw (arrive-held p c role q t) refl
  ]

  is_some-arrive :
      (p : Process B C K R) (w : World C K R) (c : Call B)
      → p.world.clients ≡ w.clients
      → not (is_some (arrive ax x s keys max c p).0)
        ≡ (is_authorised keys c && is_ok (counted ax x s keys max w c).0)
  unfolding is_authorised
  is_some-arrive p w c e = rw (sym e) (elim (serve-Served ax x s keys max p.world c) [
    | unauthorised status q t ↦ rw (arrive-unauthorised p c status q, q) refl
    | over_limit role q t _ ↦ rw (arrive-over p c role q t, q, t) refl
    | admitted role q t _ ↦ rw (arrive-held p c role q t, q, t) refl
  ])

  module _ (k : String) where
    -- The requests of a bucket that come to wait for their handlers, in a run.
    unfoldable pub entered : List (Turn B) → Process B C K R → ℕ
    entered [] p = 0
    entered (arrives c ∷ ts) p =
        (if bucket_key c.request == k && not (is_some (arrive ax x s keys max c p).0) then 1 else 0)
        + entered ts (arrive ax x s keys max c p).1
    entered (finishes n ∷ ts) p = entered ts (finish ax x s keys max n p).1
    entered (cleans now ∷ ts) p = entered ts (turn ax x s keys max (cleans now) p).1

    -- Overlap changes nothing of what the rate limit counts: in every run of the process, from every
    -- state, the requests of a bucket that are let through to their handlers are as many as if the
    -- same requests were served one after another in the order in which they come, whenever their
    -- handlers run.
    pub entered-eq-reached :
        (ts : List (Turn B)) (p : Process B C K R) (w : World C K R)
        → p.world.clients ≡ w.clients
        → entered ts p ≡ reached ax x s keys max k w (in_order ts)
    unfolding entered in_order reached turn
    entered-eq-reached [] p w e = refl
    entered-eq-reached (arrives c ∷ ts) p w e =
        rw
          (
            entered-eq-reached ts (arrive ax x s keys max c p).1 (serve ax x s keys max w c).1
                (clients-arrive p w c e),
            is_some-arrive p w c e,
          )
          (ground arith)
    entered-eq-reached (finishes n ∷ ts) p w e =
        entered-eq-reached ts (finish ax x s keys max n p).1 w (clients-finish n p ∙ e)
    entered-eq-reached (cleans now ∷ ts) p w e =
        entered-eq-reached ts (turn ax x s keys max (cleans now) p).1
          (record w { clients = sweep now w.clients }) (ap (sweep now) e)
