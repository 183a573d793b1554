-- ===== src/App/Overlap.antt =====
-- Requests of src/app.rs that overlap: the layers and the handler of a request are two turns of the
-- process, with turns of other requests, and rounds of the background task, in between.
pub mod Serial
pub mod Kept
pub mod Signed
pub mod Limits
pub mod Idle
pub mod Caches
pub mod Draws
pub mod Nonces
pub mod Fresh
use secret_management.Prelude.{
  ℕ, zero, suc, Option, none, some, map_some, List, [], ◌∷◌, Result, ok, err,
}
use secret_management.Std.Map.{HashMap}
use secret_management.Http.{StatusCode, Response}
use secret_management.Crates.{Crates, SigningCrates}
use secret_management.Auth.{ApiKeyStore, require_api_key}
use secret_management.RateLimit.{ClientTracker, sweep, rate_limit_middleware}
use secret_management.App.{AppState}
use secret_management.App.Routes.{Route, route_of, Body, Axum, refusal}
use secret_management.App.Serve.{Call, World, endpoint, hardened}

-- The state of the process, and the requests that the layers let through and whose handlers have
-- not run yet, the last one first.
pub record Process (B C K R : Type 0) : Type 0 where
  pub world : World C K R
  pub waiting : List (Option Route × Call B)

-- A request comes; the handler of the request at a place of `waiting` runs; the task makes a round.
pub data Turn (B : Type 0) : Type 0 where
  arrives : Call B → Turn B
  finishes : ℕ → Turn B
  cleans : ℕ → Turn B

-- The element at a place, and the others.
unfoldable pub pick : {A : Type 0} → ℕ → List A → Option (A × List A)
pick n [] = none
pick zero (a ∷ others) = some (a, others)
pick (suc n) (a ∷ others) = map_some (λ (b, rest). (b, a ∷ rest)) (pick n others)

module _ {B C D K R : Type 0} (ax : Axum B) (x : Crates C D) (s : SigningCrates K R)
    (keys : ApiKeyStore) (max : ℕ) where
  -- What the process does, and an answer that it gives.
  abbrev Answered : Type 0
  Answered = Option (Response Body) × Process B C K R

  abbrev pub held_or_refused :
      Process B C K R → Result StatusCode (Option Route × Call B) × HashMap ClientTracker → Answered
  held_or_refused p (ok held, clients) =
      (none, record { world = record p.world { clients = clients }; waiting = held ∷ p.waiting })
  held_or_refused p (err status, clients) =
      (some (refusal ax status), record p { world = record p.world { clients = clients } })

  abbrev pub let_through : Process B C K R → Result StatusCode Answered → Answered
  let_through p (ok answered) = answered
  let_through p (err status) = (some (refusal ax status), p)

  -- the layers, up to the handler
  unfoldable pub arrive : Call B → Process B C K R → Answered
  arrive c p = let_through p (
      require_api_key keys c.request λ role. ok (
        held_or_refused p (
          rate_limit_middleware max p.world.clients c.opened c.now c.request
            λ req. ok (route_of c.request.path, c))))

  abbrev pub answered :
      Process B C K R → List (Option Route × Call B) → Response Body × AppState C K R × ℕ → Answered
  answered p rest (res, app, i) = (
    some res,
    record { world = record { app = app; draws = i; clients = p.world.clients }; waiting = rest },
  )

  -- the handler, and the headers of its answer
  unfoldable pub finish : ℕ → Process B C K R → Answered
  finish n p = elim (pick n p.waiting) [
    | none ↦ (none, p)
    | some ((target, c), rest) ↦
        answered p rest (hardened ax x s (endpoint ax x s target p.world c))
  ]

  unfoldable pub turn : Turn B → Process B C K R → Answered
  turn (arrives c) p = arrive c p
  turn (finishes n) p = finish n p
  turn (cleans now) p =
      (none, record p { world = record p.world { clients = sweep now p.world.clients } })

  unfoldable pub run : List (Turn B) → Process B C K R → Process B C K R
  run [] p = p
  run (t ∷ ts) p = run ts (turn t p).1

  -- A request whose handler runs at once.
  abbrev pub run_at_once : Answered → Answered
  run_at_once (some answer, p) = (some answer, p)
  run_at_once (none, p) = turn (finishes 0) p

  abbrev pub at_once : Call B → Process B C K R → Answered
  at_once c p = run_at_once (turn (arrives c) p)
