-- ===== src/App/Traffic.antt =====
-- How many requests of a client src/app.rs lets through to its handlers within a window.
use Prim.Native.Nat.{min}
use secret_management.Prelude.{
  ℕ, suc, ◌+◌, ◌-◌, ◌^◌, ◌<◌, String, ◌≡◌, refl, ◌∙◌, Bool, true, ◌&&◌, ◌==◌, none, List, [], ◌∷◌,
  length, All, arith, ok, if◌then◌else◌, Bool-cases, inl, inr,
}
use secret_management.Std.Map.{get, IsDistinct}
use secret_management.Crates.{Crates, SigningCrates}
use secret_management.Auth.{ApiKeyStore, require_api_key}
use secret_management.RateLimit.{window, bucket_key, check, sweep}
use secret_management.RateLimit.Window.{
  Hit, Event, hit, round, instant, is_ok, asked, admitted, admitted_new,
}
use secret_management.App.Routes.{Axum}
use secret_management.App.Serve.{Call, World, serve}
use secret_management.App.Answers.{serve-Served, unauthorised, over_limit, admitted as passed}

-- What happens to the process: a request, or a round of the background task at an instant.
pub data Moment (B : Type 0) : Type 0 where
  called : Call B → Moment B
  cleaned : ℕ → Moment B

module _ {B : Type 0} (keys : ApiKeyStore) where
  -- The check of the API key lets the request through.
  unfoldable pub is_authorised : Call B → Bool
  is_authorised c = is_ok (require_api_key keys c.request ok)

  abbrev pub hit_of : Call B → Hit
  hit_of c = record { bucket = bucket_key c.request; opened = c.opened; now = c.now }

  -- What of it the rate limit sees.
  unfoldable pub events_of : List (Moment B) → List Event
  events_of [] = []
  events_of (called c ∷ ms) =
      let rest = events_of ms in if is_authorised c then hit (hit_of c) ∷ rest else rest
  events_of (cleaned now ∷ ms) = round now ∷ events_of ms

module _ {B C D K R : Type 0} (ax : Axum B) (x : Crates C D) (s : SigningCrates K R)
    (keys : ApiKeyStore) (max : ℕ) (k : String) where
  -- The requests of a bucket that pass both layers, while the process runs through some moments.
  unfoldable pub reached : World C K R → List (Moment B) → ℕ
  reached w [] = 0
  reached w (called c ∷ ms) =
      (if is_authorised keys c
          && (bucket_key c.request == k
              && is_ok (check max w.clients (bucket_key c.request) c.opened c.now).0)
        then 1
        else 0)
      + reached (serve ax x s keys max w c).1 ms
  reached w (cleaned now ∷ ms) = reached (record w { clients = sweep now w.clients }) ms

  -- A request changes the clients exactly if it is authorised.
  pub clients-serve :
      (w : World C K R) (c : Call B)
      → (serve ax x s keys max w c).1.clients ≡ (
          if is_authorised keys c
          then (check max w.clients (bucket_key c.request) c.opened c.now).1
          else w.clients)
  unfolding is_authorised
  clients-serve w c = elim (serve-Served ax x s keys max w c) [
    | unauthorised status p q ↦ rw (q, p) refl
    | over_limit role q r t ↦ rw (t, q) refl
    | passed role q r t ↦ rw (t, q) refl
  ]

  -- What reaches the handlers is what the limiter admits of the authorised requests.
  reached-eq-admitted :
      (w : World C K R) (ms : List (Moment B))
      → reached w ms ≡ admitted max k w.clients (events_of keys ms)
  unfolding reached admitted events_of
  reached-eq-admitted w [] = refl
  reached-eq-admitted w (cleaned now ∷ ms) =
      reached-eq-admitted (record w { clients = sweep now w.clients }) ms
  reached-eq-admitted w (called c ∷ ms) =
      let later = reached-eq-admitted (serve ax x s keys max w c).1 ms in
      let after = clients-serve w c in
      elim (Bool-cases (is_authorised keys c)) [
        | inl authorised ↦ rw (authorised, later, rw authorised at after) refl
        | inr denied ↦ rw (denied, later, rw denied at after) (omega arith)
      ]

module _ {B C D K R : Type 0} (ax : Axum B) (x : Crates C D) (s : SigningCrates K R)
    (keys : ApiKeyStore) (max : ℕ) where
  -- Where each bucket has one entry: from the first authorised request of a new bucket on and while
  -- its window lasts, the requests of the bucket that the routes let through to their handlers are as
  -- many as are authorised, up to the limit and no more, whatever requests of others, refused
  -- requests and rounds of the background task come in between, if the limiter sees fewer than 2^64.
  pub reached_within :
      (w : World C K R) (c : Call B) (ms : List (Moment B))
      → IsDistinct w.clients
      → get (bucket_key c.request) w.clients ≡ none
      → is_authorised keys c ≡ true
      → c.now - c.opened < window
      → All (λ ev. instant ev - c.opened < window) (events_of keys ms)
      → suc (length (events_of keys ms)) < 2 ^ 64
      → reached ax x s keys max (bucket_key c.request) w (called c ∷ ms)
        ≡ min max (asked (bucket_key c.request) (events_of keys (called c ∷ ms)))
  unfolding events_of
  reached_within w c ms distinct fresh authorised now young small =
      reached-eq-admitted ax x s keys max (bucket_key c.request) w (called c ∷ ms)
      ∙ rw authorised (
          admitted_new max w.clients distinct (hit_of keys c) (events_of keys ms) fresh now young
            small)
