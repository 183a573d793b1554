-- ===== src/App/Overlap/Limits.antt =====
-- How many requests of a client src/app.rs lets through within a window, where requests overlap.
use Prim.Native.Nat.{min}
use secret_management.Prelude.{
  ℕ, suc, ◌-◌, ◌^◌, ◌<◌, ◌≡◌, refl, ◌∙◌, true, none, List, ◌∷◌, length, All,
}
use secret_management.Std.Map.{get, IsDistinct}
use secret_management.Crates.{Crates, SigningCrates}
use secret_management.Auth.{ApiKeyStore}
use secret_management.RateLimit.{window, bucket_key}
use secret_management.RateLimit.Window.{instant, asked}
use secret_management.App.Routes.{Axum}
use secret_management.App.Serve.{Call}
use secret_management.App.Traffic.{is_authorised, events_of, reached_within}
use secret_management.App.Overlap.{Process, Turn, arrives}
use secret_management.App.Overlap.Serial.{in_order, entered, entered-eq-reached}

module _ {B C D K R : Type 0} (ax : Axum B) (x : Crates C D) (s : SigningCrates K R)
    (keys : ApiKeyStore) (max : ℕ) where
  -- Where each bucket has one entry: from the first authorised request of a new bucket on and while
  -- its window lasts, the requests of the bucket that are let through to their handlers are as many
  -- as are authorised, up to the limit and no more, however requests overlap, whenever their handlers
  -- run, and whatever requests of others, refused requests and rounds of the background task come in
  -- between, if the limiter sees fewer than 2^64.
  pub entered_within :
      (p : Process B C K R) (c : Call B) (ts : List (Turn B))
      → IsDistinct p.world.clients
      → get (bucket_key c.request) p.world.clients ≡ none
      → is_authorised keys c ≡ true
      → c.now - c.opened < window
      → All (λ ev. instant ev - c.opened < window) (events_of keys (in_order ts))
      → suc (length (events_of keys (in_order ts))) < 2 ^ 64
      → entered ax x s keys max (bucket_key c.request) (arrives c ∷ ts) p
        ≡ min max (asked (bucket_key c.request) (events_of keys (in_order (arrives c ∷ ts))))
  unfolding in_order
  entered_within p c ts distinct fresh authorised now young small =
      entered-eq-reached ax x s keys max (bucket_key c.request) (arrives c ∷ ts) p p.world refl
      ∙ reached_within ax x s keys max p.world c (in_order ts) distinct fresh authorised now young
          small
