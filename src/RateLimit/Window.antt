-- ===== src/RateLimit/Window.antt =====
-- How many requests src/middleware/rate_limit.rs admits to a bucket within a window, with rounds of
-- the background task in between.
use Prim.Native.Nat.{min}
use text.Mathlib.TextPositions.{eq_refl}
use secret_management.Prelude.{
  ℕ, suc, ◌+◌, ◌-◌, ◌^◌, ◌<◌, ◌≤◌, String, ◌≡◌, ◌≢◌, ap, ◌∙◌, inl, inr, Bool, true, false, ◌&&◌,
  ◌==◌, eq_iff, leb, ltb, ◌*◌, none, some, List, [], ◌∷◌, length, All, arith, Result, ok, err,
  if◌then◌else◌, Bool-cases,
}
use secret_management.Std.Map.{HashMap, get, get-insert_self, get-insert_ne, get-retain, IsDistinct}
use secret_management.Http.{StatusCode}
use secret_management.RateLimit.{ClientTracker, window, entry_or_new, tick, check, sweep}
use secret_management.RateLimit.Sweep.{check-IsDistinct, sweep-IsDistinct}

-- A request as the limiter sees it, with the clock's two readings.
pub record Hit : Type 0 where
  pub bucket : String
  pub opened : ℕ
  pub now : ℕ

abbrev pub is_ok : {A : Type 0} → Result StatusCode A → Bool
is_ok (ok a) = true
is_ok (err c) = false

-- What comes to the limiter: a request, or a round of the background task at an instant.
pub data Event : Type 0 where
  hit : Hit → Event
  round : ℕ → Event

abbrev pub instant : Event → ℕ
instant (hit h) = h.now
instant (round now) = now

-- The requests of one bucket, and those of them that are admitted when all events come in turn.
unfoldable pub asked : String → List Event → ℕ
asked k [] = 0
asked k (hit h ∷ es) = (if h.bucket == k then 1 else 0) + asked k es
asked k (round now ∷ es) = asked k es

unfoldable pub admitted : ℕ → String → HashMap ClientTracker → List Event → ℕ
admitted max k m [] = 0
admitted max k m (hit h ∷ es) =
    (if h.bucket == k && is_ok (check max m h.bucket h.opened h.now).0 then 1 else 0)
    + admitted max k (check max m h.bucket h.opened h.now).1 es
admitted max k m (round now ∷ es) = admitted max k (sweep now m) es

-- A request to one bucket leaves the others alone.
pub get-check_ne :
    (max : ℕ) (m : HashMap ClientTracker) (j k : String) (opened now : ℕ)
    → j ≢ k
    → get k (check max m j opened now).1 ≡ get k m
unfolding check
get-check_ne max m j k opened now h = get-insert_ne j k _ m h

tick_within :
    (t : ClientTracker) (now : ℕ)
    → now - t.window_start < window
    → t.count + 1 < 2 ^ 64
    → tick now t ≡ record t { count = t.count + 1 }
unfolding tick
tick_within t now young small = ground arith

tick_over :
    (t : ClientTracker) (now : ℕ)
    → window ≤ now - t.window_start
    → tick now t ≡ record { count = 1; window_start = now }
unfolding tick
tick_over t now old = ground arith

module _ (max : ℕ) (k : String) (m : HashMap ClientTracker) (opened now : ℕ)
    (t : ClientTracker) where
  -- What a check does, given the entry that it leaves.
  check_lem :
      tick now (entry_or_new opened (get k m)) ≡ t
      → (is_ok (check max m k opened now).0 ≡ leb t.count max)
        × (get k (check max m k opened now).1 ≡ some t)
  unfolding check
  check_lem e = rw e (ground arith, get-insert_self k t m)

-- A round keeps an entry whose window lasts.
get-sweep_young :
    (m : HashMap ClientTracker) (k : String) (t : ClientTracker) (now : ℕ)
    → IsDistinct m
    → get k m ≡ some t
    → now - t.window_start < window
    → get k (sweep now m) ≡ some t
unfolding sweep
get-sweep_young m k t now distinct e young =
    get-retain (λ u. ltb (now - u.window_start) (window * 2)) k m distinct ∙ rw e (ground arith)

module _ (max : ℕ) (k : String) where
  -- While a window lasts, a bucket whose count is `c` gets what is left up to the limit, and no more.
  pub admitted_within :
      (m : HashMap ClientTracker) (t : ClientTracker) (es : List Event)
      → IsDistinct m
      → get k m ≡ some t
      → All (λ ev. instant ev - t.window_start < window) es
      → t.count + length es < 2 ^ 64
      → admitted max k m es ≡ min (max - t.count) (asked k es)
  unfolding admitted asked entry_or_new
  admitted_within m t [] distinct e young small = omega arith
  admitted_within m t (round now ∷ es) distinct e (young, later) small =
      admitted_within (sweep now m) t es (sweep-IsDistinct now m distinct)
        (get-sweep_young m k t now distinct e young) later (omega arith)
  admitted_within m t (hit h ∷ es) distinct e (now, later) small =
      let m' = (check max m h.bucket h.opened h.now).1 in
      let distinct' : IsDistinct m' = check-IsDistinct max m h.bucket h.opened h.now distinct in
      elim (Bool-cases (h.bucket == k)) [
        | inr other ↦
            let kept : get k m' ≡ some t =
              get-check_ne max m h.bucket k h.opened h.now (λ p. ground (arith, eq_iff h.bucket k))
              ∙ e in
            rw other (omega (arith, admitted_within m' t es distinct' kept later (omega arith)))
        | inl same ↦
            let here : h.bucket ≡ k = (eq_iff h.bucket k).0 same in
            let next : ClientTracker = record t { count = t.count + 1 } in
            let (answer, stored) = check_lem max h.bucket m h.opened h.now next (
              rw (ap (λ s. get s m) here ∙ e, entry_or_new)
                (tick_within t h.now now (omega arith))) in
            let rest =
              admitted_within m' next es distinct' (rw (← here) stored) later (omega arith) in
            rw (same, answer) (ground (arith, rest))
      ]

module _ (max : ℕ) (m : HashMap ClientTracker) (distinct : IsDistinct m) (h : Hit)
    (es : List Event) where
  admitted_first :
      (s : ℕ)
      → tick h.now (entry_or_new h.opened (get h.bucket m)) ≡ record { count = 1; window_start = s }
      → All (λ ev. instant ev - s < window) es
      → suc (length es) < 2 ^ 64
      → admitted max h.bucket m (hit h ∷ es) ≡ min max (asked h.bucket (hit h ∷ es))
  unfolding admitted asked
  admitted_first s e young small =
      let opened : ClientTracker = record { count = 1; window_start = s } in
      let (answer, stored) = check_lem max h.bucket m h.opened h.now opened e in
      let rest =
        admitted_within max h.bucket (check max m h.bucket h.opened h.now).1 opened es
          (check-IsDistinct max m h.bucket h.opened h.now distinct) stored young (omega arith) in
      rw (eq_refl h.bucket, answer) (ground (arith, rest))

  -- Where each bucket has one entry: the requests of a new bucket, from the first on and while its
  -- window lasts, are admitted up to the limit, and refused after that, whatever requests of others
  -- and rounds of the background task come in between, if there are fewer than 2^64 of all.
  pub admitted_new :
      get h.bucket m ≡ none
      → h.now - h.opened < window
      → All (λ ev. instant ev - h.opened < window) es
      → suc (length es) < 2 ^ 64
      → admitted max h.bucket m (hit h ∷ es) ≡ min max (asked h.bucket (hit h ∷ es))
  unfolding entry_or_new
  admitted_new e now young small =
      admitted_first h.opened
        (rw (e, entry_or_new)
          (tick_within (record { count = 0; window_start = h.opened }) h.now now (omega arith)))
        young small

  -- Where each bucket has one entry: a request after the window of its bucket is over opens the next
  -- one. While that lasts, requests are admitted up to the limit again, whatever requests of others
  -- and rounds of the background task come in between, if there are fewer than 2^64 of all.
  pub admitted_again :
      (t : ClientTracker)
      → get h.bucket m ≡ some t
      → window ≤ h.now - t.window_start
      → All (λ ev. instant ev - h.now < window) es
      → suc (length es) < 2 ^ 64
      → admitted max h.bucket m (hit h ∷ es) ≡ min max (asked h.bucket (hit h ∷ es))
  unfolding entry_or_new
  admitted_again t e old young small =
      admitted_first h.now (rw (e, entry_or_new) (tick_over t h.now old)) young small
