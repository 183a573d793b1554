-- ===== src/App/Overlap/Idle.antt =====
-- The clients that src/middleware/rate_limit.rs remembers when no requests come any more.
use secret_management.Prelude.{
  ℕ, ◌+◌, ◌*◌, ◌≤◌, ◌-◌, String, ◌≡◌, refl, sym, ◌∙◌, Bool, false, ltb, Bool-cases, inl, inr, List,
  [], ◌∷◌, All, arith, subst, ◌==◌,
}
use secret_management.Std.Map.{HashMap, get, insert, retain}
use secret_management.Crates.{Crates, SigningCrates}
use secret_management.Auth.{ApiKeyStore}
use secret_management.RateLimit.{
  ClientTracker, window, entry_or_new, tick, check, sweep, bucket_key,
}
use secret_management.App.Routes.{Axum}
use secret_management.App.Serve.{Call}
use secret_management.App.Traffic.{is_authorised, clients-serve}
use secret_management.App.Overlap.{
  Process, Turn, arrives, finishes, cleans, arrive, finish, turn, run,
}
use secret_management.App.Overlap.Serial.{clients-arrive, clients-finish}

-- The windows of the clients began at an instant or before.
abbrev pub StartedBy : ℕ → HashMap ClientTracker → Type 0
StartedBy t m = All (λ (e : String × ClientTracker). e.1.window_start ≤ t) m

-- The clock readings of the requests of a run are at an instant or before.
abbrev pub CameBy : {B : Type 0} → ℕ → Turn B → Type 0
CameBy t (arrives c) = (c.opened ≤ t) × (c.now ≤ t)
CameBy t (finishes n) = Unit
CameBy t (cleans now) = Unit

get-StartedBy :
    (t : ℕ) (k : String) (opened : ℕ) (m : HashMap ClientTracker)
    → opened ≤ t
    → StartedBy t m
    → (entry_or_new opened (get k m)).window_start ≤ t
unfolding get entry_or_new
get-StartedBy t k opened [] small h = small
get-StartedBy t k opened ((j, v) ∷ m) small (p, h) = elim (Bool-cases (j == k)) [
  | inl e ↦ rw e p
  | inr e ↦ rw e (get-StartedBy t k opened m small h)
]

tick-StartedBy :
    (t now : ℕ) (v : ClientTracker) → now ≤ t → v.window_start ≤ t → (tick now v).window_start ≤ t
unfolding tick
tick-StartedBy t now v small h = ground arith

insert-StartedBy :
    (t : ℕ) (k : String) (v : ClientTracker) (m : HashMap ClientTracker)
    → v.window_start ≤ t
    → StartedBy t m
    → StartedBy t (insert k v m)
unfolding insert
insert-StartedBy t k v [] h all = (h, tt)
insert-StartedBy t k v ((j, w) ∷ m) h (p, all) = elim (Bool-cases (j == k)) [
  | inl e ↦ rw e (h, all)
  | inr e ↦ rw e (p, insert-StartedBy t k v m h all)
]

check-StartedBy :
    (t max : ℕ) (m : HashMap ClientTracker) (k : String) (opened now : ℕ)
    → opened ≤ t
    → now ≤ t
    → StartedBy t m
    → StartedBy t (check max m k opened now).1
unfolding check
check-StartedBy t max m k opened now o n h =
    insert-StartedBy t k _ m (tick-StartedBy t now _ n (get-StartedBy t k opened m o h)) h

retain-StartedBy :
    (t : ℕ) (keep : ClientTracker → Bool) (m : HashMap ClientTracker)
    → StartedBy t m
    → StartedBy t (retain keep m)
unfolding retain
retain-StartedBy t keep [] h = tt
retain-StartedBy t keep ((k, v) ∷ m) (p, h) = elim (Bool-cases (keep v)) [
  | inl e ↦ rw e (p, retain-StartedBy t keep m h)
  | inr e ↦ rw e (retain-StartedBy t keep m h)
]

-- A round two windows later keeps none.
sweep-StartedBy :
    (t now : ℕ) (m : HashMap ClientTracker)
    → t + window * 2 ≤ now
    → StartedBy t m
    → sweep now m ≡ []
unfolding sweep retain
sweep-StartedBy t now [] late h = refl
sweep-StartedBy t now ((k, v) ∷ m) late (p, h) =
    let dropped : ltb (now - v.window_start) (window * 2) ≡ false = ground (arith, p, late) in
    rw dropped (sweep-StartedBy t now m late h)

module _ {B C D K R : Type 0} (ax : Axum B) (x : Crates C D) (s : SigningCrates K R)
    (keys : ApiKeyStore) (max t : ℕ) where
  arrive-StartedBy :
      (p : Process B C K R) (c : Call B)
      → CameBy t (arrives c)
      → StartedBy t p.world.clients
      → StartedBy t (arrive ax x s keys max c p).1.world.clients
  arrive-StartedBy p c (o, n) h =
      subst (StartedBy t)
        (sym (
          clients-arrive ax x s keys max p p.world c refl
          ∙ clients-serve ax x s keys max "" p.world c))
        (elim (Bool-cases (is_authorised keys c)) [
          | inl e ↦
              rw e
                (check-StartedBy t max p.world.clients (bucket_key c.request) c.opened c.now o n h)
          | inr e ↦ rw e h
        ])

  run-StartedBy :
      (ts : List (Turn B)) (p : Process B C K R)
      → All (CameBy t) ts
      → StartedBy t p.world.clients
      → StartedBy t (run ax x s keys max ts p).world.clients
  unfolding run turn sweep
  run-StartedBy [] p came h = h
  run-StartedBy (arrives c ∷ ts) p (c_by, came) h =
      run-StartedBy ts (arrive ax x s keys max c p).1 came (arrive-StartedBy p c c_by h)
  run-StartedBy (finishes n ∷ ts) p (_, came) h =
      run-StartedBy ts (finish ax x s keys max n p).1 came
        (subst (StartedBy t) (sym (clients-finish ax x s keys max n p)) h)
  run-StartedBy (cleans now ∷ ts) p (_, came) h =
      run-StartedBy ts (turn ax x s keys max (cleans now) p).1 came
        (retain-StartedBy t _ p.world.clients h)

  -- The memory of the rate limit is given back: where the clock readings of all requests of a run are
  -- at an instant or before, and so are the windows at its start, a round of the background task two
  -- windows after that instant leaves no client, however many buckets the requests named, and whether
  -- they overlapped or not.
  pub idle_clients_are_forgotten :
      (ts : List (Turn B)) (p : Process B C K R) (now : ℕ)
      → StartedBy t p.world.clients
      → All (CameBy t) ts
      → t + window * 2 ≤ now
      → (turn ax x s keys max (cleans now) (run ax x s keys max ts p)).1.world.clients ≡ []
  unfolding turn
  idle_clients_are_forgotten ts p now started came late =
      sweep-StartedBy t now _ late (run-StartedBy ts p came started)
