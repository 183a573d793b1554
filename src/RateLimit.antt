-- ===== src/RateLimit.antt =====
-- src/middleware/rate_limit.rs: a fixed window for each bucket. Instants are numbers of nanoseconds
-- of a clock that does not go back; `duration_since` stops at zero, as `-` does.
-- `check` holds the lock of its entry to the end, so the checks of a bucket follow one another.
pub mod Buckets
pub mod Window
pub mod Sweep
use Prim.Native.String.{◌++◌ as ◌<>◌}
use secret_management.Prelude.{
  ℕ, ◌+◌, ◌-◌, ◌*◌, ◌%◌, ◌^◌, String, Bool, not, ◌==◌, ltb, leb, Option, none, some, List, [], ◌∷◌,
  if◌then◌else◌, Result, ok, err, ◌>>=◌, unwrap_or, and_then, or_else, map_some,
}
use secret_management.Std.Text.{trim, strip_prefix, split, parse_usize}
use secret_management.Std.Map.{HashMap, Env, var, get, insert, retain}
use secret_management.Http.{Request, StatusCode, too_many_requests}

unfoldable pub max_requests : Env → ℕ
max_requests env = unwrap_or (and_then (var "RATE_LIMIT" env) parse_usize) 100

-- 60 seconds
abbrev pub window : ℕ
window = 60 * 10 ^ 9

pub record ClientTracker : Type 0 where
  pub count : ℕ
  pub window_start : ℕ

-- `entry(key).or_insert(ClientTracker { count: 0, window_start: Instant::now() })`
unfoldable pub entry_or_new : ℕ → Option ClientTracker → ClientTracker
entry_or_new opened none = record { count = 0; window_start = opened }
entry_or_new opened (some t) = t

-- the reset of a window that is over, and the count of this request, a `usize`
unfoldable pub tick : ℕ → ClientTracker → ClientTracker
tick now t =
    let t' =
      if leb window (now - t.window_start) then record t { count = 0; window_start = now } else t in
    record t' { count = (t'.count + 1) % 2 ^ 64 }

-- `RateLimiter::check` under the limit `max`: `opened` is the clock at the call of `entry`, `now`
-- after it
unfoldable pub check :
    ℕ
    → HashMap ClientTracker
    → String
    → ℕ
    → ℕ
    → Result StatusCode (Unit {0}) × HashMap ClientTracker
check max clients bucket_key opened now =
    let entry = tick now (entry_or_new opened (get bucket_key clients)) in
    (if ltb max entry.count then err too_many_requests else ok tt, insert bucket_key entry clients)

-- one round of the background task
unfoldable pub sweep : ℕ → HashMap ClientTracker → HashMap ClientTracker
sweep now clients = retain (λ t. ltb (now - t.window_start) (window * 2)) clients

abbrev pub first : List String → Option String
first [] = none
first (s ∷ ss) = some s

abbrev pub filled : String → Option String
filled s = if s == "" then none else some s

-- The address of the client: of the connection, or else the first that `X-Forwarded-For` names.
unfoldable pub client_ip : Request → String
client_ip req =
    unwrap_or
      (or_else req.peer
        (and_then (map_some trim (and_then req.forwarded_for (λ v. first (split b',' v)))) filled))
      "unknown"

unfoldable pub bucket_key : Request → String
unfolding client_ip
bucket_key req =
    let key_part = unwrap_or (and_then req.authorization (strip_prefix "Bearer ")) "anon" in
    if key_part == "anon" then client_ip req else client_ip req <> ":" <> key_part

-- `rate_limit_middleware`, with the clock's two readings
unfoldable pub rate_limit_middleware :
    {R : Type 0}
    → ℕ
    → HashMap ClientTracker
    → ℕ
    → ℕ
    → Request
    → (Request → Result StatusCode R)
    → Result StatusCode R × HashMap ClientTracker
rate_limit_middleware max clients opened now req next =
    let (answer, clients') = check max clients (bucket_key req) opened now in
    (answer >>= (λ _. next req), clients')
