-- ===== src/RateLimit/Sweep.antt =====
-- The background task of src/middleware/rate_limit.rs forgets only what does not matter any more.
use secret_management.Prelude.{
  ℕ, ◌-◌, ◌*◌, ◌≤◌, String, ◌≡◌, refl, ap, ◌∙◌, ltb, Option, none, some, arith, ok, err,
  if◌then◌else◌,
}
use secret_management.Std.Map.{
  HashMap, get, kept, get-retain, IsDistinct, insert-IsDistinct, retain-IsDistinct,
}
use secret_management.Http.{too_many_requests}
use secret_management.RateLimit.{ClientTracker, window, entry_or_new, tick, check, sweep}

-- Checks keep one entry for each bucket.
pub check-IsDistinct :
    (max : ℕ) (m : HashMap ClientTracker) (k : String) (opened now : ℕ)
    → IsDistinct m
    → IsDistinct (check max m k opened now).1
unfolding check
check-IsDistinct max m k opened now h = insert-IsDistinct k _ m h

pub sweep-IsDistinct :
    (now : ℕ) (m : HashMap ClientTracker) → IsDistinct m → IsDistinct (sweep now m)
unfolding sweep
sweep-IsDistinct now m h = retain-IsDistinct (λ t. ltb (now - t.window_start) (window * 2)) m h

-- An entry that the task drops would have been reset, so its count is the same without it.
count-tick_swept :
    (o : Option ClientTracker) (swept opened now : ℕ)
    → swept ≤ now
    → (tick now
        (entry_or_new opened (kept (λ t. ltb (swept - t.window_start) (window * 2)) o))).count
      ≡ (tick now (entry_or_new opened o)).count
unfolding tick entry_or_new
count-tick_swept none swept opened now h = refl
count-tick_swept (some t) swept opened now h = ground arith

-- A request is answered the same, whether the task has run before it or not, where each bucket has
-- one entry.
pub check-sweep :
    (max : ℕ) (m : HashMap ClientTracker) (k : String) (swept opened now : ℕ)
    → IsDistinct m
    → swept ≤ now
    → (check max (sweep swept m) k opened now).0 ≡ (check max m k opened now).0
unfolding check sweep
check-sweep max m k swept opened now distinct h =
    ap (λ (c : ℕ). if ltb max c then err too_many_requests else ok tt)
      (ap (λ o. (tick now (entry_or_new opened o)).count)
          (get-retain (λ t. ltb (swept - t.window_start) (window * 2)) k m distinct)
        ∙ count-tick_swept (get k m) swept opened now h)
