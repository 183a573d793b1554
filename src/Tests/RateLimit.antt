-- ===== src/Tests/RateLimit.antt =====
-- Runs of src/middleware/rate_limit.rs.
use Prim.Native.Nat.{min}
use secret_management.Prelude.{◌≡◌, ◌↔◌, refl, List, String, ◌∷◌, [], some, none, arith, ne_of_==}
use secret_management.Http.{Request}
use secret_management.Std.Map.{HashMap, get}
use secret_management.Std.Text.{strip_prefix}
use secret_management.RateLimit.{ClientTracker, check, sweep, bucket_key, client_ip}
use secret_management.RateLimit.Window.{Hit, Event, hit, round, admitted, asked, admitted_again}
use secret_management.RateLimit.Sweep.{check-sweep}
use secret_management.RateLimit.Buckets.{bucket_key_separates}

-- Three requests of one client and one of another, at intervals of a second.
abbrev first_hit : Hit
first_hit = record { bucket = "a"; opened = 5000000000; now = 5000000001 }

abbrev more_hits : List Event
more_hits =
    hit (record { bucket = "a"; opened = 6000000000; now = 6000000001 })
    ∷ round 6500000000
    ∷ hit (record { bucket = "b"; opened = 7000000000; now = 7000000001 })
    ∷ hit (record { bucket = "a"; opened = 8000000000; now = 8000000001 })
    ∷ []

three_asked : asked "a" (hit first_hit ∷ more_hits) ≡ 3
unfolding asked
three_asked = refl

-- A bucket whose window began two minutes ago.
abbrev used_up : HashMap ClientTracker
used_up = ("a", record { count = 9; window_start = 0 }) ∷ []

abbrev late_hit : Hit
late_hit = record { bucket = "a"; opened = 130000000000; now = 130000000000 }

admitted_again_example :
    admitted 2 "a" used_up (hit late_hit ∷ []) ≡ min 2 (asked "a" (hit late_hit ∷ []))
unfolding get
admitted_again_example =
    admitted_again 2 used_up (refl, tt) late_hit [] (record { count = 9; window_start = 0 }) refl
      (omega arith) tt (omega arith)

check-sweep_example :
    (check 2 (sweep 125000000000 used_up) "a" 130000000000 130000000000).0
    ≡ (check 2 used_up "a" 130000000000 130000000000).0
check-sweep_example =
    check-sweep 2 used_up "a" 125000000000 130000000000 130000000000 (unfold get in refl, tt)
      (omega arith)

abbrev keyed : Request
keyed = record {
  authorization = some "Bearer k";
  forwarded_for = some "10.0.0.1, 10.0.0.2";
  peer = none;
  path = "/encrypt";
}

bucket_key_separates_example :
    (bucket_key keyed ≡ bucket_key (record keyed { authorization = some "Bearer l" }))
    ↔ (◌≡◌ {A = String} "k" "l")
unfolding strip_prefix client_ip
bucket_key_separates_example =
    bucket_key_separates keyed (record keyed { authorization = some "Bearer l" }) "k" "l" refl refl
      (ne_of_== "k" "anon" refl) (ne_of_== "l" "anon" refl) refl
