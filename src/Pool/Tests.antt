-- ===== src/Pool/Tests.antt =====
-- Pools run on examples, and the theorems applied to them.
use fast_firebird.Base.{
  map, ℕ, ◌+◌, ◌≤◌, ◌<◌, ◌≡◌, refl, Bool, true, false, List, [], ◌∷◌, ◌++◌, ltb, if◌then◌else◌,
  length, arith, max, min, All,
}
use fast_firebird.Pool.{
  Entry, ping_failed, acquire, created, acquire_from, ensure_sweep, connect_or_wait, set_add,
  hand_back, set_delete, reserve, discard, Config, Pool, granted, has, new_pool, size, release,
  sweep_idle,
}
use fast_firebird.Pool.Moves.{Event, acquires, pings_failed, connects, releases, run}
use fast_firebird.Pool.Counting.{idle_times, times, run-new_pool_places}
use fast_firebird.Pool.Capacity.{run-new_pool-size}
use fast_firebird.Pool.Waiting.{release_serves_oldest}
use fast_firebird.Pool.Service.{idles, run-new_pool-idles}
use fast_firebird.Pool.Sweeping.{Fresh, Parted, sweep_idle-Swept}

abbrev small : Config
small = record { min_ = 1; max_ = 2; idle_timeout_ms = 100; validate_on_acquire = true }

abbrev yes : ℕ → Bool
yes c = true

-- Two are lent, one more waits, and a returned one is validated for the next.
abbrev busy : List Event
busy = acquires yes ∷ acquires yes ∷ connects ∷ connects ∷ acquires yes ∷ []

abbrev churn : List Event
churn = busy ++ releases true 0 5 ∷ releases true 1 6 ∷ acquires yes ∷ pings_failed yes 1 ∷ []

test_churn : (run (new_pool small) churn).disconnected ≡ 1 ∷ []
unfolding new_pool ping_failed acquire release created acquire_from ensure_sweep connect_or_wait
    size set_add hand_back set_delete reserve discard
test_churn = refl

run-new_pool_places_example :
    let p = run (new_pool small) churn in
    idle_times 1 p.idle + times 1 p.in_use + times 1 p.disconnected
    ≡ (if ltb 1 p.next_conn then 1 else 0)
unfolding new_pool ping_failed acquire release created acquire_from ensure_sweep connect_or_wait
    size set_add hand_back set_delete reserve discard
run-new_pool_places_example = run-new_pool_places small churn 1 refl

run-new_pool-size_example :
    let p = run (new_pool small) churn in
    (size p ≤ max 1 small.max_) × (p.pending_creates ≡ p.creating + p.warming)
run-new_pool-size_example = run-new_pool-size small churn (omega arith)

release_serves_oldest_example :
    let out = release true 0 9 (run (new_pool small) busy) in
    (out.1 ≡ granted 0) × (has 0 out.0.in_use ≡ true) × (out.0.waiters ≡ []) × All (λ v. 0 < v) []
unfolding new_pool ping_failed acquire release created acquire_from ensure_sweep connect_or_wait
    size set_add hand_back set_delete reserve discard
release_serves_oldest_example = release_serves_oldest small busy 0 9 0 [] refl refl refl

run-new_pool-idles_example : idles (run (new_pool small) churn) ≡ false
run-new_pool-idles_example = run-new_pool-idles small churn refl

abbrev full : Pool
full = run (new_pool small) busy

abbrev aged : Pool
aged = record (new_pool small) {
  idle =
      record { conn = 2; since = 95 }
      ∷ record { conn = 1; since = 3 }
      ∷ record { conn = 0; since = 1 }
      ∷ [];
  next_conn = 3;
}

sweep_idle-Swept_example :
    let out = sweep_idle yes 150 aged in
    (closed : List Entry) × Parted aged.idle out.idle closed
    × (out.disconnected ≡ aged.disconnected ++ map (λ e. e.conn) closed)
    × All (λ e. ¬ Fresh yes 150 aged.idle_timeout_ms e) closed
    × (min aged.min_ (length aged.in_use + length aged.idle) ≤ length out.in_use + length out.idle)
    × (aged.min_ < length out.in_use + length out.idle
        → All (Fresh yes 150 aged.idle_timeout_ms) out.idle)
sweep_idle-Swept_example = sweep_idle-Swept yes 150 aged
