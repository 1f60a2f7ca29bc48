-- ===== src/Pool/Moves.antt =====
-- The events of a pool, and runs of them.
use fast_firebird.Base.{ℕ, Bool, true, not, ◌&&◌, List, [], ◌∷◌, ◌==◌, length}
use fast_firebird.Pool.{
  Pool, has, acquire, ping_ok, ping_failed, created, create_failed, warmup, warmup_done, warmed,
  warm_failed, release, timeout, sweep_idle, close,
}

pub data Event : Type 0 where
  acquires : (ℕ → Bool) → Event
  pings_ok : ℕ → Event
  pings_failed : (ℕ → Bool) → ℕ → Event
  connects connect_fails warms warm_fails warms_done closes : Event
  warm_connects : ℕ → Event
  releases : Bool → ℕ → ℕ → Event
  times_out : ℕ → Event
  sweeps : (ℕ → Bool) → ℕ → Event

abbrev pub step : Pool → Event → Pool
step p (acquires alive) = (acquire alive p).0
step p (pings_ok c) = (ping_ok c p).0
step p (pings_failed alive c) = (ping_failed alive c p).0
step p connects = (created p).0
step p connect_fails = (create_failed p).0
step p warms = warmup p
step p warm_fails = warm_failed p
step p warms_done = warmup_done p
step p closes = close p
step p (warm_connects now) = warmed now p
step p (releases alive c now) = (release alive c now p).0
step p (times_out t) = (timeout t p).0
step p (sweeps alive now) = sweep_idle alive now p

abbrev pub run : Pool → List Event → Pool
run p [] = p
run p (e ∷ es) = run (step p e) es

-- A caller gives back what it was given, and no ping is under way when the pool is closed.
abbrev pub allowed : Pool → Event → Bool
allowed p (releases alive c now) = not (has c p.pings)
allowed p closes = length p.pings == 0
allowed p e = true

abbrev pub all_allowed : Pool → List Event → Bool
all_allowed p [] = true
all_allowed p (e ∷ es) = allowed p e && all_allowed (step p e) es
