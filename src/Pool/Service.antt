-- ===== src/Pool/Service.antt =====
-- Where callers wait although they could be served, and where they do not.
use fast_firebird.Base.{
  ℕ, ◌≤◌, ◌≡◌, refl, Bool, true, false, not, ◌&&◌, List, [], ◌∷◌, inl, inr, ◌==◌, length,
  Bool-cases, arith, max,
}
use fast_firebird.Pool.{
  Pool, Entry, Config, set_delete, new_pool, ensure_sweep, discard, connect_or_wait, reserve,
  acquire_from, acquire, ping_ok, ping_failed, created, create_failed, warmup, warmup_done, warmed,
  warm_failed, hand_back, release, timeout, sweep_idle, close, size,
}
use fast_firebird.Pool.Moves.{
  Event, acquires, pings_ok, pings_failed, connects, connect_fails, warms, warm_fails, warms_done,
  closes, warm_connects, releases, times_out, sweeps, step, run,
}
use fast_firebird.Pool.Capacity.{length-set_delete, swept_fits}

-- The pools where someone waits while a connection is idle.
abbrev pub idles : Pool → Bool
idles p = not (length p.waiters == 0) && not (length p.idle == 0)

-- The event is not the end of a connect of `warmup`.
abbrev pub cold : Event → Bool
cold (warm_connects now) = false
cold e = true

abbrev pub all_cold : List Event → Bool
all_cold [] = true
all_cold (e ∷ es) = cold e && all_cold es

acquire_from-idles :
    (alive : ℕ → Bool) (es : List Entry) (p : Pool)
    → idles (record p { idle = es }) ≡ false
    → idles (acquire_from alive es p).0 ≡ false
unfolding acquire_from connect_or_wait size reserve discard
acquire_from-idles alive [] p h = ground arith
acquire_from-idles alive (e ∷ rest) p h = elim (Bool-cases (alive e.conn)) [
  | inl a ↦ rw (a, acquire_from) (ground arith)
  | inr a ↦ rw (a, acquire_from) (acquire_from-idles alive rest _ (ground arith))
]

hand_back-idles :
    (d now : ℕ) (ws : List ℕ) (p : Pool)
    → p.waiters ≡ ws
    → idles p ≡ false
    → idles (hand_back d now ws p).0 ≡ false
unfolding hand_back
hand_back-idles d now [] p e h = rw (e, hand_back) refl
hand_back-idles d now (w ∷ ws) p e h = ground arith

step-idles : (p : Pool) (e : Event) → cold e ≡ true → idles p ≡ false → idles (step p e) ≡ false
unfolding acquire ping_ok ping_failed discard created create_failed warmup warmup_done warmed
    warm_failed release timeout sweep_idle close ensure_sweep
step-idles p (acquires alive) k h = ground (arith, acquire_from-idles alive p.idle (ensure_sweep p))
step-idles p (pings_ok d) k h = ground arith
step-idles p (pings_failed alive d) k h = ground (
  arith,
  acquire_from-idles alive p.idle (discard d (record p { pings = set_delete d p.pings })) h,
)
step-idles p connects k h = ground arith
step-idles p connect_fails k h = ground arith
step-idles p warms k h = h
step-idles p warms_done k h = ground arith
step-idles p warm_fails k h = ground arith
step-idles p closes k h = refl
step-idles p (warm_connects now) k h = cc
step-idles p (releases alive d now) k h =
    ground
      (arith, hand_back-idles d now p.waiters (record p { in_use = set_delete d p.in_use }) refl h)
step-idles p (times_out t) k h = ground (arith, length-set_delete t p.waiters)
step-idles p (sweeps alive now) k h =
    ground (arith, swept_fits alive now p.idle_timeout_ms p.min_ (length p.in_use) p.idle)

run-idles :
    (es : List Event) (p : Pool) → all_cold es ≡ true → idles p ≡ false → idles (run p es) ≡ false
run-idles [] p k h = h
run-idles (e ∷ es) p k h = run-idles es (step p e) (ground arith) (step-idles p e (ground arith) h)

-- After any events from a new pool among which no connect of `warmup` ends, no caller waits while
-- a connection is idle.
pub run-new_pool-idles :
    (config : Config) (es : List Event)
    → all_cold es ≡ true
    → idles (run (new_pool config) es) ≡ false
unfolding new_pool
run-new_pool-idles config es k = run-idles es (new_pool config) k refl

-- With a minimum at the maximum, a caller that asks while `warmup` is connecting still waits when
-- a connection of `warmup` has become idle.
pub warmup_strands :
    (config : Config) (alive : ℕ → Bool) (now : ℕ)
    → max 1 config.max_ ≤ config.min_
    → idles (run (new_pool config) (warms ∷ acquires alive ∷ warm_connects now ∷ [])) ≡ true
unfolding new_pool acquire acquire_from connect_or_wait size warmup warmed ensure_sweep
warmup_strands config alive now h = ground arith
