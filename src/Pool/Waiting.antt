-- ===== src/Pool/Waiting.antt =====
-- The order in which callers wait, and who is served.
use fast_firebird.Base.{
  ℕ, suc, ◌<◌, ◌≡◌, refl, subst, Bool, true, false, List, [], ◌∷◌, ◌++◌, inl, inr, ◌==◌, Bool-cases,
  arith, All,
}
use fast_firebird.Pool.{
  Pool, Entry, Config, granted, has, set_delete, new_pool, ensure_sweep, discard, connect_or_wait,
  reserve, acquire_from, acquire, ping_ok, ping_failed, created, create_failed, warmup, warmup_done,
  warmed, warm_failed, hand_back, release, timeout, sweep_idle, close, size,
}
use fast_firebird.Pool.Moves.{
  Event, acquires, pings_ok, pings_failed, connects, connect_fails, warms, warm_fails, warms_done,
  closes, warm_connects, releases, times_out, sweeps, step, run,
}
use fast_firebird.Pool.Capacity.{has-set_add}

-- Timers increase along the list and are below the next one.
abbrev pub Ascending : List ℕ → ℕ → Type 0
Ascending [] bound = Unit {0}
Ascending (x ∷ xs) bound = x < bound × All (λ y. x < y) xs × Ascending xs bound

All-append_one : (P : ℕ → Type 0) (xs : List ℕ) (y : ℕ) → All P xs → P y → All P (xs ++ y ∷ [])
All-append_one P [] y h k = (k, tt)
All-append_one P (x ∷ xs) y h k = (h.0, All-append_one P xs y h.1 k)

Ascending-append :
    (xs : List ℕ) (bound : ℕ) → Ascending xs bound → Ascending (xs ++ bound ∷ []) (suc bound)
Ascending-append [] bound h = (omega arith, tt, tt)
Ascending-append (x ∷ xs) bound h =
    (omega (arith, h.0), All-append_one _ xs bound h.1 h.0, Ascending-append xs bound h.2)

All-set_delete : (P : ℕ → Type 0) (d : ℕ) (xs : List ℕ) → All P xs → All P (set_delete d xs)
unfolding set_delete
All-set_delete P d [] h = h
All-set_delete P d (x ∷ xs) h = elim (Bool-cases (x == d)) [
  | inl e ↦ rw (e, set_delete) h.1
  | inr e ↦ rw (e, set_delete) (h.0, All-set_delete P d xs h.1)
]

Ascending-set_delete :
    (d : ℕ) (xs : List ℕ) (bound : ℕ) → Ascending xs bound → Ascending (set_delete d xs) bound
unfolding set_delete
Ascending-set_delete d [] bound h = h
Ascending-set_delete d (x ∷ xs) bound h = elim (Bool-cases (x == d)) [
  | inl e ↦ rw (e, set_delete) h.2
  | inr e ↦ rw (e, set_delete) (h.0, All-set_delete _ d xs h.1, Ascending-set_delete d xs bound h.2)
]

abbrev Queued : Pool → Type 0
Queued p = Ascending p.waiters p.next_timer

acquire_from-Queued :
    (alive : ℕ → Bool) (es : List Entry) (p : Pool) → Queued p → Queued (acquire_from alive es p).0
unfolding acquire_from connect_or_wait size reserve discard
acquire_from-Queued alive [] p h = ground (arith, Ascending-append p.waiters p.next_timer h)
acquire_from-Queued alive (e ∷ rest) p h = elim (Bool-cases (alive e.conn)) [
  | inl a ↦ rw (a, acquire_from) (ground arith)
  | inr a ↦ rw (a, acquire_from) (acquire_from-Queued alive rest _ h)
]

hand_back-Queued :
    (d now : ℕ) (ws : List ℕ) (p : Pool)
    → Ascending ws p.next_timer
    → Queued p
    → Queued (hand_back d now ws p).0
unfolding hand_back
hand_back-Queued d now [] p h k = k
hand_back-Queued d now (w ∷ ws) p h k = h.2

step-Queued : (p : Pool) (e : Event) → Queued p → Queued (step p e)
unfolding acquire ping_ok ping_failed discard created create_failed warmup warmup_done warmed
    warm_failed release timeout sweep_idle close ensure_sweep
step-Queued p (acquires alive) h = ground (arith, acquire_from-Queued alive p.idle (ensure_sweep p))
step-Queued p (pings_ok d) h = ground arith
step-Queued p (pings_failed alive d) h = ground (
  arith,
  acquire_from-Queued alive p.idle (discard d (record p { pings = set_delete d p.pings })) h,
)
step-Queued p connects h = ground arith
step-Queued p connect_fails h = ground arith
step-Queued p warms h = h
step-Queued p warms_done h = ground arith
step-Queued p warm_fails h = ground arith
step-Queued p closes h = tt
step-Queued p (warm_connects now) h = ground arith
step-Queued p (releases alive d now) h =
    ground
      (arith, hand_back-Queued d now p.waiters (record p { in_use = set_delete d p.in_use }) h h)
step-Queued p (times_out t) h = ground (arith, Ascending-set_delete t p.waiters p.next_timer h)
step-Queued p (sweeps alive now) h = h

run-Queued : (es : List Event) (p : Pool) → Queued p → Queued (run p es)
run-Queued [] p h = h
run-Queued (e ∷ es) p h = run-Queued es (step p e) (step-Queued p e h)

-- After any events from a new pool, the callers that wait stand in the order in which they came,
-- each before all that came later.
pub run-new_pool-Ascending :
    (config : Config) (es : List Event)
    → let p = run (new_pool config) es in Ascending p.waiters p.next_timer
unfolding new_pool
run-new_pool-Ascending config es = run-Queued es (new_pool config) tt

-- After any events from a new pool, a live connection that is given back while the pool is open and
-- somebody waits goes to the caller that came first, stays lent, and everybody else still waits.
pub release_serves_oldest :
    (config : Config) (es : List Event) (c now w : ℕ) (ws : List ℕ)
    → let p = run (new_pool config) es in
      p.closed ≡ false
      → has c p.in_use ≡ true
      → p.waiters ≡ w ∷ ws
      → let out = release true c now p in
        (out.1 ≡ granted c)
        × (has c out.0.in_use ≡ true)
        × (out.0.waiters ≡ ws)
        × All (λ v. w < v) ws
unfolding release hand_back
release_serves_oldest config es c now w ws o l q =
    let p = run (new_pool config) es in
    let h : Ascending (w ∷ ws) p.next_timer =
      subst (λ t. Ascending t p.next_timer) q (run-new_pool-Ascending config es) in
    rw (l, o, q, release, hand_back) (refl, has-set_add c (set_delete c p.in_use), refl, h.1)
