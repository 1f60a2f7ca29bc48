-- ===== src/Pool/Capacity.antt =====
-- How many connections a pool has.
use fast_firebird.Base.{
  ℕ, suc, ◌+◌, ◌-◌, ◌≤◌, ◌<◌, ◌≡◌, refl, Bool, true, not, ◌||◌, List, [], ◌∷◌, ◌++◌, inl, inr,
  if◌then◌else◌, length, length-append, Bool-cases, arith, max,
}
use fast_firebird.Pool.{
  Pool, Entry, Config, has, set_add, set_delete, new_pool, ensure_sweep, discard, connect_or_wait,
  reserve, acquire_from, acquire, ping_ok, ping_failed, created, create_failed, warmup, warmup_done,
  warmed, warm_failed, hand_back, release, timeout, sweep_from, sweep_idle, close, size,
}
use fast_firebird.Pool.Moves.{
  Event, acquires, pings_ok, pings_failed, connects, connect_fails, warms, warm_fails, warms_done,
  closes, warm_connects, releases, times_out, sweeps, step, run,
}

pub has-length : (d : ℕ) (xs : List ℕ) → has d xs ≡ true → 0 < length xs
has-length d [] h = cc
has-length d (x ∷ xs) h = omega arith

pub length-set_delete :
    (d : ℕ) (xs : List ℕ)
    → length (set_delete d xs) ≡ (if has d xs then length xs - 1 else length xs)
unfolding set_delete
length-set_delete d [] = refl
length-set_delete d (x ∷ xs) = ground (arith, length-set_delete d xs, has-length d xs)

length-set_add-le : (d : ℕ) (xs : List ℕ) → length (set_add d xs) ≤ suc (length xs)
unfolding set_add
length-set_add-le d xs = ground (arith, length-append xs (d ∷ []))

pub has-set_add : (d : ℕ) (xs : List ℕ) → has d (set_add d xs) ≡ true
unfolding set_add
has-set_add d xs = ground (arith, has_append xs)
  where
    has_append : (xs : List ℕ) → has d (xs ++ d ∷ []) ≡ true
    has_append [] = ground arith
    has_append (x ∷ xs) = ground (arith, has_append xs)

-- The connections that are there or under way, against the maximum.
abbrev pub Fits : ℕ → ℕ → ℕ → ℕ → ℕ → ℕ → ℕ → Type 0
Fits idle in_use pending creating warming least most =
    (idle + in_use + pending ≤ most) × (pending ≡ creating + warming) × least ≤ most

abbrev pub Within : Pool → Type 0
Within p =
    Fits (length p.idle) (length p.in_use) p.pending_creates p.creating p.warming p.min_ p.max_

acquire_from-Within :
    (alive : ℕ → Bool) (es : List Entry) (p : Pool)
    → Fits (length es) (length p.in_use) p.pending_creates p.creating p.warming p.min_ p.max_
    → Within (acquire_from alive es p).0 × ((acquire_from alive es p).0.max_ ≡ p.max_)
unfolding acquire_from connect_or_wait size reserve discard
acquire_from-Within alive [] p h = ground arith
acquire_from-Within alive (e ∷ rest) p h = elim (Bool-cases (alive e.conn)) [
  | inl a ↦ rw (a, acquire_from) (ground (arith, length-set_add-le e.conn p.in_use))
  | inr a ↦
      rw (a, acquire_from)
        (acquire_from-Within alive rest (discard e.conn (reserve e rest p)) (
          ground (
            arith,
            length-set_add-le e.conn p.in_use,
            length-set_delete e.conn (set_add e.conn p.in_use),
            has-set_add e.conn p.in_use,
          )))
]

pub swept_fits :
    (alive : ℕ → Bool) (now limit least others : ℕ) (es : List Entry)
    → length (sweep_from alive now limit least others es).0 ≤ length es
unfolding sweep_from
swept_fits alive now limit least others [] = omega arith
swept_fits alive now limit least others (e ∷ rest) = ground (
  arith,
  swept_fits alive now limit least others rest,
  swept_fits alive now limit least (suc others) rest,
)

hand_back-Within :
    (d now : ℕ) (ws : List ℕ) (p : Pool)
    → Fits
        (length p.idle)
        (suc (length p.in_use))
        p.pending_creates
        p.creating
        p.warming
        p.min_
        p.max_
    → Within (hand_back d now ws p).0 × ((hand_back d now ws p).0.max_ ≡ p.max_)
unfolding hand_back
hand_back-Within d now [] p h = ground arith
hand_back-Within d now (w ∷ ws) p h = ground (arith, length-set_add-le d p.in_use)

release-Within :
    (alive : Bool) (d now : ℕ) (p : Pool)
    → Within p
    → Within (release alive d now p).0 × ((release alive d now p).0.max_ ≡ p.max_)
unfolding release
release-Within alive d now p h = elim (Bool-cases (has d p.in_use)) [
  | inr e ↦ rw (e, release) (h, refl)
  | inl e ↦ elim (Bool-cases (p.closed || not alive)) [
    | inl f ↦ rw (e, f, release) (ground (arith, length-set_delete d p.in_use))
    | inr f ↦
        rw (e, f, release)
          (hand_back-Within d now p.waiters _
            (ground (arith, length-set_delete d p.in_use, has-length d p.in_use)))
  ]
]

ping_failed-Within :
    (alive : ℕ → Bool) (d : ℕ) (p : Pool)
    → Within p
    → Within (ping_failed alive d p).0 × ((ping_failed alive d p).0.max_ ≡ p.max_)
unfolding ping_failed discard
ping_failed-Within alive d p h = elim (Bool-cases (has d p.pings)) [
  | inr e ↦ rw (e, ping_failed) (h, refl)
  | inl e ↦
      rw (e, ping_failed)
        (acquire_from-Within alive p.idle (discard d (record p { pings = set_delete d p.pings }))
          (ground (arith, length-set_delete d p.in_use)))
]

-- Any event keeps a pool within its maximum, which does not change.
step-Within : (p : Pool) (e : Event) → Within p → Within (step p e) × ((step p e).max_ ≡ p.max_)
unfolding acquire ping_ok created create_failed warmup warmup_done warmed warm_failed timeout
    sweep_idle close ensure_sweep size
step-Within p (acquires alive) h = ground (arith, acquire_from-Within alive p.idle (ensure_sweep p))
step-Within p (pings_ok d) h = ground arith
step-Within p (pings_failed alive d) h = ping_failed-Within alive d p h
step-Within p connects h = ground (arith, length-set_add-le p.next_conn p.in_use)
step-Within p connect_fails h = ground arith
step-Within p warms h = ground arith
step-Within p warms_done h = ground arith
step-Within p warm_fails h = ground arith
step-Within p closes h = ground arith
step-Within p (warm_connects now) h = ground arith
step-Within p (releases alive d now) h = release-Within alive d now p h
step-Within p (times_out t) h = ground arith
step-Within p (sweeps alive now) h =
    ground (arith, swept_fits alive now p.idle_timeout_ms p.min_ (length p.in_use) p.idle)

run-Within :
    (es : List Event) (p : Pool) → Within p → Within (run p es) × ((run p es).max_ ≡ p.max_)
run-Within [] p h = (h, refl)
run-Within (e ∷ es) p h =
    let s = step-Within p e h in
    let r = run-Within es (step p e) s.0 in (r.0, omega (arith, r.1, s.1))

-- After any events from a new pool whose minimum is not above its maximum, in any order, the
-- connections that are idle, lent or being made are at most the maximum (and 1, if that is 0),
-- and the connects that are counted as pending are those under way.
pub run-new_pool-size :
    (config : Config) (es : List Event)
    → config.min_ ≤ max 1 config.max_
    → let p = run (new_pool config) es in
      (size p ≤ max 1 config.max_) × (p.pending_creates ≡ p.creating + p.warming)
unfolding new_pool size
run-new_pool-size config es h =
    let r = run-Within es (new_pool config) (ground arith) in (ground arith, r.0.1)
