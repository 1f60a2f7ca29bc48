-- ===== src/Pool/Counting.antt =====
-- Where each connection is: idle, lent, or closed.
use fast_firebird.Base.{
  ℕ, suc, ◌+◌, ◌-◌, ◌≤◌, ◌≡◌, refl, Bool, true, false, not, List, [], ◌∷◌, ◌++◌, map, ◌||◌, inl,
  inr, ltb, ◌==◌, ==_iff, if◌then◌else◌, length, Bool-cases, arith,
}
use fast_firebird.Pool.{
  Pool, Entry, Config, has, set_add, set_delete, new_pool, ensure_sweep, discard, connect_or_wait,
  reserve, acquire_from, acquire, ping_ok, ping_failed, created, create_failed, warmup, warmup_done,
  warmed, warm_failed, hand_back, release, timeout, sweep_from, sweep_idle, close, size,
}
use fast_firebird.Pool.Moves.{
  Event, acquires, pings_ok, pings_failed, connects, connect_fails, warms, warm_fails, warms_done,
  closes, warm_connects, releases, times_out, sweeps, step, run, allowed, all_allowed,
}

-- How often a connection stands in a list.
abbrev pub times : ℕ → List ℕ → ℕ
times c [] = 0
times c (x ∷ xs) = if x == c then suc (times c xs) else times c xs

abbrev pub idle_times : ℕ → List Entry → ℕ
idle_times c [] = 0
idle_times c (e ∷ es) = if e.conn == c then suc (idle_times c es) else idle_times c es

times-append : (c : ℕ) (xs ys : List ℕ) → times c (xs ++ ys) ≡ times c xs + times c ys
times-append c [] ys = omega arith
times-append c (x ∷ xs) ys = ground (arith, times-append c xs ys)

times-map : (c : ℕ) (es : List Entry) → times c (map (λ e. e.conn) es) ≡ idle_times c es
times-map c [] = refl
times-map c (e ∷ es) = ground (arith, times-map c es)

pub has_lem : (c : ℕ) (xs : List ℕ) → has c xs ≡ ltb 0 (times c xs)
has_lem c [] = refl
has_lem c (x ∷ xs) = ground (arith, has_lem c xs)

times-set_delete :
    (c d : ℕ) (xs : List ℕ)
    → times c (set_delete d xs) ≡ (if d == c then times c xs - 1 else times c xs)
unfolding set_delete
times-set_delete c d [] = ground arith
times-set_delete c d (x ∷ xs) = ground (arith, times-set_delete c d xs)

times-set_add :
    (c d : ℕ) (xs : List ℕ)
    → times c (set_add d xs) ≡ (if d == c then suc (times c xs - 1) else times c xs)
unfolding set_add
times-set_add c d xs = elim (Bool-cases (has d xs)) [
  | inl e ↦ rw e (ground (arith, has_lem d xs, ==_iff d c))
  | inr e ↦ rw e (ground (arith, has_lem d xs, ==_iff d c, times-append c xs (d ∷ [])))
]

-- The place of one connection: made or not, and the pool's record of its pings.
abbrev pub Placed : ℕ → List Entry → List ℕ → List ℕ → List ℕ → ℕ → Type 0
Placed c idle in_use disconnected pings next =
    (idle_times c idle + times c in_use + times c disconnected ≡ (if ltb c next then 1 else 0))
    × times c pings ≤ times c in_use

abbrev pub Accounted : ℕ → Pool → Type 0
Accounted c p = Placed c p.idle p.in_use p.disconnected p.pings p.next_conn

acquire_from-Accounted :
    (alive : ℕ → Bool) (es : List Entry) (p : Pool) (c : ℕ)
    → Placed c es p.in_use p.disconnected p.pings p.next_conn
    → Accounted c (acquire_from alive es p).0
unfolding acquire_from connect_or_wait size reserve discard
acquire_from-Accounted alive [] p c h = ground arith
acquire_from-Accounted alive (e ∷ rest) p c h = elim (Bool-cases (alive e.conn)) [
  | inl a ↦
      rw (a, acquire_from)
        (ground (arith, times-set_add c e.conn p.in_use, times-append c p.pings (e.conn ∷ [])))
  | inr a ↦
      rw (a, acquire_from)
        (acquire_from-Accounted alive rest (discard e.conn (reserve e rest p)) c (
          ground (
            arith,
            times-set_add c e.conn p.in_use,
            times-set_delete c e.conn (set_add e.conn p.in_use),
            times-append c p.disconnected (e.conn ∷ []),
          )))
]

acquire-Accounted :
    (alive : ℕ → Bool) (p : Pool) (c : ℕ) → Accounted c p → Accounted c (acquire alive p).0
unfolding acquire ensure_sweep
acquire-Accounted alive p c h =
    ground (arith, acquire_from-Accounted alive p.idle (ensure_sweep p) c)

ping_failed-Accounted :
    (alive : ℕ → Bool) (d : ℕ) (p : Pool) (c : ℕ)
    → Accounted c p
    → Accounted c (ping_failed alive d p).0
unfolding ping_failed discard
ping_failed-Accounted alive d p c h = elim (Bool-cases (has d p.pings)) [
  | inr e ↦ rw (e, ping_failed) h
  | inl e ↦
      rw (e, ping_failed)
        (acquire_from-Accounted alive p.idle (discard d (record p { pings = set_delete d p.pings }))
          c
          (ground (
            arith,
            has_lem d p.pings,
            ==_iff d c,
            times-set_delete c d p.pings,
            times-set_delete c d p.in_use,
            times-append c p.disconnected (d ∷ []),
          )))
]

-- The place of a connection while `d` is in no list.
abbrev Without : ℕ → ℕ → Pool → Type 0
Without d c p =
    (idle_times c p.idle + times c p.in_use + times c p.disconnected + times c (d ∷ [])
      ≡ (if ltb c p.next_conn then 1 else 0))
    × times c p.pings ≤ times c p.in_use

hand_back-Accounted :
    (d now : ℕ) (ws : List ℕ) (p : Pool) (c : ℕ)
    → Without d c p
    → Accounted c (hand_back d now ws p).0
unfolding hand_back
hand_back-Accounted d now [] p c h = ground arith
hand_back-Accounted d now (w ∷ ws) p c h = ground (arith, times-set_add c d p.in_use)

release-Accounted :
    (alive : Bool) (d now : ℕ) (p : Pool) (c : ℕ)
    → has d p.pings ≡ false
    → Accounted c p
    → Accounted c (release alive d now p).0
unfolding release
release-Accounted alive d now p c k h = elim (Bool-cases (has d p.in_use)) [
  | inr e ↦ rw (e, release) h
  | inl e ↦
      let out : Without d c (record p { in_use = set_delete d p.in_use }) =
        ground (
          arith,
          has_lem d p.pings,
          has_lem d p.in_use,
          ==_iff d c,
          times-set_delete c d p.in_use,
        ) in
      elim (Bool-cases (p.closed || not alive)) [
        | inl f ↦ rw (e, f, release) (ground (arith, times-append c p.disconnected (d ∷ [])))
        | inr f ↦ rw (e, f, release) (hand_back-Accounted d now p.waiters _ c out)
      ]
]

swept-Accounted :
    (alive : ℕ → Bool) (now limit least others : ℕ) (es : List Entry) (c : ℕ)
    → let swept = sweep_from alive now limit least others es in
      idle_times c swept.0 + times c swept.1 ≡ idle_times c es
unfolding sweep_from
swept-Accounted alive now limit least others [] c = refl
swept-Accounted alive now limit least others (e ∷ rest) c = ground (
  arith,
  swept-Accounted alive now limit least others rest c,
  swept-Accounted alive now limit least (suc others) rest c,
)

length_zero : (xs : List ℕ) (c : ℕ) → (length xs == 0) ≡ true → times c xs ≡ 0
length_zero [] c h = refl
length_zero (x ∷ xs) c h = ground arith

step-Accounted :
    (p : Pool) (e : Event) (c : ℕ) → allowed p e ≡ true → Accounted c p → Accounted c (step p e)
unfolding ping_ok created create_failed warmup warmup_done warmed warm_failed timeout sweep_idle
    close ensure_sweep
step-Accounted p (acquires alive) c a h = acquire-Accounted alive p c h
step-Accounted p (pings_ok d) c a h = ground (arith, times-set_delete c d p.pings)
step-Accounted p (pings_failed alive d) c a h = ping_failed-Accounted alive d p c h
step-Accounted p connects c a h = ground (arith, times-set_add c p.next_conn p.in_use)
step-Accounted p connect_fails c a h = ground arith
step-Accounted p warms c a h = h
step-Accounted p warms_done c a h = ground arith
step-Accounted p warm_fails c a h = ground arith
step-Accounted p closes c a h = ground (
  arith,
  length_zero p.pings c a,
  times-append c p.disconnected (map (λ e. e.conn) p.idle ++ p.in_use),
  times-append c (map (λ e. e.conn) p.idle) p.in_use,
  times-map c p.idle,
)
step-Accounted p (warm_connects now) c a h = ground arith
step-Accounted p (releases alive d now) c a h = release-Accounted alive d now p c (ground arith) h
step-Accounted p (times_out t) c a h = ground arith
step-Accounted p (sweeps alive now) c a h = ground (
  arith,
  swept-Accounted alive now p.idle_timeout_ms p.min_ (length p.in_use) p.idle c,
  times-append c p.disconnected
      (sweep_from alive now p.idle_timeout_ms p.min_ (length p.in_use) p.idle).1,
)

run-Accounted :
    (es : List Event) (p : Pool) (c : ℕ)
    → all_allowed p es ≡ true
    → Accounted c p
    → Accounted c (run p es)
run-Accounted [] p c a h = h
run-Accounted (e ∷ es) p c a h =
    run-Accounted es (step p e) c (ground arith) (step-Accounted p e c (ground arith) h)

-- After any events from a new pool, as long as a connection is given back only by a caller that it
-- was given to and the pool is closed while no ping is under way, each connection made is idle,
-- lent or disconnected, in exactly one of these and once, and those not made are in none; so none
-- leaks, none is lent while it is idle or lent, and none is disconnected twice.
pub run-new_pool_places :
    (config : Config) (es : List Event) (c : ℕ)
    → all_allowed (new_pool config) es ≡ true
    → let p = run (new_pool config) es in
      idle_times c p.idle + times c p.in_use + times c p.disconnected
      ≡ (if ltb c p.next_conn then 1 else 0)
unfolding new_pool
run-new_pool_places config es c a = (run-Accounted es (new_pool config) c a (ground arith)).0
