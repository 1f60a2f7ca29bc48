-- ===== src/Pool/Sweeping.antt =====
-- Which idle connections a sweep closes.
use fast_firebird.Base.{
  ℕ, suc, ◌+◌, ◌-◌, ◌≤◌, ◌<◌, ◌≡◌, refl, Bool, true, not, ◌||◌, List, [], ◌∷◌, ◌++◌, inl, inr, leb,
  length, Bool-cases, arith, min, All, map, ap,
}
use fast_firebird.Pool.{Pool, Entry, sweep_from, sweep_idle}

-- An idle connection that a sweep leaves alone.
abbrev pub Fresh : (ℕ → Bool) → ℕ → ℕ → Entry → Type 0
Fresh alive now limit e = (now - e.since < limit) × (alive e.conn ≡ true)

-- Some entries in order, each left idle or closed.
pub data Parted : List Entry → List Entry → List Entry → Type 0 where
  nothing : Parted [] [] []
  left :
      {es idle closed : List Entry} (e : Entry)
      → Parted es idle closed
      → Parted (e ∷ es) (e ∷ idle) closed
  shut :
      {es idle closed : List Entry} (e : Entry)
      → Parted es idle closed
      → Parted (e ∷ es) idle (e ∷ closed)

all_left : (es : List Entry) → Parted es es []
all_left [] = nothing
all_left (e ∷ es) = left e (all_left es)

sweep_from_lem :
    (alive : ℕ → Bool) (now limit least others : ℕ) (es : List Entry)
    → let swept = sweep_from alive now limit least others es in
      (closed : List Entry) × Parted es swept.0 closed
      × (swept.1 ≡ map (λ e. e.conn) closed)
      × All (λ e. ¬ Fresh alive now limit e) closed
      × (min least (others + length es) ≤ others + length swept.0)
      × (least < others + length swept.0 → All (Fresh alive now limit) swept.0)
unfolding sweep_from
sweep_from_lem alive now limit least others [] = ([], nothing, refl, tt, omega arith, λ _. tt)
sweep_from_lem alive now limit least others (e ∷ rest) =
    elim (Bool-cases (leb (others + suc (length rest)) least)) [
      | inl a ↦
          rw (a, sweep_from) ([], all_left (e ∷ rest), refl, tt, omega arith, λ k. ground arith)
      | inr a ↦ elim (Bool-cases (leb limit (now - e.since) || not (alive e.conn))) [
        | inl b ↦
            let (closed, sorted, conns, stale, least_left, fresh) =
              sweep_from_lem alive now limit least others rest in
            rw (a, b, sweep_from)
              (
                e ∷ closed,
                shut e sorted,
                ap (λ t. e.conn ∷ t) conns,
                ((λ f. absurd (ground (arith, b, f.0, f.1))), stale),
                ground (arith, least_left),
                fresh,
              )
        | inr b ↦
            let (closed, sorted, conns, stale, least_left, fresh) =
              sweep_from_lem alive now limit least (suc others) rest in
            rw (a, b, sweep_from)
              (
                closed,
                left e sorted,
                conns,
                stale,
                omega (arith, least_left),
                λ k. ((ground arith, ground arith), fresh (omega arith)),
              )
      ]
    ]

-- A sweep leaves each idle connection or closes it, in order, and closes no other. It closes only
-- connections that are dead or idle for the limit, never goes below the minimum by it, and if more
-- than the minimum are left then every idle one left is alive and was idle for less than the limit.
pub sweep_idle-Swept :
    (alive : ℕ → Bool) (now : ℕ) (p : Pool)
    → let out = sweep_idle alive now p in
      (closed : List Entry) × Parted p.idle out.idle closed
      × (out.disconnected ≡ p.disconnected ++ map (λ e. e.conn) closed)
      × All (λ e. ¬ Fresh alive now p.idle_timeout_ms e) closed
      × (min p.min_ (length p.in_use + length p.idle) ≤ length out.in_use + length out.idle)
      × (p.min_ < length out.in_use + length out.idle
          → All (Fresh alive now p.idle_timeout_ms) out.idle)
unfolding sweep_idle
sweep_idle-Swept alive now p =
    let (closed, sorted, conns, stale, least_left, fresh) =
      sweep_from_lem alive now p.idle_timeout_ms p.min_ (length p.in_use) p.idle in
    (closed, sorted, ap (λ t. p.disconnected ++ t) conns, stale, least_left, fresh)
