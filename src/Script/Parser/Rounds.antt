-- ===== src/Script/Parser/Rounds.antt =====
-- The loops of the script parser: each ends, in order, within the script.
use fast_firebird.Base.{
  ℕ, zero, suc, ◌⊎◌, ◌+◌, ◌-◌, ◌≤◌, ◌<◌, ◌≡◌, refl, inl, inr, Bool, true, false, not, ◌||◌, List,
  [], ◌∷◌, ltb, if◌then◌else◌, length, drop, slice, length-drop, drop_all, arith, Bool-cases,
  Option-cases,
}
use fast_firebird.Script.Scanner.{region_at}
use fast_firebird.Script.Scanner.Bounds.{region_at-InText}
use fast_firebird.Script.Comments.{Parsed, is_comment}
use fast_firebird.Script.Words.{is_space, run_of, after_run, trim, trim_end}
use fast_firebird.Script.Parser.{
  Cursor, advance, starts_at, matches_terminator, find_terminator, after_set_term, without_set_term,
  starts_folded, skip_trivia, consume_set_term, scan_body,
}
use fast_firebird.Script.Parser.Cursors.{
  Ended, Ended-map, IsPlaced, advance-IsPlaced, drop-more, starts_with-length,
  find_terminator_bounds,
}

-- Nothing is left, or what is left does not start with white space.
abbrev pub Settled : List ℕ → Type 0
Settled [] = Unit {0}
Settled (c ∷ s) = is_space c ≡ false

pub List-cases {ℓ} :
    {A : Type ℓ} (xs : List A) → (xs ≡ []) ⊎ ((x : A) × (rest : List A) × (xs ≡ x ∷ rest))
List-cases [] = inl refl
List-cases (x ∷ xs) = inr (x, xs, refl)

trim_nil : trim (without_set_term []) ≡ []
unfolding trim trim_end after_set_term after_run starts_folded run_of
trim_nil = refl

-- Of an empty command nothing is left.
command_more :
    (script : List ℕ) (i j c : ℕ) (s : List ℕ)
    → trim (without_set_term (slice i j script)) ≡ c ∷ s
    → i < j
command_more script i j c s p = elim (Bool-cases (ltb i j)) [
  | inl e ↦ ground arith
  | inr e ↦
      let z : j - i ≡ 0 = ground arith in
      let q : trim (without_set_term []) ≡ c ∷ s = rw z at p in absurd (cc (trim_nil, q))
]

module _ (lower_wide : ℕ → List ℕ) (script : List ℕ) where
  abbrev pub Trivia : Cursor → Cursor → Type 0
  Trivia at next = IsPlaced script next × (at.index ≤ next.index) × Settled (drop next.index script)

  Trivia-advance :
      (at : Cursor) (count : ℕ) (o : Parsed Cursor)
      → Ended (Trivia (advance script count at)) o
      → Ended (Trivia at) o
  unfolding advance
  Trivia-advance at count o h = Ended-map (Trivia at) o (λ next t. (t.0, omega (arith, t.1), t.2)) h

  pub skip_trivia-Trivia :
      (fuel : ℕ) (at : Cursor)
      → IsPlaced script at
      → length script ≤ fuel + at.index
      → Ended (Trivia at) (skip_trivia lower_wide script fuel at)
  unfolding skip_trivia
  skip_trivia-Trivia zero at h k =
      let e : ltb at.index (length script) ≡ false = ground arith in
      let d : drop at.index script ≡ [] = drop_all at.index script (omega arith) in
      rw (e, d) (h, omega arith, tt)
  skip_trivia-Trivia (suc fuel) at h k = elim (List-cases (drop at.index script)) [
    | inl e ↦ rw (e, skip_trivia) (h, omega arith, rw e tt)
    | inr (c, s, e) ↦ elim (Bool-cases (is_space c)) [
      | inl p ↦
          rw (e, p, skip_trivia)
            (Trivia-advance at 1 (skip_trivia lower_wide script fuel (advance script 1 at)) (
              skip_trivia-Trivia fuel (advance script 1 at)
                (advance-IsPlaced script 1 at h (omega (arith, drop-more script at.index c s e)))
                (unfold advance in omega arith)))
      | inr p ↦ elim (Option-cases (region_at script at.index)) [
        | inl q ↦ rw (e, p, q, skip_trivia) (h, omega arith, rw e p)
        | inr (r, q) ↦ elim (Bool-cases (is_comment r.kind)) [
          | inr t ↦ rw (e, p, q, t, skip_trivia) (h, omega arith, rw e p)
          | inl t ↦ elim (Bool-cases r.terminated) [
            | inr u ↦ rw (e, p, q, t, u, skip_trivia) tt
            | inl u ↦
                rw (e, p, q, t, u, skip_trivia)
                  (let i = region_at-InText script at.index r q in
                    let count = r.stop - at.index in
                    Trivia-advance at count
                      (skip_trivia lower_wide script fuel (advance script count at))
                      (skip_trivia-Trivia fuel (advance script count at)
                        (advance-IsPlaced script count at h (omega (arith, i.progress, i.within)))
                        (unfold advance in omega (arith, i.progress))))
          ]
        ]
      ]
    ]
  ]

  -- The cursor is behind the body: behind the terminator if it was found, else at the end.
  abbrev pub Body : List ℕ → Cursor → Cursor × Bool × Bool → Type 0
  Body terminator at (next, saw, terminated) =
      IsPlaced script next
      × (at.index + (if terminated then length terminator else 0) ≤ next.index)
      × (if terminated then 0 < length terminator else length script ≤ next.index)

  matches_terminator_bounds :
      (terminator : List ℕ) (i : ℕ)
      → matches_terminator terminator i script ≡ true
      → (0 < length terminator) × (i + length terminator ≤ length script)
  unfolding matches_terminator starts_at
  matches_terminator_bounds terminator i h =
      ground (arith, starts_with-length terminator (drop i script), length-drop i script)

  Body-advance :
      (terminator : List ℕ) (at : Cursor) (count : ℕ) (o : Parsed (Cursor × Bool × Bool))
      → Ended (Body terminator (advance script count at)) o
      → Ended (Body terminator at) o
  unfolding advance
  Body-advance terminator at count o h =
      Ended-map (Body terminator at) o (λ b t. (t.0, omega (arith, t.1), t.2)) h

  pub scan_body-Body :
      (fuel : ℕ) (terminator : List ℕ) (saw : Bool) (at : Cursor)
      → IsPlaced script at
      → length script ≤ fuel + at.index
      → Ended (Body terminator at) (scan_body lower_wide script fuel terminator saw at)
  unfolding scan_body
  scan_body-Body zero terminator saw at h k =
      let e : ltb at.index (length script) ≡ false = ground arith in
      rw e (h, omega arith, omega arith)
  scan_body-Body (suc fuel) terminator saw at h k = elim (List-cases (drop at.index script)) [
    | inl e ↦
        let l : length (drop at.index script) ≡ 0 = cc in
        rw (e, scan_body) (h, omega arith, omega (arith, l, length-drop at.index script))
    | inr (c, s, e) ↦ elim (Option-cases (region_at script at.index)) [
      | inr (r, q) ↦ elim (Bool-cases r.terminated) [
        | inr u ↦ rw (e, q, u, scan_body) tt
        | inl u ↦
            rw (e, q, u, scan_body)
              (let i = region_at-InText script at.index r q in
                let count = r.stop - at.index in
                let saw' = saw || not (is_comment r.kind) in
                Body-advance terminator at count
                  (scan_body lower_wide script fuel terminator saw' (advance script count at))
                  (scan_body-Body fuel terminator saw' (advance script count at)
                    (advance-IsPlaced script count at h (omega (arith, i.progress, i.within)))
                    (unfold advance in omega (arith, i.progress))))
      ]
      | inl q ↦ elim (Bool-cases (matches_terminator terminator at.index script)) [
        | inl t ↦
            rw (e, q, t, scan_body)
              (let m = matches_terminator_bounds terminator at.index t in
                (advance-IsPlaced script (length terminator) at h m.1, omega arith, m.0))
        | inr t ↦
            rw (e, q, t, scan_body)
              (let saw' = saw || not (is_space c) in
                Body-advance terminator at 1
                  (scan_body lower_wide script fuel terminator saw' (advance script 1 at))
                  (scan_body-Body fuel terminator saw' (advance script 1 at)
                    (advance-IsPlaced script 1 at h
                      (omega (arith, drop-more script at.index c s e)))
                    (unfold advance in omega arith)))
      ]
    ]
  ]

  -- A SET TERM command moves the cursor forward, and gives a terminator that is not empty.
  abbrev pub Command : Cursor → List ℕ × Cursor → Type 0
  Command at (terminator, next) =
      IsPlaced script next × (at.index < next.index) × (0 < length terminator)

  pub consume_set_term-Command :
      (terminator : List ℕ) (at : Cursor)
      → IsPlaced script at
      → Ended (Command at) (consume_set_term lower_wide script terminator at)
  unfolding consume_set_term
  consume_set_term-Command terminator at h =
      elim (Option-cases (find_terminator terminator at.index (drop at.index script))) [
        | inl e ↦ rw (e, consume_set_term) tt
        | inr (j, e) ↦ elim (List-cases (trim (without_set_term (slice at.index j script)))) [
          | inl p ↦ rw (e, p, consume_set_term) tt
          | inr (c, s, p) ↦
              rw (e, p, consume_set_term)
                (let b = find_terminator_bounds terminator at.index (drop at.index script) j e in
                  let l = length-drop at.index script in
                  (
                    advance-IsPlaced script (j - at.index + length terminator) at h
                        (omega (arith, b.0, b.1, l)),
                    omega (arith, b.0, command_more script at.index j c s p),
                    omega arith,
                  ))
        ]
      ]
