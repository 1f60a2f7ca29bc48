-- ===== src/Script/Parser/Positions.antt =====
-- The statements of a script stand in it, one behind the other, at the positions they carry.
use mathlib.Core.List.{reverse, reverse-append, reverse-reverse}
use fast_firebird.Base.{
  ℕ, zero, suc, ◌+◌, ◌-◌, ◌≤◌, ◌<◌, ◌≡◌, refl, sym, ap, ◌∙◌, inl, inr, Bool, false, not, ◌&&◌, List,
  [], ◌∷◌, ◌++◌, ◌==◌, ltb, if◌then◌else◌, length, take, drop, slice, drop-slice, length-append,
  length-take, take-append_length, append_assoc, arith, Bool-cases, Option-cases,
}
use fast_firebird.Script.Comments.{Parsed, ok, ◌>>=◌, line_col, line_col_at}
use fast_firebird.Script.Words.{is_space, after_run, trim, trim_end}
use fast_firebird.Script.Parser.{
  Cursor, ParsedStatement, after_set_term, skip_trivia, consume_set_term, scan_body, statement_of,
  emit, round, statements_from, parse_script,
}
use fast_firebird.Script.Parser.Cursors.{Ended, Ended-bind, Ended-map, IsPlaced, drop-more}
use fast_firebird.Script.Parser.Rounds.{
  Settled, List-cases, Body, skip_trivia-Trivia, scan_body-Body, consume_set_term-Command,
}

after_run_suffix : (p : ℕ → Bool) (s : List ℕ) → (before : List ℕ) × (s ≡ before ++ after_run p s)
unfolding after_run
after_run_suffix p [] = ([], refl)
after_run_suffix p (c ∷ s) = elim (Bool-cases (p c)) [
  | inl e ↦ let ih = after_run_suffix p s in (c ∷ ih.0, rw (e, after_run) (cc (ih.1)))
  | inr e ↦ ([], rw (e, after_run) refl)
]

trim_end_prefix : (s : List ℕ) → (rest : List ℕ) × (s ≡ trim_end s ++ rest)
unfolding trim_end
trim_end_prefix s =
    let k = after_run_suffix is_space (reverse s) in
    (
      reverse k.0,
      sym (reverse-reverse s)
          ∙ ap reverse k.1
          ∙ reverse-append k.0 (after_run is_space (reverse s)),
    )

-- What does not start with white space is trimmed at its end only.
trim_prefix : (s : List ℕ) → Settled s → (rest : List ℕ) × (s ≡ trim s ++ rest)
unfolding trim after_run
trim_prefix [] h = trim_end_prefix []
trim_prefix (c ∷ s) h = rw (h, after_run) (trim_end_prefix (c ∷ s))

Settled-take : (m : ℕ) (s : List ℕ) → Settled s → Settled (take m s)
Settled-take zero s h = tt
Settled-take (suc m) [] h = tt
Settled-take (suc m) (c ∷ s) h = h

slice_prefix :
    (i : ℕ) (text s rest : List ℕ) → drop i text ≡ s ++ rest → slice i (i + length s) text ≡ s
slice_prefix i text s rest e =
    let z : i + length s - i ≡ length s = omega arith in rw (z, e) (take-append_length s rest)

module _ (lower_wide : ℕ → List ℕ) (script : List ℕ) where
  -- Statements in order: each has text, which stands in the script at the line and the column that
  -- it carries, from `from` on and behind the text of the one before.
  abbrev pub Stands : ℕ → List ParsedStatement → Type 0
  Stands from [] = Unit {0}
  Stands from (s ∷ statements) =
      (k : ℕ) × (from ≤ k)
      × (s.place ≡ line_col_at script k)
      × (slice k (k + length s.sql) script ≡ s.sql)
      × (0 < length s.sql)
      × Stands (k + length s.sql) statements

  Stands-weaken :
      (from to : ℕ) (statements : List ParsedStatement)
      → from ≤ to
      → Stands to statements
      → Stands from statements
  Stands-weaken from to [] h k = tt
  Stands-weaken from to (s ∷ statements) h k = (k.0, omega (arith, k.1), k.2, k.3, k.4, k.5)

  slice-trim :
      (i j : ℕ)
      → i ≤ j
      → Settled (drop i script)
      → (slice i (i + length (trim (slice i j script))) script ≡ trim (slice i j script))
        × (i + length (trim (slice i j script)) ≤ j)
  slice-trim i j h k =
      let sql = trim (slice i j script) in
      let p = trim_prefix (slice i j script) (Settled-take (j - i) (drop i script) k) in
      let d : drop i script ≡ sql ++ (p.0 ++ drop j script) =
        drop-slice i j script h
        ∙ ap (λ xs. xs ++ drop j script) p.1
        ∙ append_assoc sql p.0 (drop j script) in
      (
        slice_prefix i script sql (p.0 ++ drop j script) d,
        omega (arith, h, length-take (j - i) (drop i script), length-append sql p.0, ap length p.1),
      )

  emit-Stands :
      (terminator : List ℕ) (start next : Cursor) (saw terminated : Bool)
      (statements : List ParsedStatement)
      → IsPlaced script start
      → Settled (drop start.index script)
      → Body lower_wide script terminator start (next, saw, terminated)
      → Stands next.index statements
      → Stands start.index
          (emit lower_wide script terminator start (next, saw, terminated) statements)
  unfolding emit statement_of
  emit-Stands terminator start next saw terminated statements h k b t =
      let raw_end = if terminated then next.index - length terminator else next.index in
      let i : (start.index ≤ raw_end) × (raw_end ≤ next.index) = ground (arith, b.1) in
      let q = slice-trim start.index raw_end i.0 k in
      elim (Bool-cases (saw && not (length (trim (slice start.index raw_end script)) == 0))) [
        | inr e ↦ rw e (Stands-weaken start.index next.index statements (omega (arith, i.0, i.1)) t)
        | inl e ↦ rw e (
            let sql = trim (slice start.index raw_end script) in
            (
              start.index,
              omega arith,
              h.placed,
              q.0,
              ground arith,
              Stands-weaken (start.index + length sql) next.index statements
                  (omega (arith, i.1, q.1)) t,
            ))
      ]

  module _ (later : List ℕ → Cursor → Parsed (List ParsedStatement)) (terminator : List ℕ)
      (start : Cursor) (h : IsPlaced script start) (k : Settled (drop start.index script))
      (go : (t : List ℕ) (at : Cursor)
        → IsPlaced script at
        → start.index < at.index
        → Ended (Stands at.index) (later t at)) where
    round-Stands : Ended (Stands start.index) (round lower_wide script later terminator start)
    unfolding round
    round-Stands = elim (List-cases (drop start.index script)) [
      | inl e ↦ rw (e, round) tt
      | inr (c, s, e) ↦
          elim (Option-cases (after_set_term (slice start.index (start.index + 12) script))) [
            | inr (rest, p) ↦
                rw (e, p, round)
                  (Ended-bind (Stands start.index)
                    (consume_set_term lower_wide script terminator start)
                    (λ next. later next.0 next.1)
                    (consume_set_term-Command lower_wide script terminator start h)
                    (λ next t.
                      Ended-map (Stands start.index) (later next.0 next.1)
                        (λ st. Stands-weaken start.index next.1.index st (omega (arith, t.1)))
                        (go next.0 next.1 t.0 t.1)))
            | inl p ↦
                rw (e, p, round)
                  (Ended-bind (Stands start.index)
                    (scan_body lower_wide script (length script) terminator false start)
                    (λ body. later terminator body.0 >>= λ rest.
                      ok (emit lower_wide script terminator start body rest))
                    (scan_body-Body lower_wide script (length script) terminator false start h
                      (omega arith))
                    (λ body t.
                      Ended-bind (Stands start.index) (later terminator body.0)
                        (λ rest. ok (emit lower_wide script terminator start body rest))
                        (go terminator body.0 t.0 (
                          let l = drop-more script start.index c s e in
                          ground (arith, t.1, t.2, l)))
                        (λ rest st.
                          emit-Stands terminator start body.0 body.1 body.2 rest h k t st)))
          ]
    ]

  statements_from-Stands :
      (fuel : ℕ) (terminator : List ℕ) (at : Cursor)
      → IsPlaced script at
      → length script ≤ fuel + at.index
      → Ended (Stands at.index) (statements_from lower_wide script fuel terminator at)
  unfolding statements_from
  statements_from-Stands zero terminator at h k =
      let e : ltb at.index (length script) ≡ false = ground arith in rw e tt
  statements_from-Stands (suc fuel) terminator at h k =
      Ended-bind (Stands at.index) (skip_trivia lower_wide script (length script) at)
        (round lower_wide script (statements_from lower_wide script fuel) terminator)
        (skip_trivia-Trivia lower_wide script (length script) at h (omega arith))
        (λ start t.
          Ended-map (Stands at.index)
            (round lower_wide script (statements_from lower_wide script fuel) terminator start)
            (λ statements. Stands-weaken at.index start.index statements t.1)
            (round-Stands (statements_from lower_wide script fuel) terminator start t.0 t.2
              (λ s next p l. statements_from-Stands fuel s next p (omega (arith, t.1)))))

  -- The parser ends on every script: it reports an error, or it returns statements in order, each
  -- with text, which stands in the script at the line and the column that the statement carries and
  -- behind the text of the one before.
  pub parse_script-Stands :
      (terminator : List ℕ) → Ended (Stands 0) (parse_script lower_wide script terminator)
  unfolding parse_script line_col_at line_col
  parse_script-Stands terminator =
      statements_from-Stands (length script) terminator (record { index = 0; place = (1, 1) })
        (record { within = omega arith; placed = refl }) (omega arith)
