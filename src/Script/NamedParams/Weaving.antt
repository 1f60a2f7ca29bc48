-- ===== src/Script/NamedParams/Weaving.antt =====
-- The rewriter replaces the markers of the SQL by `?`, all of them and nothing else.
use mathlib.Core.Path.{subst₂}
use fast_firebird.Base.{
  ◌≢◌, ℕ, zero, suc, ◌+◌, ◌≤◌, ◌<◌, ◌≡◌, refl, ap, ap₂, subst, ◌∙◌, inl, inr, true, false, Option,
  none, some, List, [], ◌∷◌, ◌++◌, append_assoc, append-nil, ltb, length, drop, slice, min, arith,
  Bool-cases, Option-cases, length-append, length-drop, All,
}
use fast_firebird.Script.Scanner.{region_at}
use fast_firebird.Script.NamedParams.Skipping.{Agree, skip_from-region_at, skip_from-progress}
use fast_firebird.Script.NamedParams.Markers.{
  IsStart, IsPart, IsName, Stops, IsMarker, Marked, ended, region, marker, other, replaced,
  names_at, ident_start_iff, ident_part_iff,
}
use fast_firebird.Script.NamedParams.Markers.Unique.{Marked-unique}
use fast_firebird.Script.NamedParams.{
  skip_from, ident_start, ident_part, ident_end, marker_from, Rewritten, rewrite_from,
  rewrite_named_params,
}

-- The loop takes the longest run of identifier characters.
ident_end_run :
    (j : ℕ) (text : List ℕ)
    → (name rest : List ℕ) × (text ≡ name ++ rest)
      × (ident_end j text ≡ j + length name)
      × All IsPart name
      × Stops rest
unfolding ident_end
ident_end_run j [] = ([], [], refl, omega arith, tt, tt)
ident_end_run j (c ∷ text) = elim (Bool-cases (ident_part c)) [
  | inl e ↦
      let (name, rest, split, stop, parts, stops) = ident_end_run (suc j) text in
      (
        c ∷ name,
        rest,
        ap (λ t. c ∷ t) split,
        rw e (omega (arith, stop)),
        ((ident_part_iff c).0 e, parts),
        stops,
      )
  | inr e ↦ (
    [],
    c ∷ text,
    refl,
    rw e (omega arith),
    tt,
    λ h. let f = (ident_part_iff c).1 h in absurd (ground (arith, e, f)),
  )
]

-- A marker at i: its name, and the text behind it.
marker_from_lem :
    (i : ℕ) (text : List ℕ) (j : ℕ)
    → marker_from i text ≡ some j
    → (name rest : List ℕ) × (text ≡ 64 ∷ (name ++ rest))
      × (j ≡ suc i + length name)
      × IsName name
      × Stops rest
unfolding marker_from
marker_from_lem i [] j h = cc
marker_from_lem i (c ∷ []) j h = cc
marker_from_lem i (c ∷ d ∷ text) j h =
    let (name, rest, split, stop, parts, stops) = ident_end_run (i + 2) text in
    let starts : ident_start d ≡ true = ground (arith, h) in
    (
      d ∷ name,
      rest,
      ap₂ (λ x y. x ∷ d ∷ y) (ground arith) split,
      ground (arith, stop),
      ((ident_start_iff d).0 starts, parts),
      stops,
    )

no_marker_lem : (i : ℕ) (d : ℕ) (text : List ℕ) → IsStart d → marker_from i (64 ∷ d ∷ text) ≢ none
unfolding marker_from
no_marker_lem i d text h e =
    let starts = (ident_start_iff d).1 h in
    let some_end : marker_from i (64 ∷ d ∷ text) ≡ some (ident_end (i + 2) text) =
      rw (starts, marker_from) refl in
    cc

-- Where the rewriter finds none, there is none.
no-IsMarker : (sql : List ℕ) (i j : ℕ) → marker_from i (drop i sql) ≡ none → ¬ IsMarker sql i j
no-IsMarker sql i j e ([], rest, split, stop, is_name, stops) = is_name
no-IsMarker sql i j e (d ∷ name, rest, split, stop, is_name, stops) =
    no_marker_lem i d (name ++ rest) is_name.0 (subst (λ t. marker_from i t ≡ none) split e)

-- From where the scan stands, what is emitted so far, and the names so far.
abbrev Woven : List ℕ → ℕ → ℕ → List ℕ → List (List ℕ) → Option Rewritten → Type 0
Woven sql i last out names result =
    (markers : List (ℕ × ℕ)) × Marked sql (min i (length sql)) markers
    × (result
        ≡ some (record {
          sql = out ++ replaced sql last markers;
          names = names ++ names_at sql markers;
        }))

Woven-ended :
    (sql : List ℕ) (i last : ℕ) (out : List ℕ) (names : List (List ℕ))
    → length sql ≤ i
    → Woven sql i last out names (some (record { sql = out ++ drop last sql; names = names }))
Woven-ended sql i last out names h = ([], ended (omega (arith, h)), rw append-nil refl)

-- The scan moves on without emitting.
Woven-over :
    (sql : List ℕ) (i j last : ℕ) (out : List ℕ) (names : List (List ℕ)) (result : Option Rewritten)
    → ((markers : List (ℕ × ℕ))
        → Marked sql (min j (length sql)) markers
        → Marked sql (min i (length sql)) markers)
    → Woven sql j last out names result
    → Woven sql i last out names result
Woven-over sql i j last out names result over (markers, marks, r) = (markers, over markers marks, r)

Woven-marker :
    (sql : List ℕ) (i j last : ℕ) (out : List ℕ) (names : List (List ℕ)) (result : Option Rewritten)
    → i < length sql
    → region_at sql i ≡ none
    → IsMarker sql i j
    → Woven sql j j
        (out ++ (slice last i sql ++ 63 ∷ []))
        (names ++ slice (i + 1) j sql ∷ [])
        result
    → Woven sql i last out names result
Woven-marker sql i j last out names result h e m (markers, marks, r) =
    let (name, rest, split, stop, is_name, stops) = m in
    let here : i ≡ min i (length sql) = omega (arith, h) in
    let there : min j (length sql) ≡ j =
      omega (arith, stop, ap length split, length-append name rest, length-drop i sql) in
    (
      (i, j) ∷ markers,
      subst (λ k. Marked sql k ((i, j) ∷ markers)) here
          (marker e m (subst (λ k. Marked sql k markers) there marks)),
      r
          ∙ ap₂ (λ x y. some (record { sql = x; names = y }))
              (append_assoc out (slice last i sql ++ 63 ∷ []) (replaced sql j markers)
                ∙ ap (λ t. out ++ t)
                    (append_assoc (slice last i sql) (63 ∷ []) (replaced sql j markers)))
              (append_assoc names (slice (i + 1) j sql ∷ []) (names_at sql markers)),
    )

-- What the rewriter skips is a region, and where it skips nothing there is none.
region_over :
    (sql : List ℕ) (i j : ℕ) (markers : List (ℕ × ℕ))
    → i < length sql
    → skip_from i (length sql) (drop i sql) ≡ some j
    → Marked sql (min j (length sql)) markers
    → Marked sql (min i (length sql)) markers
region_over sql i j markers h s marks =
    let here : i ≡ min i (length sql) = omega (arith, h) in
    let agree = skip_from-region_at sql i (omega (arith, h)) in
    elim (Option-cases (region_at sql i)) [
      | inl p ↦ absurd (subst₂ (Agree (length sql)) p s agree)
      | inr (r, p) ↦
          subst (λ k. Marked sql k markers) here
            (region r p
              (subst (λ k. Marked sql k markers) (subst₂ (Agree (length sql)) p s agree) marks))
    ]

no_region :
    (sql : List ℕ) (i : ℕ)
    → i < length sql
    → skip_from i (length sql) (drop i sql) ≡ none
    → region_at sql i ≡ none
no_region sql i h s = elim (Option-cases (region_at sql i)) [
  | inl p ↦ p
  | inr (r, p) ↦
      absurd (subst₂ (Agree (length sql)) p s (skip_from-region_at sql i (omega (arith, h))))
]

other_over :
    (sql : List ℕ) (i : ℕ) (markers : List (ℕ × ℕ))
    → i < length sql
    → region_at sql i ≡ none
    → marker_from i (drop i sql) ≡ none
    → Marked sql (min (i + 1) (length sql)) markers
    → Marked sql (min i (length sql)) markers
other_over sql i markers h e m marks =
    let here : i ≡ min i (length sql) = omega (arith, h) in
    let next : min (i + 1) (length sql) ≡ i + 1 = omega (arith, h) in
    subst (λ k. Marked sql k markers) here
      (other h e (λ j. no-IsMarker sql i j m) (subst (λ k. Marked sql k markers) next marks))

rewrite_from-Woven :
    (fuel : ℕ) (sql : List ℕ) (i last : ℕ) (out : List ℕ) (names : List (List ℕ))
    → length sql ≤ fuel + i
    → Woven sql i last out names (rewrite_from fuel sql i last out names)
unfolding rewrite_from
rewrite_from-Woven zero sql i last out names k =
    let e : ltb i (length sql) ≡ false = ground arith in
    rw e (Woven-ended sql i last out names (omega (arith, k)))
rewrite_from-Woven (suc fuel) sql i last out names k = elim (Bool-cases (ltb i (length sql))) [
  | inr e ↦ rw (e, rewrite_from) (Woven-ended sql i last out names (ground (arith, e)))
  | inl e ↦
      let h : i < length sql = ground (arith, e) in
      elim (Option-cases (skip_from i (length sql) (drop i sql))) [
        | inr (j, s) ↦
            let forward = skip_from-progress sql i j (omega (arith, h)) s in
            rw (e, s, rewrite_from)
              (Woven-over sql i j last out names _ (λ markers. region_over sql i j markers h s)
                (rewrite_from-Woven fuel sql j last out names (omega (arith, forward, k))))
        | inl s ↦
            let p = no_region sql i h s in
            elim (Option-cases (marker_from i (drop i sql))) [
              | inl m ↦
                  rw (e, s, m, rewrite_from)
                    (Woven-over sql i (i + 1) last out names _
                      (λ markers. other_over sql i markers h p m)
                      (rewrite_from-Woven fuel sql (i + 1) last out names (omega (arith, k))))
              | inr (j, m) ↦
                  let is_marker = marker_from_lem i (drop i sql) j m in
                  let forward : i < j = omega (arith, is_marker.3) in
                  rw (e, s, m, rewrite_from)
                    (Woven-marker sql i j last out names _ h p is_marker (
                      rewrite_from-Woven fuel sql j j (out ++ (slice last i sql ++ 63 ∷ []))
                        (names ++ slice (i + 1) j sql ∷ []) (omega (arith, forward, k))))
            ]
      ]
]

-- The rewrite always returns: with the markers of the SQL, all those that stand outside the regions
-- of the script scanner and are `@` and the longest name behind it, each replaced by `?` and all
-- else as it was, and with the names of the markers in order. The SQL has no other list of markers.
pub rewrite_named_params-Marked :
    (sql : List ℕ)
    → (markers : List (ℕ × ℕ)) × Marked sql 0 markers
      × ((others : List (ℕ × ℕ)) → Marked sql 0 others → others ≡ markers)
      × (rewrite_named_params sql
          ≡ some (record { sql = replaced sql 0 markers; names = names_at sql markers }))
unfolding rewrite_named_params
rewrite_named_params-Marked sql =
    let (markers, marks, r) = rewrite_from-Woven (length sql) sql 0 0 [] [] (omega arith) in
    let marked = subst (λ k. Marked sql k markers) (omega arith) marks in
    (markers, marked, λ others m. Marked-unique sql 0 others markers m marked, r)
