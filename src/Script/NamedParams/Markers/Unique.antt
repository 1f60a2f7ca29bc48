-- ===== src/Script/NamedParams/Markers/Unique.antt =====
-- SQL has one list of markers.
use fast_firebird.Base.{
  ℕ, suc, ◌+◌, ◌≤◌, ◌≡◌, refl, sym, ap, ap₂, subst, ◌∙◌, none, some, List, [], ◌∷◌, ◌++◌, length,
  drop_all, All, inl, arith,
}
use fast_firebird.Script.Scanner.{Region, region_at, region_from}
use fast_firebird.Script.NamedParams.Markers.{
  IsPart, IsName, Stops, IsMarker, Marked, ended, region, marker, other,
}

beyond_end : (sql : List ℕ) (i : ℕ) → length sql ≤ i → region_at sql i ≡ none
unfolding region_at region_from
beyond_end sql i h = rw (drop_all i sql h) refl

no-IsMarker_beyond : (sql : List ℕ) (i j : ℕ) → length sql ≤ i → ¬ IsMarker sql i j
no-IsMarker_beyond sql i j h (name, rest, split, stop, is_name, stops) =
    let e : [] ≡ 64 ∷ (name ++ rest) = sym (drop_all i sql h) ∙ split in cc

heads_equal : (a b : ℕ) (xs ys : List ℕ) → (a ∷ xs) ≡ (b ∷ ys) → (a ≡ b) × (xs ≡ ys)
heads_equal a b xs ys e = (cc, cc)

-- The longest run of name characters is one.
one_run :
    (name name' rest rest' : List ℕ)
    → name ++ rest ≡ name' ++ rest'
    → All IsPart name
    → All IsPart name'
    → Stops rest
    → Stops rest'
    → length name ≡ length name'
one_run [] [] rest rest' e p p' s s' = refl
one_run [] (d ∷ name') [] rest' e p p' s s' = cc
one_run [] (d ∷ name') (c ∷ rest) rest' e p p' s s' =
    absurd (s (subst IsPart (sym (heads_equal c d rest (name' ++ rest') e).0) p'.0))
one_run (c ∷ name) [] rest [] e p p' s s' = cc
one_run (c ∷ name) [] rest (d ∷ rest') e p p' s s' =
    absurd (s' (subst IsPart (heads_equal c d (name ++ rest) rest' e).0 p.0))
one_run (c ∷ name) (d ∷ name') rest rest' e p p' s s' =
    ap (λ n. suc n)
      (one_run name name' rest rest' (heads_equal c d (name ++ rest) (name' ++ rest') e).1 p.1 p'.1
        s s')

parts_of : (name : List ℕ) → IsName name → All IsPart name
parts_of [] h = absurd h
parts_of (c ∷ name) h = (inl h.0, h.1)

one_end : (sql : List ℕ) (i j j' : ℕ) → IsMarker sql i j → IsMarker sql i j' → j ≡ j'
one_end sql i j j' (name, rest, split, stop, is_name, stops)
      (name', rest', split', stop', is_name', stops') =
    let e = (heads_equal 64 64 (name ++ rest) (name' ++ rest') (sym split ∙ split')).1 in
    let l =
      one_run name name' rest rest' e (parts_of name is_name) (parts_of name' is_name') stops
        stops' in
    omega (arith, stop, stop', l)

one_stop :
    (sql : List ℕ) (i : ℕ) (r r' : Region)
    → region_at sql i ≡ some r
    → region_at sql i ≡ some r'
    → r ≡ r'
one_stop sql i r r' e e' = cc

pub Marked-unique :
    (sql : List ℕ) (i : ℕ) (ms ms' : List (ℕ × ℕ)) → Marked sql i ms → Marked sql i ms' → ms ≡ ms'
Marked-unique sql i _ _ (ended h) (ended h') = refl
Marked-unique sql i _ _ (ended h) (region r e m) = let n = beyond_end sql i h in cc
Marked-unique sql i _ _ (ended h) (marker {j = j} e k m) = absurd (no-IsMarker_beyond sql i j h k)
Marked-unique sql i _ _ (ended h) (other l e n m) = absurd (omega (arith, h, l))
Marked-unique sql i _ _ (region r e m) (ended h) = let n = beyond_end sql i h in cc
Marked-unique sql i _ ms' (region {markers = ms} r e m) (region r' e' m') =
    Marked-unique sql r.stop ms ms' m
      (subst (λ s. Marked sql s.stop ms') (one_stop sql i r' r e' e) m')
Marked-unique sql i _ _ (region r e m) (marker e' k m') = cc
Marked-unique sql i _ _ (region r e m) (other l e' n m') = cc
Marked-unique sql i _ _ (marker {j = j} e k m) (ended h) = absurd (no-IsMarker_beyond sql i j h k)
Marked-unique sql i _ _ (marker e k m) (region r' e' m') = cc
Marked-unique sql i _ _ (marker {j = j} {markers = ms} e k m)
      (marker {j = j'} {markers = ms'} e' k' m') =
    let q = one_end sql i j j' k k' in
    ap₂ (λ x y. (i, x) ∷ y) q
      (Marked-unique sql j ms ms' m (subst (λ x. Marked sql x ms') (sym q) m'))
Marked-unique sql i _ _ (marker {j = j} e k m) (other l e' n m') = absurd (n j k)
Marked-unique sql i _ _ (other l e n m) (ended h) = absurd (omega (arith, h, l))
Marked-unique sql i _ _ (other l e n m) (region r e' m') = cc
Marked-unique sql i _ _ (other l e n m) (marker {j = j} e' k m') = absurd (n j k)
Marked-unique sql i _ _ (other {markers = ms} l e n m) (other {markers = ms'} l' e' n' m') =
    Marked-unique sql (i + 1) ms ms' m m'
