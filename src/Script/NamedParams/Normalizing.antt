-- ===== src/Script/NamedParams/Normalizing.antt =====
-- The funnel that every query goes through.
use fast_firebird.Base.{ℕ, ◌≡◌, refl, ◌≢◌, true, Option, none, List, [], ◌∷◌, map}
use fast_firebird.Base.Keys.{list_key}
use fast_firebird.Script.NamedParams.{
  named, Normalized, normalized, no_markers, unbound, stuck, normalize_params, bind_named_params,
  bind_rewritten, from_bound, includes, Bound, bound, missing_params,
}
use fast_firebird.Script.NamedParams.Markers.{Marked, replaced, names_at}
use fast_firebird.Script.NamedParams.Weaving.{rewrite_named_params-Marked}
use fast_firebird.Script.NamedParams.Binding.{IsAnswer, bind_named_params-IsAnswer}

module _ {V : Type 0} (params : List ℕ → Option V) where
  -- What may come of SQL with these markers.
  abbrev pub IsNormal : List (List ℕ) → List ℕ → Normalized V → Type 0
  IsNormal names sql (normalized sql' values) =
      (sql' ≡ sql)
      × (values ≡ map params names)
      × (names ≢ [])
      × ((m : List ℕ) → includes names m ≡ true → params m ≢ none)
  IsNormal names sql no_markers = names ≡ []
  IsNormal names sql (unbound missing) =
      (missing ≢ [])
      × ((m : List ℕ) → includes missing m ≡ true → (includes names m ≡ true) × (params m ≡ none))
  IsNormal names sql stuck = ⊥

  from_bound-IsNormal :
      (names : List (List ℕ)) (sql : List ℕ) (b : Bound (List ℕ) V)
      → names ≢ []
      → IsAnswer params names b
      → IsNormal names sql (from_bound sql b)
  from_bound-IsNormal names sql (bound values) n h = (refl, h.0, n, h.1)
  from_bound-IsNormal names sql (missing_params missing) n h = (h.0, λ m. (h.2 m).0)

  bind_rewritten-IsNormal :
      (names : List (List ℕ)) (sql : List ℕ) → IsNormal names sql (bind_rewritten sql names params)
  bind_rewritten-IsNormal [] sql = refl
  bind_rewritten-IsNormal (name ∷ names) sql =
      from_bound-IsNormal (name ∷ names) sql (bind_named_params (name ∷ names) params) (λ p. cc)
        (bind_named_params-IsAnswer params (name ∷ names))

  -- With an object of values, the call finds the markers of the SQL. It returns the SQL with `?` for each
  -- marker and the values of the markers in order, if there is a marker and each has a value; it
  -- fails for want of markers only if the SQL has none, and it fails with a list of names only if
  -- those are markers without a value.
  pub normalize_params-named :
      (sql : List ℕ)
      → (markers : List (ℕ × ℕ)) × Marked sql 0 markers
        × IsNormal
            (names_at sql markers)
            (replaced sql 0 markers)
            (normalize_params sql (named params))
  unfolding normalize_params
  normalize_params-named sql =
      let (markers, marks, unique, done) = rewrite_named_params-Marked sql in
      (
        markers,
        marks,
        rw (done, normalize_params)
            (bind_rewritten-IsNormal (names_at sql markers) (replaced sql 0 markers)),
      )
