-- ===== src/Script/NamedParams/Binding.antt =====
-- Values in the order of the names, or the names that have none.
use fast_firebird.Base.{
  ◌≡◌, ◌↔◌, refl, sym, ◌∙◌, ◌⊎◌, inl, inr, ◌≢◌, true, false, ◌||◌, Option, none, some, List, [],
  ◌∷◌, ◌++◌, map, append_assoc, append-nil, if◌then◌else◌, arith, Bool-cases, Option-cases,
}
use fast_firebird.Base.Keys.{Key}
use fast_firebird.Script.NamedParams.{
  includes, Bound, bound, missing_params, bind_loop, bound_or_missing, bind_named_params,
}

module _ {N : Type 0} ⦃k : Key N⦄ where
  includes-append :
      (xs ys : List N) (n : N) → includes (xs ++ ys) n ≡ (includes xs n || includes ys n)
  includes-append [] ys n = refl
  includes-append (x ∷ xs) ys n = ground (arith, includes-append xs ys n)

  -- No name is listed twice.
  abbrev pub IsDistinct : List N → Type 0
  IsDistinct [] = Unit {0}
  IsDistinct (x ∷ xs) = (includes xs x ≡ false) × IsDistinct xs

  -- `if (!missing.includes(name)) missing.push(name)`
  abbrev noted : List N → N → List N
  noted missing name = if includes missing name then missing else missing ++ name ∷ []

  IsDistinct-append :
      (xs : List N) (n : N) → includes xs n ≡ false → IsDistinct xs → IsDistinct (xs ++ n ∷ [])
  IsDistinct-append [] n e d = (refl, tt)
  IsDistinct-append (x ∷ xs) n e d = (
    ground (arith, includes-append xs (n ∷ []) x, k.same_iff n x, k.same_iff x n),
    IsDistinct-append xs n (ground arith) d.1,
  )

  noted-IsDistinct : (missing : List N) (n : N) → IsDistinct missing → IsDistinct (noted missing n)
  noted-IsDistinct missing n d = elim (Bool-cases (includes missing n)) [
    | inl e ↦ rw e d
    | inr e ↦ rw e (IsDistinct-append missing n e d)
  ]

  -- What is listed afterwards.
  includes-noted :
      (missing : List N) (n m : N)
      → includes (noted missing n) m ≡ (includes missing m || k.same n m)
  includes-noted missing n m = ground (arith, k.same_iff n m, includes-append missing (n ∷ []) m)

module _ {N V : Type 0} ⦃k : Key N⦄ (params : N → Option V) where
  -- The missing names after a loop over `names` that began with some of them.
  record Noted (names missing result : List N) : Type 0 where
    kept : (m : N) → includes missing m ≡ true → includes result m ≡ true
    complete : (m : N) → includes names m ≡ true → params m ≡ none → includes result m ≡ true
    sound :
        (m : N)
        → includes result m ≡ true
        → (includes missing m ≡ true) ⊎ ((includes names m ≡ true) × (params m ≡ none))
    distinct : IsDistinct missing → IsDistinct result

  bind_loop-Noted :
      (names missing : List N) (out : List (Option V))
      → Noted names missing (bind_loop params names missing out).0
        × ((bind_loop params names missing out).1 ≡ out ++ map params names)
  unfolding bind_loop
  bind_loop-Noted [] missing out = (
    record { kept = λ m h. h; complete = λ m h. cc; sound = λ m h. inl h; distinct = λ d. d },
    sym (append-nil out),
  )
  bind_loop-Noted (name ∷ names) missing out = elim (Option-cases (params name)) [
    | inl e ↦
        let (ih, values) = bind_loop-Noted names (noted missing name) (out ++ none ∷ []) in
        (
          rw (e, bind_loop)
              (record {
                kept = λ m h. ih.kept m (ground (arith, includes-noted missing name m));
                complete = λ m h p. ground (
                  arith,
                  k.same_iff name m,
                  includes-noted missing name m,
                  ih.kept m,
                  ih.complete m,
                );
                sound = λ m h.
                    ground (arith, k.same_iff name m, includes-noted missing name m, ih.sound m);
                distinct = λ d. ih.distinct (noted-IsDistinct missing name d);
              }),
          rw (e, bind_loop) (values ∙ append_assoc out (none ∷ []) _),
        )
    | inr (v, e) ↦
        let (ih, values) = bind_loop-Noted names missing (out ++ some v ∷ []) in
        (
          rw (e, bind_loop)
              (record {
                kept = ih.kept;
                complete = λ m h p. ground (
                  arith,
                  k.same_iff name m,
                  includes-noted missing name m,
                  ih.kept m,
                  ih.complete m,
                );
                sound = λ m h.
                    ground (arith, k.same_iff name m, includes-noted missing name m, ih.sound m);
                distinct = ih.distinct;
              }),
          rw (e, bind_loop) (values ∙ append_assoc out (some v ∷ []) _),
        )
  ]

  -- A value for each marker, or an error that lists exactly the names without a value, each once.
  abbrev pub IsAnswer : List N → Bound N V → Type 0
  IsAnswer names (bound values) =
      (values ≡ map params names) × ((m : N) → includes names m ≡ true → params m ≢ none)
  IsAnswer names (missing_params missing) =
      (missing ≢ [])
      × IsDistinct missing
      × ((m : N) → (includes missing m ≡ true) ↔ ((includes names m ≡ true) × (params m ≡ none)))

  answer :
      (names missing : List N) (values : List (Option V))
      → Noted names [] missing
      → values ≡ map params names
      → IsAnswer names (bound_or_missing (missing, values))
  answer names [] values n e = (e, λ m h p. let q = n.complete m h p in cc)
  answer names (x ∷ xs) values n e =
      (λ p. cc, n.distinct tt, λ m. (λ h. ground (arith, n.sound m h), λ h. n.complete m h.0 h.1))

  -- Binding returns the values of the names in order when every name has one, and otherwise fails
  -- with a list of exactly the names that have none, each once.
  pub bind_named_params-IsAnswer :
      (names : List N) → IsAnswer names (bind_named_params names params)
  unfolding bind_named_params
  bind_named_params-IsAnswer names =
      let (noted_all, values) = bind_loop-Noted names [] [] in
      answer names (bind_loop params names [] []).0 (bind_loop params names [] []).1 noted_all
        values
