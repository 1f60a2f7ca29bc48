-- ===== src/Script/Commands/Forms.antt =====
-- The forms of the transaction commands.
use fast_firebird.Base.{
  ◌≡◌, refl, ◌↔◌, Bool, true, false, ◌||◌, some, List, [], ◌∷◌, ◌++◌, codes, if◌then◌else◌, arith,
  Bool-cases, inl, inr, ℕ,
}
use fast_firebird.Base.Keys.{same_list_iff}
use fast_firebird.Script.Words.{is}
use fast_firebird.Script.Commands.{
  Token, ClientCommand, commit, rollback, next_is, skip_word, retain_from, end_transaction,
  command_of,
}

abbrev pub optional : Bool → List Token → List Token
optional b tokens = if b then tokens else []

-- COMMIT or ROLLBACK [WORK] [RETAIN [SNAPSHOT]]
abbrev pub end_form : Bool → Bool → Bool → Bool → List Token
end_form commits work retain snap =
    (if commits then codes "commit" else codes "rollback")
    ∷ (optional work (codes "work" ∷ [])
        ++ optional retain (codes "retain" ∷ optional snap (codes "snapshot" ∷ [])))

abbrev pub ended : Bool → Bool → ClientCommand
ended commits retain = if commits then commit retain else rollback retain

command_of-end_form :
    (commits work retain snap : Bool) (raw : List ℕ)
    → command_of (end_form commits work retain snap) raw ≡ some (ended commits retain)
unfolding command_of end_transaction next_is skip_word retain_from
command_of-end_form true true true true raw = refl
command_of-end_form true true true false raw = refl
command_of-end_form true true false _ raw = refl
command_of-end_form true false true true raw = refl
command_of-end_form true false true false raw = refl
command_of-end_form true false false _ raw = refl
command_of-end_form false true true true raw = refl
command_of-end_form false true true false raw = refl
command_of-end_form false true false _ raw = refl
command_of-end_form false false true true raw = refl
command_of-end_form false false true false raw = refl
command_of-end_form false false false _ raw = refl

-- What the words behind WORK must be for the command to end the transaction.
retain_from-ended :
    (w1 : Token) (tokens : List Token) (commits retain : Bool)
    → retain_from w1 tokens ≡ ended commits retain
    → (is w1 "commit" ≡ commits)
      × (snap : Bool) × (tokens
          ≡ optional retain (codes "retain" ∷ optional snap (codes "snapshot" ∷ [])))
unfolding retain_from next_is skip_word
retain_from-ended w1 [] true true h = ground arith
retain_from-ended w1 [] true false h = (ground arith, false, refl)
retain_from-ended w1 [] false true h = ground arith
retain_from-ended w1 [] false false h = (ground arith, false, refl)
retain_from-ended w1 (t ∷ []) commits retain h =
    (ground arith, false, ground (arith, same_list_iff t (codes "retain")))
retain_from-ended w1 (t ∷ u ∷ []) commits retain h = (
  ground arith,
  true,
  ground (arith, same_list_iff t (codes "retain"), same_list_iff u (codes "snapshot")),
)
retain_from-ended w1 (t ∷ u ∷ v ∷ rest) commits retain h = absurd (ground arith)

end_transaction-ended :
    (w1 : Token) (tokens : List Token) (commits retain : Bool)
    → end_transaction w1 tokens ≡ some (ended commits retain)
    → (is w1 "commit" ≡ commits)
      × (work : Bool) × (snap : Bool) × (tokens
          ≡ optional work (codes "work" ∷ [])
            ++ optional retain (codes "retain" ∷ optional snap (codes "snapshot" ∷ [])))
unfolding end_transaction skip_word next_is
end_transaction-ended w1 [] commits retain h =
    let k = retain_from-ended w1 [] commits retain (ground arith) in (k.0, false, k.1, k.2)
end_transaction-ended w1 (t ∷ rest) commits retain h = elim (Bool-cases (is t "work")) [
  | inl e ↦
      let k = retain_from-ended w1 rest commits retain (ground arith) in
      (k.0, true, k.1, ground (arith, k.2, same_list_iff t (codes "work")))
  | inr e ↦
      let k = retain_from-ended w1 (t ∷ rest) commits retain (ground arith) in
      (k.0, false, k.1, k.2)
]

command_of-ended :
    (tokens : List Token) (raw : List ℕ) (commits retain : Bool)
    → command_of tokens raw ≡ some (ended commits retain)
    → (work : Bool) × (snap : Bool) × (tokens ≡ end_form commits work retain snap)
unfolding command_of
command_of-ended [] raw commits retain h = cc
command_of-ended (w1 ∷ rest) raw commits retain h =
    elim (Bool-cases (is w1 "commit" || is w1 "rollback")) [
      | inr e ↦ absurd (ground arith)
      | inl e ↦
          let k = end_transaction-ended w1 rest commits retain (ground arith) in
          (
            k.1,
            k.2,
            ground (
              arith,
              k.0,
              k.3,
              same_list_iff w1 (codes "commit"),
              same_list_iff w1 (codes "rollback"),
            ),
          )
    ]

-- Some words are a COMMIT or a ROLLBACK, with or without RETAIN, exactly when they are the keyword
-- with an optional WORK and an optional RETAIN [SNAPSHOT] behind it and nothing else.
pub command_of-ended_iff :
    (tokens : List Token) (raw : List ℕ) (commits retain : Bool)
    → (command_of tokens raw ≡ some (ended commits retain))
      ↔ ((work : Bool) × (snap : Bool) × (tokens ≡ end_form commits work retain snap))
command_of-ended_iff tokens raw commits retain = (
  command_of-ended tokens raw commits retain,
  λ h. rw (h.2) (command_of-end_form commits h.0 retain h.1 raw),
)
