-- ===== src/Script/NamedParams.antt =====
-- packages/core/src/api/named-params.ts: `@name` markers become `?`, and values follow the names.
-- An object of values is the function that looks a property up along the prototype chain, as `in`
-- and `params[name]` do; `none` in a list of values is `undefined`.
pub mod Skipping
pub mod Markers
pub mod Weaving
pub mod Binding
pub mod Normalizing
mod Tests
use fast_firebird.Base.{
  ℕ, zero, suc, ◌+◌, ◌-◌, Bool, true, false, ◌&&◌, ◌||◌, Option, none, some, List, [], ◌∷◌, ◌++◌,
  map, ◌==◌, leb, ltb, if◌then◌else◌, length, drop, slice,
}
use fast_firebird.Base.Keys.{Key, list_key}
use fast_firebird.Script.Scanner.{is_at, line_end, find_pair, find_quote, q_closer}

abbrev pub ident_start : ℕ → Bool
ident_start c = (leb b'A' c && leb c b'Z') || (leb b'a' c && leb c b'z') || c == b'_'

abbrev pub ident_part : ℕ → Bool
ident_part c =
    (leb b'A' c && leb c b'Z')
    || (leb b'a' c && leb c b'z')
    || (leb b'0' c && leb c b'9')
    || c == b'_'
    || c == b'$'

-- The loops below that find no end stop at n.
abbrev pub or_end : ℕ → Option ℕ → ℕ
or_end n none = n
or_end n (some j) = j

unfoldable pub skip_quoted : ℕ → ℕ → ℕ → List ℕ → ℕ
skip_quoted i n q rest = or_end n (find_quote q (i + 1) rest)

-- From behind `q'`, where the opener stands.
unfoldable pub skip_q_literal : ℕ → ℕ → List ℕ → ℕ
skip_q_literal i n [] = i + 2
skip_q_literal i n (opener ∷ rest) = or_end n (find_pair (q_closer opener) 39 (i + 3) rest) + 2

-- Where the scan goes on when a comment, a string, a quoted identifier or a q-literal starts at i.
unfoldable pub skip_from : ℕ → ℕ → List ℕ → Option ℕ
skip_from i n [] = none
skip_from i n (c ∷ rest) =
    if c == b'-' && is_at 0 rest b'-'
    then some (line_end (i + 2) (drop 1 rest))
    else if c == b'/' && is_at 0 rest b'*'
    then some (or_end n (find_pair b'*' b'/' (i + 2) (drop 1 rest)) + 2)
    else if c == 39 || c == 34
    then some (skip_quoted i n c rest)
    else if (c == b'q' || c == b'Q') && is_at 0 rest 39
    then some (skip_q_literal i n (drop 1 rest))
    else none

-- `while (j < n && IDENT_PART.test(sql[j])) j++;`
unfoldable pub ident_end : ℕ → List ℕ → ℕ
ident_end j [] = j
ident_end j (c ∷ rest) = if ident_part c then ident_end (suc j) rest else j

-- The end of the name of a marker at i, if one starts there.
unfoldable pub marker_from : ℕ → List ℕ → Option ℕ
marker_from i [] = none
marker_from i (c ∷ []) = none
marker_from i (c ∷ d ∷ rest) =
    if c == b'@' && ident_start d then some (ident_end (i + 2) rest) else none

pub record Rewritten : Type 0 where
  pub sql : List ℕ
  pub names : List (List ℕ)

-- The loop of `rewriteNamedParams`; `none`: the fuel ran out.
unfoldable pub rewrite_from : ℕ → List ℕ → ℕ → ℕ → List ℕ → List (List ℕ) → Option Rewritten
rewrite_from zero sql i last out names =
    if ltb i (length sql) then none else some (record { sql = out ++ drop last sql; names = names })
rewrite_from (suc fuel) sql i last out names = elim (ltb i (length sql)) [
  | false ↦ some (record { sql = out ++ drop last sql; names = names })
  | true ↦ elim (skip_from i (length sql) (drop i sql)) [
    | some j ↦ rewrite_from fuel sql j last out names
    | none ↦ elim (marker_from i (drop i sql)) [
      | some j ↦
          rewrite_from fuel sql j j (out ++ (slice last i sql ++ b'?' ∷ []))
            (names ++ slice (i + 1) j sql ∷ [])
      | none ↦ rewrite_from fuel sql (i + 1) last out names
    ]
  ]
]

unfoldable pub rewrite_named_params : List ℕ → Option Rewritten
rewrite_named_params sql = rewrite_from (length sql) sql 0 0 [] []

module _ {N : Type 0} ⦃k : Key N⦄ where
  abbrev pub includes : List N → N → Bool
  includes [] name = false
  includes (m ∷ ms) name = k.same m name || includes ms name

-- The values in the order of the markers, or the error that names what is missing.
pub data Bound (N V : Type 0) : Type 0 where
  bound : List (Option V) → Bound N V
  missing_params : List N → Bound N V

module _ {N V : Type 0} ⦃k : Key N⦄ where
  -- The callback of `names.map`, which also collects the missing names.
  unfoldable pub bind_loop :
      (N → Option V) → List N → List N → List (Option V) → List N × List (Option V)
  bind_loop params [] missing out = (missing, out)
  bind_loop params (name ∷ names) missing out = elim (params name) [
    | none ↦
        bind_loop params names (if includes missing name then missing else missing ++ name ∷ [])
          (out ++ none ∷ [])
    | some v ↦ bind_loop params names missing (out ++ some v ∷ [])
  ]

  -- `if (missing.length > 0) throw …`
  abbrev pub bound_or_missing : List N × List (Option V) → Bound N V
  bound_or_missing ([], out) = bound out
  bound_or_missing (m ∷ ms, out) = missing_params (m ∷ ms)

  unfoldable pub bind_named_params : List N → (N → Option V) → Bound N V
  unfolding bind_loop
  bind_named_params names params = bound_or_missing (bind_loop params names [] [])

-- `QueryParams | undefined`.
pub data QueryParams (V : Type 0) : Type 0 where
  no_params : QueryParams V
  positional : List (Option V) → QueryParams V
  named : (List ℕ → Option V) → QueryParams V

pub data Normalized (V : Type 0) : Type 0 where
  normalized : List ℕ → List (Option V) → Normalized V
  no_markers : Normalized V
  unbound : List (List ℕ) → Normalized V
  stuck : Normalized V

module _ {V : Type 0} where
  abbrev pub from_bound : List ℕ → Bound (List ℕ) V → Normalized V
  from_bound sql (bound values) = normalized sql values
  from_bound sql (missing_params names) = unbound names

  -- `if (!hasNamed) throw …`, where `hasNamed` is `names.length > 0`.
  abbrev pub bind_rewritten : List ℕ → List (List ℕ) → (List ℕ → Option V) → Normalized V
  bind_rewritten sql [] params = no_markers
  bind_rewritten sql (name ∷ names) params =
      from_bound sql (bind_named_params (name ∷ names) params)

  unfoldable pub normalize_params : List ℕ → QueryParams V → Normalized V
  normalize_params sql no_params = normalized sql []
  normalize_params sql (positional values) = normalized sql values
  normalize_params sql (named params) = elim (rewrite_named_params sql) [
    | none ↦ stuck
    | some r ↦ bind_rewritten r.sql r.names params
  ]
