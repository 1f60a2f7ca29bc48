-- ===== src/Script/NamedParams/Tests.antt =====
-- A query with markers in and out of literals, and the theorems of this component at it.
use fast_firebird.Base.{
  ℕ, ◌≡◌, refl, Option, none, some, List, [], ◌∷◌, drop, length, codes, arith, if◌then◌else◌,
}
use fast_firebird.Base.Keys.{list_key, same_list}
use fast_firebird.Script.Scanner.{region_at, line_end, find_pair, find_quote}
use fast_firebird.Script.NamedParams.{
  named, normalized, normalize_params, bind_named_params, rewrite_named_params, rewrite_from,
  skip_from, skip_quoted, skip_q_literal, marker_from, ident_end,
}
use fast_firebird.Script.NamedParams.Skipping.{Agree, skip_from-region_at}
use fast_firebird.Script.NamedParams.Markers.{Marked, replaced, names_at}
use fast_firebird.Script.NamedParams.Weaving.{rewrite_named_params-Marked}
use fast_firebird.Script.NamedParams.Binding.{IsAnswer, bind_named_params-IsAnswer}
use fast_firebird.Script.NamedParams.Normalizing.{IsNormal, normalize_params-named}

abbrev query : List ℕ
query = codes "a = @x and b = '@y' -- @z"

abbrev values : List ℕ → Option ℕ
values name = if same_list name (codes "x") then some 5 else none

query_normalized :
    normalize_params query (named values)
    ≡ normalized (codes "a = ? and b = '@y' -- @z") (some 5 ∷ [])
unfolding normalize_params rewrite_named_params rewrite_from skip_from skip_quoted skip_q_literal
    marker_from ident_end find_quote find_pair line_end bind_named_params
query_normalized = refl

skip_from-region_at_example :
    Agree (length query) (region_at query 15) (skip_from 15 (length query) (drop 15 query))
skip_from-region_at_example = skip_from-region_at query 15 (omega arith)

rewrite_named_params-Marked_example :
    (markers : List (ℕ × ℕ)) × Marked query 0 markers
    × ((others : List (ℕ × ℕ)) → Marked query 0 others → others ≡ markers)
    × (rewrite_named_params query
        ≡ some (record { sql = replaced query 0 markers; names = names_at query markers }))
rewrite_named_params-Marked_example = rewrite_named_params-Marked query

bind_named_params-IsAnswer_example :
    IsAnswer values
      (codes "x" ∷ codes "y" ∷ [])
      (bind_named_params (codes "x" ∷ codes "y" ∷ []) values)
bind_named_params-IsAnswer_example = bind_named_params-IsAnswer values (codes "x" ∷ codes "y" ∷ [])

normalize_params-named_example :
    (markers : List (ℕ × ℕ)) × Marked query 0 markers
    × IsNormal values
        (names_at query markers)
        (replaced query 0 markers)
        (normalize_params query (named values))
normalize_params-named_example = normalize_params-named values query
