-- ===== src/Script/NamedParams/Markers.antt =====
-- Where the markers of SQL are, told apart from the rewriter: a name is written out as ASCII ranges,
-- and what is skipped is a region of the script scanner.
pub mod Unique
use fast_firebird.Base.{
  ℕ, suc, ◌+◌, ◌≤◌, ◌<◌, ◌≡◌, ◌⊎◌, true, none, some, List, [], ◌∷◌, ◌++◌, length, drop, slice, All,
  arith,
}
use fast_firebird.Script.Scanner.{Region, region_at}
use fast_firebird.Script.NamedParams.{ident_start, ident_part}

-- Letters, `_`, and behind the first character digits and `$`.
abbrev pub IsStart : ℕ → Type 0
IsStart c = (65 ≤ c × c ≤ 90) ⊎ (97 ≤ c × c ≤ 122) ⊎ (c ≡ 95)

abbrev pub IsPart : ℕ → Type 0
IsPart c = IsStart c ⊎ (48 ≤ c × c ≤ 57) ⊎ (c ≡ 36)

abbrev pub IsName : List ℕ → Type 0
IsName [] = ⊥
IsName (c ∷ rest) = IsStart c × All IsPart rest

-- A name goes no further.
abbrev pub Stops : List ℕ → Type 0
Stops [] = Unit {0}
Stops (c ∷ rest) = ¬ IsPart c

-- A marker stands at i and ends before j.
abbrev pub IsMarker : List ℕ → ℕ → ℕ → Type 0
IsMarker sql i j =
    (name : List ℕ) × (rest : List ℕ) × (drop i sql ≡ 64 ∷ (name ++ rest))
    × (j ≡ suc i + length name)
    × IsName name
    × Stops rest

-- From i on, the markers of the SQL are at these places: the text is passed over region by region,
-- marker by marker, and character by character where neither of the two stands.
pub data Marked (sql : List ℕ) : ℕ → List (ℕ × ℕ) → Type 0 where
  ended : {i : ℕ} → length sql ≤ i → Marked sql i []
  region :
      {i : ℕ} {markers : List (ℕ × ℕ)} (r : Region)
      → region_at sql i ≡ some r
      → Marked sql r.stop markers
      → Marked sql i markers
  marker :
      {i j : ℕ} {markers : List (ℕ × ℕ)}
      → region_at sql i ≡ none
      → IsMarker sql i j
      → Marked sql j markers
      → Marked sql i ((i, j) ∷ markers)
  other :
      {i : ℕ} {markers : List (ℕ × ℕ)}
      → i < length sql
      → region_at sql i ≡ none
      → ((j : ℕ) → ¬ IsMarker sql i j)
      → Marked sql (i + 1) markers
      → Marked sql i markers

-- The SQL from `last` on, with `?` for each marker.
abbrev pub replaced : List ℕ → ℕ → List (ℕ × ℕ) → List ℕ
replaced sql last [] = drop last sql
replaced sql last ((i, j) ∷ markers) = slice last i sql ++ (63 ∷ replaced sql j markers)

-- The markers' names, in order.
abbrev pub names_at : List ℕ → List (ℕ × ℕ) → List (List ℕ)
names_at sql [] = []
names_at sql ((i, j) ∷ markers) = slice (i + 1) j sql ∷ names_at sql markers

pub ident_start_iff :
    (c : ℕ) → (ident_start c ≡ true → IsStart c) × (IsStart c → ident_start c ≡ true)
ident_start_iff c = (λ h. ground (arith, h), λ h. ground (arith, h))

pub ident_part_iff : (c : ℕ) → (ident_part c ≡ true → IsPart c) × (IsPart c → ident_part c ≡ true)
ident_part_iff c = (λ h. ground (arith, h), λ h. ground (arith, h))
