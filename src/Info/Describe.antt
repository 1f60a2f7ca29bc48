-- ===== src/Info/Describe.antt =====
-- packages/core/src/protocol/info.ts: the description of a prepared statement.
use fast_firebird.Base.{
  ℕ, zero, suc, ◌-◌, ◌%◌, ◌^◌, Bool, true, false, ◌||◌, Option, none, some, List, [], ◌∷◌, ◌==◌,
  if◌then◌else◌, length, ℤ, pos, signed, wrap, ◌>>=◌,
}
use fast_firebird.Info.{ClumpletReader, done, next_item, read_int, read_string}

-- Texts are the bytes that they are decoded from.
pub record SqlVarDesc : Type 0 where
  pub sql_type : ℤ
  pub nullable : Bool
  pub sub_type : ℤ
  pub scale : ℤ
  pub size : ℤ
  pub field_name : Option (List ℕ)
  pub relation : Option (List ℕ)
  pub owner : Option (List ℕ)
  pub alias : Option (List ℕ)
  pub relation_alias : Option (List ℕ)

abbrev pub new_var : SqlVarDesc
new_var = record {
  sql_type = pos 0;
  nullable = false;
  sub_type = pos 0;
  scale = pos 0;
  size = pos 0;
  field_name = none;
  relation = none;
  owner = none;
  alias = none;
  relation_alias = none;
}

-- `none` in an array is a hole.
pub record StatementDescription : Type 0 where
  pub stmt_type : ℤ
  pub inputs : List (Option SqlVarDesc)
  pub outputs : List (Option SqlVarDesc)

pub data Side : Type 0 where
  input_side output_side : Side

-- What `current` refers to: null, an object that stands in neither array, or an array element.
pub data Current : Type 0 where
  nothing detached : Current
  element : Side → ℕ → Current

pub record Parse : Type 0 where
  pub desc : StatementDescription
  pub vars : Side
  pub current : Current

-- `vars[i] = v`, with holes up to a new length.
unfoldable pub put_at : ℕ → SqlVarDesc → List (Option SqlVarDesc) → List (Option SqlVarDesc)
put_at zero v [] = some v ∷ []
put_at zero v (x ∷ xs) = some v ∷ xs
put_at (suc i) v [] = none ∷ put_at i v []
put_at (suc i) v (x ∷ xs) = x ∷ put_at i v xs

abbrev pub on_var : (SqlVarDesc → SqlVarDesc) → Option SqlVarDesc → Option SqlVarDesc
on_var f none = none
on_var f (some v) = some (f v)

unfoldable pub change_at :
    ℕ → (SqlVarDesc → SqlVarDesc) → List (Option SqlVarDesc) → List (Option SqlVarDesc)
change_at i f [] = []
change_at zero f (x ∷ xs) = on_var f x ∷ xs
change_at (suc i) f (x ∷ xs) = x ∷ change_at i f xs

-- A write to a field of `current`, which throws when that is null.
unfoldable pub change : (SqlVarDesc → SqlVarDesc) → Current → Parse → Option Parse
change f nothing p = none
change f detached p = some p
change f (element input_side i) p =
    some (record p { desc = record p.desc { inputs = change_at i f p.desc.inputs } })
change f (element output_side i) p =
    some (record p { desc = record p.desc { outputs = change_at i f p.desc.outputs } })

-- `vars[seq - 1] = current`; an index below 0 is no element.
unfoldable pub begin_var : ℤ → Side → Parse → Parse
begin_var (pos (suc i)) input_side p = record p {
  desc = record p.desc { inputs = put_at i new_var p.desc.inputs };
  current = element input_side i;
}
begin_var (pos (suc i)) output_side p = record p {
  desc = record p.desc { outputs = put_at i new_var p.desc.outputs };
  current = element output_side i;
}
begin_var _ side p = record p { current = detached }

-- `t & ~1` and `t & 1`.
abbrev pub set_type : ℤ → SqlVarDesc → SqlVarDesc
set_type t v =
    let bits = wrap (2 ^ 32) t in
    record v { sql_type = signed (2 ^ 32) (bits - bits % 2); nullable = bits % 2 == 1 }

abbrev pub is_zero : ℤ → Bool
is_zero (pos zero) = true
is_zero _ = false

-- The items with an integer for `current`.
unfoldable pub int_field : ℕ → ℤ → Option (SqlVarDesc → SqlVarDesc)
int_field item n =
    if item == 11
    then some (set_type n)
    else if item == 12
    then some (λ v. record v { sub_type = n })
    else if item == 13
    then some (λ v. record v { scale = n })
    else if item == 14
    then some (λ v. record v { size = n })
    else if item == 15
    then some (λ v. record v { nullable = if is_zero n then false else true })
    else none

-- The items with a text for `current`.
unfoldable pub text_field : ℕ → List ℕ → Option (SqlVarDesc → SqlVarDesc)
text_field item s =
    if item == 16
    then some (λ v. record v { field_name = some s })
    else if item == 17
    then some (λ v. record v { relation = some s })
    else if item == 25
    then some (λ v. record v { relation_alias = some s })
    else if item == 18
    then some (λ v. record v { owner = some s })
    else if item == 19
    then some (λ v. record v { alias = some s })
    else none

-- What a round of the loop comes to: another round, the end at an unknown item, or an exception.
pub data Round : Type 0 where
  next : Parse → ClumpletReader → Round
  stops throws : Round

abbrev pub or_throw : Option (Parse × ClumpletReader) → Round
or_throw none = throws
or_throw (some out) = next out.0 out.1

-- The `switch` on an item.
unfoldable pub item_round : ℕ → Parse → ClumpletReader → Round
item_round item p r =
    if item == 21
    then or_throw
        (do (t, r') ← read_int r; some (record p { desc = record p.desc { stmt_type = t } }, r'))
    else if item == 4
    then next (record p { vars = output_side }) r
    else if item == 5
    then next (record p { vars = input_side }) r
    else if item == 7
    then or_throw (do (declared, r') ← read_int r; some (p, r'))
    else if item == 8
    then next (record p { current = nothing }) r
    else if item == 9
    then or_throw (do (seq, r') ← read_int r; some (begin_var seq p.vars p, r'))
    else if item == 11 || item == 12 || item == 13 || item == 14 || item == 15
    then or_throw
        (do (n, r') ← read_int r; f ← int_field item n; p' ← change f p.current p; some (p', r'))
    else if item == 16 || item == 17 || item == 25 || item == 18 || item == 19
    then or_throw (do
      (s, r') ← read_string r
      f ← text_field item s
      p' ← change f p.current p
      some (p', r'))
    else if item == 2
    then throws
    else stops

abbrev pub round : Option ℕ → Parse → ClumpletReader → Round
round none p r = stops
round (some item) p r = item_round item p r

-- The loop of `parseDescribe` on fuel: each round reads a byte.
unfoldable pub describe_from : ℕ → Parse → ClumpletReader → Option StatementDescription
describe_from zero p r = none
describe_from (suc fuel) p r = elim (done r) [
  | true ↦ some p.desc
  | false ↦ elim (round (next_item r).0 p (next_item r).1) [
    | next p' r' ↦ describe_from fuel p' r'
    | stops ↦ some p.desc
    | throws ↦ none
  ]
]

unfoldable pub parse_describe : List ℕ → Option StatementDescription
parse_describe buf =
    describe_from (suc (length buf))
      (record {
        desc = record { stmt_type = pos 0; inputs = []; outputs = [] };
        vars = output_side;
        current = nothing;
      })
      (record { buf = buf; at = 0 })
