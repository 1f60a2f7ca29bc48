-- ===== src/Wire/Responses.antt =====
-- packages/core/src/protocol/wire.ts: the reading half. The bytes that will arrive are a list, of
-- which Transport.Reads shows that reads take them in order; `short` waits for more of them.
-- A text stays the bytes that `toString` decodes. The message of an error and the SQLSTATE of the
-- message table are not modelled: the error keeps what they are computed from.
pub mod Encoding
pub mod Operations
mod Tests
use fast_firebird.Base.{
  ℕ, zero, suc, ◌+◌, ◌-◌, ◌^◌, Bool, true, false, ◌||◌, ◌&&◌, not, Option, none, some, List, [],
  ◌∷◌, ◌++◌, leb, ltb, ◌==◌, if◌then◌else◌, length, take, drop, be_value, ℤ, pos, negsuc, signed,
}
use fast_firebird.Wire.Xdr.{pad4}

pub data Param : Type 0 where
  text : List ℕ → Param
  numeral : ℤ → Param

-- One entry of `args`; the tag is the kind of the argument.
pub data StatusArg : Type 0 where
  gds number : ℤ → StatusArg
  string interpreted sql_state : List ℕ → StatusArg

pub record Cluster : Type 0 where
  pub code : ℤ
  pub warning : Bool
  pub params : List Param
  pub interpretation : Option (List ℕ)

-- `args` and `clusters`, each newest first; the newest cluster is `current`.
pub record Status : Type 0 where
  pub args : List StatusArg
  pub clusters : List Cluster
  pub state : Option (List ℕ)

pub record FirebirdError : Type 0 where
  pub gds_code : ℤ
  pub status : Status

-- A read that is done, waits for more bytes, throws what the server reported, or throws because the
-- bytes are no status vector.
pub data Outcome (A : Type 0) : Type 0 where
  ok : A → List ℕ → Outcome A
  short unexpected : Outcome A
  throws : FirebirdError → List ℕ → Outcome A

infixl 5 ◌then◌
abbrev pub ◌then◌ : {A B : Type 0} → Outcome A → (A → List ℕ → Outcome B) → Outcome B
ok a rest then f = f a rest
short then f = short
unexpected then f = unexpected
throws e rest then f = throws e rest

unfoldable pub read_bytes : ℕ → List ℕ → Outcome (List ℕ)
read_bytes n bs = if leb n (length bs) then ok (take n bs) (drop n bs) else short

unfoldable pub read_uint32 : List ℕ → Outcome ℕ
unfolding read_bytes
read_uint32 bs = read_bytes 4 bs then λ b rest. ok (be_value 0 b) rest

unfoldable pub read_int32 : List ℕ → Outcome ℤ
unfolding read_bytes
read_int32 bs = read_bytes 4 bs then λ b rest. ok (signed (2 ^ 32) (be_value 0 b)) rest

unfoldable pub read_opaque : List ℕ → Outcome (List ℕ)
unfolding read_bytes read_uint32
read_opaque bs = read_uint32 bs then λ len rest.
    if len == 0
    then ok [] rest
    else (read_bytes (pad4 len) rest then λ b rest'. ok (take len b) rest')

abbrev pub is_code : ℤ → ℕ → Bool
is_code (pos n) k = n == k
is_code (negsuc n) k = false

abbrev pub with_param : Param → List Cluster → List Cluster
with_param p [] = []
with_param p (c ∷ cs) = record c { params = c.params ++ p ∷ [] } ∷ cs

abbrev pub with_interpretation : List ℕ → List Cluster → List Cluster
with_interpretation s [] = []
with_interpretation s (c ∷ cs) = record c { interpretation = some s } ∷ cs

-- A code of 0 is no entry.
unfoldable pub add_code : Bool → ℤ → Status → Status
add_code warning code s = if is_code code 0 then s else record s {
  args = gds code ∷ s.args;
  clusters =
      record { code = code; warning = warning; params = []; interpretation = none } ∷ s.clusters;
}

unfoldable pub add_string : ℤ → List ℕ → Status → Status
add_string arg bytes s =
    if is_code arg 5
    then record s {
      args = interpreted bytes ∷ s.args;
      clusters = with_interpretation bytes s.clusters;
    }
    else if is_code arg 19
    then record s { args = sql_state bytes ∷ s.args; state = some bytes }
    else record s { args = string bytes ∷ s.args; clusters = with_param (text bytes) s.clusters }

unfoldable pub add_number : ℤ → Status → Status
add_number n s = record s { args = number n ∷ s.args; clusters = with_param (numeral n) s.clusters }

-- The loop of `readStatusVector` on fuel: each round reads four bytes.
unfoldable pub status_from : ℕ → Status → List ℕ → Outcome Status
status_from zero s bs = short
status_from (suc fuel) s bs = read_int32 bs then λ arg rest.
    if is_code arg 0
    then ok s rest
    else if is_code arg 1 || is_code arg 18
    then (read_int32 rest then λ code rest'.
        status_from fuel (add_code (is_code arg 18) code s) rest')
    else if is_code arg 2 || is_code arg 3 || is_code arg 5 || is_code arg 19
    then (read_opaque rest then λ bytes rest'. status_from fuel (add_string arg bytes s) rest')
    else if is_code arg 4
    then (read_int32 rest then λ n rest'. status_from fuel (add_number n s) rest')
    else unexpected

-- The oldest cluster that is no warning.
abbrev pub first_error : List Cluster → Option Cluster
first_error [] = none
first_error (c ∷ older) = elim (first_error older) [
  | some e ↦ some e
  | none ↦ if c.warning then none else some c
]

unfoldable pub read_status_vector : List ℕ → Outcome Status
read_status_vector bs =
    status_from (suc (length bs)) (record { args = []; clusters = []; state = none }) bs

pub record GenericResponse : Type 0 where
  pub handle : ℤ
  pub oid : List ℕ
  pub body : List ℕ
  pub warnings : List StatusArg

-- `if (error) throw error`
abbrev pub checked :
    ℤ → List ℕ → List ℕ → Option Cluster → Status → List ℕ → Outcome GenericResponse
checked handle oid body none s rest =
    ok (record { handle = handle; oid = oid; body = body; warnings = s.args }) rest
checked handle oid body (some e) s rest = throws (record { gds_code = e.code; status = s }) rest

unfoldable pub parse_response_body : List ℕ → Outcome GenericResponse
parse_response_body bs = read_int32 bs then λ handle rest. read_bytes 8 rest then λ oid rest'.
    read_opaque rest' then λ body rest''. read_status_vector rest'' then λ s rest'''.
    checked handle oid body (first_error s.clusters) s rest'''

-- `op_inline_blob`, as it is handed to `onInlineBlob`.
pub record InlineBlob : Type 0 where
  pub tx_id : ℤ
  pub blob_id : List ℕ
  pub info : List ℕ
  pub content : List ℕ

unfoldable pub read_inline_blob : List ℕ → Outcome InlineBlob
read_inline_blob bs = read_int32 bs then λ tx_id rest. read_bytes 8 rest then λ blob_id rest'.
    read_opaque rest' then λ info rest''. read_opaque rest'' then λ content rest'''.
    ok (record { tx_id = tx_id; blob_id = blob_id; info = info; content = content }) rest'''

-- What `readOp` read, with the count of deferred responses and the inline blobs behind it.
pub record NextOp : Type 0 where
  pub op : ℤ
  pub deferred : ℕ
  pub blobs : List InlineBlob

-- The loop of `readOp` on fuel: each round reads four bytes.
unfoldable pub read_op_from : ℕ → ℕ → List InlineBlob → List ℕ → Outcome NextOp
read_op_from zero deferred blobs bs = short
read_op_from (suc fuel) deferred blobs bs = read_int32 bs then λ op rest.
    if is_code op 71
    then read_op_from fuel deferred blobs rest
    else if is_code op 9 && ltb 0 deferred
    then (parse_response_body rest then λ r rest'. read_op_from fuel (deferred - 1) blobs rest')
    else if is_code op 114
    then (read_inline_blob rest then λ blob rest'.
        read_op_from fuel deferred (blobs ++ blob ∷ []) rest')
    else ok (record { op = op; deferred = deferred; blobs = blobs }) rest

unfoldable pub read_op : ℕ → List ℕ → Outcome NextOp
read_op deferred bs = read_op_from (suc (length bs)) deferred [] bs

-- Any other operation is a protocol error.
unfoldable pub read_response : ℕ → List ℕ → Outcome GenericResponse
read_response deferred bs = read_op deferred bs then λ next rest.
    if is_code next.op 9 then parse_response_body rest else unexpected
