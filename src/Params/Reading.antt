-- ===== src/Params/Reading.antt =====
-- A transaction parameter buffer read back by the server's grammar: bare tags, and the lock timeout
-- with a length byte.
use fast_firebird.Base.{
  ℕ, ◌^◌, ◌≡◌, refl, ap, sym, ◌∙◌, Bool, true, false, Option, none, some, List, [], ◌∷◌, ◌++◌,
  if◌then◌else◌, ◌==◌, ◌>>=◌, le_bytes, le_value, wrap, signed, InSigned, signed-wrap32, wrap32-lt,
  le_value-le_bytes, length, append_assoc, append-nil,
}
use fast_firebird.Params.{Buffer, new_buffer, tag, int32}
use fast_firebird.Params.Tpb.{
  IsolationLevel, snapshot, serializable, read_committed, read_committed_no_rec_version, Wait, flag,
  seconds, TransactionOptions, or_else, or_default, merge_fields, merge_transaction_options,
  default_lock_timeout_seconds, isolation_tags, wait_tags, build_tpb,
}

-- What a transaction does.
pub record Settings : Type 0 where
  pub isolation : IsolationLevel
  pub read_only : Bool
  pub wait : Wait
  pub auto_commit : Bool

-- Read-write snapshots that wait for ever are the server's default.
abbrev pub server_default : Settings
server_default = record {
  isolation = snapshot;
  read_only = false;
  wait = flag true;
  auto_commit = false;
}

-- The options with the driver's defaults.
abbrev pub effective : TransactionOptions → Settings
effective o = record {
  isolation = or_default o.isolation snapshot;
  read_only = or_default o.read_only false;
  wait = or_default o.wait (seconds default_lock_timeout_seconds);
  auto_commit = or_default o.auto_commit false;
}

abbrev pub bare_tag : ℕ → Settings → Option Settings
bare_tag t s =
    if t == 1
    then some (record s { isolation = serializable })
    else if t == 2
    then some (record s { isolation = snapshot })
    else if t == 6
    then some (record s { wait = flag true })
    else if t == 7
    then some (record s { wait = flag false })
    else if t == 8
    then some (record s { read_only = true })
    else if t == 9
    then some (record s { read_only = false })
    else if t == 15
    then some (record s { isolation = read_committed })
    else if t == 16
    then some (record s { auto_commit = true })
    else if t == 17
    then some (record s { isolation = read_committed })
    else if t == 18
    then some (record s { isolation = read_committed_no_rec_version })
    else none

-- Where the reader stands: at a tag, at the length of the timeout, or in its bytes.
pub data Place : Type 0 where
  at_tag at_length : Place
  in_value : List ℕ → Place

abbrev pub read_items : Place → List ℕ → Settings → Option Settings
read_items at_tag [] s = some s
read_items at_length [] s = none
read_items (in_value bytes) [] s = none
read_items at_tag (t ∷ rest) s =
    if t == 21
    then read_items at_length rest s
    else (do s' ← bare_tag t s; read_items at_tag rest s')
read_items at_length (n ∷ rest) s = if n == 4 then read_items (in_value []) rest s else none
read_items (in_value bytes) (b ∷ rest) s =
    let bytes' = bytes ++ b ∷ [] in
    if length bytes' == 4
    then read_items at_tag rest (record s { wait = seconds (signed (2 ^ 32) (le_value bytes')) })
    else read_items (in_value bytes') rest s

abbrev pub read_tpb : List ℕ → Option Settings
read_tpb [] = none
read_tpb (version ∷ rest) = if version == 3 then read_items at_tag rest server_default else none

abbrev pub InRange : Wait → Type 0
InRange (flag b) = Unit {0}
InRange (seconds n) = InSigned (2 ^ 32) n

abbrev isolation_bytes : IsolationLevel → List ℕ
isolation_bytes snapshot = 2 ∷ []
isolation_bytes serializable = 1 ∷ []
isolation_bytes read_committed = 15 ∷ 17 ∷ []
isolation_bytes read_committed_no_rec_version = 15 ∷ 18 ∷ []

abbrev wait_bytes : Wait → List ℕ
wait_bytes (flag false) = 7 ∷ []
wait_bytes (flag true) = 6 ∷ []
wait_bytes (seconds n) = 6 ∷ 21 ∷ 4 ∷ le_bytes 4 (wrap (2 ^ 32) n)

abbrev commit_bytes : Bool → List ℕ
commit_bytes true = 16 ∷ []
commit_bytes false = []

isolation_tags_lem :
    (i : IsolationLevel) (pb : Buffer) → isolation_tags i pb ≡ pb ++ isolation_bytes i
unfolding isolation_tags tag
isolation_tags_lem snapshot pb = refl
isolation_tags_lem serializable pb = refl
isolation_tags_lem read_committed pb = append_assoc pb (15 ∷ []) (17 ∷ [])
isolation_tags_lem read_committed_no_rec_version pb = append_assoc pb (15 ∷ []) (18 ∷ [])

wait_tags_lem : (w : Wait) (pb : Buffer) → wait_tags w pb ≡ pb ++ wait_bytes w
unfolding wait_tags tag int32
wait_tags_lem (flag false) pb = refl
wait_tags_lem (flag true) pb = refl
wait_tags_lem (seconds n) pb = append_assoc pb (6 ∷ []) _

commit_lem : (a : Bool) (pb : Buffer) → (if a then tag 16 pb else pb) ≡ pb ++ commit_bytes a
unfolding tag
commit_lem true pb = refl
commit_lem false pb = sym (append-nil pb)

-- The buffer is the version and one group of tags for each setting.
tpb_bytes :
    (o : TransactionOptions)
    → let s = effective o in
      build_tpb o
      ≡ 3
        ∷ (isolation_bytes s.isolation
            ++ ((if s.read_only then 8 else 9) ∷ (wait_bytes s.wait ++ commit_bytes s.auto_commit)))
unfolding build_tpb new_buffer tag
tpb_bytes o =
    let s = effective o in
    let mode : ℕ = if s.read_only then 8 else 9 in
    let start = 3 ∷ isolation_bytes s.isolation in
    let waits = wait_bytes s.wait in
    let commits = commit_bytes s.auto_commit in
    commit_lem s.auto_commit _
    ∙ ap (λ t. t ++ commits)
        (wait_tags_lem s.wait _
          ∙ ap (λ t. (t ++ mode ∷ []) ++ waits) (isolation_tags_lem s.isolation (3 ∷ [])))
    ∙ append_assoc (start ++ mode ∷ []) waits commits
    ∙ append_assoc start (mode ∷ []) (waits ++ commits)

read_isolation :
    (i : IsolationLevel) (rest : List ℕ) (s : Settings)
    → read_items at_tag (isolation_bytes i ++ rest) s
      ≡ read_items at_tag rest (record s { isolation = i })
read_isolation snapshot rest s = refl
read_isolation serializable rest s = refl
read_isolation read_committed rest s = refl
read_isolation read_committed_no_rec_version rest s = refl

read_mode :
    (r : Bool) (rest : List ℕ) (s : Settings)
    → read_items at_tag ((if r then 8 else 9) ∷ rest) s
      ≡ read_items at_tag rest (record s { read_only = r })
read_mode true rest s = refl
read_mode false rest s = refl

read_wait :
    (w : Wait) (rest : List ℕ) (s : Settings)
    → InRange w
    → read_items at_tag (wait_bytes w ++ rest) s ≡ read_items at_tag rest (record s { wait = w })
read_wait (flag false) rest s h = refl
read_wait (flag true) rest s h = refl
read_wait (seconds n) rest s h =
    ap (λ v. read_items at_tag rest (record s { wait = seconds v }))
      (ap (signed (2 ^ 32)) (le_value-le_bytes 4 (wrap (2 ^ 32) n) (wrap32-lt n))
        ∙ signed-wrap32 n h)

read_commit :
    (a : Bool) (s : Settings)
    → s.auto_commit ≡ false
    → read_items at_tag (commit_bytes a) s ≡ some (record s { auto_commit = a })
read_commit true s h = refl
read_commit false s h = ap (λ a. some (record s { auto_commit = a })) h

-- The server reads from the buffer what the options say, with the driver's defaults, when a lock
-- timeout is a 32-bit number.
pub read_tpb-build_tpb :
    (o : TransactionOptions)
    → InRange (or_default o.wait (seconds default_lock_timeout_seconds))
    → read_tpb (build_tpb o) ≡ some (effective o)
read_tpb-build_tpb o h =
    let s = effective o in
    let commits = commit_bytes s.auto_commit in
    let waits = wait_bytes s.wait ++ commits in
    let start = record server_default { isolation = s.isolation } in
    let mode = record start { read_only = s.read_only } in
    ap read_tpb (tpb_bytes o)
    ∙ read_isolation s.isolation ((if s.read_only then 8 else 9) ∷ waits) server_default
    ∙ read_mode s.read_only waits start
    ∙ read_wait s.wait commits mode h
    ∙ read_commit s.auto_commit (record mode { wait = s.wait }) refl

or_else_assoc {ℓ} :
    {A : Type ℓ} (a b c : Option A) → or_else c (or_else b a) ≡ or_else (or_else c b) a
or_else_assoc a b none = refl
or_else_assoc a b (some c) = refl

-- Merging two layers of options into the defaults one after the other is merging them first.
pub merge_assoc :
    (a b c : TransactionOptions)
    → merge_transaction_options (merge_transaction_options a (some b)) (some c)
      ≡ merge_transaction_options a (some (merge_transaction_options b (some c)))
unfolding merge_transaction_options merge_fields
merge_assoc a b c = λ i. record {
  isolation = or_else_assoc a.isolation b.isolation c.isolation i;
  read_only = or_else_assoc a.read_only b.read_only c.read_only i;
  wait = or_else_assoc a.wait b.wait c.wait i;
  auto_commit = or_else_assoc a.auto_commit b.auto_commit c.auto_commit i;
  auto_upgrade_read_only =
      or_else_assoc a.auto_upgrade_read_only b.auto_upgrade_read_only c.auto_upgrade_read_only i;
}
