-- ===== src/Pool.antt =====
-- packages/core/src/pool/pool.ts: a pool of connections. Every `await` ends a step: the state
-- counts the calls that are suspended in a ping or in a connect, and an event resumes one of them.
-- Connections are numbered in the order in which `connect` returns them, timers in the order in
-- which they are set. `alive` is what `isAlive` says of each connection at the time of the event.
-- The head of `idle` is the end of the array, where `push` and `pop` work.
pub mod Moves
pub mod Counting
pub mod Capacity
pub mod Waiting
pub mod Service
pub mod Sweeping
mod Tests
use fast_firebird.Base.{
  ℕ, zero, suc, ◌+◌, ◌-◌, Bool, true, false, not, ◌&&◌, ◌||◌, Option, none, some, List, [], ◌∷◌,
  ◌++◌, map, ltb, leb, ◌==◌, if◌then◌else◌, length, max,
}

pub record Config : Type 0 where
  pub min_ : ℕ
  pub max_ : ℕ
  pub idle_timeout_ms : ℕ
  pub validate_on_acquire : Bool

pub record Entry : Type 0 where
  pub conn : ℕ
  pub since : ℕ

pub record Pool : Type 0 where
  pub config : Config
  pub open config use *
  pub idle : List Entry
  pub in_use : List ℕ
  pub waiters : List ℕ
  pub pending_creates : ℕ
  pub closed : Bool
  pub sweeping : Bool
  -- What the pool set going: connections made, timers set, connections closed, calls suspended in
  -- a ping (of which connection), in a connect of `acquire`, and in one of `createInto`.
  pub next_conn : ℕ
  pub next_timer : ℕ
  pub disconnected : List ℕ
  pub pings : List ℕ
  pub creating : ℕ
  pub warming : ℕ

-- What an `acquire` came to at its next `await`, or in the end.
pub data Answer : Type 0 where
  granted pinging waiting : ℕ → Answer
  creating_one rejected nothing : Answer

abbrev pub has : ℕ → List ℕ → Bool
has c [] = false
has c (x ∷ xs) = x == c || has c xs

-- `Set.add`, `Set.delete`.
unfoldable pub set_add : ℕ → List ℕ → List ℕ
set_add c xs = if has c xs then xs else xs ++ c ∷ []

unfoldable pub set_delete : ℕ → List ℕ → List ℕ
set_delete c [] = []
set_delete c (x ∷ xs) = if x == c then xs else x ∷ set_delete c xs

-- The constructor, with its defaults applied by the caller.
unfoldable pub new_pool : Config → Pool
new_pool config = record {
  config = record config { max_ = max 1 config.max_ };
  idle = [];
  in_use = [];
  waiters = [];
  pending_creates = 0;
  closed = false;
  sweeping = false;
  next_conn = 0;
  next_timer = 0;
  disconnected = [];
  pings = [];
  creating = 0;
  warming = 0;
}

unfoldable pub size : Pool → ℕ
size p = length p.idle + length p.in_use + p.pending_creates

unfoldable pub ensure_sweep : Pool → Pool
ensure_sweep p = if p.sweeping || p.idle_timeout_ms == 0 then p else record p { sweeping = true }

-- `this.inUse.delete(conn); void conn.disconnect()`
unfoldable pub discard : ℕ → Pool → Pool
discard c p = record p { in_use = set_delete c p.in_use; disconnected = p.disconnected ++ c ∷ [] }

-- No idle connection is left: connect, or wait for a release.
unfoldable pub connect_or_wait : Pool → Pool × Answer
unfolding size
connect_or_wait p =
    if ltb (size p) p.max_
    then (
      record p { pending_creates = p.pending_creates + 1; creating = p.creating + 1 },
      creating_one,
    )
    else (
      record p { waiters = p.waiters ++ p.next_timer ∷ []; next_timer = p.next_timer + 1 },
      waiting p.next_timer,
    )

-- The connection at the end of the array is reserved before it is looked at.
unfoldable pub reserve : Entry → List Entry → Pool → Pool
reserve e rest p = record p { idle = rest; in_use = set_add e.conn p.in_use }

-- `for (;;) { const entry = this.idle.pop(); … }`
unfoldable pub acquire_from : (ℕ → Bool) → List Entry → Pool → Pool × Answer
acquire_from alive [] p = connect_or_wait (record p { idle = [] })
acquire_from alive (e ∷ rest) p = elim (alive e.conn) [
  | false ↦ acquire_from alive rest (discard e.conn (reserve e rest p))
  | true ↦
      if p.validate_on_acquire
      then (record (reserve e rest p) { pings = p.pings ++ e.conn ∷ [] }, pinging e.conn)
      else (reserve e rest p, granted e.conn)
]

unfoldable pub acquire : (ℕ → Bool) → Pool → Pool × Answer
acquire alive p =
    if p.closed then (p, rejected) else acquire_from alive (ensure_sweep p).idle (ensure_sweep p)

-- The ping of `acquire` resolves, or rejects and the loop goes on.
unfoldable pub ping_ok : ℕ → Pool → Pool × Answer
ping_ok c p =
    if has c p.pings then (record p { pings = set_delete c p.pings }, granted c) else (p, nothing)

unfoldable pub ping_failed : (ℕ → Bool) → ℕ → Pool → Pool × Answer
ping_failed alive c p =
    if has c p.pings
    then acquire_from alive p.idle (discard c (record p { pings = set_delete c p.pings }))
    else (p, nothing)

-- The connect of an `acquire` resolves or rejects.
unfoldable pub created : Pool → Pool × Answer
created p = if p.creating == 0 then (p, nothing) else (
  record p {
    in_use = set_add p.next_conn p.in_use;
    next_conn = p.next_conn + 1;
    creating = p.creating - 1;
    pending_creates = p.pending_creates - 1;
  },
  granted p.next_conn,
)

unfoldable pub create_failed : Pool → Pool × Answer
create_failed p =
    if p.creating == 0
    then (p, nothing)
    else (record p { creating = p.creating - 1; pending_creates = p.pending_creates - 1 }, rejected)

-- `warmup` starts what is missing to `min`; each connect resolves or rejects later, and the call
-- goes on when all have resolved.
unfoldable pub warmup : Pool → Pool
unfolding size
warmup p =
    let need = p.min_ - size p in
    record p { pending_creates = p.pending_creates + need; warming = p.warming + need }

unfoldable pub warmup_done : Pool → Pool
warmup_done p = ensure_sweep p

unfoldable pub warmed : ℕ → Pool → Pool
warmed now p = if p.warming == 0 then p else record p {
  idle = record { conn = p.next_conn; since = now } ∷ p.idle;
  next_conn = p.next_conn + 1;
  warming = p.warming - 1;
  pending_creates = p.pending_creates - 1;
}

unfoldable pub warm_failed : Pool → Pool
warm_failed p =
    if p.warming == 0
    then p
    else record p { warming = p.warming - 1; pending_creates = p.pending_creates - 1 }

-- A connection that is returned goes to the oldest waiter, or becomes idle.
unfoldable pub hand_back : ℕ → ℕ → List ℕ → Pool → Pool × Answer
hand_back c now [] p = (record p { idle = record { conn = c; since = now } ∷ p.idle }, nothing)
hand_back c now (w ∷ ws) p = (record p { waiters = ws; in_use = set_add c p.in_use }, granted c)

unfoldable pub release : Bool → ℕ → ℕ → Pool → Pool × Answer
release alive c now p =
    if has c p.in_use
    then (let p' = record p { in_use = set_delete c p.in_use } in
        if p.closed || not alive
        then (record p' { disconnected = p.disconnected ++ c ∷ [] }, nothing)
        else hand_back c now p.waiters p')
    else (p, nothing)

-- The timer of a waiter that still waits rejects it.
unfoldable pub timeout : ℕ → Pool → Pool × Answer
timeout t p =
    if has t p.waiters
    then (record p { waiters = set_delete t p.waiters }, rejected)
    else (p, nothing)

-- The loop of `sweepIdle` from the end of the array down, with `kept` entries passed: the entries
-- that stay and the connections that are closed.
unfoldable pub sweep_from : (ℕ → Bool) → ℕ → ℕ → ℕ → ℕ → List Entry → List Entry × List ℕ
sweep_from alive now limit least others [] = ([], [])
sweep_from alive now limit least others (e ∷ rest) = elim (leb (others + suc (length rest)) least) [
  | true ↦ (e ∷ rest, [])
  | false ↦ elim (leb limit (now - e.since) || not (alive e.conn)) [
    | true ↦ let tail = sweep_from alive now limit least others rest in (tail.0, e.conn ∷ tail.1)
    | false ↦ let tail = sweep_from alive now limit least (suc others) rest in (e ∷ tail.0, tail.1)
  ]
]

unfoldable pub sweep_idle : (ℕ → Bool) → ℕ → Pool → Pool
sweep_idle alive now p =
    let swept = sweep_from alive now p.idle_timeout_ms p.min_ (length p.in_use) p.idle in
    record p {
      idle = swept.0;
      disconnected = p.disconnected ++ swept.1;
      sweeping = p.sweeping && not (length swept.0 == 0 && length p.in_use == 0);
    }

unfoldable pub close : Pool → Pool
close p = record p {
  closed = true;
  sweeping = false;
  waiters = [];
  idle = [];
  in_use = [];
  disconnected = p.disconnected ++ (map (λ e. e.conn) p.idle ++ p.in_use);
}
