-- ===== src/Cache/Statements.antt =====
-- packages/core/src/api/statement-cache.ts: prepared statements by SQL text, least recently used
-- first. `ref` is the identity of the JavaScript object, which `!==` compares.
pub mod Accounting
pub mod Order
mod Tests
use fast_firebird.Base.{
  ℕ, zero, suc, ◌+◌, Bool, true, false, not, Option, none, some, List, [], ◌∷◌, ltb, ◌==◌,
  if◌then◌else◌, length, arith,
}
use fast_firebird.Base.Keys.{JsMap, get, delete, set_entry, string_key}
use fast_firebird.Wire.Connection.{WireConnection, free_statement, dsql_drop}
use Prim.Native.String.{String}

pub record Info : Type 0 where
  pub ref : ℕ
  pub handle : ℕ

pub record StatementCache : Type 0 where
  pub entries : JsMap String Info
  pub wire : WireConnection
  pub capacity : ℕ

-- `StmtType` of constants.ts.
pub data StmtType : Type 0 where
  select insert update delete_ ddl get_segment put_segment exec_procedure start_trans commit
        rollback select_for_upd set_generator savepoint :
      StmtType

unfoldable pub is_cacheable : StmtType → Bool
is_cacheable select = true
is_cacheable select_for_upd = true
is_cacheable insert = true
is_cacheable update = true
is_cacheable delete_ = true
is_cacheable exec_procedure = true
is_cacheable _ = false

unfoldable pub drop_handle : ℕ → WireConnection → WireConnection
unfolding free_statement
drop_handle handle w = free_statement handle dsql_drop false w

unfoldable pub lookup : String → StatementCache → Option Info × StatementCache
lookup sql c = elim (get sql c.entries) [
  | some info ↦ (some info, record c { entries = set_entry sql info (delete sql c.entries) })
  | none ↦ (none, c)
]

-- `while (this.map.size > this.capacity)` on fuel: the first entry goes.
unfoldable pub evict : ℕ → StatementCache → StatementCache
evict zero c = c
evict (suc fuel) c = elim c.entries [
  | [] ↦ c
  | (oldest, old_info) ∷ rest ↦ elim (ltb c.capacity (length c.entries)) [
    | true ↦
        evict fuel (record c {
          entries = delete oldest c.entries;
          wire = drop_handle old_info.handle c.wire;
        })
    | false ↦ c
  ]
]

-- The handle that `put` frees because another object stood under the same text.
unfoldable pub drop_replaced : Option Info → Info → WireConnection → WireConnection
drop_replaced none info w = w
drop_replaced (some existing) info w =
    if existing.ref == info.ref then w else drop_handle existing.handle w

unfoldable pub put : String → Info → StatementCache → StatementCache
put sql info c =
    if c.capacity == 0
    then c
    else let entries' = set_entry sql info (delete sql c.entries) in
      evict (length entries')
        (record c { entries = entries'; wire = drop_replaced (get sql c.entries) info c.wire })

unfoldable pub remove : String → StatementCache → StatementCache
remove sql c = elim (get sql c.entries) [
  | some info ↦ record c { entries = delete sql c.entries; wire = drop_handle info.handle c.wire }
  | none ↦ c
]

unfoldable pub drop_all_handles : JsMap String Info → WireConnection → WireConnection
drop_all_handles [] w = w
drop_all_handles ((sql, info) ∷ m) w = drop_all_handles m (drop_handle info.handle w)

unfoldable pub clear : StatementCache → StatementCache
clear c = record c { entries = []; wire = drop_all_handles c.entries c.wire }

unfoldable pub size : StatementCache → ℕ
size c = length c.entries
