-- ===== src/Cache/Statements/Tests.antt =====
-- A cache of two entries, and the theorems of this component at it.
use mathlib.Core.List.{Perm}
use fast_firebird.Base.{ℕ, ◌≡◌, refl, ◌++◌, some, List, [], ◌∷◌, length, take, drop, ◌-◌, arith}
use fast_firebird.Base.Keys.{get, delete, set_entry, string_key}
use fast_firebird.Wire.Connection.{WireConnection}
use fast_firebird.Cache.Statements.{Info, StatementCache, put, evict, drop_replaced}
use fast_firebird.Cache.Statements.Accounting.{
  handles, frees, expected, refreshed, put_evicts_oldest, put_accounts,
}
use fast_firebird.Cache.Statements.Order.{
  IsValid, looks, puts, run, new_cache, run-new_cache-IsValid,
}

abbrev idle_wire : WireConnection
idle_wire = record { writer = []; sent = []; flush_count = 0; deferred_responses = 0 }

abbrev info : ℕ → Info
info n = record { ref = n; handle = n }

abbrev two : StatementCache
two = record {
  entries = ("select 1", info 1) ∷ ("select 2", info 2) ∷ [];
  wire = idle_wire;
  capacity = 2;
}

put_full : handles (put "select 3" (info 3) two).entries ≡ 2 ∷ 3 ∷ []
unfolding put evict set_entry delete
put_full = refl

two-IsValid : IsValid two
two-IsValid = record { distinct = ((refl, tt), (tt, tt)); bounded = omega arith }

put_evicts_oldest_example : put "select 3" (info 3) two ≡ record {
  entries =
      drop
        (length (refreshed "select 3" (info 3) two.entries) - 2)
        (refreshed "select 3" (info 3) two.entries);
  wire =
      frees
        (handles (
          take
            (length (refreshed "select 3" (info 3) two.entries) - 2)
            (refreshed "select 3" (info 3) two.entries)))
        (drop_replaced (get "select 3" two.entries) (info 3) idle_wire);
  capacity = 2;
}
put_evicts_oldest_example =
    put_evicts_oldest "select 3" (info 3) two two-IsValid.distinct (omega arith)

put_accounts_example :
    (hs : List ℕ) × ((put "select 3" (info 3) two).wire ≡ frees hs idle_wire)
    × Perm
        (hs ++ handles (put "select 3" (info 3) two).entries)
        (expected (get "select 3" two.entries) (info 3) (1 ∷ 2 ∷ []))
put_accounts_example =
    put_accounts "select 3" (info 3) two two-IsValid.distinct (omega arith) one_handle
  where
    one_handle : (e : Info) → get "select 3" two.entries ≡ some e → e.ref ≡ 3 → e.handle ≡ 3
    one_handle e h k = unfold get in cc

run-new_cache-IsValid_example :
    IsValid (run (new_cache idle_wire 1) (puts "a" (info 1) ∷ puts "b" (info 2) ∷ looks "b" ∷ []))
run-new_cache-IsValid_example =
    run-new_cache-IsValid idle_wire 1 (puts "a" (info 1) ∷ puts "b" (info 2) ∷ looks "b" ∷ [])
