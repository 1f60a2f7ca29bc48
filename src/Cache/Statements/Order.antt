-- ===== src/Cache/Statements/Order.antt =====
-- The bound on the size, distinct texts, and what `get` returns after each operation.
use Prim.Native.String.{String}
use fast_firebird.Base.{
  ℕ, zero, suc, ◌-◌, ◌≤◌, ◌<◌, ◌≡◌, refl, inl, inr, none, some, List, [], ◌∷◌, ◌++◌, ltb,
  if◌then◌else◌, length, drop, length-append, length-drop, Bool-cases, Option-cases, arith,
}
use fast_firebird.Base.Keys.{
  JsMap, get, delete, string_key, Fresh, Distinct, same_refl, Fresh-delete_self, Distinct-delete,
  length-delete-le, get-delete, get-set_entry, Distinct-append,
}
use fast_firebird.Wire.Connection.{WireConnection}
use fast_firebird.Cache.Statements.{Info, StatementCache, lookup, put, remove, clear}
use fast_firebird.Cache.Statements.Accounting.{refreshed, put_evicts_oldest, refreshed_lem}

pub record IsValid (c : StatementCache) : Type 0 where
  pub distinct : Distinct c.entries
  pub bounded : length c.entries ≤ c.capacity

Fresh-drop : (n : ℕ) (key : String) (m : JsMap String Info) → Fresh key m → Fresh key (drop n m)
Fresh-drop zero key m h = h
Fresh-drop (suc n) key [] h = tt
Fresh-drop (suc n) key (e ∷ m) h = Fresh-drop n key m h.1

Distinct-drop : (n : ℕ) (m : JsMap String Info) → Distinct m → Distinct (drop n m)
Distinct-drop zero m h = h
Distinct-drop (suc n) [] h = tt
Distinct-drop (suc n) (e ∷ m) h = Distinct-drop n m h.1

Distinct-refreshed :
    (sql : String) (info : Info) (m : JsMap String Info)
    → Distinct m
    → Distinct (refreshed sql info m)
Distinct-refreshed sql info m d =
    Distinct-append sql info (delete sql m) (Fresh-delete_self sql m d) (Distinct-delete sql m d)

put-IsValid :
    (sql : String) (info : Info) (c : StatementCache) → IsValid c → IsValid (put sql info c)
put-IsValid sql info c v = elim (Bool-cases (ltb 0 c.capacity)) [
  | inl e ↦ rw (put_evicts_oldest sql info c v.distinct (ground arith)) (record {
    distinct = Distinct-drop _ _ (Distinct-refreshed sql info c.entries v.distinct);
    bounded = omega (
      arith,
      length-drop (length (refreshed sql info c.entries) - c.capacity)
          (refreshed sql info c.entries),
    );
  })
  | inr e ↦ unfold put in ground (arith, v.distinct, v.bounded)
]

-- A present text keeps the number of entries when it moves.
length-delete_present :
    (sql : String) (m : JsMap String Info) (info : Info)
    → get sql m ≡ some info
    → length m ≡ suc (length (delete sql m))
unfolding get delete
length-delete_present sql [] info h = cc
length-delete_present sql ((j, v) ∷ m) info h = ground (arith, length-delete_present sql m info)

lookup-IsValid : (sql : String) (c : StatementCache) → IsValid c → IsValid (lookup sql c).1
unfolding lookup
lookup-IsValid sql c v = elim (Option-cases (get sql c.entries)) [
  | inl e ↦ rw (e, lookup) v
  | inr (info, e) ↦
      rw (e, lookup, refreshed_lem sql info c.entries v.distinct)
        (record {
          distinct = Distinct-refreshed sql info c.entries v.distinct;
          bounded = omega (
            arith,
            v.bounded,
            length-delete_present sql c.entries info e,
            length-append (delete sql c.entries) ((sql, info) ∷ []),
          );
        })
]

remove-IsValid : (sql : String) (c : StatementCache) → IsValid c → IsValid (remove sql c)
unfolding remove
remove-IsValid sql c v = elim (Option-cases (get sql c.entries)) [
  | inl e ↦ rw (e, remove) v
  | inr (info, e) ↦
      rw (e, remove)
        (record {
          distinct = Distinct-delete sql c.entries v.distinct;
          bounded = omega (arith, v.bounded, length-delete-le sql c.entries);
        })
]

-- A client of the cache.
pub data Call : Type 0 where
  looks removes : String → Call
  puts : String → Info → Call
  clears : Call

abbrev pub step : StatementCache → Call → StatementCache
step c (looks sql) = (lookup sql c).1
step c (removes sql) = remove sql c
step c (puts sql info) = put sql info c
step c clears = clear c

abbrev pub run : StatementCache → List Call → StatementCache
run c [] = c
run c (call ∷ calls) = run (step c call) calls

step-IsValid : (c : StatementCache) (call : Call) → IsValid c → IsValid (step c call)
unfolding clear
step-IsValid c (looks sql) v = lookup-IsValid sql c v
step-IsValid c (removes sql) v = remove-IsValid sql c v
step-IsValid c (puts sql info) v = put-IsValid sql info c v
step-IsValid c clears v = record { distinct = tt; bounded = omega arith }

run-IsValid : (c : StatementCache) (calls : List Call) → IsValid c → IsValid (run c calls)
run-IsValid c [] v = v
run-IsValid c (call ∷ calls) v = run-IsValid (step c call) calls (step-IsValid c call v)

abbrev pub new_cache : WireConnection → ℕ → StatementCache
new_cache wire capacity = record { entries = []; wire = wire; capacity = capacity }

-- After any calls on a new cache the texts are distinct and no more than the capacity are held.
pub run-new_cache-IsValid :
    (wire : WireConnection) (capacity : ℕ) (calls : List Call)
    → IsValid (run (new_cache wire capacity) calls)
run-new_cache-IsValid wire capacity calls =
    run-IsValid _ calls (record { distinct = tt; bounded = omega arith })

drop-append_le {ℓ} :
    {A : Type ℓ} (n : ℕ) (xs ys : List A) → n ≤ length xs → drop n (xs ++ ys) ≡ drop n xs ++ ys
drop-append_le zero xs ys h = refl
drop-append_le (suc n) [] ys h = elim h [ ]
drop-append_le (suc n) (x ∷ xs) ys h = drop-append_le n xs ys (omega arith)

get-append_last :
    (sql : String) (info : Info) (m : JsMap String Info)
    → Fresh sql m
    → get sql (m ++ (sql, info) ∷ []) ≡ some info
unfolding get
get-append_last sql info [] h = rw (same_refl sql)
get-append_last sql info ((j, v) ∷ m) h = rw h.0 (get-append_last sql info m h.1)

-- What `put` stored is there, however full the cache was.
pub get-put :
    (sql : String) (info : Info) (c : StatementCache)
    → IsValid c
    → 0 < c.capacity
    → get sql (put sql info c).entries ≡ some info
get-put sql info c v h =
    let base = delete sql c.entries in
    let over = length (refreshed sql info c.entries) - c.capacity in
    let few : over ≤ length base = omega (arith, length-append base ((sql, info) ∷ [])) in
    rw (put_evicts_oldest sql info c v.distinct h, drop-append_le over base ((sql, info) ∷ []) few)
      (get-append_last sql info (drop over base)
        (Fresh-drop over sql base (Fresh-delete_self sql c.entries v.distinct)))

-- A removed text is gone, and every other text is served as before.
pub get-remove :
    (sql j : String) (c : StatementCache)
    → IsValid c
    → get j (remove sql c).entries ≡ (if string_key.same sql j then none else get j c.entries)
unfolding remove
get-remove sql j c v =
    ground (arith, string_key.same_iff sql j, get-delete sql j c.entries v.distinct)

-- A lookup answers from the entries, changes no answer, and sends nothing to the server.
pub lookup_same :
    (sql j : String) (c : StatementCache)
    → IsValid c
    → ((lookup sql c).0 ≡ get sql c.entries)
      × (get j (lookup sql c).1.entries ≡ get j c.entries)
      × ((lookup sql c).1.wire ≡ c.wire)
unfolding lookup
lookup_same sql j c v = elim (Option-cases (get sql c.entries)) [
  | inl e ↦ rw (e, lookup) (refl, refl, refl)
  | inr (info, e) ↦
      rw (e, lookup)
        (
          refl,
          ground (
            arith,
            string_key.same_iff sql j,
            get-delete sql j c.entries v.distinct,
            get-set_entry sql j info (delete sql c.entries),
          ),
          refl,
        )
]
