-- ===== src/Cache/Statements/Accounting.antt =====
-- What `put` evicts, and which server handles it frees.
use mathlib.Core.List.{Perm, map-append, perm_append_singleton}
use mathlib.Core.List.Perm
use Prim.Native.String.{String}
use fast_firebird.Base.{
  ℕ, zero, suc, ◌+◌, ◌-◌, ◌≤◌, ◌<◌, ◌≡◌, refl, sym, ap, subst, ◌∙◌, inl, inr, false, Option, none,
  some, List, [], ◌∷◌, ◌++◌, map, append_assoc, ltb, ◌==◌, ==_iff, if◌then◌else◌, length, take,
  drop, take-append-drop, Bool-cases, Option-cases, arith, lt→ltb,
}
use fast_firebird.Base.Keys.{
  JsMap, get, delete, set_entry, string_key, Distinct, same_refl, Fresh-delete_self,
  set_entry-Fresh,
}
use fast_firebird.Wire.Connection.{WireConnection}
use fast_firebird.Cache.Statements.{
  Info, StatementCache, drop_handle, evict, drop_replaced, put, remove, drop_all_handles, clear,
}

abbrev pub handles : JsMap String Info → List ℕ
handles m = map (λ e. e.1.handle) m

-- The frees of these handles, in order.
abbrev pub frees : List ℕ → WireConnection → WireConnection
frees [] w = w
frees (h ∷ hs) w = frees hs (drop_handle h w)

pub frees-append :
    (hs gs : List ℕ) (w : WireConnection) → frees (hs ++ gs) w ≡ frees gs (frees hs w)
frees-append [] gs w = refl
frees-append (h ∷ hs) gs w = frees-append hs gs (drop_handle h w)

delete_first :
    (sql : String) (info : Info) (m : JsMap String Info) → delete sql ((sql, info) ∷ m) ≡ m
unfolding delete
delete_first sql info m = rw (same_refl sql)

abbrev cache_of : JsMap String Info → WireConnection → ℕ → StatementCache
cache_of m w most = record { entries = m; wire = w; capacity = most }

evict_one :
    (fuel : ℕ) (sql : String) (info : Info) (m : JsMap String Info) (w : WireConnection) (most : ℕ)
    → most < suc (length m)
    → evict (suc fuel) (cache_of ((sql, info) ∷ m) w most)
      ≡ evict fuel (cache_of m (drop_handle info.handle w) most)
unfolding evict
evict_one fuel sql info m w most h =
    rw (lt→ltb most (suc (length m)) h, evict, delete_first sql info m)

evict_none :
    (fuel : ℕ) (m : JsMap String Info) (w : WireConnection) (most : ℕ)
    → length m ≤ most
    → evict fuel (cache_of m w most) ≡ cache_of m w most
unfolding evict
evict_none zero m w most h = refl
evict_none (suc fuel) [] w most h = refl
evict_none (suc fuel) (e ∷ m) w most h = ground arith

-- The loop drops the entries above the capacity, oldest first, and frees their handles.
pub evict_lem :
    (fuel : ℕ) (m : JsMap String Info) (w : WireConnection) (most : ℕ)
    → length m ≤ fuel + most
    → evict fuel (cache_of m w most)
      ≡ cache_of (drop (length m - most) m) (frees (handles (take (length m - most) m)) w) most
evict_lem zero m w most h =
    let n : length m - most ≡ 0 = omega arith in rw n (evict_none zero m w most (omega arith))
evict_lem (suc fuel) [] w most h =
    let n : 0 - most ≡ 0 = omega arith in rw n (evict_none (suc fuel) [] w most (omega arith))
evict_lem (suc fuel) ((sql, info) ∷ m) w most h = elim (Bool-cases (ltb most (suc (length m)))) [
  | inl e ↦
      let n : suc (length m) - most ≡ suc (length m - most) = ground arith in
      rw n (
        evict_one fuel sql info m w most (ground arith)
        ∙ evict_lem fuel m (drop_handle info.handle w) most (omega arith))
  | inr e ↦
      let n : suc (length m) - most ≡ 0 = ground arith in
      rw n (evict_none (suc fuel) ((sql, info) ∷ m) w most (ground arith))
]

-- The entries that `put` leaves before it evicts.
abbrev pub refreshed : String → Info → JsMap String Info → JsMap String Info
refreshed sql info m = delete sql m ++ (sql, info) ∷ []

pub refreshed_lem :
    (sql : String) (info : Info) (m : JsMap String Info)
    → Distinct m
    → set_entry sql info (delete sql m) ≡ refreshed sql info m
refreshed_lem sql info m d = set_entry-Fresh sql info (delete sql m) (Fresh-delete_self sql m d)

-- With a positive capacity, `put` moves or adds its text to the end, keeps the newest `capacity`
-- entries in order, and frees the object it replaced and then the handles of the entries that
-- fell off the front, oldest first.
pub put_evicts_oldest :
    (sql : String) (info : Info) (c : StatementCache)
    → Distinct c.entries
    → 0 < c.capacity
    → let new = refreshed sql info c.entries in
      let over = length new - c.capacity in
      put sql info c ≡ record {
        entries = drop over new;
        wire = frees (handles (take over new)) (drop_replaced (get sql c.entries) info c.wire);
        capacity = c.capacity;
      }
unfolding put
put_evicts_oldest sql info c d h =
    let on : (c.capacity == 0) ≡ false = ground arith in
    rw (refreshed_lem sql info c.entries d, on)
      (evict_lem (length (refreshed sql info c.entries)) (refreshed sql info c.entries) _ c.capacity
        (omega arith))

-- The handle of another object that stood under the text.
abbrev dropped : Option Info → Info → List ℕ
dropped none info = []
dropped (some existing) info = if existing.ref == info.ref then [] else existing.handle ∷ []

drop_replaced_lem :
    (o : Option Info) (info : Info) (w : WireConnection)
    → drop_replaced o info w ≡ frees (dropped o info) w
unfolding drop_replaced
drop_replaced_lem none info w = refl
drop_replaced_lem (some existing) info w = ground arith

-- The handles that must be accounted for once `info` is put where the text stands for `o`.
abbrev pub expected : Option Info → Info → List ℕ → List ℕ
expected none info hs = info.handle ∷ hs
expected (some existing) info hs = if existing.ref == info.ref then hs else info.handle ∷ hs

delete-absent : (sql : String) (m : JsMap String Info) → get sql m ≡ none → delete sql m ≡ m
unfolding get delete
delete-absent sql [] h = refl
delete-absent sql ((j, v) ∷ m) h = ground (arith, delete-absent sql m)

handles-delete-perm :
    (sql : String) (m : JsMap String Info) (e : Info)
    → get sql m ≡ some e
    → Perm (handles m) (e.handle ∷ handles (delete sql m))
unfolding get delete
handles-delete-perm sql [] e h = cc
handles-delete-perm sql ((j, v) ∷ m) e h = elim (Bool-cases (string_key.same j sql)) [
  | inl hit ↦ rw (hit, delete) (Perm.cons' (ground arith) (Perm.refl (handles m)))
  | inr miss ↦
      rw (miss, delete)
        (Perm.trans (Perm.cons v.handle (handles-delete-perm sql m e (ground arith)))
          (Perm.swap e.handle v.handle _))
]

all_accounted :
    (o : Option Info) (sql : String) (info : Info) (m : JsMap String Info)
    → get sql m ≡ o
    → ((e : Info) → o ≡ some e → e.ref ≡ info.ref → e.handle ≡ info.handle)
    → Perm (dropped o info ++ info.handle ∷ handles (delete sql m)) (expected o info (handles m))
all_accounted none sql info m h one = rw (delete-absent sql m h) (Perm.refl _)
all_accounted (some e) sql info m h one = elim (Bool-cases (e.ref == info.ref)) [
  | inl same ↦ rw same (
      Perm.symm (
        Perm.trans (handles-delete-perm sql m e h)
          (Perm.cons' (one e refl ((==_iff e.ref info.ref).0 same)) (Perm.refl _))))
  | inr other ↦ rw other (
      Perm.trans (Perm.swap info.handle e.handle _)
        (Perm.cons info.handle (Perm.symm (handles-delete-perm sql m e h))))
]

handles-refreshed :
    (n : ℕ) (sql : String) (info : Info) (m : JsMap String Info)
    → handles (take n (refreshed sql info m)) ++ handles (drop n (refreshed sql info m))
      ≡ handles (delete sql m) ++ info.handle ∷ []
handles-refreshed n sql info m =
    sym (map-append _ (take n (refreshed sql info m)) _)
    ∙ ap handles (take-append-drop n (refreshed sql info m))
    ∙ map-append _ (delete sql m) _

-- With a positive capacity, the handles that `put` frees and those that stay cached are together,
-- each as often, the handles cached before and the new one (not counted twice when the same object
-- was cached already): none leaks, and none is freed while cached or twice.
pub put_accounts :
    (sql : String) (info : Info) (c : StatementCache)
    → Distinct c.entries
    → 0 < c.capacity
    → ((e : Info) → get sql c.entries ≡ some e → e.ref ≡ info.ref → e.handle ≡ info.handle)
    → (hs : List ℕ) × ((put sql info c).wire ≡ frees hs c.wire)
      × Perm
          (hs ++ handles (put sql info c).entries)
          (expected (get sql c.entries) info (handles c.entries))
put_accounts sql info c d h one =
    let new = refreshed sql info c.entries in
    let over = length new - c.capacity in
    let old = dropped (get sql c.entries) info in
    let gone = handles (take over new) in
    (
      old ++ gone,
      rw (put_evicts_oldest sql info c d h, drop_replaced_lem (get sql c.entries) info c.wire)
          (sym (frees-append old gone c.wire)),
      rw (put_evicts_oldest sql info c d h) (
          subst (λ t. Perm t (expected (get sql c.entries) info (handles c.entries)))
            (sym (
              append_assoc old gone _
              ∙ ap (λ t. old ++ t) (handles-refreshed over sql info c.entries)))
            (Perm.trans
              (Perm.append_left old
                (perm_append_singleton info.handle (handles (delete sql c.entries))))
              (all_accounted (get sql c.entries) sql info c.entries refl one))),
    )

-- The handles that `remove` frees and those that stay cached are together those cached before.
pub remove_accounts :
    (sql : String) (c : StatementCache)
    → (hs : List ℕ) × ((remove sql c).wire ≡ frees hs c.wire)
      × Perm (hs ++ handles (remove sql c).entries) (handles c.entries)
unfolding remove
remove_accounts sql c = elim (Option-cases (get sql c.entries)) [
  | inl e ↦ ([], rw (e, remove), rw (e, remove) (Perm.refl _))
  | inr (info, e) ↦ (
    info.handle ∷ [],
    rw (e, remove),
    rw (e, remove) (Perm.symm (handles-delete-perm sql c.entries info e)),
  )
]

drop_all_handles_lem :
    (m : JsMap String Info) (w : WireConnection) → drop_all_handles m w ≡ frees (handles m) w
unfolding drop_all_handles
drop_all_handles_lem [] w = refl
drop_all_handles_lem ((sql, info) ∷ m) w = drop_all_handles_lem m (drop_handle info.handle w)

-- Clearing frees every cached handle once, oldest first, and keeps none.
pub clear_accounts :
    (c : StatementCache)
    → ((clear c).wire ≡ frees (handles c.entries) c.wire) × ((clear c).entries ≡ [])
unfolding clear
clear_accounts c = (drop_all_handles_lem c.entries c.wire, refl)
