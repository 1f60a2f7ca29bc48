-- ===== src/Base/Keys.antt =====
-- Keys that JavaScript compares with `===`, and `Map` as the list of its entries in insertion order.
use mathlib.Core.Path.{◌≡◌, refl, subst}
use mathlib.Core.Logic.{◌↔◌, inl, inr}
use mathlib.Core.Bool.{Bool, true, false, ◌&&◌}
use mathlib.Core.Option.{Option, none, some}
use mathlib.Core.List.{List, [], ◌∷◌, ◌++◌}
use Prim.Native.Nat.{ℕ, ◌≤◌}
use Prim.Native.String.{String}
use text.Mathlib.Text.{◌==◌ as str_eq}
use text.Mathlib.TextEquality.{eq_iff}
use native.Mathlib.Omega.{arith}
use fast_firebird.Base.Tests.{◌==◌ as nat_eq, ==_iff, if◌then◌else◌, Bool-cases}
use fast_firebird.Base.Lists.{length}

pub record Key {ℓ} (K : Type ℓ) : Type ℓ where
  pub same : K → K → Bool
  pub same_iff : (a b : K) → (same a b ≡ true) ↔ (a ≡ b)

instance abbrev pub nat_key : Key ℕ
nat_key = record { same = nat_eq; same_iff = ==_iff }

instance abbrev pub string_key : Key String
string_key = record { same = str_eq; same_iff = eq_iff }

abbrev pub same_list : List ℕ → List ℕ → Bool
same_list [] [] = true
same_list (x ∷ xs) (y ∷ ys) = nat_eq x y && same_list xs ys
same_list _ _ = false

pub same_list_iff : (xs ys : List ℕ) → (same_list xs ys ≡ true) ↔ (xs ≡ ys)
same_list_iff [] [] = (λ h. refl, λ h. refl)
same_list_iff [] (y ∷ ys) = (λ h. cc, λ h. cc)
same_list_iff (x ∷ xs) [] = (λ h. cc, λ h. cc)
same_list_iff (x ∷ xs) (y ∷ ys) =
    (λ h. ground (arith, same_list_iff xs ys), λ h. ground (arith, same_list_iff xs ys))

instance abbrev pub list_key : Key (List ℕ)
list_key = record { same = same_list; same_iff = same_list_iff }

abbrev pub JsMap : Type 0 → Type 0 → Type 0
JsMap K V = List (K × V)

module _ {K : Type 0} ⦃k : Key K⦄ where
  pub same_refl : (a : K) → k.same a a ≡ true
  same_refl a = (k.same_iff a a).1 refl

  same_swap : (a b : K) → k.same a b ≡ k.same b a
  same_swap a b = ground (arith, k.same_iff a b, k.same_iff b a)

module _ {K V : Type 0} ⦃k : Key K⦄ where
  -- map.get(key)
  unfoldable pub get : K → JsMap K V → Option V
  get key [] = none
  get key ((j, v) ∷ m) = if k.same j key then some v else get key m

  -- map.delete(key)
  unfoldable pub delete : K → JsMap K V → JsMap K V
  delete key [] = []
  delete key ((j, v) ∷ m) = if k.same j key then m else (j, v) ∷ delete key m

  -- map.set(key, value): a present key keeps its place, a new one goes to the end.
  unfoldable pub set_entry : K → V → JsMap K V → JsMap K V
  set_entry key v [] = (key, v) ∷ []
  set_entry key v ((j, w) ∷ m) = if k.same j key then (j, v) ∷ m else (j, w) ∷ set_entry key v m

  -- No two entries have one key.
  abbrev pub Fresh : K → JsMap K V → Type 0
  Fresh key [] = Unit {0}
  Fresh key ((j, v) ∷ m) = (k.same j key ≡ false) × Fresh key m

  abbrev pub Distinct : JsMap K V → Type 0
  Distinct [] = Unit {0}
  Distinct ((j, v) ∷ m) = Fresh j m × Distinct m

  pub get-Fresh : (key : K) (m : JsMap K V) → Fresh key m → get key m ≡ none
  unfolding get
  get-Fresh key [] h = refl
  get-Fresh key ((j, v) ∷ m) h = ground (arith, get-Fresh key m)

  pub Fresh-get : (key : K) (m : JsMap K V) → get key m ≡ none → Fresh key m
  unfolding get
  Fresh-get key [] h = tt
  Fresh-get key ((j, v) ∷ m) h = ground (arith, Fresh-get key m)

  pub get-set_entry :
      (key j : K) (v : V) (m : JsMap K V)
      → get j (set_entry key v m) ≡ (if k.same key j then some v else get j m)
  unfolding get set_entry
  get-set_entry key j v [] = refl
  get-set_entry key j v ((i, w) ∷ m) =
      ground (arith, k.same_iff i key, k.same_iff i j, k.same_iff key j, get-set_entry key j v m)

  Fresh-delete : (key j : K) (m : JsMap K V) → Fresh j m → Fresh j (delete key m)
  unfolding delete
  Fresh-delete key j [] h = tt
  Fresh-delete key j ((i, w) ∷ m) h = ground (arith, Fresh-delete key j m)

  pub Distinct-delete : (key : K) (m : JsMap K V) → Distinct m → Distinct (delete key m)
  unfolding delete
  Distinct-delete key [] h = tt
  Distinct-delete key ((j, v) ∷ m) h = ground (arith, Distinct-delete key m, Fresh-delete key j m)

  Fresh-set_entry :
      (key j : K) (v : V) (m : JsMap K V)
      → k.same key j ≡ false
      → Fresh j m
      → Fresh j (set_entry key v m)
  unfolding set_entry
  Fresh-set_entry key j v [] e h = (e, tt)
  Fresh-set_entry key j v ((i, w) ∷ m) e h = ground (arith, Fresh-set_entry key j v m)

  pub Distinct-set_entry :
      (key : K) (v : V) (m : JsMap K V) → Distinct m → Distinct (set_entry key v m)
  unfolding set_entry
  Distinct-set_entry key v [] h = (tt, tt)
  Distinct-set_entry key v ((j, w) ∷ m) h =
      ground (arith, Distinct-set_entry key v m, Fresh-set_entry key j v m, same_swap j key)

  pub Fresh-delete_self : (key : K) (m : JsMap K V) → Distinct m → Fresh key (delete key m)
  unfolding delete
  Fresh-delete_self key [] h = tt
  Fresh-delete_self key ((j, v) ∷ m) h = elim (Bool-cases (k.same j key)) [
    | inl e ↦ rw (e, delete) (subst (λ i. Fresh i m) ((k.same_iff j key).0 e) h.0)
    | inr e ↦ rw (e, delete) (e, Fresh-delete_self key m h.1)
  ]

  pub get-delete :
      (key j : K) (m : JsMap K V)
      → Distinct m
      → get j (delete key m) ≡ (if k.same key j then none else get j m)
  unfolding get delete
  get-delete key j [] h = ground arith
  get-delete key j ((i, w) ∷ m) h =
      ground (
        arith,
        k.same_iff i key,
        k.same_iff i j,
        k.same_iff key j,
        get-delete key j m,
        get-Fresh i m,
      )

  -- A new key is appended.
  pub set_entry-Fresh :
      (key : K) (v : V) (m : JsMap K V) → Fresh key m → set_entry key v m ≡ m ++ (key, v) ∷ []
  unfolding set_entry
  set_entry-Fresh key v [] h = refl
  set_entry-Fresh key v ((j, w) ∷ m) h = ground (arith, set_entry-Fresh key v m)

  pub Distinct-append :
      (key : K) (v : V) (m : JsMap K V) → Fresh key m → Distinct m → Distinct (m ++ (key, v) ∷ [])
  Distinct-append key v m f d =
      subst Distinct (set_entry-Fresh key v m f) (Distinct-set_entry key v m d)

  pub length-delete-le : (key : K) (m : JsMap K V) → length (delete key m) ≤ length m
  unfolding delete
  length-delete-le key [] = omega arith
  length-delete-le key ((j, v) ∷ m) = ground (arith, length-delete-le key m)
