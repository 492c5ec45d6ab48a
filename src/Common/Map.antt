-- ===== src/Common/Map.antt =====
-- Rust's `HashMap` as a finite map: an association list in which no key occurs twice. The order of
-- the entries is that of insertion; Rust leaves it open.
mod Assoc
pub use Assoc.{map_option, filter_option, count_option, Distinct}
unfoldable pub use Assoc.{find}
use Assoc.{
  put, erase, keep, change, find-put, find-erase, find-change, find-keep, Distinct-put,
  Distinct-erase, Distinct-change, Distinct-keep, length-put, length-erase-le, length-erase,
  length-change, length-keep-le,
}
use rust_frp.Common.Tests.{if◌then◌else◌, Bool-cases}
use rust_frp.Common.Lists.{length}
use rust_frp.Common.Equality.{Eq, ◌=?◌, =?_iff, =?_self}
use Prim.Native.Nat.{ℕ, ◌+◌, ◌≤◌}
use mathlib.Core.Path.{◌≡◌, refl}
use mathlib.Core.Bool.{Bool, true}
use mathlib.Core.Logic.{◌≢◌, ◌⊎◌, inl, inr}
use mathlib.Core.Option.{Option, none, some}
use mathlib.Core.List.{List, [], ◌∷◌}
use native.Mathlib.Omega.{arith}

pub record Map {ℓ κ} (K : Type ℓ) (V : Type κ) ⦃e : Eq K⦄ : Type (ℓ ⊔ κ) where
  pub entries : List (K × V)
  pub distinct : Distinct entries

module _ {ℓ κ} {K : Type ℓ} {V : Type κ} ⦃e : Eq K⦄ where
  unfoldable pub empty : Map K V
  empty = record { entries = []; distinct = tt }

  -- `get`
  unfoldable pub get : K → Map K V → Option V
  unfolding find
  get k m = find k m.entries

  -- `insert`
  unfoldable pub insert : K → V → Map K V → Map K V
  unfolding put
  insert k v m = record {
    entries = put k v m.entries;
    distinct = Distinct-put k v m.entries m.distinct;
  }

  -- `remove`
  unfoldable pub remove : K → Map K V → Map K V
  unfolding erase
  remove k m = record {
    entries = erase k m.entries;
    distinct = Distinct-erase k m.entries m.distinct;
  }

  -- `retain`
  unfoldable pub retain : (K → V → Bool) → Map K V → Map K V
  unfolding keep
  retain p m = record {
    entries = keep p m.entries;
    distinct = Distinct-keep p m.entries m.distinct;
  }

  -- A write through `get_mut`.
  unfoldable pub modify : K → (V → V) → Map K V → Map K V
  unfolding change
  modify k f m = record {
    entries = change k f m.entries;
    distinct = Distinct-change k f m.entries m.distinct;
  }

  -- `len`
  abbrev pub size : Map K V → ℕ
  size m = length m.entries

  pub get-insert :
      (k j : K) (v : V) (m : Map K V) → get j (insert k v m) ≡ (if k =? j then some v else get j m)
  unfolding get insert
  get-insert k j v m = find-put k j v m.entries

  pub get-remove : (k j : K) (m : Map K V) → get j (remove k m) ≡ (if k =? j then none else get j m)
  unfolding get remove
  get-remove k j m = find-erase k j m.entries

  pub get-retain :
      (p : K → V → Bool) (j : K) (m : Map K V) → get j (retain p m) ≡ filter_option (p j) (get j m)
  unfolding get retain
  get-retain p j m = find-keep p j m.entries m.distinct

  pub get-modify :
      (k j : K) (f : V → V) (m : Map K V)
      → get j (modify k f m) ≡ (if k =? j then map_option f (get j m) else get j m)
  unfolding get modify
  get-modify k j f m = find-change k j f m.entries

  pub size-insert :
      (k : K) (v : V) (m : Map K V) → size (insert k v m) + count_option (get k m) ≡ size m + 1
  unfolding get insert
  size-insert k v m = length-put k v m.entries

  pub size-remove : (k : K) (m : Map K V) → size (remove k m) + count_option (get k m) ≤ size m
  unfolding get remove
  size-remove k m = length-erase k m.entries

  pub size-remove-le : (k : K) (m : Map K V) → size (remove k m) ≤ size m
  unfolding remove
  size-remove-le k m = length-erase-le k m.entries

  pub size-modify : (k : K) (f : V → V) (m : Map K V) → size (modify k f m) ≡ size m
  unfolding modify
  size-modify k f m = length-change k f m.entries

  pub size-retain-le : (p : K → V → Bool) (m : Map K V) → size (retain p m) ≤ size m
  unfolding retain
  size-retain-le p m = length-keep-le p m.entries

-- The same laws, one case at a time.
module _ {ℓ κ} {K : Type ℓ} {V : Type κ} ⦃e : Eq K⦄ where
  pub get-insert_self : (k : K) (v : V) (m : Map K V) → get k (insert k v m) ≡ some v
  get-insert_self k v m = ground (arith, get-insert k k v m, =?_self k)

  pub get-insert_ne : (k j : K) (v : V) (m : Map K V) → k ≢ j → get j (insert k v m) ≡ get j m
  get-insert_ne k j v m h = ground (arith, get-insert k j v m, =?_iff k j)

  pub get-insert_cases :
      (k j : K) (v w : V) (m : Map K V)
      → get j (insert k v m) ≡ some w
      → ((k ≡ j) × (v ≡ w)) ⊎ ((k ≢ j) × (get j m ≡ some w))
  get-insert_cases k j v w m h = elim (Bool-cases (k =? j)) [
    | inl same ↦ inl ((=?_iff k j).0 same, ground (arith, get-insert k j v m))
    | inr other ↦ inr ((λ p. ground (arith, =?_iff k j)), ground (arith, get-insert k j v m))
  ]

  pub get-remove_self : (k : K) (m : Map K V) → get k (remove k m) ≡ none
  get-remove_self k m = ground (arith, get-remove k k m, =?_self k)

  pub get-remove_ne : (k j : K) (m : Map K V) → k ≢ j → get j (remove k m) ≡ get j m
  get-remove_ne k j m h = ground (arith, get-remove k j m, =?_iff k j)

  pub get-remove-some :
      (k j : K) (w : V) (m : Map K V) → get j (remove k m) ≡ some w → (k ≢ j) × (get j m ≡ some w)
  get-remove-some k j w m h =
      ((λ p. ground (arith, get-remove k j m, =?_iff k j)), ground (arith, get-remove k j m))

  pub get-retain-some :
      (p : K → V → Bool) (j : K) (w : V) (m : Map K V)
      → get j (retain p m) ≡ some w
      → (get j m ≡ some w) × (p j w ≡ true)
  get-retain-some p j w m h = (ground (arith, get-retain p j m), ground (arith, get-retain p j m))

  pub get-modify_self :
      (k : K) (f : V → V) (m : Map K V) → get k (modify k f m) ≡ map_option f (get k m)
  get-modify_self k f m = ground (arith, get-modify k k f m, =?_self k)

  pub get-modify_ne : (k j : K) (f : V → V) (m : Map K V) → k ≢ j → get j (modify k f m) ≡ get j m
  get-modify_ne k j f m h = ground (arith, get-modify k j f m, =?_iff k j)

pub get-empty {ℓ κ} : {K : Type ℓ} {V : Type κ} ⦃e : Eq K⦄ (k : K) → get {V = V} k empty ≡ none
unfolding get empty
get-empty k = refl

pub ruleset map_laws = (get-empty, get-insert, get-remove, get-retain, get-modify)
