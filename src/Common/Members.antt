-- ===== src/Common/Members.antt =====
-- The members of a filtered list and of a map.
use rust_frp.Common.Tests.{Bool-cases}
use rust_frp.Common.Lists.{retain}
use rust_frp.Common.Equality.{Eq, ◌=?◌, =?_iff}
use rust_frp.Common.Map.{Map, Distinct, find}
use rust_frp.Common.Map
use mathlib.Core.Path.{◌≡◌, refl, sym, ◌∙◌, ap, subst}
use mathlib.Core.Bool.{Bool, true}
use mathlib.Core.Logic.{inl, inr}
use mathlib.Core.Option.{some}
use mathlib.Core.List.Memᴰ
use mathlib.Core.List.Memᴰ.{head, tail}
use mathlib.Core.List.{Memᴰ, List, [], ◌∷◌}
use native.Mathlib.Omega.{arith}

module _ {ℓ} {A : Type ℓ} where
  pub mem_of_mem-retain :
      (p : A → Bool) (a : A) (xs : List A) → Memᴰ a (retain p xs) → Memᴰ a xs × (p a ≡ true)
  mem_of_mem-retain p a [] m = absurd (Memᴰ.not-nil m)
  mem_of_mem-retain p a (x ∷ xs) m = elim (Bool-cases (p x)) [
    | inl kept ↦ elim (Memᴰ.cases_cons (subst (Memᴰ a) (rw kept refl) m)) [
      | inl same ↦ (Memᴰ.head same, ap p same ∙ kept)
      | inr later ↦ let (there, holds) = mem_of_mem-retain p a xs later in (Memᴰ.tail there, holds)
    ]
    | inr gone ↦
        let (there, holds) = mem_of_mem-retain p a xs (rw gone at m) in (Memᴰ.tail there, holds)
  ]

  pub mem-retain :
      (p : A → Bool) (a : A) (xs : List A) → Memᴰ a xs → p a ≡ true → Memᴰ a (retain p xs)
  mem-retain p a [] m holds = absurd (Memᴰ.not-nil m)
  mem-retain p a (x ∷ xs) (head same) holds =
      let kept : p x ≡ true = ap p (sym same) ∙ holds in rw kept (Memᴰ.head same)
  mem-retain p a (x ∷ xs) (tail m) holds = elim (Bool-cases (p x)) [
    | inl kept ↦ rw kept (Memᴰ.tail (mem-retain p a xs m holds))
    | inr gone ↦ rw gone (mem-retain p a xs m holds)
  ]

module _ {ℓ κ} {K : Type ℓ} {V : Type κ} ⦃e : Eq K⦄ where
  find_of_mem : (k : K) (v : V) (m : List (K × V)) → Distinct m → Memᴰ (k, v) m → find k m ≡ some v
  unfolding find
  find_of_mem k v [] d m = absurd (Memᴰ.not-nil m)
  find_of_mem k v ((j, w) ∷ rest) (fresh, d) (head same) =
      let is_key : (j =? k) ≡ true = (=?_iff j k).1 (sym (ap (λ (t : K × V). t.0) same)) in
      rw is_key (ap (λ (t : K × V). some t.1) (sym same))
  find_of_mem k v ((j, w) ∷ rest) (fresh, d) (tail m) =
      ground (arith, find_of_mem k v rest d m, =?_iff j k)

  -- An entry of a map is what its key gives.
  pub get_of_mem : (k : K) (v : V) (m : Map K V) → Memᴰ (k, v) m.entries → Map.get k m ≡ some v
  unfolding Map.get
  get_of_mem k v m at = find_of_mem k v m.entries m.distinct at

  mem_of_find : (k : K) (v : V) (m : List (K × V)) → find k m ≡ some v → Memᴰ (k, v) m
  unfolding find
  mem_of_find k v [] found = absurd (ground arith)
  mem_of_find k v ((j, w) ∷ rest) found = elim (Bool-cases (j =? k)) [
    | inl same ↦ Memᴰ.head (ground (arith, =?_iff j k))
    | inr other ↦ Memᴰ.tail (mem_of_find k v rest (rw other at found))
  ]

  pub mem_of_get : (k : K) (v : V) (m : Map K V) → Map.get k m ≡ some v → Memᴰ (k, v) m.entries
  unfolding Map.get
  mem_of_get k v m found = mem_of_find k v m.entries found
