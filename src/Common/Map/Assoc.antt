-- ===== src/Common/Map/Assoc.antt =====
-- Association lists under a `HashMap`: a key occurs once, and a new key goes to the end.
use rust_frp.Common.Tests.{if◌then◌else◌}
use rust_frp.Common.Lists.{length}
use rust_frp.Common.Equality.{Eq, ◌=?◌, =?_iff}
use Prim.Native.Nat.{ℕ, ◌+◌, ◌≤◌}
use mathlib.Core.Path.{◌≡◌, refl}
use mathlib.Core.Bool.{Bool}
use mathlib.Core.Option.{Option, none, some}
use mathlib.Core.List.{List, [], ◌∷◌}
use native.Mathlib.Omega.{arith}

abbrev pub map_option {ℓ κ} : {A : Type ℓ} {B : Type κ} → (A → B) → Option A → Option B
map_option f none = none
map_option f (some a) = some (f a)

abbrev pub filter_option {ℓ} : {A : Type ℓ} → (A → Bool) → Option A → Option A
filter_option p none = none
filter_option p (some a) = if p a then some a else none

abbrev pub count_option {ℓ} : {A : Type ℓ} → Option A → ℕ
count_option none = 0
count_option (some a) = 1

module _ {ℓ κ} {K : Type ℓ} {V : Type κ} ⦃e : Eq K⦄ where
  unfoldable pub find : K → List (K × V) → Option V
  find k [] = none
  find k ((j, v) ∷ m) = if j =? k then some v else find k m

  unfoldable pub put : K → V → List (K × V) → List (K × V)
  put k v [] = (k, v) ∷ []
  put k v ((j, w) ∷ m) = if j =? k then (j, v) ∷ m else (j, w) ∷ put k v m

  unfoldable pub erase : K → List (K × V) → List (K × V)
  erase k [] = []
  erase k ((j, w) ∷ m) = let rest = erase k m in if j =? k then rest else (j, w) ∷ rest

  unfoldable pub keep : (K → V → Bool) → List (K × V) → List (K × V)
  keep p [] = []
  keep p ((j, w) ∷ m) = let rest = keep p m in if p j w then (j, w) ∷ rest else rest

  unfoldable pub change : K → (V → V) → List (K × V) → List (K × V)
  change k f [] = []
  change k f ((j, w) ∷ m) = if j =? k then (j, f w) ∷ m else (j, w) ∷ change k f m

  abbrev pub Distinct : List (K × V) → Type κ
  Distinct [] = Unit
  Distinct ((j, w) ∷ m) = (find j m ≡ none) × Distinct m

  pub find-put :
      (k j : K) (v : V) (m : List (K × V))
      → find j (put k v m) ≡ (if k =? j then some v else find j m)
  unfolding find put
  find-put k j v [] = refl
  find-put k j v ((i, w) ∷ m) = ground (arith, =?_iff k j, =?_iff i k, =?_iff i j, find-put k j v m)

  pub find-erase :
      (k j : K) (m : List (K × V)) → find j (erase k m) ≡ (if k =? j then none else find j m)
  unfolding find erase
  find-erase k j [] = ground arith
  find-erase k j ((i, w) ∷ m) = ground (arith, =?_iff k j, =?_iff i k, =?_iff i j, find-erase k j m)

  pub find-change :
      (k j : K) (f : V → V) (m : List (K × V))
      → find j (change k f m) ≡ (if k =? j then map_option f (find j m) else find j m)
  unfolding find change
  find-change k j f [] = ground arith
  find-change k j f ((i, w) ∷ m) =
      ground (arith, =?_iff k j, =?_iff i k, =?_iff i j, find-change k j f m)

  -- A key that is absent stays absent.
  pub find-keep-none :
      (p : K → V → Bool) (j : K) (m : List (K × V)) → find j m ≡ none → find j (keep p m) ≡ none
  unfolding find keep
  find-keep-none p j [] h = refl
  find-keep-none p j ((i, w) ∷ m) h = ground (arith, find-keep-none p j m)

  pub find-keep :
      (p : K → V → Bool) (j : K) (m : List (K × V))
      → Distinct m
      → find j (keep p m) ≡ filter_option (p j) (find j m)
  unfolding find keep
  find-keep p j [] d = refl
  find-keep p j ((i, w) ∷ m) d =
      ground (arith, =?_iff i j, find-keep p j m d.1, find-keep-none p i m d.0)

  pub Distinct-put : (k : K) (v : V) (m : List (K × V)) → Distinct m → Distinct (put k v m)
  unfolding find put
  Distinct-put k v [] d = (refl, tt)
  Distinct-put k v ((i, w) ∷ m) d =
      ground (arith, =?_iff i k, =?_iff k i, Distinct-put k v m d.1, find-put k i v m)

  pub Distinct-erase : (k : K) (m : List (K × V)) → Distinct m → Distinct (erase k m)
  unfolding find erase
  Distinct-erase k [] d = tt
  Distinct-erase k ((i, w) ∷ m) d =
      ground (arith, =?_iff i k, =?_iff k i, Distinct-erase k m d.1, find-erase k i m)

  pub Distinct-change :
      (k : K) (f : V → V) (m : List (K × V)) → Distinct m → Distinct (change k f m)
  unfolding find change
  Distinct-change k f [] d = tt
  Distinct-change k f ((i, w) ∷ m) d =
      ground (arith, =?_iff i k, =?_iff k i, Distinct-change k f m d.1, find-change k i f m)

  pub Distinct-keep : (p : K → V → Bool) (m : List (K × V)) → Distinct m → Distinct (keep p m)
  unfolding find keep
  Distinct-keep p [] d = tt
  Distinct-keep p ((i, w) ∷ m) d = ground (arith, Distinct-keep p m d.1, find-keep-none p i m d.0)

  pub length-put :
      (k : K) (v : V) (m : List (K × V))
      → length (put k v m) + count_option (find k m) ≡ length m + 1
  unfolding find put
  length-put k v [] = omega arith
  length-put k v ((i, w) ∷ m) = ground (arith, length-put k v m)

  pub length-erase-le : (k : K) (m : List (K × V)) → length (erase k m) ≤ length m
  unfolding erase
  length-erase-le k [] = omega arith
  length-erase-le k ((i, w) ∷ m) = ground (arith, length-erase-le k m)

  pub length-erase :
      (k : K) (m : List (K × V)) → length (erase k m) + count_option (find k m) ≤ length m
  unfolding find erase
  length-erase k [] = omega arith
  length-erase k ((i, w) ∷ m) = ground (arith, length-erase k m, length-erase-le k m)

  pub length-change : (k : K) (f : V → V) (m : List (K × V)) → length (change k f m) ≡ length m
  unfolding change
  length-change k f [] = refl
  length-change k f ((i, w) ∷ m) = ground (arith, length-change k f m)

  pub length-keep-le : (p : K → V → Bool) (m : List (K × V)) → length (keep p m) ≤ length m
  unfolding keep
  length-keep-le p [] = omega arith
  length-keep-le p ((i, w) ∷ m) = ground (arith, length-keep-le p m)
