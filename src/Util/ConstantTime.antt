-- ===== src/Util/ConstantTime.antt =====
-- rust_frp_util/src/lib.rs: the comparison of secrets that does not stop at the first difference
-- (`constant_time_eq`; rust_frp_auth/src/lib.rs has the same loop as `constant_time_compare`).
mod Runs
use Prim.Native.Nat.{bit_or, bit_xor, digits, differ, bit_or-bitwise, bit_xor-bitwise}
use rust_frp.Common.{
  ℕ, zero, suc, ◌/◌, ◌%◌, ◌≤◌, max, Bool, true, false, ◌==◌, ◌≡◌, ◌↔◌, refl, sym, ◌∙◌, ap, subst,
  List, [], ◌∷◌, length, arith, if◌then◌else◌,
}

-- The loop over the zipped slices, which ends with the shorter one.
accumulate : ℕ → List ℕ → List ℕ → ℕ
accumulate diff [] ys = diff
accumulate diff (x ∷ xs) [] = diff
accumulate diff (x ∷ xs) (y ∷ ys) = accumulate (bit_or diff (bit_xor x y)) xs ys

unfoldable pub constant_time_eq : List ℕ → List ℕ → Bool
unfolding accumulate
constant_time_eq a b = if length a == length b then accumulate 0 a b == 0 else false

or_digits-zero : (n a b : ℕ) → a ≤ n → digits (λ b. b) max n a b ≡ 0 → (a ≡ 0) × (b ≡ 0)
or_digits-zero zero a b h e = omega arith
or_digits-zero (suc n) zero b h e = omega arith
or_digits-zero (suc n) (suc a) b h e =
    let ih = or_digits-zero n (suc a / 2) (b / 2) (omega arith) (omega arith) in omega arith

bit_or-zero_left : (b : ℕ) → bit_or 0 b ≡ b
bit_or-zero_left b = bit_or-bitwise 0 b

bit_or-eq-zero : (a b : ℕ) → bit_or a b ≡ 0 → (a ≡ 0) × (b ≡ 0)
bit_or-eq-zero a b e = or_digits-zero a a b (omega arith) (sym (bit_or-bitwise a b) ∙ e)

differ-zero : (x y : ℕ) → differ x y ≡ 0 → x ≡ y
differ-zero zero y h = sym h
differ-zero (suc x) zero h = absurd (omega arith)
differ-zero (suc x) (suc y) h = ap suc (differ-zero x y h)

differ_self : (x : ℕ) → differ x x ≡ 0
differ_self zero = refl
differ_self (suc x) = differ_self x

xor_digits-zero : (n a b : ℕ) → a ≤ n → digits (λ b. b) differ n a b ≡ 0 → a ≡ b
xor_digits-zero zero a b h e = omega arith
xor_digits-zero (suc n) zero b h e = omega arith
xor_digits-zero (suc n) (suc a) b h e =
    let ih = xor_digits-zero n (suc a / 2) (b / 2) (omega arith) (omega arith) in
    let low = differ-zero (suc a % 2) (b % 2) (omega arith) in omega arith

xor_digits_self : (n a : ℕ) → a ≤ n → digits (λ b. b) differ n a a ≡ 0
xor_digits_self zero a h = omega arith
xor_digits_self (suc n) zero h = omega arith
xor_digits_self (suc n) (suc a) h =
    omega (arith, xor_digits_self n (suc a / 2) (omega arith), differ_self (suc a % 2))

bit_xor-eq-zero : (a b : ℕ) → bit_xor a b ≡ 0 → a ≡ b
bit_xor-eq-zero a b e = xor_digits-zero a a b (omega arith) (sym (bit_xor-bitwise a b) ∙ e)

bit_xor_self : (a : ℕ) → bit_xor a a ≡ 0
bit_xor_self a = bit_xor-bitwise a a ∙ xor_digits_self a a (omega arith)

accumulate-zero :
    (diff : ℕ) (xs ys : List ℕ)
    → length xs ≡ length ys
    → accumulate diff xs ys ≡ 0
    → (diff ≡ 0) × (xs ≡ ys)
unfolding accumulate
accumulate-zero diff [] [] h e = (e, refl)
accumulate-zero diff [] (y ∷ ys) h e = absurd (omega arith)
accumulate-zero diff (x ∷ xs) [] h e = absurd (omega arith)
accumulate-zero diff (x ∷ xs) (y ∷ ys) h e =
    let (none_yet, rest) = accumulate-zero (bit_or diff (bit_xor x y)) xs ys (omega arith) e in
    let (old, new) = bit_or-eq-zero diff (bit_xor x y) none_yet in
    (old, cc (bit_xor-eq-zero x y new, rest))

accumulate_self : (xs : List ℕ) → accumulate 0 xs xs ≡ 0
unfolding accumulate
accumulate_self [] = refl
accumulate_self (x ∷ xs) = rw (bit_xor_self x, bit_or-zero_left 0) (accumulate_self xs)

-- The comparison answers true exactly for equal byte strings, whatever their lengths.
pub constant_time_eq_iff : (a b : List ℕ) → (constant_time_eq a b ≡ true) ↔ (a ≡ b)
unfolding constant_time_eq
constant_time_eq_iff a b = (
  λ h. (accumulate-zero 0 a b (ground arith) (ground arith)).1,
  λ p. subst (λ c. constant_time_eq a c ≡ true) p (ground (arith, accumulate_self a)),
)
