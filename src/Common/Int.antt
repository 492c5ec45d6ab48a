-- ===== src/Common/Int.antt =====
-- Signed numbers over the native ones: Rust's `i64` where nothing overflows.
use rust_frp.Common.Tests.{leb, if◌then◌else◌}
use Prim.Native.Nat.{ℕ, suc, ◌+◌, ◌-◌, ◌*◌, ◌/◌, ◌^◌}
use mathlib.Core.Path.{◌≡◌}
use mathlib.Core.Bool.{Bool, true, false}
use native.Mathlib.Omega.{arith}

-- `negsuc n` is -(n + 1).
pub data ℤ : Type 0 where
  pos : ℕ → ℤ
  negsuc : ℕ → ℤ

abbrev pub up : ℤ → ℕ
up (pos n) = n
up (negsuc n) = 0

abbrev pub down : ℤ → ℕ
down (pos n) = 0
down (negsuc n) = suc n

-- `a - b` for natural `a` and `b`.
abbrev pub minus : ℕ → ℕ → ℤ
minus a b = if leb b a then pos (a - b) else negsuc (b - a - 1)

infixl 65 ◌+ℤ◌ ◌-ℤ◌
unfoldable pub ◌+ℤ◌ : ℤ → ℤ → ℤ
a +ℤ b = minus (up a + up b) (down a + down b)

unfoldable pub ◌-ℤ◌ : ℤ → ℤ → ℤ
a -ℤ b = minus (up a + down b) (down a + up b)

unfoldable pub times : ℤ → ℕ → ℤ
times a k = minus (up a * k) (down a * k)

-- Rust's `/` by a positive number: it rounds towards 0.
unfoldable pub quot : ℤ → ℕ → ℤ
quot a k = minus (up a / k) (down a / k)

abbrev pub is_nonneg : ℤ → Bool
is_nonneg (pos n) = true
is_nonneg (negsuc n) = false

-- `as u64`
abbrev pub as_u64 : ℤ → ℕ
as_u64 (pos n) = n
as_u64 (negsuc n) = 2 ^ 64 - (n + 1)

pub +ℤ_parts : (a b : ℤ) → up (a +ℤ b) + (down a + down b) ≡ down (a +ℤ b) + (up a + up b)
unfolding ◌+ℤ◌
+ℤ_parts a b = ground arith

pub -ℤ_parts : (a b : ℤ) → up (a -ℤ b) + (down a + up b) ≡ down (a -ℤ b) + (up a + down b)
unfolding ◌-ℤ◌
-ℤ_parts a b = ground arith

pub times_parts : (a : ℤ) (k : ℕ) → up (times a k) + down a * k ≡ down (times a k) + up a * k
unfolding times
times_parts a k = ground arith

-- Two numbers with the same difference of parts are equal.
pub parts_injective : (a b : ℤ) → up a + down b ≡ up b + down a → a ≡ b
parts_injective a b h = ground arith
