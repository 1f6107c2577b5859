-- ===== src/Common/Integers.antt =====
-- JavaScript's BigInt, where it may be negative.
use Prim.Native.Nat.{ℕ, suc, ◌+◌, ◌-◌, ◌*◌, ◌%◌, ◌≤◌}
use mathlib.Core.Path.{◌≡◌}
use native.Mathlib.Omega.{arith}
use nightfall.Common.Tests.{ltb, if◌then◌else◌}

-- `negsuc n` is below zero by n + 1.
pub data ℤ : Type 0 where
  pos negsuc : ℕ → ℤ

-- How far a number is above zero, and below.
abbrev pub above : ℤ → ℕ
above (pos n) = n
above (negsuc n) = 0

abbrev pub below : ℤ → ℕ
below (pos n) = 0
below (negsuc n) = suc n

unfoldable pub difference : ℕ → ℕ → ℤ
difference m n = if ltb m n then negsuc (n - suc m) else pos (m - n)

infixl 65 ◌+ℤ◌ ◌-ℤ◌
infixl 70 ◌*ℤ◌
abbrev pub ◌+ℤ◌ : ℤ → ℤ → ℤ
i +ℤ j = difference (above i + above j) (below i + below j)

abbrev pub ◌-ℤ◌ : ℤ → ℤ → ℤ
i -ℤ j = difference (above i + below j) (below i + above j)

abbrev pub ◌*ℤ◌ : ℤ → ℤ → ℤ
i *ℤ j = difference (above i * above j + below i * below j) (above i * below j + below i * above j)

-- The remainder of a BigInt has the sign of the dividend.
abbrev pub remainder : ℤ → ℕ → ℤ
remainder i m = difference (above i % m) (below i % m)

pub difference_lem : (m n : ℕ) → above (difference m n) + n ≡ below (difference m n) + m
unfolding difference
difference_lem m n = ground arith

pub ℤ-eq : (i j : ℤ) → above i + below j ≡ above j + below i → i ≡ j
ℤ-eq i j h = ground arith

pub difference-eq : (m n k l : ℕ) → m + l ≡ k + n → difference m n ≡ difference k l
difference-eq m n k l h =
    ℤ-eq (difference m n) (difference k l) (omega (arith, difference_lem m n, difference_lem k l))

-- Nothing below zero is left of a difference that is not negative.
pub difference-pos : (m n : ℕ) → n ≤ m → difference m n ≡ pos (m - n)
unfolding difference
difference-pos m n le = ground arith

pub below-difference : (m n : ℕ) → below (difference m n) ≤ n
unfolding difference
below-difference m n = ground arith
