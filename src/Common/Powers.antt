-- ===== src/Common/Powers.antt =====
-- Powers of two: the sizes of perfect trees.
use Prim.Native.Nat.{ℕ, suc, ◌+◌, ◌^◌, ◌≤◌}
use mathlib.Core.Path.{◌≡◌}
use native.Mathlib.Nat.{pow-suc, one-le-pow}
use native.Mathlib.Omega.{arith}

pub two-pow-suc : (h : ℕ) → 2 ^ suc h ≡ 2 ^ h + 2 ^ h
two-pow-suc h = omega (arith, pow-suc 2 h)

pub two-pow-pos : (h : ℕ) → 1 ≤ 2 ^ h
two-pow-pos h = one-le-pow h 2 (omega arith)
