-- ===== src/NumberTheory/Division.antt =====
-- `modDivide` of common-files/utils/crypto/modular-division.mjs. A BigInt is a number or its negative,
-- and the modulus is not negative.
use nightfall.Common.{
  ℕ, zero, suc, ◌*◌, ◌/◌, ◌%◌, ◌==◌, if◌then◌else◌, Result, ok, throws, ◌>>=◌, ℤ, pos, above, ◌+ℤ◌,
  ◌-ℤ◌, ◌*ℤ◌, remainder,
}

pub data DivisionError : Type 0 where
  division_by_zero not_relatively_prime : DivisionError

-- The two coefficients, from those of the recursive call.
abbrev pub update_coefficients : ℕ → ℕ × ℤ × ℤ → ℕ × ℤ × ℤ
update_coefficients q (gcd, x, y) = (gcd, y -ℤ pos q *ℤ x, x)

-- `gcdExtended`, with the array that it fills as a part of the result. The first number bounds the
-- depth of the calls, and is the fuel.
unfoldable pub gcd_extended : ℕ → ℕ → ℕ → ℕ × ℤ × ℤ
gcd_extended zero a b = (b, pos 0, pos 1)
gcd_extended (suc fuel) a b =
    let rest = gcd_extended fuel (b % a) a in
    if a == 0 then (b, pos 0, pos 1) else update_coefficients (b / a) rest

-- `((i % m) + m) % m`, which is not negative for a positive `m`.
unfoldable pub normalise : ℤ → ℕ → ℕ
normalise i m = above (remainder (remainder i m +ℤ pos m) m)

abbrev pub to_inverse : ℕ → ℕ × ℤ × ℤ → Result DivisionError ℕ
to_inverse m (gcd, x, y) = if gcd == 1 then ok (normalise x m) else throws not_relatively_prime

unfoldable pub mod_inverse : ℕ → ℕ → Result DivisionError ℕ
unfolding gcd_extended normalise
mod_inverse b m = to_inverse m (gcd_extended b b m)

-- A remainder by 0 throws.
unfoldable pub mod_divide : ℤ → ℤ → ℕ → Result DivisionError ℕ
unfolding mod_inverse normalise
mod_divide a b m =
    if m == 0
    then throws division_by_zero
    else do inv ← mod_inverse (normalise b m) m; ok (normalise (pos (inv * normalise a m)) m)
