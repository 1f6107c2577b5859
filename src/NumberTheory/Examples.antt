-- ===== src/NumberTheory/Examples.antt =====
-- Tests of the models of common-files/utils/crypto/number-theory.mjs and modular-division.mjs, and the
-- theorems about them at small numbers.
use nightfall.Common.{
  ℕ, ◌+◌, ◌*◌, ◌<◌, ◌%◌, ◌^◌, ok, throws, pos, negsuc, difference, ◌≡◌, refl, [], ◌∷◌, arith,
}
use nightfall.NumberTheory.Modular.{mul_mod, power_mod}
use nightfall.NumberTheory.Division.{mod_divide, not_relatively_prime}
use nightfall.NumberTheory.Quotients.{mod_divide_divides}
use nightfall.NumberTheory.Powers.{power_mod_lem}

power_mod_test : power_mod 5 117 19 ≡ 1
unfolding power_mod
power_mod_test = refl

mul_mod_test : mul_mod (7 ∷ 9 ∷ 11 ∷ []) 10 ≡ 3
unfolding mul_mod
mul_mod_test = refl

power_mod_lem_example : power_mod 5 117 19 ≡ 5 ^ 117 % 19
power_mod_lem_example = power_mod_lem 5 117 19 (omega arith)

-- Three by minus two, modulo seven.
mod_divide_test : mod_divide (pos 3) (negsuc 1) 7 ≡ ok 2
unfolding mod_divide difference
mod_divide_test = refl

not_prime_test : mod_divide (pos 3) (pos 4) 6 ≡ throws not_relatively_prime
unfolding mod_divide difference
not_prime_test = refl

mod_divide_divides_example :
    (q : ℕ) × (mod_divide (pos 3) (negsuc 1) 7 ≡ ok q)
    × (q < 7)
    × ((q * 0 + 0) % 7 ≡ (q * 2 + 3) % 7)
mod_divide_divides_example = mod_divide_divides (pos 3) (negsuc 1) 7 3 (omega arith) refl
