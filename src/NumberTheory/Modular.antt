-- ===== src/NumberTheory/Modular.antt =====
-- `addMod`, `mulMod` and `powerMod` of common-files/utils/crypto/number-theory.mjs, on numbers that are
-- not negative. A BigInt has no width.
use nightfall.Common.{ℕ, zero, suc, ◌+◌, ◌*◌, ◌/◌, ◌%◌, List, foldl, ◌==◌, if◌then◌else◌}

-- The callback of `reduce` gets the result so far first, which the source names `e`.
unfoldable pub add_mod : List ℕ → ℕ → ℕ
add_mod add_me m = foldl (λ e acc. ((e + m) % m + acc) % m) 0 add_me

unfoldable pub mul_mod : List ℕ → ℕ → ℕ
mul_mod times_me m = foldl (λ e acc. ((e + m) % m * acc) % m) 1 times_me

-- The loop of `powerMod`. The exponent is halved, so that it bounds the number of rounds.
unfoldable pub power_loop : ℕ → ℕ → ℕ → ℕ → ℕ → ℕ
power_loop zero result b e m = result
power_loop (suc fuel) result b e m =
    let result' = if e % 2 == 1 then (result * b) % m else result in
    let rest = power_loop fuel result' ((b * b) % m) (e / 2) m in if e == 0 then result else rest

unfoldable pub power_mod : ℕ → ℕ → ℕ → ℕ
unfolding power_loop
power_mod base exponent m = if m == 1 then 0 else power_loop exponent 1 ((base + m) % m) exponent m
