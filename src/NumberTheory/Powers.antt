-- ===== src/NumberTheory/Powers.antt =====
-- `powerMod`, `addMod` and `mulMod` of common-files/utils/crypto/number-theory.mjs compute the
-- remainders of the power, the sum and the product.
use nightfall.Common.{
  ℕ, zero, suc, ◌+◌, ◌*◌, ◌/◌, ◌%◌, ◌^◌, ◌≤◌, ◌<◌, ◌≡◌, refl, sym, ap, ◌∙◌, inl, inr, List, [], ◌∷◌,
  foldl, arith, eq-cases, eq→==, ne→==,
}
use native.Mathlib.Nat.{
  pow-suc, pow-zero, mod-add-mod, add-mul-mod_self_left, add-mod_right, mod-mod, zero-mod, mod-one,
  div-add-mod, mod-eq_of_lt, mul_comm, mul_assoc,
}
use nightfall.NumberTheory.Modular.{add_mod, mul_mod, power_loop, power_mod}

-- A factor may be reduced first.
mod-mul-mod : (a b m : ℕ) → (a % m * b) % m ≡ (a * b) % m
mod-mul-mod a b m =
    sym (add-mul-mod_self_left (a % m * b) m (a / m * b))
    ∙ ap (λ n. n % m) (whole (a / m) (a % m) ∙ ap (λ n. n * b) (div-add-mod a m))
  where
    whole : (q r : ℕ) → r * b + m * (q * b) ≡ (m * q + r) * b
    whole q r = grind arith

mul-mod-mod : (a b m : ℕ) → (a * (b % m)) % m ≡ (a * b) % m
mul-mod-mod a b m =
    ap (λ n. n % m) (mul_comm a (b % m)) ∙ mod-mul-mod b a m ∙ ap (λ n. n % m) (mul_comm b a)

-- The base of a power may be reduced first.
mul-pow-mod : (k r b m : ℕ) → (r * (b % m) ^ k) % m ≡ (r * b ^ k) % m
mul-pow-mod zero r b m = rw (pow-zero (b % m), pow-zero b) refl
mul-pow-mod (suc k) r b m =
    rw (pow-suc (b % m) k, pow-suc b k)
      (ap (λ n. n % m) (sym (mul_assoc r ((b % m) ^ k) (b % m)))
        ∙ mul-mod-mod (r * (b % m) ^ k) b m
        ∙ ap (λ n. n % m) (regroup r ((b % m) ^ k) b)
        ∙ mul-pow-mod k (r * b) b m
        ∙ ap (λ n. n % m) (back r (b ^ k) b))
  where
    regroup : (x y z : ℕ) → x * y * z ≡ x * z * y
    regroup x y z = grind arith

    back : (x y z : ℕ) → x * z * y ≡ x * (y * z)
    back x y z = grind arith

square_pow : (k b : ℕ) → (b * b) ^ k ≡ b ^ (k + k)
square_pow zero b = pow-zero (b * b) ∙ sym (pow-zero b)
square_pow (suc k) b =
    pow-suc (b * b) k
    ∙ ap (λ n. n * (b * b)) (square_pow k b)
    ∙ sym (mul_assoc (b ^ (k + k)) b b)
    ∙ ap (λ n. n * b) (sym (pow-suc b (k + k)))
    ∙ sym (pow-suc b (suc (k + k)))
    ∙ ap (λ n. b ^ n) (twice k)
  where
    twice : (n : ℕ) → suc (suc (n + n)) ≡ suc n + suc n
    twice n = omega arith

reduced_result : (result b m : ℕ) → result % m ≡ result → result ≡ (result * b ^ 0) % m
reduced_result result b m h = rw (pow-zero b) (sym h ∙ ap (λ n. n % m) (times_one result))
  where
    times_one : (n : ℕ) → n ≡ n * 1
    times_one n = omega arith

power_loop_lem :
    (fuel result b e m : ℕ)
    → e ≤ fuel
    → result % m ≡ result
    → power_loop fuel result b e m ≡ (result * b ^ e) % m
unfolding power_loop
power_loop_lem zero result b e m le h =
    reduced_result result b m h ∙ ap (λ n. (result * b ^ n) % m) (is_zero le)
  where
    is_zero : {n : ℕ} → n ≤ 0 → 0 ≡ n
    is_zero le = omega arith
power_loop_lem (suc fuel) result b e m le h = elim (eq-cases e 0) [
  | inl none_left ↦
      rw (eq→== e 0 none_left)
        (reduced_result result b m h ∙ ap (λ n. (result * b ^ n) % m) (sym none_left))
  | inr ne ↦ elim (eq-cases (e % 2) 1) [
    | inl odd ↦
        rw (ne→== e 0 ne, eq→== (e % 2) 1 odd)
          (power_loop_lem fuel ((result * b) % m) ((b * b) % m) (e / 2) m (omega arith)
              (mod-mod (result * b) m)
            ∙ mul-pow-mod (e / 2) ((result * b) % m) (b * b) m
            ∙ mod-mul-mod (result * b) ((b * b) ^ (e / 2)) m
            ∙ ap (λ n. (result * b * n) % m) (square_pow (e / 2) b)
            ∙ ap (λ n. n % m) (regroup result b (b ^ (e / 2 + e / 2)))
            ∙ ap (λ n. (result * n) % m) (sym (pow-suc b (e / 2 + e / 2)))
            ∙ ap (λ n. (result * b ^ n) % m) (omega arith))
    | inr other ↦
        rw (ne→== e 0 ne, ne→== (e % 2) 1 other)
          (power_loop_lem fuel result ((b * b) % m) (e / 2) m (omega arith) h
            ∙ mul-pow-mod (e / 2) result (b * b) m
            ∙ ap (λ n. (result * n) % m) (square_pow (e / 2) b)
            ∙ ap (λ n. (result * b ^ n) % m) (omega arith))
  ]
]
  where
    regroup : (x y z : ℕ) → x * y * z ≡ x * (z * y)
    regroup x y z = grind arith

-- For a positive modulus `powerMod` is the remainder of the power.
pub power_mod_lem : (base exponent m : ℕ) → 0 < m → power_mod base exponent m ≡ base ^ exponent % m
unfolding power_mod
power_mod_lem base exponent m pos = elim (eq-cases m 1) [
  | inl one ↦ rw (eq→== m 1 one) (rw one (sym (mod-one (base ^ exponent))))
  | inr ne ↦ rw (ne→== m 1 ne) (
      power_loop_lem exponent 1 ((base + m) % m) exponent m (omega arith)
        (mod-eq_of_lt (omega arith))
      ∙ ap (λ n. (1 * n ^ exponent) % m) (add-mod_right base m)
      ∙ mul-pow-mod exponent 1 base m
      ∙ ap (λ n. n % m) (one_times (base ^ exponent)))
]
  where
    one_times : (n : ℕ) → 1 * n ≡ n
    one_times n = omega arith

abbrev pub sum : List ℕ → ℕ
sum [] = 0
sum (x ∷ xs) = x + sum xs

abbrev pub product : List ℕ → ℕ
product [] = 1
product (x ∷ xs) = x * product xs

mul_mod-from :
    (xs : List ℕ) (e m : ℕ)
    → e % m ≡ e
    → foldl (λ e acc. ((e + m) % m * acc) % m) e xs ≡ (e * product xs) % m
mul_mod-from [] e m h = sym h ∙ ap (λ n. n % m) (times_one e)
  where
    times_one : (n : ℕ) → n ≡ n * 1
    times_one n = omega arith
mul_mod-from (x ∷ xs) e m h =
    mul_mod-from xs (((e + m) % m * x) % m) m (mod-mod ((e + m) % m * x) m)
    ∙ mod-mul-mod ((e + m) % m * x) (product xs) m
    ∙ ap (λ n. (n * x * product xs) % m) (add-mod_right e m ∙ h)
    ∙ ap (λ n. n % m) (mul_assoc e x (product xs))

-- For a modulus above 1 `mulMod` is the remainder of the product.
pub mul_mod_lem : (times_me : List ℕ) (m : ℕ) → 1 < m → mul_mod times_me m ≡ product times_me % m
unfolding mul_mod
mul_mod_lem times_me m lt =
    mul_mod-from times_me 1 m (mod-eq_of_lt lt) ∙ ap (λ n. n % m) (one_times (product times_me))
  where
    one_times : (n : ℕ) → 1 * n ≡ n
    one_times n = omega arith

add_mod-from :
    (xs : List ℕ) (e m : ℕ)
    → e % m ≡ e
    → foldl (λ e acc. ((e + m) % m + acc) % m) e xs ≡ (e + sum xs) % m
add_mod-from [] e m h = sym h ∙ ap (λ n. n % m) (plus_zero e)
  where
    plus_zero : (n : ℕ) → n ≡ n + 0
    plus_zero n = omega arith
add_mod-from (x ∷ xs) e m h =
    add_mod-from xs (((e + m) % m + x) % m) m (mod-mod ((e + m) % m + x) m)
    ∙ mod-add-mod ((e + m) % m + x) m (sum xs)
    ∙ ap (λ n. (n + x + sum xs) % m) (add-mod_right e m ∙ h)
    ∙ ap (λ n. n % m) (assoc e x (sum xs))
  where
    assoc : (x y z : ℕ) → x + y + z ≡ x + (y + z)
    assoc x y z = omega arith

-- `addMod` is the remainder of the sum.
pub add_mod_lem : (add_me : List ℕ) (m : ℕ) → add_mod add_me m ≡ sum add_me % m
unfolding add_mod
add_mod_lem add_me m =
    add_mod-from add_me 0 m (zero-mod m) ∙ ap (λ n. n % m) (zero_plus (sum add_me))
  where
    zero_plus : (n : ℕ) → 0 + n ≡ n
    zero_plus n = omega arith
