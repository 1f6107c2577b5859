-- ===== src/NumberTheory/Bezout.antt =====
-- `gcdExtended` of common-files/utils/crypto/modular-division.mjs computes a common divisor and its
-- Bézout coefficients.
use nightfall.Common.{
  ℕ, zero, suc, ◌+◌, ◌*◌, ◌/◌, ◌%◌, ◌≤◌, ◌<◌, ◌≡◌, refl, sym, ap, subst, ◌∙◌, inl, inr, arith,
  eq-cases, eq→==, ne→==, ℤ, pos, above, below, ◌-ℤ◌, ◌*ℤ◌, difference_lem,
}
use native.Mathlib.Nat.{div-add-mod, mod-lt}
use nightfall.NumberTheory.Division.{update_coefficients, gcd_extended}

-- a * x + b * y is the divisor, without the parts below zero.
abbrev pub IsBezout : ℕ → ℕ → ℕ × ℤ × ℤ → Type 0
IsBezout a b (gcd, x, y) = a * above x + b * above y ≡ gcd + (a * below x + b * below y)

bezout_step :
    (a q r g ax bx ay by z w u v : ℕ)
    → r * ax + a * ay ≡ g + (r * bx + a * by)
    → z + q * bx ≡ w + q * ax
    → u + (by + z) ≡ v + (ay + w)
    → a * u + (a * q + r) * ax ≡ g + (a * v + (a * q + r) * bx)
bezout_step a q r g ax bx ay by z w u v h h' h'' =
    let scaled : a * (z + q * bx) ≡ a * (w + q * ax) = ap (λ t. a * t) h' in
    let scaled' : a * (u + (by + z)) ≡ a * (v + (ay + w)) = ap (λ t. a * t) h'' in grind arith

update_coefficients-IsBezout :
    (a q r : ℕ) (rest : ℕ × ℤ × ℤ)
    → IsBezout r a rest
    → IsBezout a (a * q + r) (update_coefficients q rest)
update_coefficients-IsBezout a q r (g, x, y) h =
    let product = pos q *ℤ x in
    bezout_step a q r g (above x) (below x) (above y) (below y) (above product) (below product)
      (above (y -ℤ product)) (below (y -ℤ product)) h
      (omega (arith, difference_lem (q * above x + 0 * below x) (q * below x + 0 * above x)))
      (omega (arith, difference_lem (above y + below product) (below y + above product)))

pub gcd_extended-IsBezout : (fuel a b : ℕ) → a ≤ fuel → IsBezout a b (gcd_extended fuel a b)
unfolding gcd_extended
gcd_extended-IsBezout zero a b le = base a b (omega arith)
  where
    base : (a b : ℕ) → a ≡ 0 → a * 0 + b * 1 ≡ b + (a * 0 + b * 0)
    base a b e = omega arith
gcd_extended-IsBezout (suc fuel) a b le = elim (eq-cases a 0) [
  | inl e ↦ rw (eq→== a 0 e) (omega arith)
  | inr ne ↦
      let shrinks : b % a < a = mod-lt b (omega arith) in
      rw (ne→== a 0 ne) (
        subst (λ n. IsBezout a n (update_coefficients (b / a) (gcd_extended fuel (b % a) a)))
          (div-add-mod b a)
          (update_coefficients-IsBezout a (b / a) (b % a) (gcd_extended fuel (b % a) a)
            (gcd_extended-IsBezout fuel (b % a) a (omega (arith, shrinks)))))
]

-- The divisor divides both.
abbrev pub Divides : ℕ → ℕ → Type 0
Divides d n = (k : ℕ) × (n ≡ d * k)

update_coefficients-gcd : (q : ℕ) (rest : ℕ × ℤ × ℤ) → (update_coefficients q rest).0 ≡ rest.0
update_coefficients-gcd q (g, x, y) = refl

pub gcd_extended-Divides :
    (fuel a b : ℕ)
    → a ≤ fuel
    → Divides (gcd_extended fuel a b).0 a × Divides (gcd_extended fuel a b).0 b
unfolding gcd_extended
gcd_extended-Divides zero a b le = ((0, omega arith), (1, omega arith))
gcd_extended-Divides (suc fuel) a b le = elim (eq-cases a 0) [
  | inl e ↦ rw (eq→== a 0 e) ((0, omega arith), (1, omega arith))
  | inr ne ↦
      let shrinks : b % a < a = mod-lt b (omega arith) in
      let ((k, e), (l, f)) = gcd_extended-Divides fuel (b % a) a (omega (arith, shrinks)) in
      rw (ne→== a 0 ne, update_coefficients-gcd (b / a) (gcd_extended fuel (b % a) a))
        ((l, f), (l * (b / a) + k, sum_divides _ a (b / a) (b % a) b k l e f (div-add-mod b a)))
]
  where
    sum_divides : (g a q r b k l : ℕ) → r ≡ g * k → a ≡ g * l → a * q + r ≡ b → b ≡ g * (l * q + k)
    sum_divides g a q r b k l e f h =
        sym h ∙ ap (λ n. n * q + r) f ∙ ap (λ n. g * l * q + n) e ∙ factor g l q k
      where
        factor : (g l q k : ℕ) → g * l * q + g * k ≡ g * (l * q + k)
        factor g l q k = grind arith
