-- ===== src/NumberTheory/Quotients.antt =====
-- `modDivide` of common-files/utils/crypto/modular-division.mjs divides modulo the modulus.
use nightfall.Common.{
  ℕ, zero, suc, ◌+◌, ◌-◌, ◌*◌, ◌%◌, ◌≤◌, ◌<◌, ◌≡◌, refl, sym, ap, subst, ◌∙◌, inl, inr, arith,
  eq-cases, eq→==, ne→==, ok, through, ok-injective, ℤ, pos, above, below, ◌+ℤ◌, remainder,
  difference_lem, difference-pos, below-difference,
}
use native.Mathlib.Nat.{mod-lt, zero-mod, add-mul-mod_self_left, mod-eq_of_lt}
use nightfall.NumberTheory.Division.{gcd_extended, normalise, to_inverse, mod_inverse, mod_divide}
use nightfall.NumberTheory.Bezout.{gcd_extended-IsBezout, gcd_extended-Divides}
use nightfall.NumberTheory.Congruence.{
  Congruent, by_multiples, Congruent-sym, Congruent-trans, Congruent-add, Congruent-mul,
  Congruent-cancel, Congruent-eq, Congruent-mod, mod-Congruent, Congruent-from_mod,
}

-- A remainder of a number that is not negative.
remainder-pos : (k m : ℕ) → above (remainder (pos k) m) ≡ k % m
remainder-pos k m =
    rw (zero-mod m) (ap above (difference-pos (k % m) 0 (omega arith)) ∙ minus_zero (k % m))
  where
    minus_zero : (n : ℕ) → n - 0 ≡ n
    minus_zero n = omega arith

-- The modulus is added, and the remainder taken, of a number that is above the negative modulus.
shifted :
    (z : ℤ) (m : ℕ) → below z ≤ m → above (remainder (z +ℤ pos m) m) ≡ (above z + m - below z) % m
shifted z m le =
    ap (λ i. above (remainder i m)) (difference-pos (above z + m) (below z + 0) (omega arith))
    ∙ remainder-pos (above z + m - (below z + 0)) m
    ∙ ap (λ n. (above z + m - n) % m) (plus_zero (below z))
  where
    plus_zero : (n : ℕ) → n + 0 ≡ n
    plus_zero n = omega arith

-- The normal form is below the modulus, and congruent.
abbrev IsNormal : ℕ → ℤ → ℕ → Type 0
IsNormal m i n = (n < m) × Congruent m (above i) (below i + n)

normalise-IsNormal : (i : ℤ) (m : ℕ) → 0 < m → IsNormal m i (normalise i m)
unfolding normalise
normalise-IsNormal i m positive =
    let z = remainder i m in
    let small : below z ≤ below i % m = below-difference (above i % m) (below i % m) in
    let parts : above z + below i % m ≡ below z + above i % m =
      difference_lem (above i % m) (below i % m) in
    let under : below i % m < m = mod-lt (below i) positive in
    let same = shifted z m (omega (arith, small, under)) in
    (
      subst (λ n. n < m) (sym same) (mod-lt (above z + m - below z) positive),
      Congruent-sym (
          Congruent-trans
            (Congruent-add (Congruent-sym (Congruent-mod m (below i)))
              (Congruent-trans (Congruent-eq m same) (Congruent-mod m (above z + m - below z))))
            (Congruent-trans
              (by_multiples 0 1
                (collected (above z) (below z) (below i % m) (above i % m) small under parts))
              (Congruent-mod m (above i)))),
    )
  where
    collected :
        (az bz bi ai : ℕ)
        → bz ≤ bi
        → bi < m
        → az + bi ≡ bz + ai
        → bi + (az + m - bz) + m * 0 ≡ ai + m * 1
    collected az bz bi ai small under parts = omega arith

-- The inverse that is returned inverts.
to_inverse_ok :
    (m : ℕ) (t : ℕ × ℤ × ℤ) (inv : ℕ)
    → to_inverse m t ≡ ok inv
    → (t.0 ≡ 1) × (normalise t.1 m ≡ inv)
to_inverse_ok m (g, x, y) inv h = elim (eq-cases g 1) [
  | inl e ↦ (e, ok-injective (normalise x m) inv (rw (eq→== g 1 e) at h))
  | inr ne ↦ let k = rw (ne→== g 1 ne) at h in absurd (cc k)
]

mod_inverse_lem : (b m inv : ℕ) → 0 < m → mod_inverse b m ≡ ok inv → Congruent m (b * inv) 1
unfolding mod_inverse
mod_inverse_lem b m inv positive h =
    let t = gcd_extended b b m in
    let (one, same) = to_inverse_ok m t inv h in
    let (under, normal) = subst (IsNormal m t.1) same (normalise-IsNormal t.1 m positive) in
    Congruent-cancel (b * below t.1) (
      Congruent-trans (Congruent-eq m (distribute (below t.1) inv)) (
        Congruent-trans (Congruent-mul b (Congruent-sym normal)) (
          by_multiples (above t.2) (below t.2) (
            bezout t.0 (b * above t.1) (m * above t.2) (b * below t.1) (m * below t.2) one
              (gcd_extended-IsBezout b b m (omega arith))))))
  where
    distribute : (x y : ℕ) → b * x + b * y ≡ b * (x + y)
    distribute x y = grind arith

    bezout : (g p q r s : ℕ) → g ≡ 1 → p + q ≡ g + (r + s) → p + q ≡ r + 1 + s
    bezout g p q r s one h = omega arith

-- What follows for the quotient.
quotient_lem :
    (m q a' b' inv : ℕ)
    → Congruent m (inv * a') (0 + q)
    → Congruent m (b' * inv) 1
    → Congruent m (b' * q) a'
quotient_lem m q a' b' inv product inverse =
    Congruent-trans
      (Congruent-mul b' (Congruent-trans (Congruent-eq m (zero_plus q)) (Congruent-sym product)))
      (Congruent-trans (Congruent-eq m (regroup b' inv a'))
        (Congruent-trans (Congruent-mul a' inverse) (Congruent-eq m (times_one a'))))
  where
    regroup : (x y z : ℕ) → x * (y * z) ≡ z * (x * y)
    regroup x y z = grind arith

    times_one : (n : ℕ) → n * 1 ≡ n
    times_one n = omega arith

    zero_plus : (n : ℕ) → n ≡ 0 + n
    zero_plus n = omega arith

divided :
    (m q : ℕ) (a b : ℤ) (a' b' : ℕ)
    → Congruent m (b' * q) a'
    → Congruent m (above a) (below a + a')
    → Congruent m (above b) (below b + b')
    → Congruent m (q * above b + below a) (q * below b + above a)
divided m q a b a' b' quotient normal_a normal_b =
    Congruent-trans (Congruent-add (Congruent-mul q normal_b) (Congruent-eq m refl)) (
      Congruent-trans (Congruent-eq m (expand q (below b) b' (below a))) (
        Congruent-add (Congruent-eq m refl) (
          Congruent-trans (Congruent-add quotient (Congruent-eq m refl))
            (Congruent-trans (Congruent-eq m (swap a' (below a))) (Congruent-sym normal_a)))))
  where
    expand : (q x y z : ℕ) → q * (x + y) + z ≡ q * x + (y * q + z)
    expand q x y z = grind arith

    swap : (x y : ℕ) → x + y ≡ y + x
    swap x y = omega arith

-- Whenever `modDivide` returns for a positive modulus, the quotient is below the modulus, and the
-- quotient times the divisor is congruent to the dividend.
pub mod_divide_lem :
    (a b : ℤ) (m q : ℕ)
    → 0 < m
    → mod_divide a b m ≡ ok q
    → (q < m) × ((q * above b + below a) % m ≡ (q * below b + above a) % m)
unfolding mod_divide
mod_divide_lem a b m q positive h =
    let (inv, inverse, returned) =
      through (mod_inverse (normalise b m) m) (λ inv. ok (normalise (pos (inv * normalise a m)) m))
        (rw (ne→== m 0 (omega arith)) at h) in
    let same = ok-injective _ q returned in
    let (under, product) =
      subst (IsNormal m (pos (inv * normalise a m))) same
        (normalise-IsNormal (pos (inv * normalise a m)) m positive) in
    let (under_a, normal_a) = normalise-IsNormal a m positive in
    let (under_b, normal_b) = normalise-IsNormal b m positive in
    (
      under,
      mod-Congruent m _ _ (
          divided m q a b (normalise a m) (normalise b m)
            (quotient_lem m q (normalise a m) (normalise b m) inv product
              (mod_inverse_lem (normalise b m) m inv positive inverse))
            normal_a normal_b),
    )

-- A common divisor of a number that is invertible, and of the modulus, is 1.
divisor_one : (g k l : ℕ) → g * k ≡ 1 + g * l → g ≡ 1
divisor_one zero k l h = omega arith
divisor_one (suc zero) k l h = refl
divisor_one (suc (suc n)) k l h =
    let d = suc (suc n) in
    let one_left : 1 % d ≡ 1 = mod-eq_of_lt (omega arith) in
    omega (
      arith,
      ap (λ x. x % d) h,
      add-mul-mod_self_left 0 d k,
      add-mul-mod_self_left 1 d l,
      one_left,
      zero-mod d,
      ap (λ x. x % d) (zero_plus (d * k)),
    )
  where
    zero_plus : (x : ℕ) → 0 + x ≡ x
    zero_plus x = omega arith

to_inverse_one : (m : ℕ) (t : ℕ × ℤ × ℤ) → t.0 ≡ 1 → to_inverse m t ≡ ok (normalise t.1 m)
to_inverse_one m (g, x, y) e = rw (eq→== g 1 e) refl

mod_inverse_returns : (b m x : ℕ) → Congruent m (x * b) 1 → (inv : ℕ) × (mod_inverse b m ≡ ok inv)
unfolding mod_inverse
mod_inverse_returns b m x unit =
    let t = gcd_extended b b m in
    let ((k, e), (l, f)) = gcd_extended-Divides b b m (omega arith) in
    (
      normalise t.1 m,
      to_inverse_one m t (
          divisor_one t.0 (x * k + l * unit.more) (l * unit.less)
            (collected t.0 b m k l unit.more unit.less e f unit.same)),
    )
  where
    collected :
        (g b m k l u v : ℕ)
        → b ≡ g * k
        → m ≡ g * l
        → x * b + m * u ≡ 1 + m * v
        → g * (x * k + l * u) ≡ 1 + g * (l * v)
    collected g b m k l u v e f h =
        left g k l u
        ∙ ap (λ n. x * n + g * l * u) (sym e)
        ∙ ap (λ n. x * b + n * u) (sym f)
        ∙ h
        ∙ ap (λ n. 1 + n * v) f
        ∙ right g l v
      where
        left : (g k l u : ℕ) → g * (x * k + l * u) ≡ x * (g * k) + g * l * u
        left g k l u = grind arith

        right : (g l v : ℕ) → 1 + g * l * v ≡ 1 + g * (l * v)
        right g l v = grind arith

mod_divide_returns :
    (a b : ℤ) (m x : ℕ)
    → 0 < m
    → (x * above b) % m ≡ (x * below b + 1) % m
    → (q : ℕ) × (mod_divide a b m ≡ ok q)
unfolding mod_divide
mod_divide_returns a b m x positive unit =
    let (under_b, normal_b) = normalise-IsNormal b m positive in
    let (inv, inverse) = mod_inverse_returns (normalise b m) m x (
      Congruent-cancel (x * below b) (
        Congruent-trans (Congruent-eq m (distribute (below b) (normalise b m))) (
          Congruent-trans (Congruent-mul x (Congruent-sym normal_b))
            (Congruent-from_mod m (x * above b) (x * below b + 1) unit)))) in
    (normalise (pos (inv * normalise a m)) m, rw (ne→== m 0 (omega arith)) (rw inverse refl))
  where
    distribute : (y z : ℕ) → x * y + x * z ≡ x * (y + z)
    distribute y z = grind arith

-- For a positive modulus, if the divisor has an inverse, `modDivide` returns the quotient: it is below
-- the modulus, and the quotient times the divisor is congruent to the dividend.
pub mod_divide_divides :
    (a b : ℤ) (m x : ℕ)
    → 0 < m
    → (x * above b) % m ≡ (x * below b + 1) % m
    → (q : ℕ) × (mod_divide a b m ≡ ok q)
      × (q < m)
      × ((q * above b + below a) % m ≡ (q * below b + above a) % m)
mod_divide_divides a b m x positive unit =
    let (q, returned) = mod_divide_returns a b m x positive unit in
    let (under, same) = mod_divide_lem a b m q positive returned in (q, returned, under, same)
