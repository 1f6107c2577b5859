-- ===== src/NumberTheory/Congruence.antt =====
-- Congruence for the proofs about common-files/utils/crypto/modular-division.mjs.
use nightfall.Common.{ℕ, ◌+◌, ◌*◌, ◌/◌, ◌%◌, ◌≡◌, sym, ap, ◌∙◌, arith}
use native.Mathlib.Nat.{div-add-mod, add-mul-mod_self_left}

-- The two differ by a multiple of `m`.
pub record Congruent (m a b : ℕ) : Type 0 where
  pub more : ℕ
  pub less : ℕ
  pub same : a + m * more ≡ b + m * less

abbrev pub by_multiples :
    {m a b : ℕ} (more less : ℕ) → a + m * more ≡ b + m * less → Congruent m a b
by_multiples more less same = record { more = more; less = less; same = same }

module _ {m : ℕ} where
  pub Congruent-sym : {a b : ℕ} → Congruent m a b → Congruent m b a
  Congruent-sym c = by_multiples c.less c.more (sym c.same)

  pub Congruent-trans : {a b c : ℕ} → Congruent m a b → Congruent m b c → Congruent m a c
  Congruent-trans {a} {b} {c} p q =
      by_multiples (p.more + q.more) (p.less + q.less)
        (joined a b c p.more p.less q.more q.less p.same q.same)
    where
      joined :
          (a b c k l k' l' : ℕ)
          → a + m * k ≡ b + m * l
          → b + m * k' ≡ c + m * l'
          → a + m * (k + k') ≡ c + m * (l + l')
      joined a b c k l k' l' h h' = grind arith

  pub Congruent-add :
      {a b c d : ℕ} → Congruent m a b → Congruent m c d → Congruent m (a + c) (b + d)
  Congruent-add {a} {b} {c} {d} p q =
      by_multiples (p.more + q.more) (p.less + q.less)
        (joined a b c d p.more p.less q.more q.less p.same q.same)
    where
      joined :
          (a b c d k l k' l' : ℕ)
          → a + m * k ≡ b + m * l
          → c + m * k' ≡ d + m * l'
          → a + c + m * (k + k') ≡ b + d + m * (l + l')
      joined a b c d k l k' l' h h' = grind arith

  pub Congruent-mul : {a b : ℕ} (c : ℕ) → Congruent m a b → Congruent m (c * a) (c * b)
  Congruent-mul {a} {b} c p =
      by_multiples (c * p.more) (c * p.less) (scaled a b c p.more p.less p.same)
    where
      scaled : (a b c k l : ℕ) → a + m * k ≡ b + m * l → c * a + m * (c * k) ≡ c * b + m * (c * l)
      scaled a b c k l h =
          let times : c * (a + m * k) ≡ c * (b + m * l) = ap (λ n. c * n) h in grind arith

  pub Congruent-cancel : (c : ℕ) {a b : ℕ} → Congruent m (c + a) (c + b) → Congruent m a b
  Congruent-cancel c {a} {b} p = by_multiples p.more p.less (omega (arith, p.same))

pub Congruent-eq : (m : ℕ) {a b : ℕ} → a ≡ b → Congruent m a b
Congruent-eq m e = by_multiples 0 0 (ap (λ n. n + m * 0) e)

pub Congruent-mod : (m a : ℕ) → Congruent m (a % m) a
Congruent-mod m a = by_multiples (a / m) 0 (turned (m * (a / m)) (a % m) (div-add-mod a m))
  where
    turned : (q r : ℕ) → q + r ≡ a → r + q ≡ a + m * 0
    turned q r h = omega arith

pub mod-Congruent : (m a b : ℕ) → Congruent m a b → a % m ≡ b % m
mod-Congruent m a b c =
    sym (add-mul-mod_self_left a m c.more)
    ∙ ap (λ n. n % m) c.same
    ∙ add-mul-mod_self_left b m c.less

pub Congruent-from_mod : (m a b : ℕ) → a % m ≡ b % m → Congruent m a b
Congruent-from_mod m a b h =
    Congruent-trans (Congruent-sym (Congruent-mod m a))
      (Congruent-trans (Congruent-eq m h) (Congruent-mod m b))
