-- ===== src/Timber/Paths.antt =====
-- What the path strings of common-files/classes/timber.mjs are: `height` binary digits, the most
-- significant one first, so that the first digit says in which half of the tree the index lies.
use nightfall.Common.{
  ℕ, zero, suc, ◌+◌, ◌-◌, ◌/◌, ◌%◌, ◌^◌, ◌≤◌, ◌<◌, ◌≡◌, refl, sym, ap, ◌∙◌, inl, inr, List, [], ◌∷◌,
  ◌++◌, length, replicate, arith, length-append, append_assoc, append-nil, two-pow-suc, two-pow-pos,
  eq-cases, eq→==, ne→==,
}
use native.Mathlib.Nat.{suc-sub-suc}
use nightfall.Timber.Tree.{Digit, d0, d1}
use nightfall.Timber.Path.{digit, digits, pad_start, path_to}

-- The digits of `n` at a fixed width.
unfoldable pub bits : ℕ → ℕ → List Digit
bits zero n = []
bits (suc h) n = bits h (n / 2) ++ digit (n % 2) ∷ []

pub length-bits : (h n : ℕ) → length (bits h n) ≡ h
unfolding bits
length-bits zero n = refl
length-bits (suc h) n =
    omega (arith, length-bits h (n / 2), length-append (bits h (n / 2)) (digit (n % 2) ∷ []))

mod_zero : (n : ℕ) → n ≡ 0 → n % 2 ≡ 0
mod_zero n h = omega arith

mod_one : (n : ℕ) → n ≡ 1 → n % 2 ≡ 1
mod_one n h = omega arith

digit_zero : (n : ℕ) → n ≡ 0 → digit (n % 2) ≡ d0
digit_zero n h = rw (mod_zero n h)

digit_one : (n : ℕ) → n ≡ 1 → digit (n % 2) ≡ d1
digit_one n h = rw (mod_one n h)

-- An index in the left half.
pub bits_left : (h n : ℕ) → n < 2 ^ h → bits (suc h) n ≡ d0 ∷ bits h n
unfolding bits
bits_left zero n lt = ap (λ d. d ∷ []) (digit_zero n (omega arith))
bits_left (suc h) n lt =
    ap (λ ds. ds ++ digit (n % 2) ∷ []) (bits_left h (n / 2) (omega (arith, two-pow-suc h)))

same_parity : (h n : ℕ) → 2 ^ suc h ≤ n → n % 2 ≡ (n - 2 ^ suc h) % 2
same_parity h n le = omega (arith, two-pow-suc h)

half_sub : (h n : ℕ) → 2 ^ suc h ≤ n → n / 2 - 2 ^ h ≡ (n - 2 ^ suc h) / 2
half_sub h n le = omega (arith, two-pow-suc h)

-- An index in the right half.
pub bits_right :
    (h n : ℕ) → 2 ^ h ≤ n → n < 2 ^ h + 2 ^ h → bits (suc h) n ≡ d1 ∷ bits h (n - 2 ^ h)
unfolding bits
bits_right zero n le lt = ap (λ d. d ∷ []) (digit_one n (omega arith))
bits_right (suc h) n le lt =
    ap (λ ds. ds ++ digit (n % 2) ∷ [])
      (bits_right h (n / 2) (omega (arith, two-pow-suc h)) (omega (arith, two-pow-suc h)))
    ∙ ap (λ m. d1 ∷ (bits h m ++ digit (n % 2) ∷ [])) (half_sub h n le)
    ∙ ap (λ m. d1 ∷ (bits h ((n - 2 ^ suc h) / 2) ++ digit m ∷ [])) (same_parity h n le)

-- Zero is written by zeros.
bits-zero : (h n : ℕ) → n ≡ 0 → bits h n ≡ replicate h d0
unfolding bits
bits-zero zero n e = refl
bits-zero (suc h) n e =
    bits_left h n (omega (arith, two-pow-pos h)) ∙ ap (λ ds. d0 ∷ ds) (bits-zero h n e)

replicate_snoc : (k : ℕ) → replicate k d0 ++ d0 ∷ [] ≡ replicate (suc k) d0
replicate_snoc zero = refl
replicate_snoc (suc k) = ap (λ ds. d0 ∷ ds) (replicate_snoc k)

digits-zero : (fuel n : ℕ) → n ≡ 0 → digits fuel n ≡ []
unfolding digits
digits-zero zero n e = refl
digits-zero (suc fuel) n e = ground arith

digits-pos : (fuel n : ℕ) → 0 < n → digits (suc fuel) n ≡ digits fuel (n / 2) ++ digit (n % 2) ∷ []
unfolding digits
digits-pos fuel n h = ground arith

pad-nil : (h : ℕ) → pad_start h d0 [] ≡ replicate h d0
unfolding pad_start
pad-nil h = append-nil _ ∙ ap (λ k. replicate k d0) (omega_sub h)
  where
    omega_sub : (k : ℕ) → k - 0 ≡ k
    omega_sub k = omega arith

length-snoc : (ds : List Digit) (d : Digit) → length (ds ++ d ∷ []) ≡ suc (length ds)
length-snoc ds d = omega (arith, length-append ds (d ∷ []))

pad-snoc :
    (h : ℕ) (ds : List Digit) (d : Digit)
    → pad_start (suc h) d0 (ds ++ d ∷ []) ≡ pad_start h d0 ds ++ d ∷ []
unfolding pad_start
pad-snoc h ds d = rw (length-snoc ds d, suc-sub-suc, append_assoc)

-- Padded to a width that holds `n`, the digits are those of that width.
pad-digits : (h fuel n : ℕ) → n ≤ fuel → n < 2 ^ h → pad_start h d0 (digits fuel n) ≡ bits h n
unfolding bits
pad-digits h zero n le lt =
    let e : n ≡ 0 = omega arith in rw (digits-zero zero n e) (pad-nil h ∙ sym (bits-zero h n e))
pad-digits zero (suc fuel) n le lt =
    let e : n ≡ 0 = omega arith in rw (digits-zero (suc fuel) n e) (pad-nil zero)
pad-digits (suc h) (suc fuel) n le lt = elim (eq-cases n 0) [
  | inl e ↦ rw (digits-zero (suc fuel) n e) (pad-nil (suc h) ∙ sym (bits-zero (suc h) n e))
  | inr ne ↦
      rw (digits-pos fuel n (omega arith), pad-snoc)
        (ap (λ ds. ds ++ digit (n % 2) ∷ [])
          (pad-digits h fuel (n / 2) (omega arith) (omega (arith, two-pow-suc h))))
]

pub path_to-eq-bits : (h n : ℕ) → 0 < h → n < 2 ^ h → path_to h n ≡ bits h n
unfolding path_to
path_to-eq-bits (suc h) n pos lt = elim (eq-cases n 0) [
  | inl e ↦
      rw (eq→== n 0 e, pad-snoc h [] d0, pad-nil) (replicate_snoc h ∙ sym (bits-zero (suc h) n e))
  | inr ne ↦ rw (ne→== n 0 ne) (pad-digits (suc h) n n (omega arith) lt)
]
path_to-eq-bits zero n pos lt = absurd (omega arith)
