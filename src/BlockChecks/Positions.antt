-- ===== src/BlockChecks/Positions.antt =====
-- Where the searches of nightfall-optimist/src/services/check-block.mjs find a value.
use nightfall.Common.{
  ℕ, zero, suc, ◌+◌, ◌≤◌, ◌≡◌, sym, ap, ◌∙◌, inl, inr, Option, some, List, [], ◌∷◌, get_elem?,
  arith, eq-cases, Option-cases, eq→==, ne→==,
}
use nightfall.BlockChecks.Duplicates.{last_index_of, index_of}

some_injective : (a b : ℕ) → ◌≡◌ {A = Option ℕ} (some a) (some b) → a ≡ b
some_injective a b h = cc

add_zero : (i : ℕ) → i ≡ i + 0
add_zero i = omega arith

suc_add : (a b : ℕ) → suc a + b ≡ a + suc b
suc_add a b = omega arith

-- What the search answers is a position of the value.
pub last_index_of_at :
    (x i j : ℕ) (ys : List ℕ)
    → last_index_of x i ys ≡ some j
    → (m : ℕ) × (j ≡ i + m) × (get_elem? ys m ≡ some x)
unfolding last_index_of
last_index_of_at x i j [] h = absurd (cc)
last_index_of_at x i j (y ∷ ys) h = elim (Option-cases (last_index_of x (suc i) ys)) [
  | inl e ↦ elim (eq-cases y x) [
    | inl same ↦
        (0, sym (some_injective i j (rw (e, eq→== y x same) at h)) ∙ add_zero i, ap some same)
    | inr ne ↦ absurd (cc (rw (e, ne→== y x ne) at h))
  ]
  | inr (j', e) ↦
      let (m, at, same) = last_index_of_at x (suc i) j' ys e in
      (suc m, sym (some_injective j' j (rw e at h)) ∙ at ∙ suc_add i m, same)
]

-- The last position of a value that stands at `k`.
pub last_index_of_lem :
    (x i k : ℕ) (ys : List ℕ)
    → get_elem? ys k ≡ some x
    → (m : ℕ) × (last_index_of x i ys ≡ some (i + m)) × (k ≤ m) × (get_elem? ys m ≡ some x)
unfolding last_index_of
last_index_of_lem x i k [] h = absurd (cc)
last_index_of_lem x i zero (y ∷ ys) h = elim (Option-cases (last_index_of x (suc i) ys)) [
  | inl e ↦ rw (e, eq→== y x (some_injective y x h)) (0, ap some (add_zero i), omega arith, h)
  | inr (j, e) ↦
      let (m, at, same) = last_index_of_at x (suc i) j ys e in
      rw e (suc m, ap some (at ∙ suc_add i m), omega arith, same)
]
last_index_of_lem x i (suc k) (y ∷ ys) h =
    let (m, found, le, same) = last_index_of_lem x (suc i) k ys h in
    rw found (suc m, ap some (suc_add i m), omega arith, same)

pub index_of_lem :
    (x k : ℕ) (ys : List ℕ) → get_elem? ys k ≡ some x → get_elem? ys (index_of x ys) ≡ some x
unfolding index_of
index_of_lem x k [] h = absurd (cc)
index_of_lem x zero (y ∷ ys) h = rw (eq→== y x (some_injective y x h)) h
index_of_lem x (suc k) (y ∷ ys) h = elim (eq-cases y x) [
  | inl e ↦ rw (eq→== y x e) (ap some e)
  | inr ne ↦ rw (ne→== y x ne) (index_of_lem x k ys h)
]
