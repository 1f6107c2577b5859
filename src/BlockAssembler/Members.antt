-- ===== src/BlockAssembler/Members.antt =====
-- The test `is_in` for `$in` of a query against being among the elements of a list, for the queries of
-- nightfall-optimist/src/services/database.mjs.
use nightfall.Common.{
  Among, ℕ, ◌≡◌, refl, inl, inr, List, [], ◌∷◌, Bool, true, false, ◌||◌, Bool-cases, ◌==◌, eq→==,
  ==→eq,
}
use nightfall.BlockAssembler.Mempool.{is_in}

pub is_in-Among : (v : ℕ) (vs : List ℕ) → Among v vs → is_in vs v ≡ true
unfolding is_in
is_in-Among v [] among = absurd among
is_in-Among v (x ∷ xs) (inl e) = rw (eq→== x v e) refl
is_in-Among v (x ∷ xs) (inr among) = rw (is_in-Among v xs among) (or_true (x == v))
  where
    or_true : (b : Bool) → (b || true) ≡ true
    or_true true = refl
    or_true false = refl

pub Among-is_in : (v : ℕ) (vs : List ℕ) → is_in vs v ≡ true → Among v vs
unfolding is_in
Among-is_in v [] h = absurd (cc h)
Among-is_in v (x ∷ xs) h = elim (Bool-cases (x == v)) [
  | inl t ↦ inl (==→eq x v t)
  | inr f ↦ inr (Among-is_in v xs (rw f at h))
]
