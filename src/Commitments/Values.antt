-- ===== src/Commitments/Values.antt =====
-- A commitment of nightfall-client/src/classes/commitment.mjs, as far as the choice of commitments
-- looks at it, and sums of values.
use nightfall.Common.{
  ℕ, ◌+◌, ◌≤◌, List, [], ◌∷◌, length, ltb, arith, lt→ltb, le→ltb, if◌then◌else◌, inl, inr, lt-cases,
}

-- `value` is `preimage.value.bigInt`, and `id` the hash, under which a commitment is stored.
pub record Commitment : Type 0 where
  pub id : ℕ
  pub value : ℕ

-- `cs.reduce((acc, com) => acc + com.preimage.value.bigInt, 0n)`
abbrev pub total : List Commitment → ℕ
total [] = 0
total (c ∷ cs) = c.value + total cs

-- `commitments.filter(s => s.preimage.value.bigInt < value)`
unfoldable pub smaller : ℕ → List Commitment → List Commitment
smaller value [] = []
smaller value (c ∷ cs) = let rest = smaller value cs in if ltb c.value value then c ∷ rest else rest

-- Every value is at least `v`.
abbrev pub AllFrom : ℕ → List Commitment → Type 0
AllFrom v [] = Unit {0}
AllFrom v (c ∷ cs) = (v ≤ c.value) × AllFrom v cs

-- The values ascend.
abbrev pub Ascending : List Commitment → Type 0
Ascending [] = Unit {0}
Ascending (c ∷ cs) = AllFrom c.value cs × Ascending cs

-- The first list is got from the second by leaving elements out.
pub data Chosen : List Commitment → List Commitment → Type 0 where
  chosen_none : Chosen [] []
  skip : (c : Commitment) {xs cs : List Commitment} → Chosen xs cs → Chosen xs (c ∷ cs)
  keep : (c : Commitment) {xs cs : List Commitment} → Chosen xs cs → Chosen (c ∷ xs) (c ∷ cs)

pub Chosen-nil : (cs : List Commitment) → Chosen [] cs
Chosen-nil [] = chosen_none
Chosen-nil (c ∷ cs) = skip c (Chosen-nil cs)

pub Chosen-all : (cs : List Commitment) → Chosen cs cs
Chosen-all [] = chosen_none
Chosen-all (c ∷ cs) = keep c (Chosen-all cs)

pub Chosen-trans : {xs ys zs : List Commitment} → Chosen xs ys → Chosen ys zs → Chosen xs zs
Chosen-trans p chosen_none = p
Chosen-trans p (skip c q) = skip c (Chosen-trans p q)
Chosen-trans (skip _ p) (keep c q) = skip c (Chosen-trans p q)
Chosen-trans (keep _ p) (keep c q) = keep c (Chosen-trans p q)

pub smaller-Chosen : (v : ℕ) (cs : List Commitment) → Chosen (smaller v cs) cs
unfolding smaller
smaller-Chosen v [] = chosen_none
smaller-Chosen v (c ∷ cs) = elim (lt-cases c.value v) [
  | inl lt ↦ rw (lt→ltb _ _ lt) (keep c (smaller-Chosen v cs))
  | inr le ↦ rw (le→ltb _ _ le) (skip c (smaller-Chosen v cs))
]

pub length-Chosen : {xs cs : List Commitment} → Chosen xs cs → length xs ≤ length cs
length-Chosen chosen_none = omega arith
length-Chosen (skip c p) = omega (arith, length-Chosen p)
length-Chosen (keep c p) = omega (arith, length-Chosen p)
