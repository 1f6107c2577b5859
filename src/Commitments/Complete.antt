-- ===== src/Commitments/Complete.antt =====
-- When `findSubsetNCommitments` of nightfall-client/src/services/commitment-storage.mjs finds: if the
-- `n` largest commitments cover the value and fewer do not, the search for `n` succeeds.
use nightfall.Common.{
  ℕ, zero, suc, ◌+◌, ◌-◌, ◌≤◌, ◌<◌, ◌≡◌, ◌≢◌, refl, sym, subst, ◌⊎◌, inl, inr, Option, none, some,
  List, [], ◌∷◌, length, Bool, true, false, ltb, ◌==◌, ◌&&◌, if◌then◌else◌, arith, lt-cases,
  Bool-cases, lt→ltb, le→ltb, eq→==, ne→==,
}
use nightfall.Commitments.Values.{Commitment, total, smaller, AllFrom, Ascending}
use nightfall.Commitments.Subsets.{at, improves, subset_loop, find_subset_n}
use nightfall.Commitments.Filtered.{smaller_all}
use nightfall.Commitments.Two.{Covered, find_subset_n_two, find_subset_two-best}
use nightfall.Commitments.Sound.{find_subset_n-Covered}
use nightfall.Commitments.Largest.{top, top_all, top_rest, at-le-top, first_enough_finds, top_two}

abbrev Consistent : Option ℕ → List Commitment → Type 0
Consistent change to_use = (change ≡ none) ⊎ (to_use ≢ [])

cons-ne-nil : (c : Commitment) (cs : List Commitment) → c ∷ cs ≢ []
cons-ne-nil c cs e = cc

next_found :
    (temp : ℕ) (change : Option ℕ) (found to_use : List Commitment)
    → found ≢ []
    → Consistent change to_use
    → (if improves temp change then found else to_use) ≢ []
next_found temp none found to_use filled consistent = filled
next_found temp (some change) found to_use found_some consistent =
    elim (Bool-cases (ltb temp change)) [
      | inl better ↦ rw better found_some
      | inr worse ↦ rw worse (elim consistent [ inl e ↦ absurd (cc) | inr h ↦ h ])
    ]

next-Consistent :
    (b : Bool) (temp : ℕ) (change : Option ℕ) (found to_use : List Commitment)
    → found ≢ []
    → Consistent change to_use
    → Consistent (if b then some temp else change) (if b then found else to_use)
next-Consistent true temp change found to_use p consistent = inr p
next-Consistent false temp change found to_use p consistent = consistent

next_keeps :
    (b : Bool) (found to_use : List Commitment)
    → found ≢ []
    → to_use ≢ []
    → (if b then found else to_use) ≢ []
next_keeps true found to_use p q = p
next_keeps false found to_use p q = q

module _ (n : ℕ) (find_rest : List Commitment → ℕ → List Commitment) (value : ℕ) where
  -- A set that is in use is only replaced by another.
  subset_loop_keeps :
      (cs : List Commitment) (change : Option ℕ) (to_use : List Commitment)
      → to_use ≢ []
      → subset_loop n find_rest value cs change to_use ≢ []
  unfolding subset_loop
  subset_loop_keeps [] change to_use filled = filled
  subset_loop_keeps (c ∷ cs) change to_use filled = elim (lt-cases (length (c ∷ cs)) n) [
    | inl few ↦ rw (lt→ltb _ _ few) filled
    | inr long ↦
        let subset : List Commitment = find_rest cs (value - c.value) in
        let found : Bool = length subset == n - 1 in
        elim (Bool-cases (found && c.value + total subset == value)) [
          | inl exact ↦ rw (le→ltb _ _ long, exact) (cons-ne-nil c subset)
          | inr inexact ↦
              rw (le→ltb _ _ long, inexact)
                (subset_loop_keeps cs _ _ (
                  next_keeps (found && improves (c.value + total subset - value) change)
                    (c ∷ subset) to_use (cons-ne-nil c subset) filled))
        ]
  ]

-- The `n` largest commitments cover the value, and fewer do not.
pub record Tight (n : ℕ) (cs : List Commitment) (value : ℕ) : Type 0 where
  pub ascending : Ascending cs
  pub long : n ≤ length cs
  pub enough : value ≤ top n cs
  pub fewer : top (n - 1) cs < value

Tight-tail :
    (n : ℕ) (c : Commitment) (cs : List Commitment) (value : ℕ)
    → n ≤ length cs
    → Tight n (c ∷ cs) value
    → Tight n cs value
Tight-tail n c cs value long t = record {
  ascending = t.ascending.1;
  long = long;
  enough = omega (arith, t.enough, top_rest n c cs long);
  fewer = omega (arith, t.fewer, top_rest (n - 1) c cs (omega arith));
}

smallest_out :
    (k : ℕ) (c : Commitment) (cs : List Commitment)
    → AllFrom c.value cs
    → length cs ≡ suc k
    → c.value + top k cs ≤ total cs
smallest_out k c [] all e = absurd (omega arith)
smallest_out k c (d ∷ cs) all e =
    omega (arith, all.0, top_rest k d cs (omega arith), top_all k cs (omega arith))

-- Without the smallest of exactly `n` commitments, the rest is tight for what it must cover.
Tight-rest :
    (n : ℕ) (c : Commitment) (cs : List Commitment) (value : ℕ)
    → suc (suc n) ≡ length (c ∷ cs)
    → Tight (suc (suc n)) (c ∷ cs) value
    → Tight (suc n) cs (value - c.value)
Tight-rest n c cs value e t =
    let whole : top (suc (suc n)) (c ∷ cs) ≡ c.value + total cs =
      top_all (suc (suc n)) (c ∷ cs) (omega arith) in
    let rest : top (suc n) cs ≡ total cs = top_all (suc n) cs (omega arith) in
    let less : top (suc n) (c ∷ cs) ≡ top (suc n) cs = top_rest (suc n) c cs (omega arith) in
    let out : c.value + top n cs ≤ total cs = smallest_out n c cs t.ascending.0 (omega arith) in
    let short : top (suc n) (c ∷ cs) < value =
      subst (λ k. top k (c ∷ cs) < value) (pred_of (suc n)) t.fewer in
    record {
      ascending = t.ascending.1;
      long = omega arith;
      enough = omega (arith, t.enough);
      fewer = subst (λ k. top k cs < value - c.value) (sym (pred_of n)) (omega arith);
    }
  where
    pred_of : (k : ℕ) → suc k - 1 ≡ k
    pred_of k = omega arith

module _ (n : ℕ) (find_rest : List Commitment → ℕ → List Commitment)
    (rest-Covered : (ds : List Commitment) (w : ℕ)
      → Ascending ds
      → Covered (suc n) ds w (find_rest ds w))
    (rest_finds : (ds : List Commitment) (w : ℕ) → Tight (suc n) ds w → find_rest ds w ≢ []) where
  found_length :
      (ds : List Commitment) (w : ℕ)
      → Tight (suc n) ds w
      → (length (find_rest ds w) == suc (suc n) - 1) ≡ true
  found_length ds w t = elim (rest-Covered ds w t.ascending) [
    | inl nothing ↦ absurd (rest_finds ds w t nothing)
    | inr (long, chosen, covers) ↦ eq→== _ _ (omega arith)
  ]

  subset_loop_finds :
      (cs : List Commitment) (value : ℕ) (change : Option ℕ) (to_use : List Commitment)
      → Tight (suc (suc n)) cs value
      → Consistent change to_use
      → subset_loop (suc (suc n)) find_rest value cs change to_use ≢ []
  unfolding subset_loop
  subset_loop_finds [] value change to_use t consistent = absurd (omega (arith, t.long))
  subset_loop_finds (c ∷ cs) value change to_use t consistent =
      let subset : List Commitment = find_rest cs (value - c.value) in
      let sum : ℕ = c.value + total subset in
      let found : Bool = length subset == suc (suc n) - 1 in
      elim (Bool-cases (found && sum == value)) [
        | inl exact ↦ rw (le→ltb _ _ t.long, exact) (cons-ne-nil c subset)
        | inr inexact ↦ elim (lt-cases (length cs) (suc (suc n))) [
          | inr longer ↦
              rw (le→ltb _ _ t.long, inexact)
                (subset_loop_finds cs value
                  (if found && improves (sum - value) change then some (sum - value) else change)
                  (if found && improves (sum - value) change then c ∷ subset else to_use)
                  (Tight-tail (suc (suc n)) c cs value longer t)
                  (next-Consistent (found && improves (sum - value) change) (sum - value) change
                    (c ∷ subset) to_use (cons-ne-nil c subset) consistent))
          | inl shorter ↦
              let is_found : found ≡ true =
                found_length cs (value - c.value)
                  (Tight-rest n c cs value (omega (arith, t.long)) t) in
              rw (le→ltb _ _ t.long, inexact, is_found)
                (subset_loop_keeps (suc (suc n)) find_rest value cs
                  (if improves (sum - value) change then some (sum - value) else change)
                  (if improves (sum - value) change then c ∷ subset else to_use)
                  (next_found (sum - value) change (c ∷ subset) to_use (cons-ne-nil c subset)
                    consistent))
        ]
      ]

all_below :
    (k : ℕ) (cs : List Commitment) (value : ℕ)
    → Ascending cs
    → top (suc k) cs < value
    → smaller value cs ≡ cs
all_below k cs value up lt =
    smaller_all value cs up (λ j inside. omega (arith, at-le-top k cs j up inside, lt))

pred_three : (k : ℕ) → suc (suc (suc k)) - 1 ≡ suc (suc k)
pred_three k = omega arith

many_find :
    (n : ℕ) (cs : List Commitment) (value : ℕ)
    → Tight (suc (suc (suc n))) cs value
    → ((ds : List Commitment) (w : ℕ)
        → Tight (suc (suc n)) ds w
        → find_subset_n (suc (suc n)) ds w ≢ [])
    → find_subset_n (suc (suc (suc n))) cs value ≢ []
unfolding find_subset_n
many_find n cs value t ih =
    let short : top (suc (suc n)) cs < value =
      subst (λ k. top k cs < value) (pred_three n) t.fewer in
    rw
      (ne→== value 0 (omega arith), all_below (suc n) cs value t.ascending short, le→ltb _ _ t.long)
      (subset_loop_finds (suc n) (find_subset_n (suc (suc n)))
        (λ ds w up. find_subset_n-Covered (suc (suc n)) ds w up) ih cs value none [] t (inl refl))

-- If the `n + 1` largest of ascending commitments cover the value, and the `n` largest do not, the
-- search for `n + 1` commitments finds some.
pub find_subset_n_finds :
    (n : ℕ) (cs : List Commitment) (value : ℕ)
    → Tight (suc n) cs value
    → find_subset_n (suc n) cs value ≢ []
find_subset_n_finds zero cs value t =
    unfold find_subset_n in first_enough_finds cs value (omega (arith, t.long)) t.enough
find_subset_n_finds (suc zero) cs value t =
    let (i, j, lt, inside, le) = top_two cs t.long in
    let low : (k : ℕ) → k < length cs → (at cs k).value < value =
      λ k h. omega (arith, at-le-top 0 cs k t.ascending h, one_fewer t.fewer) in
    rw (find_subset_n_two cs value t.ascending)
      (find_subset_two-best cs value t.ascending i j lt inside (low i (omega arith)) (low j inside)
        (omega (arith, le, t.enough))).2
  where
    one_fewer : top (2 - 1) cs < value → top 1 cs < value
    one_fewer h = h
find_subset_n_finds (suc (suc n)) cs value t = many_find n cs value t (find_subset_n_finds (suc n))
