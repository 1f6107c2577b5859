-- ===== src/Commitments/Usable.antt =====
-- `verifyEnoughCommitments` and `findUsableCommitments` of
-- nightfall-client/src/services/commitment-storage.mjs. The mutex around the latter makes it one step.
use nightfall.Common.{
  ℕ, zero, suc, ◌+◌, ◌-◌, List, [], ◌∷◌, ◌++◌, map, Bool, not, length, min, ltb, leb, ◌==◌,
  if◌then◌else◌, Result, ok, throws, ◌>>=◌,
}
use nightfall.Commitments.Values.{Commitment}
use nightfall.Commitments.Store.{
  Stored, Collection, is_unset, find, mark_pending, get_available_commitments,
}
use nightfall.Commitments.Subsets.{at, select_commitments}

pub data Error : Type 0 where
  no_commitment_found no_commitments_cover_value no_fee_commitments no_commitments_cover_fee : Error

-- `new Commitment(ct.preimage)`: the constructor computes the hash, which is the stored `_id`.
unfoldable pub to_commitment : Stored → Commitment
to_commitment d = record { id = d.id; value = d.value }

-- `sort((a, b) => Number(a.preimage.value.bigInt - b.preimage.value.bigInt))`, which is stable.
unfoldable pub insert_by_value : Commitment → List Commitment → List Commitment
insert_by_value c [] = c ∷ []
insert_by_value c (d ∷ ds) =
    let rest = insert_by_value c ds in if leb c.value d.value then c ∷ d ∷ ds else d ∷ rest

unfoldable pub sort_by_value : List Commitment → List Commitment
unfolding insert_by_value
sort_by_value [] = []
sort_by_value (c ∷ cs) = insert_by_value c (sort_by_value cs)

-- The commitments on chain, sorted.
unfoldable pub spendable : Collection → List Commitment
unfolding find to_commitment sort_by_value
spendable ds = sort_by_value (map to_commitment (find (λ d. not (is_unset d.is_on_chain)) ds))

-- The loops that sum the highest commitments: `rounds` more, the next number being `j`. The result is
-- the first number that is enough, or 0.
unfoldable pub min_loop : ℕ → ℕ → ℕ → List Commitment → ℕ → ℕ
min_loop zero j sum cs target = 0
min_loop (suc rounds) j sum cs target =
    let sum' = sum + (at cs (length cs - j)).value in
    let rest = min_loop rounds (suc j) sum' cs target in if leb target sum' then j else rest

pub record Verified : Type 0 where
  pub commitments_fee : List Commitment
  pub min_fc : ℕ
  pub commitments : List Commitment
  pub min_c : ℕ

-- The first half of `verifyEnoughCommitments`: the commitments for the value and how many it takes.
unfoldable pub verify_value :
    Collection → ℕ → ℕ → ℕ → ℕ → ℕ → ℕ → ℕ → Result Error (List Commitment × ℕ)
unfolding get_available_commitments spendable min_loop
verify_value ds key erc_address token_id value fee max_nullifiers max_non_fee_nullifiers =
    let commitment_array = get_available_commitments key erc_address token_id ds in
    let commitments = spendable commitment_array in
    let minimum_fee_commits = if ltb 0 fee then 1 else 0 in
    let min_c =
      min_loop (min (length commitments) (max_nullifiers - minimum_fee_commits)) 1 0 commitments
        value in
    if max_non_fee_nullifiers == 0
    then ok ([], 0)
    else if length commitment_array == 0
    then throws no_commitment_found
    else if min_c == 0
    then throws no_commitments_cover_value
    else if ltb max_non_fee_nullifiers min_c
    then throws no_commitments_cover_value
    else ok (commitments, min_c)

-- The second half: those for the fee, with the numbers of nullifiers that are left.
unfoldable pub verify_fee : Collection → ℕ → ℕ → ℕ → ℕ → Result Error (List Commitment × ℕ)
unfolding get_available_commitments spendable min_loop
verify_fee ds key erc_address_fee fee max_left =
    let commitment_array_fee = get_available_commitments key erc_address_fee 0 ds in
    let commitments_fee = spendable commitment_array_fee in
    let min_fc = min_loop (min (length commitments_fee) max_left) 1 0 commitments_fee fee in
    if ltb 0 fee
    then (if length commitment_array_fee == 0
        then throws no_fee_commitments
        else if min_fc == 0
        then throws no_commitments_cover_fee
        else ok (commitments_fee, min_fc))
    else ok ([], 0)

unfoldable pub verify_enough_commitments :
    Collection → ℕ → ℕ → ℕ → ℕ → ℕ → ℕ → ℕ → ℕ → Result Error Verified
unfolding verify_value verify_fee
verify_enough_commitments ds key erc_address token_id value erc_address_fee fee max_nullifiers
      max_non_fee_nullifiers =
    do
      found ←
          verify_value ds key erc_address token_id value fee max_nullifiers max_non_fee_nullifiers
      found_fee ← verify_fee ds key erc_address_fee fee (max_nullifiers - found.1)
      ok (record {
        commitments_fee = found_fee.0;
        min_fc = found_fee.1;
        commitments = found.0;
        min_c = found.1;
      })

unfoldable pub mark_all_pending : List Commitment → Collection → Collection
unfolding mark_pending
mark_all_pending [] ds = ds
mark_all_pending (c ∷ cs) ds = mark_all_pending cs (mark_pending c.id ds)

pub record Usable : Type 0 where
  pub old_commitments : List Commitment
  pub old_commitments_fee : List Commitment

abbrev pub Sort : Type 0
Sort = (List Commitment → List Commitment → Bool) → List (List Commitment) → List (List Commitment)

-- The two calls of `selectCommitments`.
unfoldable pub choose_commitments : Sort → Verified → ℕ → ℕ → ℕ → ℕ → Usable
unfolding select_commitments
choose_commitments sort v value fee max_nullifiers max_non_fee_nullifiers =
    let max_c = min max_non_fee_nullifiers (max_nullifiers - v.min_fc) in
    let old_commitments =
      if max_non_fee_nullifiers == 0
      then []
      else select_commitments sort v.commitments value v.min_c max_c in
    let max_fc = max_nullifiers - length old_commitments in
    let old_commitments_fee =
      if ltb 0 fee then select_commitments sort v.commitments_fee fee v.min_fc max_fc else [] in
    record { old_commitments = old_commitments; old_commitments_fee = old_commitments_fee }

unfoldable pub find_usable_commitments :
    Sort → Collection → ℕ → ℕ → ℕ → ℕ → ℕ → ℕ → ℕ → ℕ → Result Error (Usable × Collection)
unfolding verify_enough_commitments choose_commitments mark_all_pending
find_usable_commitments sort ds key erc_address token_id erc_address_fee value fee max_nullifiers
      max_non_fee_nullifiers =
    do
      v ←
          verify_enough_commitments ds key erc_address token_id value erc_address_fee fee
            max_nullifiers max_non_fee_nullifiers
      let usable = choose_commitments sort v value fee max_nullifiers max_non_fee_nullifiers
      ok (usable, mark_all_pending (usable.old_commitments ++ usable.old_commitments_fee) ds)
