-- ===== src/Commitments/Examples.antt =====
-- Tests of the model of nightfall-client/src/services/commitment-storage.mjs on a small collection,
-- and the theorems about it at that collection.
use nightfall.Common.{
  ℕ, suc, ◌+◌, ◌≤◌, ◌<◌, ◌≡◌, ◌≢◌, ◌-◌, ◌⊎◌, ◌&&◌, refl, inl, inr, none, some, List, [], ◌∷◌,
  length, Bool, true, false, not, ok, throws, arith, Bool-cases, if◌then◌else◌,
}
use nightfall.Commitments.Values.{Commitment, total, Ascending}
use nightfall.Commitments.Subsets.{at, find_subset_two, find_subset_n, select_commitments}
use nightfall.Commitments.Store.{
  Stored, Collection, one_of, find, is_unset, update_many, mark_on_chain, clear_on_chain,
  mark_nullified_on_chain, clear_nullified_on_chain, get_available_commitments,
}
use nightfall.Commitments.Two.{Covered, find_subset_two-best}
use nightfall.Commitments.Sound.{find_subset_n-Covered}
use nightfall.Commitments.Largest.{top}
use nightfall.Commitments.Complete.{find_subset_n_finds}
use nightfall.Commitments.Usable.{
  Sort, Usable, no_commitments_cover_value, min_loop, find_usable_commitments,
}
use nightfall.Commitments.Counting.{min_loop-least}
use nightfall.Commitments.Selection.{Sorts, All, Fits, select_commitments-Fits}
use nightfall.Commitments.Funding.{Funds, find_usable_commitments-Funds}
use nightfall.Commitments.Pending.{Unique, find_usable_commitments-reserves}
use nightfall.Commitments.Reorganise.{
  clear_on_chain-mark_on_chain, clear_nullified_on_chain-mark_nullified_on_chain,
}

-- An insertion sort.
insert :
    (List Commitment → List Commitment → Bool)
    → List Commitment
    → List (List Commitment)
    → List (List Commitment)
insert cmp s [] = s ∷ []
insert cmp s (t ∷ ts) = let rest = insert cmp s ts in if cmp t s then t ∷ rest else s ∷ t ∷ ts

unfoldable pub insertion_sort : Sort
unfolding insert
insertion_sort cmp [] = []
insertion_sort cmp (s ∷ ss) = insert cmp s (insertion_sort cmp ss)

All-insert :
    (cmp : List Commitment → List Commitment → Bool) (P : List Commitment → Type 0)
    (s : List Commitment) (ss : List (List Commitment))
    → P s
    → All P ss
    → All P (insert cmp s ss)
unfolding insert
All-insert cmp P s [] p all = (p, tt)
All-insert cmp P s (t ∷ ts) p (q, all) = elim (Bool-cases (cmp t s)) [
  | inl yes_first ↦ rw yes_first (q, All-insert cmp P s ts p all)
  | inr other ↦ rw other (p, (q, all))
]

length-insert :
    (cmp : List Commitment → List Commitment → Bool) (s : List Commitment)
    (ss : List (List Commitment))
    → length (insert cmp s ss) ≡ suc (length ss)
unfolding insert
length-insert cmp s [] = refl
length-insert cmp s (t ∷ ts) = elim (Bool-cases (cmp t s)) [
  | inl before ↦ rw before (omega (arith, length-insert cmp s ts))
  | inr other ↦ rw other refl
]

insertion_sort-All :
    (cmp : List Commitment → List Commitment → Bool) (P : List Commitment → Type 0)
    (ss : List (List Commitment))
    → All P ss
    → All P (insertion_sort cmp ss)
unfolding insertion_sort
insertion_sort-All cmp P [] all = tt
insertion_sort-All cmp P (s ∷ ss) (p, all) =
    All-insert cmp P s (insertion_sort cmp ss) p (insertion_sort-All cmp P ss all)

length-insertion_sort :
    (cmp : List Commitment → List Commitment → Bool) (ss : List (List Commitment))
    → length (insertion_sort cmp ss) ≡ length ss
unfolding insertion_sort
length-insertion_sort cmp [] = refl
length-insertion_sort cmp (s ∷ ss) =
    omega (arith, length-insert cmp s (insertion_sort cmp ss), length-insertion_sort cmp ss)

pub insertion_sort-Sorts : Sorts insertion_sort
insertion_sort-Sorts = record {
  keeps_all = insertion_sort-All;
  keeps_length = length-insertion_sort;
}

abbrev four : List Commitment
four =
    record { id = 11; value = 2 }
    ∷ record { id = 12; value = 3 }
    ∷ record { id = 13; value = 5 }
    ∷ record { id = 14; value = 8 }
    ∷ []

abbrev pub stored : ℕ → ℕ → Stored
stored i v = record {
  id = i;
  compressed_zkp_public_key = 1;
  erc_address = 2;
  token_id = 0;
  value = v;
  nullifier = i + 100;
  is_deposited = false;
  is_on_chain = some 3;
  is_pending_nullification = false;
  is_nullified = false;
  is_nullified_on_chain = none;
  block_number = some 9;
  is_commitment_in_transaction = true;
  transaction_hash_committed_l1 = some 7;
  transaction_hash_nullified_l1 = none;
  transaction_hash = none;
  nullifier_circuit_hash = none;
}

abbrev pub fresh : Stored
fresh = record (stored 15 4) {
  is_on_chain = none;
  block_number = none;
  transaction_hash_committed_l1 = none;
}

abbrev pub fee_token : Stored
fee_token = record (stored 16 6) { erc_address = 4 }

abbrev pending : Stored → Stored
pending d = record d { is_pending_nullification = true }

abbrev pub wallet : Collection
wallet = stored 14 8 ∷ stored 11 2 ∷ stored 13 5 ∷ fresh ∷ fee_token ∷ stored 12 3 ∷ []

abbrev picked : Usable
picked = record {
  old_commitments = record { id = 11; value = 2 } ∷ record { id = 13; value = 5 } ∷ [];
  old_commitments_fee = record { id = 16; value = 6 } ∷ [];
}

abbrev reserved : Collection
reserved =
    stored 14 8
    ∷ pending (stored 11 2)
    ∷ pending (stored 13 5)
    ∷ fresh
    ∷ pending fee_token
    ∷ stored 12 3
    ∷ []

find_usable_commitments_test :
    find_usable_commitments insertion_sort wallet 1 2 0 4 7 1 4 3 ≡ ok (picked, reserved)
unfolding find_usable_commitments insertion_sort
find_usable_commitments_test = refl

too_little_test :
    find_usable_commitments insertion_sort wallet 1 2 0 4 17 1 4 3
    ≡ throws no_commitments_cover_value
unfolding find_usable_commitments
too_little_test = refl

find_subset_two_test :
    find_subset_two four 7 ≡ record { id = 11; value = 2 } ∷ record { id = 13; value = 5 } ∷ []
unfolding find_subset_two
find_subset_two_test = refl

find_subset_n_test :
    find_subset_n 3 four 9
    ≡ record { id = 11; value = 2 }
      ∷ record { id = 12; value = 3 }
      ∷ record { id = 13; value = 5 }
      ∷ []
unfolding find_subset_n
find_subset_n_test = refl

four_ascend : Ascending four
four_ascend = (
  (omega arith, (omega arith, (omega arith, tt))),
  ((omega arith, (omega arith, tt)), ((omega arith, tt), (tt, tt))),
)

pub wallet-Unique : Unique wallet
wallet-Unique = (
  (omega arith, (omega arith, (omega arith, (omega arith, (omega arith, tt))))),
  (
    (omega arith, (omega arith, (omega arith, (omega arith, tt)))),
    (
      (omega arith, (omega arith, (omega arith, tt))),
      ((omega arith, (omega arith, tt)), ((omega arith, tt), (tt, tt))),
    ),
  ),
)

found_two : find_subset_n 2 four 7 ≢ []
unfolding find_subset_n
found_two h = absurd (cc)

find_usable_commitments-Funds_example : Funds wallet 1 2 0 4 7 1 4 3 picked reserved
find_usable_commitments-Funds_example =
    find_usable_commitments-Funds insertion_sort wallet 1 2 0 4 7 1 4 3 picked reserved
      insertion_sort-Sorts find_usable_commitments_test

find_usable_commitments-reserves_example :
    get_available_commitments 1 2 0 reserved
    ≡ find (λ d. not (one_of (11 ∷ 13 ∷ 16 ∷ []) d.id)) (get_available_commitments 1 2 0 wallet)
find_usable_commitments-reserves_example =
    find_usable_commitments-reserves insertion_sort wallet 1 2 0 4 7 1 4 3 picked reserved 1 2 0
      wallet-Unique insertion_sort-Sorts find_usable_commitments_test

find_subset_n-Covered_example : Covered 3 four 9 (find_subset_n 3 four 9)
find_subset_n-Covered_example = find_subset_n-Covered 3 four 9 four_ascend

find_subset_two-best_example :
    (7 ≤ total (find_subset_two four 7))
    × (total (find_subset_two four 7) ≤ (at four 1).value + (at four 2).value)
    × (find_subset_two four 7 ≢ [])
find_subset_two-best_example =
    find_subset_two-best four 7 four_ascend 1 2 (omega arith) (omega arith) (omega arith)
      (omega arith) (omega arith)

find_subset_n_finds_example : find_subset_n 3 four 15 ≢ []
find_subset_n_finds_example = find_subset_n_finds 2 four 15 (record {
  ascending = four_ascend;
  long = omega arith;
  enough = unfold top in omega arith;
  fewer = unfold top in omega arith;
})

min_loop-least_example :
    ((min_loop 4 1 0 four 15 ≡ 0) × (top (0 + 4) four < 15))
    ⊎ ((0 < min_loop 4 1 0 four 15)
        × (min_loop 4 1 0 four 15 ≤ 0 + 4)
        × (15 ≤ top (min_loop 4 1 0 four 15) four)
        × (top (min_loop 4 1 0 four 15 - 1) four < 15))
min_loop-least_example = min_loop-least 4 four 15 (omega arith) (omega arith)

select_commitments-Fits_example : Fits 2 3 four 7 (select_commitments insertion_sort four 7 2 3)
select_commitments-Fits_example =
    select_commitments-Fits insertion_sort four 7 2 3 insertion_sort-Sorts four_ascend (omega arith)
      (omega arith) found_two

clear_on_chain-mark_on_chain_example :
    clear_on_chain 5 (mark_on_chain (15 ∷ []) 5 20 77 wallet) ≡ wallet
clear_on_chain-mark_on_chain_example =
    clear_on_chain-mark_on_chain (15 ∷ []) 5 20 77 wallet
      (omega arith, (omega arith, (omega arith, ((refl, refl), (omega arith, (omega arith, tt))))))

clear_nullified_on_chain-mark_nullified_on_chain_example :
    clear_nullified_on_chain 5 (mark_nullified_on_chain (111 ∷ []) 5 20 77 wallet)
    ≡ update_many
        (λ d. one_of (111 ∷ []) d.nullifier && is_unset d.is_nullified_on_chain)
        (λ d. record d { block_number = none })
        wallet
clear_nullified_on_chain-mark_nullified_on_chain_example =
    clear_nullified_on_chain-mark_nullified_on_chain (111 ∷ []) 5 20 77 wallet
      (refl, (refl, (refl, (refl, (refl, (refl, tt))))))
