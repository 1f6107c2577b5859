-- ===== src/BlockChecks/Duplicates.antt =====
-- `checkDuplicateCommitmentsWithinBlock` and `checkDuplicateNullifiersWithinBlock` of
-- nightfall-optimist/src/services/check-block.mjs, which differ only in the field they read.
use nightfall.Common.{
  ℕ, suc, Option, none, some, List, [], ◌∷◌, ◌++◌, map, get_elem?, ◌==◌, if◌then◌else◌, Result, ok,
  throws,
}
use nightfall.BlockAssembler.Mempool.{Transaction}

-- A commitment or a nullifier of the block, with the index of its transaction.
pub record Item : Type 0 where
  pub transaction_index : ℕ
  pub value : ℕ

-- `filter(c => c !== ZERO)`
unfoldable pub nonzero : List ℕ → List ℕ
nonzero [] = []
nonzero (v ∷ vs) = let rest = nonzero vs in if v == 0 then rest else v ∷ rest

abbrev pub tag : ℕ → ℕ → Item
tag i v = record { transaction_index = i; value = v }

-- `blockCommitments`, from the transaction `i` on.
unfoldable pub block_items : (Transaction → List ℕ) → ℕ → List Transaction → List Item
unfolding nonzero
block_items field i [] = []
block_items field i (tx ∷ txs) = map (tag i) (nonzero (field tx)) ++ block_items field (suc i) txs

-- `lastIndexOf`, with `none` for -1; `i` is the position of the list's head.
unfoldable pub last_index_of : ℕ → ℕ → List ℕ → Option ℕ
last_index_of x i [] = none
last_index_of x i (y ∷ ys) = elim (last_index_of x (suc i) ys) [
  | some j ↦ some j
  | none ↦ if y == x then some i else none
]

-- `indexOf`, with the length for -1.
unfoldable pub index_of : ℕ → List ℕ → ℕ
index_of x [] = 0
index_of x (y ∷ ys) = let rest = index_of x ys in if y == x then 0 else suc rest

-- One round of the loop: `break` with both indices, or go on.
abbrev pub break_or : ℕ × ℕ → ℕ → Option ℕ → ℕ × ℕ
break_or rest index none = rest
break_or rest index (some last_index) = if index == last_index then rest else (index, last_index)

-- The loop: `index1` and `index2`, both 0 if every value is the last of its kind.
unfoldable pub find_duplicate : List ℕ → ℕ → List ℕ → ℕ × ℕ
unfolding last_index_of
find_duplicate values index [] = (0, 0)
find_duplicate values index (x ∷ xs) =
    break_or (find_duplicate values (suc index) xs) index (last_index_of x 0 values)

-- The metadata of the error.
pub record Duplicate : Type 0 where
  pub transaction1_index : ℕ
  pub duplicate1_index : ℕ
  pub transaction2_index : ℕ
  pub duplicate2_index : ℕ

abbrev pub item_at : List Item → ℕ → Item
item_at items i = elim (get_elem? items i) [ none ↦ tag 0 0 | some item ↦ item ]

abbrev pub field_of : (Transaction → List ℕ) → Option Transaction → List ℕ
field_of field none = []
field_of field (some tx) = field tx

-- `transactions[i].commitments`, or the nullifiers.
abbrev pub field_at : (Transaction → List ℕ) → List Transaction → ℕ → List ℕ
field_at field txs i = field_of field (get_elem? txs i)

unfoldable pub check_duplicates_within_block :
    (Transaction → List ℕ) → List Transaction → Result Duplicate (Unit {0})
unfolding block_items index_of find_duplicate
check_duplicates_within_block field txs =
    let items = block_items field 0 txs in
    let values = map (λ (item : Item). item.value) items in
    let found = find_duplicate values 0 values in
    let item1 = item_at items found.0 in
    let item2 = item_at items found.1 in
    if found.1 == 0
    then ok tt
    else throws (record {
      transaction1_index = item1.transaction_index;
      duplicate1_index = index_of item1.value (field_at field txs item1.transaction_index);
      transaction2_index = item2.transaction_index;
      duplicate2_index = index_of item1.value (field_at field txs item2.transaction_index);
    })
