-- ===== src/BlockChecks/Accepted.antt =====
-- What the answers of `checkBlock` in nightfall-optimist/src/services/check-block.mjs mean.
use nightfall.Common.{
  ℕ, ◌+◌, ◌<◌, ◌≡◌, ◌≢◌, sym, ap, subst, ◌∙◌, inl, inr, some, List, map, get_elem?, arith, eq-cases,
  eq→==, ne→==, Result, ok, throws,
}
use nightfall.BlockAssembler.Mempool.{Transaction}
use nightfall.BlockChecks.Duplicates.{
  Item, block_items, index_of, find_duplicate, Duplicate, item_at, field_at,
  check_duplicates_within_block,
}
use nightfall.BlockChecks.Distinct.{Distinct, Twice, find_duplicate-Distinct, find_duplicate-Twice}
use nightfall.BlockChecks.Places.{block_items-From, values_of-item, located}

-- The values that a check compares.
abbrev pub values_of : (Transaction → List ℕ) → List Transaction → List ℕ
values_of field txs = map (λ (item : Item). item.value) (block_items field 0 txs)

-- Two different places of the block hold one value, other than zero, and the metadata are about them:
-- they name the transaction of each, and a position in its field that holds the value.
pub record Genuine (field : Transaction → List ℕ) (txs : List Transaction) (d : Duplicate)
    : Type 0 where
  pub value : ℕ
  pub not_zero : value ≢ 0
  pub place1 : ℕ
  pub place2 : ℕ
  pub differ : place1 < place2
  pub item1 :
      get_elem? (block_items field 0 txs) place1
      ≡ some (record { transaction_index = d.transaction1_index; value = value })
  pub item2 :
      get_elem? (block_items field 0 txs) place2
      ≡ some (record { transaction_index = d.transaction2_index; value = value })
  pub first : get_elem? (field_at field txs d.transaction1_index) d.duplicate1_index ≡ some value
  pub second : get_elem? (field_at field txs d.transaction2_index) d.duplicate2_index ≡ some value

pub at_start : (values : List ℕ) (k : ℕ) → get_elem? values k ≡ get_elem? values (0 + k)
at_start values k = ap (get_elem? values) (zero_add k)
  where
    zero_add : (a : ℕ) → a ≡ 0 + a
    zero_add a = omega arith

-- If a check for duplicates passes, no value of the block, other than zero, stands in it twice.
pub check_duplicates_within_block-Distinct :
    (field : Transaction → List ℕ) (txs : List Transaction)
    → check_duplicates_within_block field txs ≡ ok tt
    → Distinct (values_of field txs)
unfolding check_duplicates_within_block
check_duplicates_within_block-Distinct field txs h =
    elim (eq-cases (find_duplicate (values_of field txs) 0 (values_of field txs)).1 0) [
      | inl e ↦
          find_duplicate-Distinct (values_of field txs) 0 (values_of field txs)
            (at_start (values_of field txs)) e
      | inr ne ↦ absurd (
          cc
            (rw (ne→== (find_duplicate (values_of field txs) 0 (values_of field txs)).1 0 ne) at h))
    ]

thrown : (d e : Duplicate) → ◌≡◌ {A = Result Duplicate (Unit {0})} (throws d) (throws e) → d ≡ e
thrown d e h = cc

-- The metadata for two positions of one value.
abbrev metadata : (Transaction → List ℕ) → List Transaction → ℕ × ℕ → Duplicate
metadata field txs found =
    let items = block_items field 0 txs in
    let item1 = item_at items found.0 in
    let item2 = item_at items found.1 in
    record {
      transaction1_index = item1.transaction_index;
      duplicate1_index = index_of item1.value (field_at field txs item1.transaction_index);
      transaction2_index = item2.transaction_index;
      duplicate2_index = index_of item1.value (field_at field txs item2.transaction_index);
    }

metadata-Genuine :
    (field : Transaction → List ℕ) (txs : List Transaction) (found : ℕ × ℕ)
    → Twice (values_of field txs) found
    → Genuine field txs (metadata field txs found)
metadata-Genuine field txs found (x, lt, at1, at2) =
    let items : List Item = block_items field 0 txs in
    let (there1, is1) = values_of-item found.0 x items at1 in
    let (there2, is2) = values_of-item found.1 x items at2 in
    let from1 = block_items-From field 0 found.0 txs (item_at items found.0) there1 in
    let from2 = block_items-From field 0 found.1 txs (item_at items found.1) there2 in
    record {
      value = (item_at items found.0).value;
      not_zero = from1.not_zero;
      place1 = found.0;
      place2 = found.1;
      differ = lt;
      item1 = there1;
      item2 =
          there2
          ∙ ap
              (λ v. some (record {
                transaction_index = (item_at items found.1).transaction_index;
                value = v;
              }))
              (is2 ∙ sym is1);
      first = located field txs (item_at items found.0) from1;
      second =
          subst
            (λ v.
              get_elem? (field_at field txs (item_at items found.1).transaction_index)
                (index_of v (field_at field txs (item_at items found.1).transaction_index))
              ≡ some v)
            (is2 ∙ sym is1) (located field txs (item_at items found.1) from2);
    }

-- If a check for duplicates throws, there are two different places in the list of the block's
-- commitments or nullifiers other than zero that hold the same value; the metadata of its error name
-- the transactions of these places, and in each a position that holds the value.
pub check_duplicates_within_block-Genuine :
    (field : Transaction → List ℕ) (txs : List Transaction) (d : Duplicate)
    → check_duplicates_within_block field txs ≡ throws d
    → Genuine field txs d
unfolding check_duplicates_within_block
check_duplicates_within_block-Genuine field txs d h =
    elim (eq-cases (find_duplicate (values_of field txs) 0 (values_of field txs)).1 0) [
      | inl e ↦ absurd (
          cc (rw (eq→== (find_duplicate (values_of field txs) 0 (values_of field txs)).1 0 e) at h))
      | inr ne ↦
          let values : List ℕ = values_of field txs in
          let twice = find_duplicate-Twice values 0 values (at_start values) ne in
          subst (Genuine field txs)
            (thrown _ d (
              rw (ne→== (find_duplicate (values_of field txs) 0 (values_of field txs)).1 0 ne) at
                h))
            (metadata-Genuine field txs (find_duplicate values 0 values) twice)
    ]
