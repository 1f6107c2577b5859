-- ===== src/BlockChecks/Places.antt =====
-- Where the values stand that the checks for duplicates of
-- nightfall-optimist/src/services/check-block.mjs compare.
use nightfall.Common.{
  ℕ, zero, suc, ◌+◌, ◌≡◌, ◌≢◌, refl, sym, ap, subst, ◌∙◌, ◌⊎◌, inl, inr, Option, some, List, [],
  ◌∷◌, ◌++◌, map, get_elem?, arith, eq-cases, eq→==, ne→==,
}
use nightfall.BlockAssembler.Mempool.{Transaction}
use nightfall.BlockChecks.Duplicates.{
  Item, tag, nonzero, block_items, index_of, item_at, field_of, field_at,
}
use nightfall.BlockChecks.Positions.{index_of_lem}

nonzero_at :
    (v d : ℕ) (vs : List ℕ)
    → get_elem? (nonzero vs) d ≡ some v
    → (v ≢ 0) × (e : ℕ) × (get_elem? vs e ≡ some v)
unfolding nonzero
nonzero_at v d [] h = absurd (cc)
nonzero_at v d (w ∷ vs) h = elim (eq-cases w 0) [
  | inl e ↦ let (ne, k, at) = nonzero_at v d vs (rw (eq→== w 0 e) at h) in (ne, suc k, at)
  | inr ne ↦ first_or_later d ne (rw (ne→== w 0 ne) at h) (λ d'. nonzero_at v d' vs)
]
  where
    same_value : ◌≡◌ {A = Option ℕ} (some w) (some v) → w ≡ v
    same_value h = cc

    first_or_later :
        (d : ℕ)
        → w ≢ 0
        → get_elem? (w ∷ nonzero vs) d ≡ some v
        → ((d' : ℕ)
            → get_elem? (nonzero vs) d' ≡ some v
            → (v ≢ 0) × (e : ℕ) × (get_elem? vs e ≡ some v))
        → (v ≢ 0) × (e : ℕ) × (get_elem? (w ∷ vs) e ≡ some v)
    first_or_later zero ne h rest = ((λ e. ne (same_value h ∙ e)), 0, h)
    first_or_later (suc d) ne h rest = let (pos, k, at) = rest d h in (pos, suc k, at)

-- A value of the block belongs to the transaction of its index.
pub record From (field : Transaction → List ℕ) (i : ℕ) (txs : List Transaction) (item : Item)
    : Type 0 where
  n : ℕ
  tx : Transaction
  d : ℕ
  index : item.transaction_index ≡ i + n
  there : get_elem? txs n ≡ some tx
  here : get_elem? (field tx) d ≡ some item.value
  pub not_zero : item.value ≢ 0

tagged_at :
    (i k : ℕ) (vs : List ℕ) (items : List Item) (item : Item)
    → get_elem? (map (tag i) vs ++ items) k ≡ some item
    → ((d : ℕ) × (get_elem? vs d ≡ some item.value) × (item.transaction_index ≡ i))
      ⊎ ((k' : ℕ) × (get_elem? items k' ≡ some item))
tagged_at i k [] items item h = inr (k, h)
tagged_at i zero (v ∷ vs) items item h =
    let same : tag i v ≡ item = cc in
    inl (
      0,
      ap (λ (it : Item). some it.value) same,
      sym (ap (λ (it : Item). it.transaction_index) same),
    )
tagged_at i (suc k) (v ∷ vs) items item h = elim (tagged_at i k vs items item h) [
  | inl (d, at, same) ↦ inl (suc d, at, same)
  | inr rest ↦ inr rest
]

pub block_items-From :
    (field : Transaction → List ℕ) (i k : ℕ) (txs : List Transaction) (item : Item)
    → get_elem? (block_items field i txs) k ≡ some item
    → From field i txs item
unfolding block_items
block_items-From field i k [] item h = absurd (cc)
block_items-From field i k (tx ∷ txs) item h =
    elim (tagged_at i k (nonzero (field tx)) (block_items field (suc i) txs) item h) [
      | inl (d, at, same) ↦
          let (pos, e, place) = nonzero_at item.value d (field tx) at in
          record {
            n = 0;
            tx = tx;
            d = e;
            index = same ∙ add_zero i;
            there = refl;
            here = place;
            not_zero = pos;
          }
      | inr (k', at) ↦
          let rest = block_items-From field (suc i) k' txs item at in
          record {
            n = suc rest.n;
            tx = rest.tx;
            d = rest.d;
            index = rest.index ∙ suc_add i rest.n;
            there = rest.there;
            here = rest.here;
            not_zero = rest.not_zero;
          }
    ]
  where
    add_zero : (a : ℕ) → a ≡ a + 0
    add_zero a = omega arith

    suc_add : (a b : ℕ) → suc a + b ≡ a + suc b
    suc_add a b = omega arith

pub values_of-item :
    (k x : ℕ) (items : List Item)
    → get_elem? (map (λ (item : Item). item.value) items) k ≡ some x
    → (get_elem? items k ≡ some (item_at items k)) × ((item_at items k).value ≡ x)
values_of-item k x [] h = absurd (cc)
values_of-item zero x (item ∷ items) h = (refl, cc)
values_of-item (suc k) x (item ∷ items) h = values_of-item k x items h

-- `indexOf` finds a value of the block in its transaction.
pub located :
    (field : Transaction → List ℕ) (txs : List Transaction) (item : Item)
    → From field 0 txs item
    → get_elem?
        (field_at field txs item.transaction_index)
        (index_of item.value (field_at field txs item.transaction_index))
      ≡ some item.value
located field txs item from =
    let same : field_at field txs item.transaction_index ≡ field from.tx =
      ap (field_at field txs) (from.index ∙ zero_add from.n) ∙ ap (field_of field) from.there in
    subst (λ vs. get_elem? vs (index_of item.value vs) ≡ some item.value) (sym same)
      (index_of_lem item.value from.d (field from.tx) from.here)
  where
    zero_add : (a : ℕ) → 0 + a ≡ a
    zero_add a = omega arith
