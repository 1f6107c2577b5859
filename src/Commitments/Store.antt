-- ===== src/Commitments/Store.antt =====
-- The commitments collection of nightfall-client/src/services/commitment-storage.mjs, and the
-- queries and updates on it. A document is a record, the collection the list of its documents.
use nightfall.Common.{
  ℕ, Option, none, some, List, [], ◌∷◌, length, Bool, true, false, not, ◌&&◌, ◌||◌, ◌==◌, leb,
  if◌then◌else◌,
}

-- `none` in `is_on_chain`, `is_nullified_on_chain` and `block_number` is -1, in the hashes null.
pub record Stored : Type 0 where
  pub id : ℕ
  pub compressed_zkp_public_key : ℕ
  pub erc_address : ℕ
  pub token_id : ℕ
  pub value : ℕ
  pub nullifier : ℕ
  pub is_deposited : Bool
  pub is_on_chain : Option ℕ
  pub is_pending_nullification : Bool
  pub is_nullified : Bool
  pub is_nullified_on_chain : Option ℕ
  pub block_number : Option ℕ
  pub is_commitment_in_transaction : Bool
  pub transaction_hash_committed_l1 : Option ℕ
  pub transaction_hash_nullified_l1 : Option ℕ
  pub transaction_hash : Option ℕ
  pub nullifier_circuit_hash : Option ℕ

abbrev pub Collection : Type 0
Collection = List Stored

-- `updateMany(query, update)`
unfoldable pub update_many : (Stored → Bool) → (Stored → Stored) → Collection → Collection
update_many query update [] = []
update_many query update (d ∷ ds) = (if query d then update d else d) ∷ update_many query update ds

-- `updateOne(query, update)`: the first document that matches.
unfoldable pub update_one : (Stored → Bool) → (Stored → Stored) → Collection → Collection
update_one query update [] = []
update_one query update (d ∷ ds) =
    let rest = update_one query update ds in if query d then update d ∷ ds else d ∷ rest

-- `find(query)`
unfoldable pub find : (Stored → Bool) → Collection → Collection
find query [] = []
find query (d ∷ ds) = let rest = find query ds in if query d then d ∷ rest else rest

-- `{ $in: xs }`
unfoldable pub one_of : List ℕ → ℕ → Bool
one_of [] x = false
one_of (y ∷ ys) x = y == x || one_of ys x

-- `{ $eq: -1 }` and `{ $gte: n }`, on a number that -1 stands for none of.
abbrev pub is_unset : Option ℕ → Bool
is_unset none = true
is_unset (some n) = false

abbrev pub at_least : ℕ → Option ℕ → Bool
at_least n none = false
at_least n (some m) = leb n m

unfoldable pub count_commitments : List ℕ → Collection → ℕ
unfolding find one_of
count_commitments commitments ds = length (find (λ d. one_of commitments d.id) ds)

unfoldable pub mark_on_chain : List ℕ → ℕ → ℕ → ℕ → Collection → Collection
unfolding update_many one_of
mark_on_chain commitments block_number_l2 block_number hash =
    update_many (λ d. one_of commitments d.id && is_unset d.is_on_chain)
      (λ d. record d {
        is_on_chain = some block_number_l2;
        block_number = some block_number;
        transaction_hash_committed_l1 = some hash;
      })

unfoldable pub mark_pending : ℕ → Collection → Collection
unfolding update_one
mark_pending commitment =
    update_one (λ d. d.id == commitment) (λ d. record d { is_pending_nullification = true })

unfoldable pub clear_pending : ℕ → Collection → Collection
unfolding update_one
clear_pending commitment =
    update_one (λ d. d.id == commitment) (λ d. record d { is_pending_nullification = false })

unfoldable pub mark_nullified : ℕ → ℕ → ℕ → Collection → Collection
unfolding update_one
mark_nullified commitment circuit_hash transaction_hash =
    update_one (λ d. d.id == commitment)
      (λ d. record d {
        is_pending_nullification = false;
        is_nullified = true;
        nullifier_circuit_hash = some circuit_hash;
        transaction_hash = some transaction_hash;
      })

unfoldable pub mark_nullified_on_chain : List ℕ → ℕ → ℕ → ℕ → Collection → Collection
unfolding update_many one_of
mark_nullified_on_chain nullifiers block_number_l2 block_number hash =
    update_many (λ d. one_of nullifiers d.nullifier && is_unset d.is_nullified_on_chain)
      (λ d. record d {
        is_nullified_on_chain = some block_number_l2;
        block_number = some block_number;
        transaction_hash_nullified_l1 = some hash;
      })

unfoldable pub clear_nullified_on_chain : ℕ → Collection → Collection
unfolding update_many
clear_nullified_on_chain block_number_l2 =
    update_many (λ d. at_least block_number_l2 d.is_nullified_on_chain)
      (λ d. record d {
        is_nullified_on_chain = none;
        block_number = none;
        transaction_hash_nullified_l1 = none;
      })

unfoldable pub clear_nullifiers : List ℕ → Collection → Collection
unfolding update_many one_of
clear_nullifiers nullifiers =
    update_many (λ d. one_of nullifiers d.nullifier && d.is_nullified)
      (λ d. record d { is_nullified = false })

unfoldable pub clear_on_chain : ℕ → Collection → Collection
unfolding update_many
clear_on_chain block_number_l2 =
    update_many (λ d. at_least block_number_l2 d.is_on_chain)
      (λ d. record d {
        is_on_chain = none;
        block_number = none;
        transaction_hash_committed_l1 = none;
      })

-- Deposited commitments stay, and are no longer in a transaction.
unfoldable pub delete_commitments : List ℕ → Collection → Collection
unfolding find update_many one_of
delete_commitments commitments ds =
    update_many (λ d. one_of commitments d.id && d.is_deposited)
      (λ d. record d { is_commitment_in_transaction = false })
      (find (λ d. not (one_of commitments d.id && not d.is_deposited)) ds)

-- The query of `getAvailableCommitments`.
unfoldable pub is_available : ℕ → ℕ → ℕ → Stored → Bool
is_available key erc_address token_id d =
    d.compressed_zkp_public_key == key
    && d.erc_address == erc_address
    && d.token_id == token_id
    && not d.is_nullified
    && not d.is_pending_nullification

unfoldable pub get_available_commitments : ℕ → ℕ → ℕ → Collection → Collection
unfolding find is_available
get_available_commitments key erc_address token_id = find (is_available key erc_address token_id)

unfoldable pub get_commitments_available_by_hash : List ℕ → ℕ → Collection → Collection
unfolding find one_of
get_commitments_available_by_hash hashes key = find (λ d.
    one_of hashes d.id
    && d.compressed_zkp_public_key == key
    && not d.is_pending_nullification
    && is_unset d.is_nullified_on_chain)

unfoldable pub get_commitments_deposited_rollbacked : ℕ → Collection → Collection
unfolding find
get_commitments_deposited_rollbacked key = find (λ d.
    d.compressed_zkp_public_key == key
    && not d.is_commitment_in_transaction
    && is_unset d.is_on_chain
    && d.is_deposited)
