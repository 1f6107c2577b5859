-- ===== src/CommitmentInfo/Info.antt =====
-- `getCommitmentInfo` of nightfall-client/src/utils/getCommitmentInfo.mjs as a whole. The store is
-- passed along: a call gives a result or an error, and the collection after it.
use nightfall.Common.{
  ℕ, suc, Option, none, some, List, [], ◌∷◌, ◌++◌, map, reverse, Bool, not, ◌==◌, if◌then◌else◌,
  Result, ok, throws, ◌>>=◌,
}
use nightfall.Commitments.Values.{Commitment}
use nightfall.Commitments.Store.{Stored, Collection}
use nightfall.Commitments.Usable.{Error, Usable, Sort, mark_all_pending}
use nightfall.CommitmentInfo.Request.{Request}
use nightfall.CommitmentInfo.Provided.{
  InfoError, not_usable, no_sibling_info, validate_provided, wanted,
}
use nightfall.CommitmentInfo.Inputs.{clear_all_pending, find_inputs, with_given}
use nightfall.CommitmentInfo.Outputs.{Output, outputs, change, change_fee, is_zero}

-- The fields of a document that `Stored` leaves out: where the commitment is in the tree.
pub record TreeFields : Type 0 where
  pub path : List ℕ
  pub root : ℕ
  pub leaf_index : ℕ

pub record TreeInfo : Type 0 where
  pub local_sibling_path : List ℕ
  pub leaf_index : ℕ
  pub block_number_l2 : Option ℕ
  pub root : ℕ

pub record Info : Type 0 where
  pub old_commitments : List Commitment
  pub nullifiers : List ℕ
  pub new_commitments : List (Output × ℕ)
  pub tree_info : List TreeInfo
  pub has_change : Bool
  pub has_change_fee : Bool

-- `findOne({ _id: id })`
unfoldable pub find_one : ℕ → Collection → Option Stored
find_one id [] = none
find_one id (d ∷ ds) = let rest = find_one id ds in if d.id == id then some d else rest

-- The values that a randomness source, a hash and the collection's other fields give.
pub record Environment : Type 0 where
  pub sort : Sort
  pub salt : ℕ → ℕ
  pub nullifier : Commitment → ℕ
  pub fields : Stored → Option TreeFields

-- `getSiblingInfo`, and what is made of it. A path that is not there is an exception.
abbrev pub to_tree_info : Stored → Option TreeFields → Result InfoError TreeInfo
to_tree_info d none = throws no_sibling_info
to_tree_info d (some fields) = ok (record {
  local_sibling_path = fields.root ∷ reverse fields.path;
  leaf_index = fields.leaf_index;
  block_number_l2 = d.is_on_chain;
  root = fields.root;
})

abbrev pub stored_tree_info :
    (Stored → Option TreeFields) → Option Stored → Result InfoError TreeInfo
stored_tree_info fields none = throws no_sibling_info
stored_tree_info fields (some d) = to_tree_info d (fields d)

unfoldable pub tree_infos :
    (Stored → Option TreeFields) → List Commitment → Collection → Result InfoError (List TreeInfo)
unfolding find_one
tree_infos fields [] ds = ok []
tree_infos fields (c ∷ cs) ds = do
  info ← stored_tree_info fields (find_one c.id ds)
  rest ← tree_infos fields cs ds
  ok (info ∷ rest)

-- Each output with its salt, the first one's being number `i`.
unfoldable pub salted : (ℕ → ℕ) → ℕ → List Output → List (Output × ℕ)
salted salt i [] = []
salted salt i (o ∷ os) = (o, salt i) ∷ salted salt (suc i) os

unfoldable pub to_info : Environment → Request → Usable → List TreeInfo → Info
unfolding outputs salted change change_fee
to_info env r inputs infos = record {
  old_commitments = inputs.old_commitments ++ inputs.old_commitments_fee;
  nullifiers = map env.nullifier (inputs.old_commitments ++ inputs.old_commitments_fee);
  new_commitments = salted env.salt 0 (outputs r inputs);
  tree_info = infos;
  has_change = not (is_zero (change r inputs));
  has_change_fee = not (is_zero (change_fee r inputs));
}

-- The `catch`: what was marked pending is cleared.
abbrev pub or_clear {ℓ} :
    {A : Type ℓ}
    → List Commitment
    → Collection
    → Result InfoError A
    → Result InfoError A × Collection
or_clear spent ds (ok a) = (ok a, ds)
or_clear spent ds (throws e) = (throws e, clear_all_pending spent ds)

-- From the choice of the inputs on.
abbrev pub spend :
    Environment
    → Request
    → List Commitment
    → List Commitment
    → Collection
    → Result Error (Usable × Collection)
    → Result InfoError Info × Collection
spend env r given given_fee ds (throws e) = or_clear (given ++ given_fee) ds (throws (not_usable e))
spend env r given given_fee ds (ok (usable, ds')) =
    let inputs = with_given usable given given_fee in
    or_clear ((given ++ given_fee) ++ (usable.old_commitments ++ usable.old_commitments_fee)) ds'
      (do
        infos ← tree_infos env.fields (inputs.old_commitments ++ inputs.old_commitments_fee) ds'
        ok (to_info env r inputs infos))

abbrev pub mark_and_spend :
    Environment
    → Request
    → Collection
    → Result InfoError (List Commitment × List Commitment)
    → Result InfoError Info × Collection
mark_and_spend env r ds (throws e) = or_clear [] ds (throws e)
mark_and_spend env r ds (ok (given, given_fee)) =
    let ds' = mark_all_pending (given ++ given_fee) ds in
    spend env r given given_fee ds' (find_inputs env.sort r (wanted r given given_fee) ds')

unfoldable pub get_commitment_info :
    Environment → Request → Collection → Result InfoError Info × Collection
unfolding validate_provided find_inputs wanted tree_infos with_given to_info mark_all_pending
    clear_all_pending
get_commitment_info env r ds = mark_and_spend env r ds (validate_provided r ds)
