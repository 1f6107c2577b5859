-- ===== src/CommitmentInfo/Request.antt =====
-- What `getCommitmentInfo` of nightfall-client/src/utils/getCommitmentInfo.mjs is asked for, and the
-- amounts it derives from that before it looks at a commitment.
use nightfall.Common.{
  ℕ, ◌+◌, ◌-◌, Option, none, some, List, Bool, true, not, ltb, ◌==◌, if◌then◌else◌, ℤ, pos, ◌-ℤ◌,
}

-- An address is a number, `hex(32)` its text. `provided` and `provided_fee` are hashes.
pub record Request : Type 0 where
  pub compressed_zkp_public_key : ℕ
  pub zkp_public_key : ℕ
  pub total_value_to_send : ℕ
  pub fee : ℕ
  pub recipients : List ℕ
  pub erc_address : ℕ
  pub fee_address : ℕ
  pub token_id : ℕ
  pub provided : List ℕ
  pub provided_fee : List ℕ
  pub max_nullifiers : ℕ
  pub max_non_fee : Option ℕ

unfoldable pub added_fee : Request → ℕ
added_fee r = if r.fee_address == r.erc_address then r.fee else 0

-- `maxNonFeeNullifiers === undefined || maxNonFeeNullifiers !== 0`
abbrev pub looks_for_value : Option ℕ → Bool
looks_for_value none = true
looks_for_value (some n) = not (n == 0)

unfoldable pub asked_value : Request → ℕ
unfolding added_fee
asked_value r =
    if looks_for_value r.max_non_fee
    then r.total_value_to_send + added_fee r
    else r.total_value_to_send

-- The added fee is the fee or 0.
unfoldable pub asked_fee : Request → ℕ
unfolding added_fee
asked_fee r = if looks_for_value r.max_non_fee then r.fee - added_fee r else r.fee

-- A number, since without a slot the slot for the fee takes it below 0.
unfoldable pub asked_non_fee : Request → ℤ
unfolding asked_fee
asked_non_fee r = elim r.max_non_fee [
  | none ↦ if ltb 0 (asked_fee r) then pos r.max_nullifiers -ℤ pos 1 else pos r.max_nullifiers
  | some n ↦ pos n
]
