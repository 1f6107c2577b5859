-- ===== src/CommitmentInfo/Outputs.antt =====
-- The output commitments of `getCommitmentInfo` in
-- nightfall-client/src/utils/getCommitmentInfo.mjs, with the change.
use nightfall.Common.{
  ℕ, ◌+◌, ◌-◌, List, [], ◌∷◌, ◌++◌, map, Bool, false, ◌==◌, if◌then◌else◌, ℤ, pos, negsuc, ◌+ℤ◌,
  ◌-ℤ◌,
}
use nightfall.Commitments.Values.{total}
use nightfall.Commitments.Usable.{Usable}
use nightfall.CommitmentInfo.Request.{Request, added_fee}

-- An entry of the arrays of recipients, values, addresses and token ids.
pub record Output : Type 0 where
  pub zkp_public_key : ℕ
  pub value : ℤ
  pub erc_address : ℕ
  pub token_id : ℕ

abbrev pub is_zero : ℤ → Bool
is_zero (pos n) = n == 0
is_zero (negsuc n) = false

unfoldable pub change : Request → Usable → ℤ
unfolding added_fee
change r inputs = pos (total inputs.old_commitments) -ℤ pos (r.total_value_to_send + added_fee r)

-- The added fee is the fee or 0.
unfoldable pub change_fee : Request → Usable → ℤ
unfolding added_fee
change_fee r inputs = pos (total inputs.old_commitments_fee) -ℤ pos (r.fee - added_fee r)

unfoldable pub sent : Request → List Output
sent r =
    map
      (λ recipient. record {
        zkp_public_key = recipient;
        value = pos r.total_value_to_send;
        erc_address = r.erc_address;
        token_id = r.token_id;
      })
      r.recipients

-- Change is an output to the sender unless it is 0.
unfoldable pub change_output : Request → ℤ → ℕ → ℕ → List Output
change_output r amount address token_id =
    if is_zero amount
    then []
    else record {
      zkp_public_key = r.zkp_public_key;
      value = amount;
      erc_address = address;
      token_id = token_id;
    }
      ∷ []

unfoldable pub outputs : Request → Usable → List Output
unfolding sent change_output change change_fee
outputs r inputs =
    sent r
    ++ (change_output r (change r inputs) r.erc_address r.token_id
        ++ change_output r (change_fee r inputs) r.fee_address 0)

-- The sum of what goes out.
abbrev pub total_out : List Output → ℤ
total_out [] = pos 0
total_out (o ∷ os) = o.value +ℤ total_out os
