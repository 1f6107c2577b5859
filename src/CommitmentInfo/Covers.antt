-- ===== src/CommitmentInfo/Covers.antt =====
-- No output of `getCommitmentInfo` in nightfall-client/src/utils/getCommitmentInfo.mjs is below zero.
use nightfall.Common.{
  ℕ, ◌+◌, ◌-◌, ◌≤◌, ◌≡◌, refl, sym, ap, subst, ◌∙◌, List, [], ◌∷◌, ◌++◌, Bool-cases, inl, inr,
  arith, ok, ℤ, pos, below, ◌-ℤ◌, difference-pos,
}
use nightfall.Commitments.Values.{total}
use nightfall.Commitments.Store.{Collection}
use nightfall.Commitments.Usable.{mark_all_pending, Usable}
use nightfall.Commitments.Selection.{Sorts}
use nightfall.CommitmentInfo.Request.{Request, added_fee}
use nightfall.CommitmentInfo.Provided.{wanted}
use nightfall.CommitmentInfo.Inputs.{with_given}
use nightfall.CommitmentInfo.Outputs.{
  Output, is_zero, change, change_fee, sent, change_output, outputs,
}
use nightfall.CommitmentInfo.Info.{Environment, Info, to_info, get_commitment_info}
use nightfall.CommitmentInfo.Checks.{validate_provided-Provides}
use nightfall.CommitmentInfo.Restores.{find_inputs-Funds}
use nightfall.CommitmentInfo.Returned.{get_commitment_info-Returned, values_out, unsalted}
use nightfall.CommitmentInfo.Paid.{Payable, value_paid, fee_paid}

-- No value is below zero.
abbrev pub NotNegative : List Output → Type 0
NotNegative [] = Unit {0}
NotNegative (o ∷ os) = (below o.value ≡ 0) × NotNegative os

NotNegative-append :
    (xs ys : List Output) → NotNegative xs → NotNegative ys → NotNegative (xs ++ ys)
NotNegative-append [] ys all all' = all'
NotNegative-append (x ∷ xs) ys (p, all) all' = (p, NotNegative-append xs ys all all')

module _ (r : Request) where
  sent-NotNegative :
      (recipients : List ℕ) → NotNegative (sent (record r { recipients = recipients }))
  unfolding sent
  sent-NotNegative [] = tt
  sent-NotNegative (k ∷ ks) = (refl, sent-NotNegative ks)

  change_output-NotNegative :
      (z : ℤ) (address token_id : ℕ)
      → below z ≡ 0
      → NotNegative (change_output r z address token_id)
  unfolding change_output
  change_output-NotNegative z address token_id h = elim (Bool-cases (is_zero z)) [
    | inl t ↦ rw t tt
    | inr f ↦ rw f (h, tt)
  ]

  below-sub : (m n : ℕ) → n ≤ m → below (pos m -ℤ pos n) ≡ 0
  below-sub m n le = ap below (difference-pos (m + 0) (0 + n) (omega arith))

  outputs-NotNegative :
      (inputs : Usable)
      → r.total_value_to_send + added_fee r ≤ total inputs.old_commitments
      → r.fee - added_fee r ≤ total inputs.old_commitments_fee
      → NotNegative (outputs r inputs)
  unfolding outputs change change_fee
  outputs-NotNegative inputs paid paid_fee =
      NotNegative-append (sent r)
        (change_output r (change r inputs) r.erc_address r.token_id
          ++ change_output r (change_fee r inputs) r.fee_address 0)
        (sent-NotNegative r.recipients)
        (NotNegative-append (change_output r (change r inputs) r.erc_address r.token_id)
          (change_output r (change_fee r inputs) r.fee_address 0)
          (change_output-NotNegative (change r inputs) r.erc_address r.token_id
            (below-sub _ _ paid))
          (change_output-NotNegative (change_fee r inputs) r.fee_address 0
            (below-sub _ _ paid_fee)))

-- For every sort that permutes, no output with which `getCommitmentInfo` returns is below zero if the
-- token is not the fee's, or nothing is provided, and if commitments for the value may be chosen, or
-- the token is not the fee's and there is no value.
pub get_commitment_info-NotNegative :
    (env : Environment) (r : Request) (ds : Collection) (info : Info)
    → Sorts env.sort
    → Payable r
    → (get_commitment_info env r ds).0 ≡ ok info
    → NotNegative (values_out info.new_commitments)
unfolding to_info with_given
get_commitment_info-NotNegative env r ds info sorts payable h =
    let returned = get_commitment_info-Returned env r ds info h in
    let given = returned.given in
    let given_fee = returned.given_fee in
    let usable = returned.usable in
    let marked = mark_all_pending (given ++ given_fee) ds in
    let (provides, provides_fee) = validate_provided-Provides r ds given given_fee returned.valid in
    let (n, room, funds) =
      find_inputs-Funds env.sort r (wanted r given given_fee) marked usable _ sorts
        returned.found in
    subst NotNegative
      (sym (
        ap (λ (i : Info). values_out i.new_commitments) returned.made
        ∙ unsalted env.salt 0 (outputs r (with_given usable given given_fee))))
      (outputs-NotNegative r (with_given usable given given_fee)
        (value_paid r payable given given_fee _ _ provides provides_fee marked usable _ n room
          funds)
        (fee_paid r payable given given_fee _ _ provides provides_fee marked usable _ n funds))
