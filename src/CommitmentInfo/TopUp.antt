-- ===== src/CommitmentInfo/TopUp.antt =====
-- What `getCommitmentInfo` of nightfall-client/src/utils/getCommitmentInfo.mjs does where the token is
-- the fee's and the commitments that are provided do not cover both.
use nightfall.Common.{
  ◌+◌, ◌<◌, ◌≡◌, ◌≢◌, refl, sym, ap, subst, ◌∙◌, List, ◌++◌, length, length-append, leb, lt→ltb,
  leb→le, Bool-cases, inl, inr, eq→==, true, arith, ok, Bool, ◌&&◌, pos, above, below, ◌-ℤ◌,
  difference_lem, ok-injective,
}
use nightfall.Commitments.Values.{Commitment, total}
use nightfall.Commitments.Store.{Collection}
use nightfall.Commitments.Usable.{mark_all_pending}
use nightfall.Commitments.Selection.{Sorts}
use nightfall.CommitmentInfo.Request.{Request, added_fee, looks_for_value, asked_value}
use nightfall.CommitmentInfo.Provided.{validate_provided, wanted, non_fee_left, few_provided}
use nightfall.CommitmentInfo.Info.{Environment, Info, get_commitment_info}
use nightfall.CommitmentInfo.Restores.{find_inputs-Funds}
use nightfall.CommitmentInfo.Returned.{get_commitment_info-Returned}

asks_both :
    (r : Request)
    → r.fee_address ≡ r.erc_address
    → looks_for_value r.max_non_fee ≡ true
    → asked_value r ≡ r.total_value_to_send + r.fee
unfolding asked_value added_fee
asks_both r e looks = rw (looks, eq→== r.fee_address r.erc_address e) refl

module _ (r : Request) (given given_fee : List Commitment) where
  few_provided_lem :
      r.fee_address ≡ r.erc_address
      → total given + total given_fee < asked_value r
      → few_provided r given given_fee ≡ true
  unfolding few_provided
  few_provided_lem e lt = both _ _ (eq→== _ _ e) (lt→ltb _ _ lt)
    where
      both : (a b : Bool) → a ≡ true → b ≡ true → (a && b) ≡ true
      both a b t u = rw (t, u) refl

  -- The slots that are left are below none.
  wanted_below :
      r.fee_address ≡ r.erc_address
      → 0 < length given
      → total given + total given_fee < asked_value r
      → (wanted r given given_fee).max_non_fee ≡ pos 0 -ℤ pos (length (given ++ given_fee))
  unfolding wanted non_fee_left
  wanted_below e some_given lt = elim (Bool-cases (leb (asked_value r) (total given))) [
    | inl t ↦ absurd (omega (arith, leb→le _ _ t, lt))
    | inr f ↦ rw (few_provided_lem e lt, f, lt→ltb _ _ some_given) refl
  ]

-- For every sort that permutes, if the token is the fee's, commitments for the value may be chosen
-- (`maxNonFeeNullifiers` is not 0), and valid commitments are provided for the value which, with those
-- for the fee, do not cover the value and the fee, `getCommitmentInfo` does not return.
pub get_commitment_info-top_up :
    (env : Environment) (r : Request) (ds : Collection) (given given_fee : List Commitment)
    (info : Info)
    → Sorts env.sort
    → validate_provided r ds ≡ ok (given, given_fee)
    → r.fee_address ≡ r.erc_address
    → looks_for_value r.max_non_fee ≡ true
    → 0 < length given
    → total given + total given_fee < r.total_value_to_send + r.fee
    → (get_commitment_info env r ds).0 ≢ ok info
get_commitment_info-top_up env r ds given given_fee info sorts valid e looks some_given less h =
    let lt = subst (λ n. total given + total given_fee < n) (sym (asks_both r e looks)) less in
    let returned = get_commitment_info-Returned env r ds info h in
    let same : (returned.given, returned.given_fee) ≡ (given, given_fee) =
      ok-injective _ _ (sym returned.valid ∙ valid) in
    let (n, room, funds) =
      find_inputs-Funds env.sort r (wanted r returned.given returned.given_fee)
        (mark_all_pending (returned.given ++ returned.given_fee) ds) returned.usable _ sorts
        returned.found in
    let negative : pos n ≡ pos 0 -ℤ pos (length (given ++ given_fee)) =
      sym room
      ∙ ap (λ p. (wanted r p.0 p.1).max_non_fee) same
      ∙ wanted_below r given given_fee e some_given lt in
    omega (
      arith,
      ap above negative,
      ap below negative,
      difference_lem (0 + 0) (0 + length (given ++ given_fee)),
      length-append given given_fee,
    )
