-- ===== src/CommitmentInfo/Few.antt =====
-- The inputs of `getCommitmentInfo` in nightfall-client/src/utils/getCommitmentInfo.mjs are as few as
-- it is asked for.
use nightfall.Common.{◌≤◌, ◌≡◌, ap, ◌++◌, length, length-append, arith, ok}
use nightfall.Commitments.Store.{Collection}
use nightfall.Commitments.Usable.{mark_all_pending}
use nightfall.Commitments.Selection.{Sorts}
use nightfall.Commitments.Pending.{Unique}
use nightfall.CommitmentInfo.Request.{Request}
use nightfall.CommitmentInfo.Provided.{wanted}
use nightfall.CommitmentInfo.Inputs.{with_given}
use nightfall.CommitmentInfo.Info.{Environment, Info, to_info, get_commitment_info}
use nightfall.CommitmentInfo.Restores.{find_inputs-Funds}
use nightfall.CommitmentInfo.Returned.{get_commitment_info-Returned}
use nightfall.CommitmentInfo.Within.{validate_provided_few}

-- If the `_id` of a document is unique and the sort permutes, then the inputs with which
-- `getCommitmentInfo` returns, those provided among them, are at most `maxNullifiers`.
pub get_commitment_info_few :
    (env : Environment) (r : Request) (ds : Collection) (info : Info)
    → Sorts env.sort
    → Unique ds
    → (get_commitment_info env r ds).0 ≡ ok info
    → length info.old_commitments ≤ r.max_nullifiers
unfolding to_info with_given wanted
get_commitment_info_few env r ds info sorts unique h =
    let returned = get_commitment_info-Returned env r ds info h in
    let given = returned.given in
    let given_fee = returned.given_fee in
    let usable = returned.usable in
    let (n, room, funds) =
      find_inputs-Funds env.sort r (wanted r given given_fee)
        (mark_all_pending (given ++ given_fee) ds) usable _ sorts returned.found in
    omega (
      arith,
      ap (λ (i : Info). length i.old_commitments) returned.made,
      length-append (usable.old_commitments ++ given) (usable.old_commitments_fee ++ given_fee),
      length-append usable.old_commitments given,
      length-append usable.old_commitments_fee given_fee,
      length-append given given_fee,
      funds.few,
      validate_provided_few r ds given given_fee unique returned.valid,
    )
