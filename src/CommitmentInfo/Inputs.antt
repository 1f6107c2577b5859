-- ===== src/CommitmentInfo/Inputs.antt =====
-- The part of `getCommitmentInfo` in nightfall-client/src/utils/getCommitmentInfo.mjs that chooses the
-- inputs, and what its `catch` undoes.
use nightfall.Common.{
  List, [], ◌∷◌, ◌++◌, length, ◌==◌, if◌then◌else◌, Result, throws, ℤ, pos, negsuc,
}
use nightfall.Commitments.Values.{Commitment}
use nightfall.Commitments.Store.{Collection, clear_pending, get_available_commitments}
use nightfall.Commitments.Usable.{
  Error, no_commitment_found, no_commitments_cover_value, Usable, Sort, find_usable_commitments,
}
use nightfall.CommitmentInfo.Request.{Request}
use nightfall.CommitmentInfo.Provided.{Wanted}

-- `Promise.all(spentCommitments.map(o => clearPending(o)))`
unfoldable pub clear_all_pending : List Commitment → Collection → Collection
unfolding clear_pending
clear_all_pending [] ds = ds
clear_all_pending (c ∷ cs) ds = clear_all_pending cs (clear_pending c.id ds)

-- The call of `findUsableCommitmentsMutex`, with `maxNonFeeNullifiers` last. Where that is below 0 no
-- number of commitments is small enough for `verifyEnoughCommitments`, which throws one of two errors.
abbrev pub find_within :
    Sort → Request → Wanted → Collection → ℤ → Result Error (Usable × Collection)
find_within sort r w ds (pos n) =
    find_usable_commitments sort ds r.compressed_zkp_public_key r.erc_address r.token_id
      r.fee_address w.value w.fee_value w.max_nullifiers n
find_within sort r w ds (negsuc n) =
    if length (get_available_commitments r.compressed_zkp_public_key r.erc_address r.token_id ds)
      == 0
    then throws no_commitment_found
    else throws no_commitments_cover_value

unfoldable pub find_inputs :
    Sort → Request → Wanted → Collection → Result Error (Usable × Collection)
unfolding find_usable_commitments get_available_commitments
find_inputs sort r w ds = find_within sort r w ds w.max_non_fee

-- The inputs: those for the value, with the given ones last, and those for the fee.
unfoldable pub with_given : Usable → List Commitment → List Commitment → Usable
with_given usable given given_fee = record {
  old_commitments = usable.old_commitments ++ given;
  old_commitments_fee = usable.old_commitments_fee ++ given_fee;
}
