-- ===== src/CommitmentInfo/Provided.antt =====
-- The commitments that the caller of `getCommitmentInfo` provides, in
-- nightfall-client/src/utils/getCommitmentInfo.mjs: which are valid, and what is left to look for.
use nightfall.Common.{
  ℕ, ◌+◌, ◌-◌, List, [], ◌∷◌, ◌++◌, map, length, Bool, not, ◌&&◌, ltb, leb, ◌==◌, if◌then◌else◌,
  Result, ok, throws, ◌>>=◌, ℤ, pos, ◌-ℤ◌,
}
use nightfall.Commitments.Values.{Commitment, total}
use nightfall.Commitments.Store.{
  Stored, Collection, find, one_of, get_commitments_available_by_hash,
}
use nightfall.Commitments.Usable.{Error, to_commitment}
use nightfall.CommitmentInfo.Request.{Request, asked_value, asked_fee, asked_non_fee}

pub data InfoError : Type 0 where
  too_many_commitments : InfoError
  invalid_commitments : List ℕ → InfoError
  value_not_covered : InfoError
  invalid_commitments_fee : List ℕ → InfoError
  fee_not_covered : InfoError
  not_usable : Error → InfoError
  no_sibling_info : InfoError

-- `providedCommitments.filter(test)`
unfoldable pub filter : (ℕ → Bool) → List ℕ → List ℕ
filter test [] = []
filter test (x ∷ xs) = let rest = filter test xs in if test x then x ∷ rest else rest

unfoldable pub of_token : List ℕ → ℕ → ℕ → Collection → Collection
unfolding find get_commitments_available_by_hash
of_token hashes key address ds =
    find (λ d. d.erc_address == address) (get_commitments_available_by_hash hashes key ds)

abbrev pub ids : Collection → List ℕ
ids = map (λ (d : Stored). d.id)

-- The checks that the two lists have in common. No list is longer than the hashes asked for, `_id`
-- being unique.
unfoldable pub validated :
    List ℕ → Collection → ℕ → InfoError → InfoError → Result InfoError (List Commitment)
unfolding to_commitment
validated hashes found target invalid uncovered =
    if length hashes == 0
    then ok []
    else if ltb (length found) (length hashes)
    then throws invalid
    else if ltb 0 (length found)
    then (if ltb (total (map to_commitment found)) target
        then throws uncovered
        else ok (map to_commitment found))
    else ok []

-- The message about the value names the hashes that are valid, that about the fee the others.
unfoldable pub validate_value : Request → Collection → Result InfoError (List Commitment)
unfolding of_token validated filter one_of
validate_value r ds =
    let found = of_token r.provided r.compressed_zkp_public_key r.erc_address ds in
    validated r.provided found r.total_value_to_send
      (invalid_commitments (filter (one_of (ids found)) r.provided)) value_not_covered

unfoldable pub validate_fee : Request → Collection → Result InfoError (List Commitment)
unfolding of_token validated filter one_of
validate_fee r ds =
    let found = of_token r.provided_fee r.compressed_zkp_public_key r.fee_address ds in
    validated r.provided_fee found r.fee
      (invalid_commitments_fee (filter (λ c. not (one_of (ids found) c)) r.provided_fee))
      fee_not_covered

unfoldable pub validate_provided :
    Request → Collection → Result InfoError (List Commitment × List Commitment)
unfolding validate_value validate_fee
validate_provided r ds =
    if ltb r.max_nullifiers (length r.provided + length r.provided_fee)
    then throws too_many_commitments
    else do given ← validate_value r ds; given_fee ← validate_fee r ds; ok (given, given_fee)

-- What is left to look for.
pub record Wanted : Type 0 where
  pub value : ℕ
  pub fee_value : ℕ
  pub max_nullifiers : ℕ
  pub max_non_fee : ℤ

unfoldable pub non_fee_left : Request → List Commitment → ℤ
unfolding asked_non_fee
non_fee_left r given = if ltb 0 (length given) then pos 0 else asked_non_fee r

unfoldable pub fee_left : Request → List Commitment → ℕ
unfolding asked_fee
fee_left r given_fee = if ltb 0 (length given_fee) then 0 else asked_fee r

-- Whether the token is the fee's, and too little of it is provided.
unfoldable pub few_provided : Request → List Commitment → List Commitment → Bool
unfolding asked_value
few_provided r given given_fee =
    r.fee_address == r.erc_address && ltb (total given + total given_fee) (asked_value r)

unfoldable pub wanted : Request → List Commitment → List Commitment → Wanted
unfolding asked_value non_fee_left fee_left few_provided
wanted r given given_fee =
    let few = few_provided r given given_fee in
    let enough = leb (asked_value r) (total given) in
    record {
      value = if few then (if enough then 0 else asked_value r - total given) else asked_value r;
      fee_value = fee_left r given_fee;
      max_nullifiers = r.max_nullifiers - length (given ++ given_fee);
      max_non_fee =
          if few
          then (if enough then pos 0 else non_fee_left r given -ℤ pos (length (given ++ given_fee)))
          else non_fee_left r given;
    }
