-- ===== src/CommitmentInfo/Examples.antt =====
-- Tests of the model of nightfall-client/src/utils/getCommitmentInfo.mjs on the small collection, and
-- the theorems about it at that collection.
use nightfall.Common.{
  ℕ, ◌+◌, ◌≤◌, ◌≡◌, ◌≢◌, refl, ap, inl, none, some, Option, List, [], ◌∷◌, ok, throws, arith,
  length, pos, above, true, difference,
}
use nightfall.Commitments.Values.{Commitment}
use nightfall.Commitments.Store.{Stored}
use nightfall.Commitments.Examples.{insertion_sort, insertion_sort-Sorts, wallet, wallet-Unique}
use nightfall.CommitmentInfo.Request.{Request, asked_non_fee}
use nightfall.CommitmentInfo.Provided.{no_sibling_info, validate_provided}
use nightfall.CommitmentInfo.Info.{TreeFields, TreeInfo, Environment, Info, get_commitment_info}
use nightfall.CommitmentInfo.Outputs.{Output}
use nightfall.CommitmentInfo.TopUp.{get_commitment_info-top_up}
use nightfall.CommitmentInfo.Restores.{get_commitment_info-restores}
use nightfall.CommitmentInfo.Returned.{Balanced, values_out, get_commitment_info-Balanced}
use nightfall.CommitmentInfo.Few.{get_commitment_info_few}
use nightfall.CommitmentInfo.Paid.{Payable}
use nightfall.CommitmentInfo.Covers.{NotNegative, get_commitment_info-NotNegative}

abbrev in_tree : Stored → Option TreeFields
in_tree d = some (record { path = 1 ∷ 2 ∷ []; root = 9; leaf_index = d.id })

abbrev environment : Environment
environment = record {
  sort = insertion_sort;
  salt = λ i. i + 500;
  nullifier = λ c. c.id + 100;
  fields = in_tree;
}

abbrev no_tree : Environment
no_tree = record environment { fields = λ d. none }

-- Six to send, and a fee of one in another token. One of the inputs is given.
abbrev transfer : Request
transfer = record {
  compressed_zkp_public_key = 1;
  zkp_public_key = 77;
  total_value_to_send = 6;
  fee = 1;
  recipients = 50 ∷ [];
  erc_address = 2;
  fee_address = 4;
  token_id = 0;
  provided = [];
  provided_fee = 16 ∷ [];
  max_nullifiers = 4;
  max_non_fee = none;
}

abbrev to_change : ℕ → ℕ → ℕ → Output × ℕ
to_change value address salt =
    (record { zkp_public_key = 77; value = pos value; erc_address = address; token_id = 0 }, salt)

abbrev place : ℕ → TreeInfo
place i = record {
  local_sibling_path = 9 ∷ 2 ∷ 1 ∷ [];
  leaf_index = i;
  block_number_l2 = some 3;
  root = 9;
}

abbrev transferred : Info
transferred = record {
  old_commitments =
      record { id = 11; value = 2 }
      ∷ record { id = 13; value = 5 }
      ∷ record { id = 16; value = 6 }
      ∷ [];
  nullifiers = 111 ∷ 113 ∷ 116 ∷ [];
  new_commitments =
      (record { zkp_public_key = 50; value = pos 6; erc_address = 2; token_id = 0 }, 500)
      ∷ to_change 1 2 501
      ∷ to_change 5 4 502
      ∷ [];
  tree_info = place 11 ∷ place 13 ∷ place 16 ∷ [];
  has_change = true;
  has_change_fee = true;
}

transfer_test : (get_commitment_info environment transfer wallet).0 ≡ ok transferred
unfolding get_commitment_info insertion_sort difference
transfer_test = refl

no_tree_test : (get_commitment_info no_tree transfer wallet).0 ≡ throws no_sibling_info
unfolding get_commitment_info insertion_sort difference
no_tree_test = refl

transfer-Payable : Payable transfer
unfolding asked_non_fee difference
transfer-Payable = record {
  tokens = inl (omega arith);
  slots = inl (λ e. omega (arith, ap above e));
}

get_commitment_info-restores_example : (get_commitment_info no_tree transfer wallet).1 ≡ wallet
get_commitment_info-restores_example =
    get_commitment_info-restores no_tree transfer wallet no_sibling_info insertion_sort-Sorts
      wallet-Unique no_tree_test

get_commitment_info-Balanced_example :
    Balanced transfer wallet transferred (get_commitment_info environment transfer wallet).1
get_commitment_info-Balanced_example =
    get_commitment_info-Balanced environment transfer wallet transferred insertion_sort-Sorts
      transfer_test

get_commitment_info_few_example : length transferred.old_commitments ≤ 4
get_commitment_info_few_example =
    get_commitment_info_few environment transfer wallet transferred insertion_sort-Sorts
      wallet-Unique transfer_test

get_commitment_info-NotNegative_example : NotNegative (values_out transferred.new_commitments)
get_commitment_info-NotNegative_example =
    get_commitment_info-NotNegative environment transfer wallet transferred insertion_sort-Sorts
      transfer-Payable transfer_test

-- Three to send and a fee of one in the same token, with a commitment of three given.
abbrev top_up : Request
top_up = record transfer {
  total_value_to_send = 3;
  fee_address = 2;
  provided = 12 ∷ [];
  provided_fee = [];
}

abbrev given_three : List Commitment
given_three = record { id = 12; value = 3 } ∷ []

top_up_test : validate_provided top_up wallet ≡ ok (given_three, [])
unfolding validate_provided
top_up_test = refl

get_commitment_info-top_up_example :
    (get_commitment_info environment top_up wallet).0 ≢ ok transferred
get_commitment_info-top_up_example =
    get_commitment_info-top_up environment top_up wallet given_three [] transferred
      insertion_sort-Sorts top_up_test refl refl (omega arith) (omega arith)
