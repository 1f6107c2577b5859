-- ===== src/CommitmentInfo/Returned.antt =====
-- What `getCommitmentInfo` of nightfall-client/src/utils/getCommitmentInfo.mjs went through if it
-- returns, and that its inputs pay for its outputs.
use nightfall.Common.{
  ℕ, suc, ◌+◌, ◌-◌, ◌*◌, ◌≡◌, refl, sym, ap, subst, inl, inr, ◌⊎◌, ◌∙◌, List, [], ◌∷◌, ◌++◌, map,
  length, Result, ok, throws, through, ok-injective, pos, ◌+ℤ◌,
}
use nightfall.Commitments.Values.{Commitment, total, Chosen, Chosen-nil, Chosen-all}
use nightfall.Commitments.Store.{Collection, mark_pending}
use nightfall.Commitments.Usable.{Error, Usable, to_commitment, mark_all_pending}
use nightfall.Commitments.Selection.{Sorts, Fits}
use nightfall.Commitments.Asks.{token_commitments}
use nightfall.CommitmentInfo.Request.{Request, added_fee}
use nightfall.CommitmentInfo.Provided.{InfoError, of_token, validate_provided, wanted}
use nightfall.CommitmentInfo.Inputs.{find_inputs, with_given}
use nightfall.CommitmentInfo.Outputs.{Output, outputs}
use nightfall.CommitmentInfo.Info.{
  Environment, Info, TreeInfo, or_clear, salted, to_info, tree_infos, spend, mark_and_spend,
  get_commitment_info,
}
use nightfall.CommitmentInfo.Checks.{Provides, validate_provided-Provides}
use nightfall.CommitmentInfo.Restores.{find_inputs-Funds}
use nightfall.CommitmentInfo.Balance.{total_of, share, asked, of_fee, outputs_balance}

pub record Returned (env : Environment) (r : Request) (ds : Collection) (info : Info)
    (ds' : Collection) : Type 0 where
  pub given : List Commitment
  pub given_fee : List Commitment
  pub usable : Usable
  pub infos : List TreeInfo
  pub valid : validate_provided r ds ≡ ok (given, given_fee)
  pub found :
      find_inputs env.sort r (wanted r given given_fee) (mark_all_pending (given ++ given_fee) ds)
      ≡ ok (usable, ds')
  pub made : info ≡ to_info env r (with_given usable given given_fee) infos

or_clear-ok {ℓ} :
    {A : Type ℓ} (spent : List Commitment) (ds : Collection) (result : Result InfoError A) (a : A)
    → (or_clear spent ds result).0 ≡ ok a
    → (result ≡ ok a) × ((or_clear spent ds result).1 ≡ ds)
or_clear-ok spent ds (ok a') a h = (h, refl)
or_clear-ok spent ds (throws e) a h = absurd (cc h)

module _ (env : Environment) (r : Request) (ds : Collection) (info : Info) where
  spend-Returned :
      (given given_fee : List Commitment) (found : Result Error (Usable × Collection))
      → validate_provided r ds ≡ ok (given, given_fee)
      → find_inputs env.sort r (wanted r given given_fee) (mark_all_pending (given ++ given_fee) ds)
        ≡ found
      → (spend env r given given_fee (mark_all_pending (given ++ given_fee) ds) found).0 ≡ ok info
      → Returned env r ds info
          (spend env r given given_fee (mark_all_pending (given ++ given_fee) ds) found).1
  spend-Returned given given_fee (throws e) valid found h = absurd (cc h)
  spend-Returned given given_fee (ok (usable, ds')) valid found h =
      let (returned, kept) = or_clear-ok _ ds' _ info h in
      let inputs = with_given usable given given_fee in
      let (infos, first, last) =
        through (tree_infos env.fields (inputs.old_commitments ++ inputs.old_commitments_fee) ds')
          (λ infos. ok (to_info env r inputs infos)) returned in
      record {
        given = given;
        given_fee = given_fee;
        usable = usable;
        infos = infos;
        valid = valid;
        found = found ∙ ap (λ d. ok (usable, d)) (sym kept);
        made = sym (ok-injective _ info last);
      }

  mark_and_spend-Returned :
      (valid : Result InfoError (List Commitment × List Commitment))
      → validate_provided r ds ≡ valid
      → (mark_and_spend env r ds valid).0 ≡ ok info
      → Returned env r ds info (mark_and_spend env r ds valid).1
  mark_and_spend-Returned (throws e) same h = absurd (cc h)
  mark_and_spend-Returned (ok (given, given_fee)) same h =
      spend-Returned given given_fee _ same refl h

  pub get_commitment_info-Returned :
      (get_commitment_info env r ds).0 ≡ ok info
      → Returned env r ds info (get_commitment_info env r ds).1
  unfolding get_commitment_info
  get_commitment_info-Returned h = mark_and_spend-Returned (validate_provided r ds) refl h

-- The outputs of a result.
abbrev pub values_out : List (Output × ℕ) → List Output
values_out = map (λ p. p.0)

pub unsalted : (salt : ℕ → ℕ) (i : ℕ) (os : List Output) → values_out (salted salt i os) ≡ os
unfolding salted
unsalted salt i [] = refl
unsalted salt i (o ∷ os) = ap (λ l. o ∷ l) (unsalted salt (suc i) os)

mark_all_pending-append :
    (xs ys : List Commitment) (ds : Collection)
    → mark_all_pending ys (mark_all_pending xs ds) ≡ mark_all_pending (xs ++ ys) ds
unfolding mark_all_pending
mark_all_pending-append [] ys ds = refl
mark_all_pending-append (x ∷ xs) ys ds = mark_all_pending-append xs ys (mark_pending x.id ds)

-- What a result promises: its inputs, which are those given and those chosen, for the value and for
-- the fee; that they were marked pending; and the balance of each token.
pub record Balanced (r : Request) (ds : Collection) (info : Info) (ds' : Collection) : Type 0 where
  pub given : Usable
  pub chosen : Usable
  pub spends :
      info.old_commitments
      ≡ (chosen.old_commitments ++ given.old_commitments)
        ++ (chosen.old_commitments_fee ++ given.old_commitments_fee)
  pub reserves :
      ds'
      ≡ mark_all_pending
          ((given.old_commitments ++ given.old_commitments_fee)
            ++ (chosen.old_commitments ++ chosen.old_commitments_fee))
          ds
  pub given_value :
      Chosen given.old_commitments
        (map to_commitment (of_token r.provided r.compressed_zkp_public_key r.erc_address ds))
  pub given_for_fee :
      Chosen given.old_commitments_fee
        (map to_commitment (of_token r.provided_fee r.compressed_zkp_public_key r.fee_address ds))
  pub chosen_value : Chosen chosen.old_commitments (
      token_commitments
        (mark_all_pending (given.old_commitments ++ given.old_commitments_fee) ds)
        r.compressed_zkp_public_key
        r.erc_address
        r.token_id)
  pub chosen_for_fee : Chosen chosen.old_commitments_fee (
      token_commitments
        (mark_all_pending (given.old_commitments ++ given.old_commitments_fee) ds)
        r.compressed_zkp_public_key
        r.fee_address
        0)
  pub balances :
      (token : ℕ × ℕ)
      → total_of token (values_out info.new_commitments)
          +ℤ pos (
              share (asked r token) (r.total_value_to_send + added_fee r)
              + share (of_fee r token) (r.fee - added_fee r))
        ≡ pos (
            share (asked r token) (total (chosen.old_commitments ++ given.old_commitments))
            + share
                (of_fee r token)
                (total (chosen.old_commitments_fee ++ given.old_commitments_fee))
            + share (asked r token) (length r.recipients * r.total_value_to_send))

Provides-Chosen :
    (hashes : List ℕ) (found : Collection) (target : ℕ) (given : List Commitment)
    → Provides hashes found target given
    → Chosen given (map to_commitment found)
Provides-Chosen hashes found target given (inl (e, nothing)) =
    subst (λ cs. Chosen cs (map to_commitment found)) (sym nothing) (Chosen-nil _)
Provides-Chosen hashes found target given (inr (e, all, some_given, covers)) =
    subst (λ cs. Chosen given cs) all (Chosen-all given)

pays-Chosen :
    {lo hi asked : ℕ} (P : Type 0) (cs result : List Commitment)
    → (P × (result ≡ [])) ⊎ Fits lo hi cs asked result
    → Chosen result cs
pays-Chosen P cs result (inl (p, nothing)) =
    subst (λ xs. Chosen xs cs) (sym nothing) (Chosen-nil cs)
pays-Chosen P cs result (inr fits) = fits.chosen

-- For every sort that permutes, when `getCommitmentInfo` returns, it has marked exactly its inputs
-- pending, which are those given and those chosen, for the value and for the fee. Those chosen are
-- spendable ones of the token, or of the fee's; those given are available ones of the token's address,
-- or of the fee's, and count as of the token. Of every token, by address and token id, the outputs, with
-- the value and the fee, sum up to the inputs, with the value once for each recipient; the fee is taken
-- from the token if that has the fee's address.
pub get_commitment_info-Balanced :
    (env : Environment) (r : Request) (ds : Collection) (info : Info)
    → Sorts env.sort
    → (get_commitment_info env r ds).0 ≡ ok info
    → Balanced r ds info (get_commitment_info env r ds).1
unfolding to_info with_given
get_commitment_info-Balanced env r ds info sorts h =
    let returned = get_commitment_info-Returned env r ds info h in
    let given = returned.given in
    let given_fee = returned.given_fee in
    let inputs = with_given returned.usable given given_fee in
    let (provides, provides_fee) = validate_provided-Provides r ds given given_fee returned.valid in
    let (n, room, funds) =
      find_inputs-Funds env.sort r (wanted r given given_fee)
        (mark_all_pending (given ++ given_fee) ds) returned.usable _ sorts returned.found in
    record {
      given = record { old_commitments = given; old_commitments_fee = given_fee };
      chosen = returned.usable;
      spends = ap (λ (i : Info). i.old_commitments) returned.made;
      given_value = Provides-Chosen _ _ _ given provides;
      given_for_fee = Provides-Chosen _ _ _ given_fee provides_fee;
      chosen_value = pays-Chosen _ _ returned.usable.old_commitments funds.pays_value;
      chosen_for_fee = pays-Chosen _ _ returned.usable.old_commitments_fee funds.pays_fee;
      reserves = funds.pending ∙ mark_all_pending-append (given ++ given_fee) _ ds;
      balances = λ a.
          ap
            (λ os.
              total_of a os
              +ℤ pos (
                  share (asked r a) (r.total_value_to_send + added_fee r)
                  + share (of_fee r a) (r.fee - added_fee r)))
            (ap (λ (i : Info). values_out i.new_commitments) returned.made
              ∙ unsalted env.salt 0 (outputs r inputs))
          ∙ outputs_balance r a inputs;
    }
