-- ===== src/CommitmentInfo/Restores.antt =====
-- The `catch` of `getCommitmentInfo` in nightfall-client/src/utils/getCommitmentInfo.mjs gives the
-- collection back as it was.
use nightfall.Common.{
  ℕ, ◌≡◌, refl, sym, ap, subst, ◌∙◌, inl, inr, List, [], ◌∷◌, ◌++◌, Result, ok, throws, ℤ, pos,
  negsuc, length, ◌==◌, Bool-cases,
}
use nightfall.Commitments.Values.{Commitment}
use nightfall.Commitments.Store.{Collection, get_available_commitments}
use nightfall.Commitments.Usable.{Error, Usable, Sort, mark_all_pending}
use nightfall.Commitments.Selection.{Sorts}
use nightfall.Commitments.Funding.{Funds, find_usable_commitments-Funds}
use nightfall.Commitments.Pending.{Unique}
use nightfall.CommitmentInfo.Request.{Request}
use nightfall.CommitmentInfo.Provided.{InfoError, of_token, validate_provided, Wanted, wanted}
use nightfall.CommitmentInfo.Inputs.{clear_all_pending, find_inputs, find_within}
use nightfall.CommitmentInfo.Info.{
  Environment, or_clear, spend, mark_and_spend, get_commitment_info,
}
use nightfall.CommitmentInfo.Marks.{
  Free, Each, In, AllIn, AllFree, mark_all_pending-Free, mark_all_pending-Unique,
  clear_all_pending-mark_all_pending, clear_all_pending-AllFree,
}
use nightfall.CommitmentInfo.Idle.{
  Each-append, Each-Chosen, token_commitments-AllFree, of_token-AllFree,
}
use nightfall.CommitmentInfo.Checks.{Provides, validate_provided-Provides}

-- What a return of the call of `findUsableCommitmentsMutex` promises.
abbrev pub FundsInputs : Request → Wanted → Collection → Usable → Collection → ℕ → Type 0
FundsInputs r w ds usable ds' n =
    Funds ds r.compressed_zkp_public_key r.erc_address r.token_id r.fee_address w.value w.fee_value
      w.max_nullifiers n usable ds'

find_within-Funds :
    (sort : Sort) (r : Request) (w : Wanted) (ds : Collection) (usable : Usable) (ds' : Collection)
    (z : ℤ)
    → Sorts sort
    → find_within sort r w ds z ≡ ok (usable, ds')
    → (n : ℕ) × (z ≡ pos n) × FundsInputs r w ds usable ds' n
find_within-Funds sort r w ds usable ds' (pos n) sorts h =
    (n, refl, find_usable_commitments-Funds sort ds _ _ _ _ _ _ _ n usable ds' sorts h)
find_within-Funds sort r w ds usable ds' (negsuc n) sorts h =
    elim (Bool-cases (
      length (get_available_commitments r.compressed_zkp_public_key r.erc_address r.token_id ds)
      == 0)) [
        | inl t ↦ let g = rw t at h in absurd (cc g)
        | inr f ↦ let g = rw f at h in absurd (cc g)
      ]

pub find_inputs-Funds :
    (sort : Sort) (r : Request) (w : Wanted) (ds : Collection) (usable : Usable) (ds' : Collection)
    → Sorts sort
    → find_inputs sort r w ds ≡ ok (usable, ds')
    → (n : ℕ) × (w.max_non_fee ≡ pos n) × FundsInputs r w ds usable ds' n
unfolding find_inputs
find_inputs-Funds sort r w ds usable ds' sorts h =
    find_within-Funds sort r w ds usable ds' w.max_non_fee sorts h

-- What was already among the marked ones.
In-left : (i : ℕ) (xs ys : List Commitment) → In i xs → In i (xs ++ ys)
In-left i [] ys among = absurd among
In-left i (x ∷ xs) ys (inl e) = inl e
In-left i (x ∷ xs) ys (inr among) = inr (In-left i xs ys among)

In-right : (i : ℕ) (xs ys : List Commitment) → In i ys → In i (xs ++ ys)
In-right i [] ys among = among
In-right i (x ∷ xs) ys among = inr (In-right i xs ys among)

Each-map :
    (P Q : Commitment → Type 0) (cs : List Commitment)
    → ((c : Commitment) → P c → Q c)
    → Each P cs
    → Each Q cs
Each-map P Q [] f all = tt
Each-map P Q (c ∷ cs) f (p, all) = (f c p, Each-map P Q cs f all)

AllIn-self : (cs : List Commitment) → AllIn cs cs
AllIn-self [] = tt
AllIn-self (c ∷ cs) =
    (inl refl, Each-map (λ x. In x.id cs) (λ x. In x.id (c ∷ cs)) cs (λ x p. inr p) (AllIn-self cs))

-- Two rounds of marking are undone by one round of clearing.
clear-mark-mark :
    (given chosen : List Commitment) (ds : Collection)
    → AllFree given ds
    → AllFree chosen ds
    → clear_all_pending (given ++ chosen) (mark_all_pending chosen (mark_all_pending given ds)) ≡ ds
clear-mark-mark given chosen ds free free' =
    clear_all_pending-mark_all_pending chosen (given ++ chosen) (mark_all_pending given ds) (
      Each-map (λ x. In x.id chosen) (λ x. In x.id (given ++ chosen)) chosen
        (λ x p. In-right x.id given chosen p) (AllIn-self chosen))
    ∙ clear_all_pending-mark_all_pending given (given ++ chosen) ds (
        Each-map (λ x. In x.id given) (λ x. In x.id (given ++ chosen)) given
          (λ x p. In-left x.id given chosen p) (AllIn-self given))
    ∙ clear_all_pending-AllFree (given ++ chosen) ds
        (Each-append (λ c. Free c.id ds) given chosen free free')

-- One round.
clear-mark :
    (given : List Commitment) (ds : Collection)
    → AllFree given ds
    → clear_all_pending given (mark_all_pending given ds) ≡ ds
clear-mark given ds free =
    clear_all_pending-mark_all_pending given given ds (AllIn-self given)
    ∙ clear_all_pending-AllFree given ds free

Provides-AllFree :
    (hashes : List ℕ) (key address target : ℕ) (ds : Collection) (given : List Commitment)
    → Unique ds
    → Provides hashes (of_token hashes key address ds) target given
    → AllFree given ds
Provides-AllFree hashes key address target ds given unique (inl (e, nothing)) =
    subst (λ (cs : List Commitment). AllFree cs ds) (sym nothing) tt
Provides-AllFree hashes key address target ds given unique (inr (asked, same, some_given, covers)) =
    subst (λ (cs : List Commitment). AllFree cs ds) (sym same)
      (of_token-AllFree hashes key address ds unique)

or_clear-restores {ℓ} :
    {A : Type ℓ} (spent : List Commitment) (ds before : Collection) (result : Result InfoError A)
    (e : InfoError)
    → (or_clear spent ds result).0 ≡ throws e
    → clear_all_pending spent ds ≡ before
    → (or_clear spent ds result).1 ≡ before
or_clear-restores spent ds before (ok a) e h back = absurd (cc h)
or_clear-restores spent ds before (throws e') e h back = back

-- What `findUsableCommitmentsMutex` chose was not pending.
chosen-AllFree :
    (r : Request) (w : Wanted) (ds : Collection) (usable : Usable) (ds' : Collection) (n : ℕ)
    → Unique ds
    → FundsInputs r w ds usable ds' n
    → AllFree (usable.old_commitments ++ usable.old_commitments_fee) ds
chosen-AllFree r w ds usable ds' n unique funds =
    Each-append (λ c. Free c.id ds) usable.old_commitments usable.old_commitments_fee
      (elim funds.pays_value [
        | inl (e, nothing) ↦ subst (λ (cs : List Commitment). AllFree cs ds) (sym nothing) tt
        | inr fits ↦
            Each-Chosen (λ c. Free c.id ds) fits.chosen
              (token_commitments-AllFree ds r.compressed_zkp_public_key r.erc_address r.token_id
                unique)
      ])
      (elim funds.pays_fee [
        | inl (e, nothing) ↦ subst (λ (cs : List Commitment). AllFree cs ds) (sym nothing) tt
        | inr fits ↦
            Each-Chosen (λ c. Free c.id ds) fits.chosen
              (token_commitments-AllFree ds r.compressed_zkp_public_key r.fee_address 0 unique)
      ])

module _ (env : Environment) (sorts : Sorts env.sort) (r : Request) (ds : Collection)
    (unique : Unique ds) where
  spend-restores :
      (given given_fee : List Commitment) (found : Result Error (Usable × Collection))
      (e : InfoError)
      → let marked = mark_all_pending (given ++ given_fee) ds in
        find_inputs env.sort r (wanted r given given_fee) marked ≡ found
        → AllFree (given ++ given_fee) ds
        → (spend env r given given_fee marked found).0 ≡ throws e
        → (spend env r given given_fee marked found).1 ≡ ds
  spend-restores given given_fee (throws e') e same free h = clear-mark (given ++ given_fee) ds free
  spend-restores given given_fee (ok (usable, ds')) e same free h =
      let marked = mark_all_pending (given ++ given_fee) ds in
      let chosen = usable.old_commitments ++ usable.old_commitments_fee in
      let (n, room, funds) =
        find_inputs-Funds env.sort r (wanted r given given_fee) marked usable ds' sorts same in
      or_clear-restores ((given ++ given_fee) ++ chosen) ds' ds _ e h (
        ap (clear_all_pending ((given ++ given_fee) ++ chosen)) funds.pending
        ∙ clear-mark-mark (given ++ given_fee) chosen ds free (
            Each-map (λ c. Free c.id marked) (λ c. Free c.id ds) chosen
              (λ c p. mark_all_pending-Free c.id (given ++ given_fee) ds p)
              (chosen-AllFree r (wanted r given given_fee) marked usable ds' n
                (mark_all_pending-Unique (given ++ given_fee) ds unique) funds)))

  mark_and_spend-restores :
      (valid : Result InfoError (List Commitment × List Commitment)) (e : InfoError)
      → validate_provided r ds ≡ valid
      → (mark_and_spend env r ds valid).0 ≡ throws e
      → (mark_and_spend env r ds valid).1 ≡ ds
  mark_and_spend-restores (throws e') e same h = unfold clear_all_pending in refl
  mark_and_spend-restores (ok (given, given_fee)) e same h =
      let (provides, provides_fee) = validate_provided-Provides r ds given given_fee same in
      spend-restores given given_fee _ e refl
        (Each-append (λ c. Free c.id ds) given given_fee
          (Provides-AllFree r.provided r.compressed_zkp_public_key r.erc_address
            r.total_value_to_send ds given unique provides)
          (Provides-AllFree r.provided_fee r.compressed_zkp_public_key r.fee_address r.fee ds
            given_fee unique provides_fee))
        h

-- If the `_id` of a document is unique and the sort permutes, then after `getCommitmentInfo` throws,
-- whatever it throws and whenever, the collection is what it was before the call.
pub get_commitment_info-restores :
    (env : Environment) (r : Request) (ds : Collection) (e : InfoError)
    → Sorts env.sort
    → Unique ds
    → (get_commitment_info env r ds).0 ≡ throws e
    → (get_commitment_info env r ds).1 ≡ ds
unfolding get_commitment_info
get_commitment_info-restores env r ds e sorts unique h =
    mark_and_spend-restores env sorts r ds unique (validate_provided r ds) e refl h
