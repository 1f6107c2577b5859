-- ===== src/CommitmentInfo/Idle.antt =====
-- The commitments that `getCommitmentInfo` of nightfall-client/src/utils/getCommitmentInfo.mjs marks
-- pending were not pending before.
use nightfall.Common.{
  ℕ, ◌≡◌, ◌≢◌, refl, sym, inl, inr, List, [], ◌∷◌, ◌++◌, map, Bool, true, false, not, ◌==◌, leb,
  Bool-cases, arith,
}
use nightfall.Commitments.Values.{Commitment, Chosen, chosen_none, skip, keep}
use nightfall.Commitments.Store.{
  Stored, Collection, find, is_available, get_available_commitments,
  get_commitments_available_by_hash, is_unset,
}
use nightfall.Commitments.Usable.{to_commitment, insert_by_value, sort_by_value, spendable}
use nightfall.Commitments.Asks.{token_commitments}
use nightfall.Commitments.Pending.{Unique, NoneHas}
use nightfall.CommitmentInfo.Provided.{of_token}
use nightfall.CommitmentInfo.Marks.{Free, Each, AllFree}

module _ (P : Commitment → Type 0) where
  pub Each-append : (xs ys : List Commitment) → Each P xs → Each P ys → Each P (xs ++ ys)
  Each-append [] ys all all' = all'
  Each-append (x ∷ xs) ys (p, all) all' = (p, Each-append xs ys all all')

  pub Each-Chosen : {xs cs : List Commitment} → Chosen xs cs → Each P cs → Each P xs
  Each-Chosen chosen_none all = all
  Each-Chosen (skip c chosen) (p, all) = Each-Chosen chosen all
  Each-Chosen (keep c chosen) (p, all) = (p, Each-Chosen chosen all)

  Each-insert_by_value :
      (c : Commitment) (cs : List Commitment) → P c → Each P cs → Each P (insert_by_value c cs)
  unfolding insert_by_value
  Each-insert_by_value c [] p all = (p, tt)
  Each-insert_by_value c (d ∷ ds) p (q, all) = elim (Bool-cases (leb c.value d.value)) [
    | inl t ↦ rw t (p, (q, all))
    | inr f ↦ rw f (q, Each-insert_by_value c ds p all)
  ]

  Each-sort_by_value : (cs : List Commitment) → Each P cs → Each P (sort_by_value cs)
  unfolding sort_by_value
  Each-sort_by_value [] all = tt
  Each-sort_by_value (c ∷ cs) (p, all) =
      Each-insert_by_value c (sort_by_value cs) p (Each-sort_by_value cs all)

  Each-find :
      (q : Stored → Bool) (ds : Collection)
      → Each P (map to_commitment ds)
      → Each P (map to_commitment (find q ds))
  unfolding find
  Each-find q [] all = tt
  Each-find q (d ∷ ds) (p, all) = elim (Bool-cases (q d)) [
    | inl t ↦ rw t (p, Each-find q ds all)
    | inr f ↦ rw f (Each-find q ds all)
  ]

  Each-spendable : (ds : Collection) → Each P (map to_commitment ds) → Each P (spendable ds)
  unfolding spendable
  Each-spendable ds all =
      Each-sort_by_value _ (Each-find (λ d. not (is_unset d.is_on_chain)) ds all)

NoneHas-find :
    (i : ℕ) (ds : Collection) → NoneHas i ds → Each (λ c. i ≢ c.id) (map to_commitment ds)
unfolding to_commitment
NoneHas-find i [] other = tt
NoneHas-find i (d ∷ ds) (ne, other) = ((λ e. ne (sym e)), NoneHas-find i ds other)

AllFree-later :
    (d : Stored) (ds : Collection) (cs : List Commitment)
    → Each (λ c. d.id ≢ c.id) cs
    → AllFree cs ds
    → AllFree cs (d ∷ ds)
AllFree-later d ds [] other free = tt
AllFree-later d ds (c ∷ cs) (ne, other) (first, free) =
    (inr (ne, first), AllFree-later d ds cs other free)

-- What a query finds that wants commitments not to be pending.
find-AllFree :
    (q : Stored → Bool) (ds : Collection)
    → ((d : Stored) → q d ≡ true → d.is_pending_nullification ≡ false)
    → Unique ds
    → AllFree (map to_commitment (find q ds)) ds
unfolding find to_commitment
find-AllFree q [] idle unique = tt
find-AllFree q (d ∷ ds) idle (other, unique) =
    let later : AllFree (map to_commitment (find q ds)) (d ∷ ds) =
      AllFree-later d ds (map to_commitment (find q ds))
        (Each-find (λ c. d.id ≢ c.id) q ds (NoneHas-find d.id ds other))
        (find-AllFree q ds idle unique) in
    elim (Bool-cases (q d)) [ inl t ↦ rw t (inl (refl, idle d t), later) | inr f ↦ rw f later ]

pub token_commitments-AllFree :
    (ds : Collection) (key address token_id : ℕ)
    → Unique ds
    → AllFree (token_commitments ds key address token_id) ds
unfolding get_available_commitments is_available
token_commitments-AllFree ds key address token_id unique =
    Each-spendable (λ c. Free c.id ds) (get_available_commitments key address token_id ds)
      (find-AllFree (is_available key address token_id) ds (λ d h. ground arith) unique)

pub of_token-AllFree :
    (hashes : List ℕ) (key address : ℕ) (ds : Collection)
    → Unique ds
    → AllFree (map to_commitment (of_token hashes key address ds)) ds
unfolding of_token get_commitments_available_by_hash
of_token-AllFree hashes key address ds unique =
    Each-find (λ c. Free c.id ds) (λ d. d.erc_address == address)
      (get_commitments_available_by_hash hashes key ds)
      (find-AllFree _ ds (λ d h. ground arith) unique)
