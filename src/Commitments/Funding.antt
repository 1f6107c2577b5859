-- ===== src/Commitments/Funding.antt =====
-- What a return of `findUsableCommitments` in nightfall-client/src/services/commitment-storage.mjs
-- promises to a transaction: its inputs pay, and there are not too many of them.
use nightfall.Common.{
  ℕ, ◌+◌, ◌-◌, ◌≤◌, ◌<◌, ◌≡◌, ◌≢◌, refl, ap, subst, ◌∙◌, ◌⊎◌, inl, inr, List, [], ◌++◌, length, min,
  ltb, ◌==◌, if◌then◌else◌, arith, lt→ltb, le→ltb, eq→==, ne→==, ok, through, ok-injective,
}
use nightfall.Commitments.Values.{Commitment}
use nightfall.Commitments.Store.{Collection, get_available_commitments}
use nightfall.Commitments.Subsets.{select_commitments}
use nightfall.Commitments.Usable.{
  Sort, verify_enough_commitments, Verified, mark_all_pending, Usable, choose_commitments,
  find_usable_commitments,
}
use nightfall.Commitments.Selection.{Sorts, Fits}
use nightfall.Commitments.Spending.{spendable-Ascending, Checked, select-Fits}
use nightfall.Commitments.Asks.{token_commitments, verify_value-asks, verify_fee-asks}

-- What `findUsableCommitments` promises: a choice for the value unless none was asked for, one for the
-- fee if there is a fee, at most `max_nullifiers` altogether, and all of them marked pending.
pub record Funds (ds : Collection)
    (key erc_address token_id erc_address_fee value fee max_nullifiers max_non_fee : ℕ)
    (usable : Usable) (ds' : Collection) : Type 0 where
  pub pays_value :
      ((max_non_fee ≡ 0) × (usable.old_commitments ≡ []))
      ⊎ Fits 1 max_non_fee
          (token_commitments ds key erc_address token_id)
          value
          usable.old_commitments
  pub pays_fee :
      ((fee ≡ 0) × (usable.old_commitments_fee ≡ []))
      ⊎ Fits 1 max_nullifiers
          (token_commitments ds key erc_address_fee 0)
          fee
          usable.old_commitments_fee
  pub few : length usable.old_commitments + length usable.old_commitments_fee ≤ max_nullifiers
  pub pending : ds' ≡ mark_all_pending (usable.old_commitments ++ usable.old_commitments_fee) ds

Fits-widen :
    {lo hi hi' value : ℕ} {cs result : List Commitment}
    → hi ≤ hi'
    → Fits lo hi cs value result
    → Fits lo hi' cs value result
Fits-widen le fits = record {
  at_least = fits.at_least;
  at_most = omega (arith, le, fits.at_most);
  chosen = fits.chosen;
  covers = fits.covers;
}

module _ (sort : Sort) (sorts : Sorts sort) (ds : Collection)
    (key erc_address token_id erc_address_fee value fee max_nullifiers max_non_fee : ℕ) where
  abbrev AsksValue : List Commitment × ℕ → Type 0
  AsksValue found =
      ((max_non_fee ≡ 0) × (found.1 ≡ 0))
      ⊎ ((max_non_fee ≢ 0)
          × Checked (max_nullifiers - (if ltb 0 fee then 1 else 0))
              (token_commitments ds key erc_address token_id) value found
          × (found.1 ≤ max_non_fee))

  abbrev AsksFee : ℕ → List Commitment × ℕ → Type 0
  AsksFee max_left found =
      ((fee ≡ 0) × (found.1 ≡ 0))
      ⊎ ((0 < fee) × Checked max_left (token_commitments ds key erc_address_fee 0) fee found)

  leaves_room :
      (found found_fee : List Commitment × ℕ)
      → AsksValue found
      → AsksFee (max_nullifiers - found.1) found_fee
      → (found.1 ≤ max_nullifiers - found_fee.1) × (found_fee.1 ≤ max_nullifiers)
  leaves_room found found_fee (inl (e, none_found)) (inl (f, no_fee)) = (omega arith, omega arith)
  leaves_room found found_fee (inl (e, none_found)) (inr (f, (same, finds))) =
      (omega arith, omega (arith, finds.within))
  leaves_room found found_fee (inr (ne, (same, finds), le)) (inl (f, no_fee)) =
      (omega (arith, finds.within), omega arith)
  leaves_room found found_fee (inr (ne, (same, finds), le)) (inr (f, (same_fee, finds_fee))) =
      let room : found.1
          ≤ min (length (token_commitments ds key erc_address token_id)) (max_nullifiers - 1) =
        rw (lt→ltb 0 fee f) at finds.within in
      (omega (arith, room, finds_fee.within), omega (arith, finds_fee.within))

  value_pays :
      (found : List Commitment × ℕ) (max_c : ℕ)
      → AsksValue found
      → (max_non_fee ≢ 0 → found.1 ≤ max_c)
      → ((max_non_fee ≡ 0)
          × ((if max_non_fee == 0 then [] else select_commitments sort found.0 value found.1 max_c)
              ≡ []))
        ⊎ Fits 1 max_c
            (token_commitments ds key erc_address token_id)
            value
            (if max_non_fee == 0 then [] else select_commitments sort found.0 value found.1 max_c)
  value_pays found max_c (inl (e, none_found)) fits = inl (e, rw (eq→== max_non_fee 0 e) refl)
  value_pays found max_c (inr (ne, checked, le)) fits = inr (
      rw (ne→== max_non_fee 0 ne) (
        select-Fits sort (max_nullifiers - (if ltb 0 fee then 1 else 0)) max_c
          (token_commitments ds key erc_address token_id) value found sorts
          (spendable-Ascending (get_available_commitments key erc_address token_id ds)) checked
          (fits ne)))

  fee_pays :
      (found_fee : List Commitment × ℕ) (max_left max_fc : ℕ)
      → AsksFee max_left found_fee
      → found_fee.1 ≤ max_fc
      → ((fee ≡ 0)
          × ((if ltb 0 fee then select_commitments sort found_fee.0 fee found_fee.1 max_fc else [])
              ≡ []))
        ⊎ Fits 1 max_fc
            (token_commitments ds key erc_address_fee 0)
            fee
            (if ltb 0 fee then select_commitments sort found_fee.0 fee found_fee.1 max_fc else [])
  fee_pays found_fee max_left max_fc (inl (e, none_found)) fits =
      inl (e, rw (le→ltb 0 fee (omega arith)) refl)
  fee_pays found_fee max_left max_fc (inr (pos, checked)) fits = inr (
      rw (lt→ltb 0 fee pos) (
        select-Fits sort max_left max_fc (token_commitments ds key erc_address_fee 0) fee found_fee
          sorts (spendable-Ascending (get_available_commitments key erc_address_fee 0 ds)) checked
          fits))

  length-pays :
      {cs result : List Commitment} {target hi : ℕ} {P : Type 0}
      → (P × (result ≡ [])) ⊎ Fits 1 hi cs target result
      → length result ≤ hi
  length-pays (inl (p, e)) = rw e (omega arith)
  length-pays (inr fits) = fits.at_most

  widen_pays :
      {cs result : List Commitment} {target hi hi' : ℕ} {P : Type 0}
      → hi ≤ hi'
      → (P × (result ≡ [])) ⊎ Fits 1 hi cs target result
      → (P × (result ≡ [])) ⊎ Fits 1 hi' cs target result
  widen_pays le (inl p) = inl p
  widen_pays le (inr fits) = inr (Fits-widen le fits)

  chosen-Funds :
      (found found_fee : List Commitment × ℕ)
      → AsksValue found
      → AsksFee (max_nullifiers - found.1) found_fee
      → let usable =
          choose_commitments sort
            (record {
              commitments_fee = found_fee.0;
              min_fc = found_fee.1;
              commitments = found.0;
              min_c = found.1;
            })
            value
            fee
            max_nullifiers
            max_non_fee in
        Funds ds key erc_address token_id erc_address_fee value fee max_nullifiers max_non_fee
          usable
          (mark_all_pending (usable.old_commitments ++ usable.old_commitments_fee) ds)
  unfolding choose_commitments
  chosen-Funds found found_fee asks asks_fee =
      let (room, room_fee) = leaves_room found found_fee asks asks_fee in
      let pays =
        value_pays found (min max_non_fee (max_nullifiers - found_fee.1)) asks
          (λ ne. least found found_fee room asks ne) in
      let pays_fee =
        fee_pays found_fee (max_nullifiers - found.1) _ asks_fee
          (omega (arith, length-pays pays, room_fee)) in
      record {
        pays_value = widen_pays (omega arith) pays;
        pays_fee = widen_pays (omega arith) pays_fee;
        few = omega (arith, length-pays pays, length-pays pays_fee);
        pending = refl;
      }
    where
      least :
          (found found_fee : List Commitment × ℕ)
          → found.1 ≤ max_nullifiers - found_fee.1
          → AsksValue found
          → max_non_fee ≢ 0
          → found.1 ≤ min max_non_fee (max_nullifiers - found_fee.1)
      least found found_fee room (inl (e, none_found)) ne = absurd (ne e)
      least found found_fee room (inr (pos, checked, le)) ne = omega (arith, room, le)

-- For every sort that permutes, when `findUsableCommitments` returns, the commitments it chose for
-- the value are spendable ones of the token, at most `maxNonFeeNullifiers` and enough for the value,
-- or none when none were allowed; those for the fee are spendable ones of the fee's token and enough
-- for the fee, or none without a fee; together they are at most `maxNullifiers`, and exactly they
-- were marked pending.
pub find_usable_commitments-Funds :
    (sort : Sort) (ds : Collection)
    (key erc_address token_id erc_address_fee value fee max_nullifiers max_non_fee : ℕ)
    (usable : Usable) (ds' : Collection)
    → Sorts sort
    → find_usable_commitments sort ds key erc_address token_id erc_address_fee value fee
        max_nullifiers max_non_fee
      ≡ ok (usable, ds')
    → Funds ds key erc_address token_id erc_address_fee value fee max_nullifiers max_non_fee usable
        ds'
unfolding find_usable_commitments verify_enough_commitments
find_usable_commitments-Funds sort ds key erc_address token_id erc_address_fee value fee
      max_nullifiers max_non_fee usable ds' sorts h =
    let finish : Verified → Usable × Collection = λ v.
      let usable = choose_commitments sort v value fee max_nullifiers max_non_fee in
      (usable, mark_all_pending (usable.old_commitments ++ usable.old_commitments_fee) ds) in
    let (v, verified, returned) =
      through
        (verify_enough_commitments ds key erc_address token_id value erc_address_fee fee
          max_nullifiers max_non_fee)
        (λ v. ok (finish v)) h in
    let (found, first, rest) = through _ _ verified in
    let (found_fee, second, made) = through _ _ rest in
    subst
      (λ (p : Usable × Collection).
        Funds ds key erc_address token_id erc_address_fee value fee max_nullifiers max_non_fee p.0
          p.1)
      (ap finish (ok-injective _ v made) ∙ ok-injective (finish v) (usable, ds') returned)
      (chosen-Funds sort sorts ds key erc_address token_id erc_address_fee value fee max_nullifiers
        max_non_fee found found_fee
        (verify_value-asks ds key erc_address token_id value fee max_nullifiers max_non_fee found
          first)
        (verify_fee-asks ds key erc_address_fee fee (max_nullifiers - found.1) found_fee second))
