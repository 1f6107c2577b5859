-- ===== src/CommitmentInfo/Paid.antt =====
-- The inputs of `getCommitmentInfo` in nightfall-client/src/utils/getCommitmentInfo.mjs are few and
-- large enough.
use nightfall.Common.{
  ℕ, ◌+◌, ◌-◌, ◌≤◌, ◌<◌, ◌≡◌, ◌≢◌, refl, sym, ap, subst, ◌∙◌, ◌⊎◌, inl, inr, Option, none, some,
  List, [], ◌∷◌, ◌++◌, Bool, true, false, leb, leb→le, if◌then◌else◌, Bool-cases, eq-cases, eq→==,
  ne→==, arith, ℤ, pos, above, below, ◌-ℤ◌, difference_lem, ℤ-eq,
}
use nightfall.Commitments.Values.{Commitment, total}
use nightfall.Commitments.Store.{Collection}
use nightfall.Commitments.Usable.{Usable}
use nightfall.CommitmentInfo.Request.{
  Request, added_fee, asked_value, asked_fee, asked_non_fee, looks_for_value,
}
use nightfall.CommitmentInfo.Provided.{Wanted, few_provided, wanted, non_fee_left, fee_left}
use nightfall.CommitmentInfo.Checks.{Provides}
use nightfall.CommitmentInfo.Restores.{FundsInputs}

-- The token is not the fee's, or nothing is provided; and commitments for the value may be chosen, or
-- there is none to pay.
pub record Payable (r : Request) : Type 0 where
  pub tokens : (r.fee_address ≢ r.erc_address) ⊎ ((r.provided ≡ []) × (r.provided_fee ≡ []))
  pub slots :
      (asked_non_fee r ≢ pos 0) ⊎ ((r.fee_address ≢ r.erc_address) × (r.total_value_to_send ≡ 0))

pub total-append : (xs ys : List Commitment) → total (xs ++ ys) ≡ total xs + total ys
total-append [] ys = omega arith
total-append (x ∷ xs) ys = omega (arith, total-append xs ys)

minus_none : (z : ℤ) → z -ℤ pos 0 ≡ z
minus_none z = ℤ-eq _ z (omega (arith, difference_lem (above z + 0) (below z + 0)))

module _ (r : Request) where
  -- With another token for the fee, the value is all that is looked for.
  wanted-differ :
      (given_fee : List Commitment)
      → r.fee_address ≢ r.erc_address
      → ((wanted r [] given_fee).value ≡ asked_value r)
        × ((wanted r [] given_fee).max_non_fee ≡ asked_non_fee r)
  unfolding wanted non_fee_left
  wanted-differ given_fee ne = rw (ne→== _ _ ne) (refl, refl)

  -- With nothing provided, too.
  wanted-nothing :
      ((wanted r [] []).value ≡ asked_value r) × ((wanted r [] []).max_non_fee ≡ asked_non_fee r)
  unfolding wanted non_fee_left
  wanted-nothing = (
    value_same (few_provided r [] []) (asked_value r),
    non_fee_same (few_provided r [] []) (asked_value r) (asked_non_fee r) (none_without r),
  )
    where
      value_same : (few : Bool) (v : ℕ) → (if few then (if leb v 0 then 0 else v - 0) else v) ≡ v
      value_same few v = ground arith

      none_without : (r : Request) → few_provided r [] [] ≡ true → 0 < asked_value r
      none_without r t = unfold few_provided in ground arith

      non_fee_same :
          (few : Bool) (v : ℕ) (z : ℤ)
          → (few ≡ true → 0 < v)
          → (if few then (if leb v 0 then pos 0 else z -ℤ pos 0) else z) ≡ z
      non_fee_same false v z h = refl
      non_fee_same true v z h = elim (Bool-cases (leb v 0)) [
        | inl t ↦ absurd (omega (arith, leb→le v 0 t, h refl))
        | inr f ↦ rw f (minus_none z)
      ]

  asked_value-covers : asked_non_fee r ≢ pos 0 → r.total_value_to_send + added_fee r ≤ asked_value r
  unfolding asked_non_fee asked_value
  asked_value-covers ne = covers r.max_non_fee refl
    where
      covers :
          (limit : Option ℕ)
          → r.max_non_fee ≡ limit
          → r.total_value_to_send + added_fee r ≤ (
              if looks_for_value r.max_non_fee
              then r.total_value_to_send + added_fee r
              else r.total_value_to_send)
      covers none e = rw e (omega arith)
      covers (some n) e = elim (eq-cases n 0) [
        | inl none_left ↦ absurd (ne (rw e (ap pos none_left)))
        | inr other ↦ rw (e, ne→== n 0 other) (omega arith)
      ]

  asked_fee-covers : r.fee_address ≢ r.erc_address → asked_fee r ≡ r.fee
  unfolding asked_fee added_fee
  asked_fee-covers ne = ground arith

  abbrev Slots : Type 0
  Slots =
      (asked_non_fee r ≢ pos 0) ⊎ ((r.fee_address ≢ r.erc_address) × (r.total_value_to_send ≡ 0))

  no_added : r.fee_address ≢ r.erc_address → added_fee r ≡ 0
  unfolding added_fee
  no_added ne = rw (ne→== _ _ ne) refl

  all_added : r.fee_address ≡ r.erc_address → added_fee r ≡ r.fee
  unfolding added_fee
  all_added e = rw (eq→== _ _ e) refl

  value_chosen :
      (w : Wanted) (ds : Collection) (usable : Usable) (ds' : Collection) (n : ℕ)
      → Slots
      → w.value ≡ asked_value r
      → w.max_non_fee ≡ asked_non_fee r
      → w.max_non_fee ≡ pos n
      → FundsInputs r w ds usable ds' n
      → r.total_value_to_send + added_fee r ≤ total usable.old_commitments
  value_chosen w ds usable ds' n (inr (ne, nothing)) same slots room funds =
      omega (arith, nothing, no_added ne)
  value_chosen w ds usable ds' n (inl ne) same slots room funds = elim funds.pays_value [
    | inl (none_left, e) ↦ absurd (ne (sym slots ∙ room ∙ ap pos none_left))
    | inr fits ↦ omega (arith, fits.covers, same, asked_value-covers ne)
  ]

  module _ (payable : Payable r) (given given_fee : List Commitment) (found found_fee : Collection)
      (provides : Provides r.provided found r.total_value_to_send given)
      (provides_fee : Provides r.provided_fee found_fee r.fee given_fee) where
    wanted-asked :
        given ≡ []
        → ((wanted r given given_fee).value ≡ asked_value r)
          × ((wanted r given given_fee).max_non_fee ≡ asked_non_fee r)
    wanted-asked nothing =
        subst
          (λ (cs : List Commitment).
            ((wanted r cs given_fee).value ≡ asked_value r)
            × ((wanted r cs given_fee).max_non_fee ≡ asked_non_fee r))
          (sym nothing)
          (elim payable.tokens [
            | inl ne ↦ wanted-differ given_fee ne
            | inr (e, e') ↦ elim provides_fee [
              | inl (f, no_fee) ↦
                  subst
                    (λ (cs : List Commitment).
                      ((wanted r [] cs).value ≡ asked_value r)
                      × ((wanted r [] cs).max_non_fee ≡ asked_non_fee r))
                    (sym no_fee) wanted-nothing
              | inr (asked, same, some_given, covers) ↦ absurd (asked e')
            ]
          ])

    pub value_paid :
        (ds : Collection) (usable : Usable) (ds' : Collection) (n : ℕ)
        → (wanted r given given_fee).max_non_fee ≡ pos n
        → FundsInputs r (wanted r given given_fee) ds usable ds' n
        → r.total_value_to_send + added_fee r ≤ total (usable.old_commitments ++ given)
    value_paid ds usable ds' n room funds = elim provides [
      | inl (e, nothing) ↦
          let (same, slots) = wanted-asked nothing in
          omega (
            arith,
            value_chosen (wanted r given given_fee) ds usable ds' n payable.slots same slots room
                funds,
            total-append usable.old_commitments given,
          )
      | inr (asked, same, some_given, covers) ↦ elim payable.tokens [
        | inl ne ↦ omega (arith, covers, no_added ne, total-append usable.old_commitments given)
        | inr (e, e') ↦ absurd (asked e)
      ]
    ]

    pub fee_paid :
        (ds : Collection) (usable : Usable) (ds' : Collection) (n : ℕ)
        → FundsInputs r (wanted r given given_fee) ds usable ds' n
        → r.fee - added_fee r ≤ total (usable.old_commitments_fee ++ given_fee)
    unfolding wanted fee_left
    fee_paid ds usable ds' n funds = elim (eq-cases r.fee_address r.erc_address) [
      | inl e ↦ omega (arith, all_added e)
      | inr ne ↦ elim provides_fee [
        | inl (e, nothing) ↦
            let left : (wanted r given given_fee).fee_value ≡ r.fee =
              ap (fee_left r) nothing ∙ asked_fee-covers ne in
            elim funds.pays_fee [
              | inl (no_fee, nobody) ↦ omega (arith, left, no_fee)
              | inr fits ↦
                  omega
                    (arith, left, fits.covers, total-append usable.old_commitments_fee given_fee)
            ]
        | inr (asked, same, some_given, covers) ↦
            omega (arith, covers, total-append usable.old_commitments_fee given_fee)
      ]
    ]
