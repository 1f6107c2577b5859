-- ===== src/Commitments/Asks.antt =====
-- What the halves of `verifyEnoughCommitments` in
-- nightfall-client/src/services/commitment-storage.mjs have found when they return.
use nightfall.Common.{
  ℕ, ◌-◌, ◌≤◌, ◌<◌, ◌≡◌, ◌≢◌, sym, ap, ◌⊎◌, inl, inr, List, [], ltb, if◌then◌else◌, arith, lt-cases,
  eq-cases, le→ltb, eq→==, ok, ok-injective,
}
use nightfall.Commitments.Values.{Commitment}
use nightfall.Commitments.Store.{Collection, get_available_commitments}
use nightfall.Commitments.Usable.{spendable, verify_value, verify_fee}
use nightfall.Commitments.Spending.{Checked, verify_value-Checked, verify_fee-Checked}

-- The spendable commitments of a token.
abbrev pub token_commitments : Collection → ℕ → ℕ → ℕ → List Commitment
token_commitments ds key erc_address token_id =
    spendable (get_available_commitments key erc_address token_id ds)

-- What a half of `verifyEnoughCommitments` found, if it was asked for anything.
pub verify_value-asks :
    (ds : Collection) (key erc_address token_id value fee max_nullifiers max_non_fee : ℕ)
    (found : List Commitment × ℕ)
    → verify_value ds key erc_address token_id value fee max_nullifiers max_non_fee ≡ ok found
    → ((max_non_fee ≡ 0) × (found.1 ≡ 0))
      ⊎ ((max_non_fee ≢ 0)
          × Checked
              (max_nullifiers - (if ltb 0 fee then 1 else 0))
              (token_commitments ds key erc_address token_id)
              value
              found
          × (found.1 ≤ max_non_fee))
unfolding verify_value
verify_value-asks ds key erc_address token_id value fee max_nullifiers max_non_fee found h =
    elim (eq-cases max_non_fee 0) [
      | inl e ↦
          inl
            (e, sym (ap (λ q. q.1) (ok-injective ([], 0) found (rw (eq→== max_non_fee 0 e) at h))))
      | inr ne ↦
          let (checked, le) =
            verify_value-Checked ds key erc_address token_id value fee max_nullifiers max_non_fee
              found ne h in
          inr (ne, checked, le)
    ]

-- The number found for the fee, and that it leaves room for the number found for the value.
pub verify_fee-asks :
    (ds : Collection) (key erc_address_fee fee max_left : ℕ) (found : List Commitment × ℕ)
    → verify_fee ds key erc_address_fee fee max_left ≡ ok found
    → ((fee ≡ 0) × (found.1 ≡ 0))
      ⊎ ((0 < fee) × Checked max_left (token_commitments ds key erc_address_fee 0) fee found)
unfolding verify_fee
verify_fee-asks ds key erc_address_fee fee max_left found h = elim (lt-cases 0 fee) [
  | inl lt ↦ inr (lt, verify_fee-Checked ds key erc_address_fee fee max_left found lt h)
  | inr le ↦
      inl
        (omega arith, sym (ap (λ q. q.1) (ok-injective ([], 0) found (rw (le→ltb 0 fee le) at h))))
]
