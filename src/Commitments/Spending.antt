-- ===== src/Commitments/Spending.antt =====
-- What `findUsableCommitments` of nightfall-client/src/services/commitment-storage.mjs returns can
-- pay: the checks of `verifyEnoughCommitments` are enough for the selection to succeed.
use nightfall.Common.{
  ℕ, zero, suc, ◌+◌, ◌-◌, ◌≤◌, ◌<◌, ◌≡◌, ◌≢◌, refl, sym, ap, ◌⊎◌, inl, inr, List, [], map, length,
  min, true, not, ltb, leb, ◌==◌, if◌then◌else◌, arith, lt-cases, eq-cases, lt→ltb, le→ltb, eq→==,
  ne→==, ok, throws, ok-injective,
}
use nightfall.Commitments.Values.{Commitment, Ascending}
use nightfall.Commitments.Store.{Collection, is_unset, find, get_available_commitments}
use nightfall.Commitments.Subsets.{at, find_subset_n, select_commitments}
use nightfall.Commitments.Usable.{
  no_commitment_found, no_commitments_cover_value, no_fee_commitments, no_commitments_cover_fee,
  Sort, spendable, min_loop, verify_value, verify_fee, to_commitment,
}
use nightfall.Commitments.Largest.{top, first_enough_finds}
use nightfall.Commitments.Complete.{find_subset_n_finds}
use nightfall.Commitments.Counting.{sort_by_value-Ascending, min_loop-least}
use nightfall.Commitments.Selection.{Sorts, Fits, select_commitments-Fits}

pub spendable-Ascending : (ds : Collection) → Ascending (spendable ds)
unfolding spendable
spendable-Ascending ds =
    sort_by_value-Ascending (map to_commitment (find (λ d. not (is_unset d.is_on_chain)) ds))

-- A number that is enough to pass the check, and with which the search finds some.
pub record Finds (most : ℕ) (cs : List Commitment) (value m : ℕ) : Type 0 where
  pub positive : 1 ≤ m
  pub within : m ≤ most
  pub finds : find_subset_n m cs value ≢ []

one_is_enough :
    (most : ℕ) (cs : List Commitment)
    → most ≤ length cs
    → min_loop most 1 0 cs 0 ≢ 0
    → Finds most cs 0 (min_loop most 1 0 cs 0)
unfolding min_loop find_subset_n
one_is_enough zero cs fits ne = absurd (ne refl)
one_is_enough (suc most) cs fits ne = rw (zero_leb (0 + (at cs (length cs - 1)).value)) (record {
  positive = omega arith;
  within = omega arith;
  finds = first_enough_finds cs 0 (omega arith) (omega arith);
})
  where
    zero_leb : (n : ℕ) → leb 0 n ≡ true
    zero_leb n = ground arith

min_loop-Finds :
    (most : ℕ) (cs : List Commitment) (value : ℕ)
    → Ascending cs
    → most ≤ length cs
    → min_loop most 1 0 cs value ≢ 0
    → Finds most cs value (min_loop most 1 0 cs value)
min_loop-Finds most cs zero up fits ne = one_is_enough most cs fits ne
min_loop-Finds most cs (suc v) up fits ne =
    go (min_loop most 1 0 cs (suc v)) ne (min_loop-least most cs (suc v) fits (omega arith))
  where
    go :
        (m : ℕ)
        → m ≢ 0
        → ((m ≡ 0) × (top (0 + most) cs < suc v))
          ⊎ ((0 < m) × (m ≤ 0 + most) × (suc v ≤ top m cs) × (top (m - 1) cs < suc v))
        → Finds most cs (suc v) m
    go m positive (inl (e, h)) = absurd (positive e)
    go zero positive (inr h) = absurd (positive refl)
    go (suc m) positive (inr (a, b, c, d)) = record {
      positive = omega arith;
      within = omega arith;
      finds =
          find_subset_n_finds m cs (suc v)
            (record { ascending = up; long = omega arith; enough = c; fewer = d });
    }

-- What a check that returns has found: commitments for the target, and a number of them with which the
-- search succeeds; or it was not asked for any.
abbrev pub Checked : ℕ → List Commitment → ℕ → List Commitment × ℕ → Type 0
Checked most available target found =
    (found.0 ≡ available) × Finds (min (length available) most) available target found.1

-- The ladder of tests at the end of each half.
value_ladder :
    (n m most : ℕ) (cs : List Commitment) (found : List Commitment × ℕ)
    → (if n == 0
        then throws no_commitment_found
        else if m == 0
        then throws no_commitments_cover_value
        else if ltb most m
        then throws no_commitments_cover_value
        else ok (cs, m))
      ≡ ok found
    → (found.0 ≡ cs) × (found.1 ≡ m) × (m ≢ 0) × (m ≤ most)
value_ladder n m most cs found h = elim (eq-cases n 0) [
  | inl e ↦ absurd (cc (rw (eq→== n 0 e) at h))
  | inr ne ↦ elim (eq-cases m 0) [
    | inl e ↦ absurd (cc (rw (ne→== n 0 ne, eq→== m 0 e) at h))
    | inr pos ↦ elim (lt-cases most m) [
      | inl over ↦ absurd (cc (rw (ne→== n 0 ne, ne→== m 0 pos, lt→ltb most m over) at h))
      | inr le ↦
          let e : ◌≡◌ {A = List Commitment × ℕ} (cs, m) found =
            ok-injective (cs, m) found (rw (ne→== n 0 ne, ne→== m 0 pos, le→ltb most m le) at h) in
          (sym (ap (λ p. p.0) e), sym (ap (λ p. p.1) e), pos, le)
    ]
  ]
]

fee_ladder :
    (n m : ℕ) (cs : List Commitment) (found : List Commitment × ℕ)
    → (if n == 0
        then throws no_fee_commitments
        else if m == 0
        then throws no_commitments_cover_fee
        else ok (cs, m))
      ≡ ok found
    → (found.0 ≡ cs) × (found.1 ≡ m) × (m ≢ 0)
fee_ladder n m cs found h = elim (eq-cases n 0) [
  | inl e ↦ absurd (cc (rw (eq→== n 0 e) at h))
  | inr ne ↦ elim (eq-cases m 0) [
    | inl e ↦ absurd (cc (rw (ne→== n 0 ne, eq→== m 0 e) at h))
    | inr pos ↦
        let e : ◌≡◌ {A = List Commitment × ℕ} (cs, m) found =
          ok-injective (cs, m) found (rw (ne→== n 0 ne, ne→== m 0 pos) at h) in
        (sym (ap (λ p. p.0) e), sym (ap (λ p. p.1) e), pos)
  ]
]

loop-Checked :
    (most : ℕ) (available : List Commitment) (target : ℕ) (found : List Commitment × ℕ)
    → Ascending available
    → found.0 ≡ available
    → found.1 ≡ min_loop (min (length available) most) 1 0 available target
    → min_loop (min (length available) most) 1 0 available target ≢ 0
    → Checked most available target found
loop-Checked most available target found up same e pos = (
  same,
  rw e (min_loop-Finds (min (length available) most) available target up (omega arith) pos),
)

pub verify_value-Checked :
    (ds : Collection) (key erc_address token_id value fee max_nullifiers max_non_fee : ℕ)
    (found : List Commitment × ℕ)
    → max_non_fee ≢ 0
    → verify_value ds key erc_address token_id value fee max_nullifiers max_non_fee ≡ ok found
    → Checked
        (max_nullifiers - (if ltb 0 fee then 1 else 0))
        (spendable (get_available_commitments key erc_address token_id ds))
        value
        found
      × (found.1 ≤ max_non_fee)
unfolding verify_value
verify_value-Checked ds key erc_address token_id value fee max_nullifiers max_non_fee found asked
      h =
    let available : List Commitment =
      spendable (get_available_commitments key erc_address token_id ds) in
    let most : ℕ = max_nullifiers - (if ltb 0 fee then 1 else 0) in
    let m : ℕ = min_loop (min (length available) most) 1 0 available value in
    let (same, e, pos, le) =
      value_ladder (length (get_available_commitments key erc_address token_id ds)) m max_non_fee
        available found (rw (ne→== max_non_fee 0 asked) at h) in
    (
      loop-Checked most available value found
          (spendable-Ascending (get_available_commitments key erc_address token_id ds)) same e pos,
      omega (arith, e, le),
    )

pub verify_fee-Checked :
    (ds : Collection) (key erc_address_fee fee max_left : ℕ) (found : List Commitment × ℕ)
    → 0 < fee
    → verify_fee ds key erc_address_fee fee max_left ≡ ok found
    → Checked max_left (spendable (get_available_commitments key erc_address_fee 0 ds)) fee found
unfolding verify_fee
verify_fee-Checked ds key erc_address_fee fee max_left found asked h =
    let available : List Commitment =
      spendable (get_available_commitments key erc_address_fee 0 ds) in
    let m : ℕ = min_loop (min (length available) max_left) 1 0 available fee in
    let (same, e, pos) =
      fee_ladder (length (get_available_commitments key erc_address_fee 0 ds)) m available found
        (rw (lt→ltb 0 fee asked) at h) in
    loop-Checked max_left available fee found
      (spendable-Ascending (get_available_commitments key erc_address_fee 0 ds)) same e pos

-- With the number that a check found, the selection succeeds.
pub select-Fits :
    (sort : Sort) (most available_max : ℕ) (available : List Commitment) (target : ℕ)
    (found : List Commitment × ℕ)
    → Sorts sort
    → Ascending available
    → Checked most available target found
    → found.1 ≤ available_max
    → Fits 1 available_max available target
        (select_commitments sort found.0 target found.1 available_max)
select-Fits sort most available_max available target found sorts up (same, finds) le =
    let fits =
      select_commitments-Fits sort available target found.1 available_max sorts up
        (omega (arith, finds.within)) le finds.finds in
    rw same (record {
      at_least = omega (arith, fits.at_least, finds.positive);
      at_most = fits.at_most;
      chosen = fits.chosen;
      covers = fits.covers;
    })
