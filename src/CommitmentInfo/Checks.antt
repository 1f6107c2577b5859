-- ===== src/CommitmentInfo/Checks.antt =====
-- What the checks on the provided commitments let through, in
-- nightfall-client/src/utils/getCommitmentInfo.mjs.
use nightfall.Common.{
  ℕ, ◌+◌, ◌≤◌, ◌<◌, ◌≡◌, ◌≢◌, refl, sym, ap, subst, ◌∙◌, throws, if◌then◌else◌, suc, ne→==, ◌⊎◌,
  inl, inr, List, [], ◌∷◌, map, length, Bool-cases, ltb, ltb→le, lt→ltb, arith, ok, through,
  ok-injective,
}
use nightfall.Commitments.Values.{Commitment, total}
use nightfall.Commitments.Store.{Collection}
use nightfall.Commitments.Usable.{to_commitment}
use nightfall.CommitmentInfo.Request.{Request}
use nightfall.CommitmentInfo.Provided.{
  InfoError, of_token, validated, validate_value, validate_fee, validate_provided,
}

-- Either nothing was provided, or what was provided is valid and covers the target.
abbrev pub Provides : List ℕ → Collection → ℕ → List Commitment → Type 0
Provides hashes found target given =
    ((hashes ≡ []) × (given ≡ []))
    ⊎ ((hashes ≢ [])
        × (given ≡ map to_commitment found)
        × (0 < length given)
        × (target ≤ total given))

pub length-to_commitments : (ds : Collection) → length (map to_commitment ds) ≡ length ds
length-to_commitments [] = refl
length-to_commitments (d ∷ ds) = ap suc (length-to_commitments ds)

pub validated-Provides :
    (hashes : List ℕ) (found : Collection) (target : ℕ) (invalid uncovered : InfoError)
    (given : List Commitment)
    → validated hashes found target invalid uncovered ≡ ok given
    → Provides hashes found target given
unfolding validated
validated-Provides [] found target invalid uncovered given h =
    inl (refl, sym (ok-injective [] given h))
validated-Provides (x ∷ xs) found target invalid uncovered given h =
    let h : (if ltb (length found) (suc (length xs))
          then throws invalid
          else if ltb 0 (length found)
          then (if ltb (total (map to_commitment found)) target
              then throws uncovered
              else ok (map to_commitment found))
          else ok [])
        ≡ ok given =
      rw (ne→== (suc (length xs)) 0 (omega arith)) at h in
    elim (Bool-cases (ltb (length found) (suc (length xs)))) [
      | inl t ↦ let g = rw t at h in absurd (cc g)
      | inr f ↦
          let le : suc (length xs) ≤ length found = ltb→le _ _ f in
          let g = rw (f, lt→ltb 0 (length found) (omega arith)) at h in
          elim (Bool-cases (ltb (total (map to_commitment found)) target)) [
            | inl u ↦ let k = rw u at g in absurd (cc k)
            | inr u ↦
                let k : map to_commitment found ≡ given = ok-injective _ given (rw u at g) in
                inr (
                  (λ e. nonempty x xs e),
                  sym k,
                  subst (λ (cs : List Commitment). 0 < length cs) k
                      (omega (arith, length-to_commitments found)),
                  subst (λ (cs : List Commitment). target ≤ total cs) k (ltb→le _ _ u),
                )
          ]
    ]
  where
    nonempty : (x : ℕ) (xs : List ℕ) → (x ∷ xs) ≢ []
    nonempty x xs e = omega (arith, ap length e)

pub validate_provided-Provides :
    (r : Request) (ds : Collection) (given given_fee : List Commitment)
    → validate_provided r ds ≡ ok (given, given_fee)
    → Provides r.provided
        (of_token r.provided r.compressed_zkp_public_key r.erc_address ds)
        r.total_value_to_send
        given
      × Provides r.provided_fee
          (of_token r.provided_fee r.compressed_zkp_public_key r.fee_address ds)
          r.fee
          given_fee
unfolding validate_provided validate_value validate_fee
validate_provided-Provides r ds given given_fee h =
    elim (Bool-cases (ltb r.max_nullifiers (length r.provided + length r.provided_fee))) [
      | inl t ↦ let g = rw t at h in absurd (cc g)
      | inr f ↦
          let (cs, first, rest) = through (validate_value r ds) _ (rw f at h) in
          let (cs', second, made) = through (validate_fee r ds) _ rest in
          let same : (cs, cs') ≡ (given, given_fee) = ok-injective _ _ made in
          (
            validated-Provides _ _ _ _ _ given (first ∙ ap (λ p. ok p.0) same),
            validated-Provides _ _ _ _ _ given_fee (second ∙ ap (λ p. ok p.1) same),
          )
    ]
