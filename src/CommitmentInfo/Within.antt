-- ===== src/CommitmentInfo/Within.antt =====
-- No more commitments are found than hashes are asked for, in
-- nightfall-client/src/utils/getCommitmentInfo.mjs.
use nightfall.Common.{
  ℕ, ◌+◌, ◌≤◌, ◌≡◌, refl, sym, ap, subst, inl, inr, List, [], ◌∷◌, length, Bool, true, not, ◌&&◌,
  ◌||◌, ◌==◌, ltb, ltb→le, ==→eq, Bool-cases, arith, ok, ne→==,
}
use nightfall.Commitments.Values.{Commitment}
use nightfall.Commitments.Store.{
  Stored, Collection, find, one_of, get_commitments_available_by_hash, is_unset,
}
use nightfall.Commitments.Pending.{Unique, NoneHas}
use nightfall.CommitmentInfo.Request.{Request}
use nightfall.CommitmentInfo.Provided.{of_token, validate_provided}
use nightfall.CommitmentInfo.Checks.{Provides, length-to_commitments, validate_provided-Provides}

-- A query that wants more finds less.
length-find :
    (p q : Stored → Bool) (ds : Collection)
    → ((d : Stored) → p d ≡ true → q d ≡ true)
    → length (find p ds) ≤ length (find q ds)
unfolding find
length-find p q [] implies = omega arith
length-find p q (d ∷ ds) implies = elim (Bool-cases (p d)) [
  | inl t ↦ rw (t, implies d t) (omega (arith, length-find p q ds implies))
  | inr f ↦ elim (Bool-cases (q d)) [
    | inl u ↦ rw (f, u) (omega (arith, length-find p q ds implies))
    | inr g ↦ rw (f, g) (length-find p q ds implies)
  ]
]

length-find_le : (p : Stored → Bool) (ds : Collection) → length (find p ds) ≤ length ds
unfolding find
length-find_le p [] = omega arith
length-find_le p (d ∷ ds) = elim (Bool-cases (p d)) [
  | inl t ↦ rw t (omega (arith, length-find_le p ds))
  | inr f ↦ rw f (omega (arith, length-find_le p ds))
]

length-find_or :
    (p q : Stored → Bool) (ds : Collection)
    → length (find (λ d. p d || q d) ds) ≤ length (find p ds) + length (find q ds)
unfolding find
length-find_or p q [] = omega arith
length-find_or p q (d ∷ ds) = elim (Bool-cases (p d)) [
  | inl t ↦ elim (Bool-cases (q d)) [
    | inl u ↦ rw (t, u) (omega (arith, length-find_or p q ds))
    | inr g ↦ rw (t, g) (omega (arith, length-find_or p q ds))
  ]
  | inr f ↦ elim (Bool-cases (q d)) [
    | inl u ↦ rw (f, u) (omega (arith, length-find_or p q ds))
    | inr g ↦ rw (f, g) (length-find_or p q ds)
  ]
]

find-NoneHas_id : (i : ℕ) (ds : Collection) → NoneHas i ds → find (λ d. i == d.id) ds ≡ []
unfolding find
find-NoneHas_id i [] other = refl
find-NoneHas_id i (d ∷ ds) (ne, other) =
    rw (ne→== i d.id (λ e. ne (sym e))) (find-NoneHas_id i ds other)

length-find_id : (i : ℕ) (ds : Collection) → Unique ds → length (find (λ d. i == d.id) ds) ≤ 1
unfolding find
length-find_id i [] unique = omega arith
length-find_id i (d ∷ ds) (other, unique) = elim (Bool-cases (i == d.id)) [
  | inl t ↦ rw t (
      omega (
        arith,
        ap length (find-NoneHas_id i ds (subst (λ n. NoneHas n ds) (sym (==→eq i d.id t)) other)),
      ))
  | inr f ↦ rw f (length-find_id i ds unique)
]

length-find-one_of :
    (hashes : List ℕ) (ds : Collection)
    → Unique ds
    → length (find (λ d. one_of hashes d.id) ds) ≤ length hashes
unfolding one_of
length-find-one_of [] ds unique = none_of ds
  where
    none_of : (es : Collection) → length (find (λ d. one_of [] d.id) es) ≤ 0
    none_of [] = unfold find in omega arith
    none_of (e ∷ es) = none_found es (none_of es)
      where
        none_found :
            (es : Collection)
            → length (find (λ d. one_of [] d.id) es) ≤ 0
            → length (find (λ d. one_of [] d.id) (e ∷ es)) ≤ 0
        none_found es le = unfold find in le
length-find-one_of (x ∷ xs) ds unique = omega (
  arith,
  length-find_or (λ d. x == d.id) (λ d. one_of xs d.id) ds,
  length-find_id x ds unique,
  length-find-one_of xs ds unique,
)

of_token_few :
    (hashes : List ℕ) (key address : ℕ) (ds : Collection)
    → Unique ds
    → length (of_token hashes key address ds) ≤ length hashes
unfolding of_token get_commitments_available_by_hash
of_token_few hashes key address ds unique = omega (
  arith,
  length-find_le (λ d. d.erc_address == address)
      (find
        (λ d.
          one_of hashes d.id
          && d.compressed_zkp_public_key == key
          && not d.is_pending_nullification
          && is_unset d.is_nullified_on_chain)
        ds),
  length-find
      (λ d.
        one_of hashes d.id
        && d.compressed_zkp_public_key == key
        && not d.is_pending_nullification
        && is_unset d.is_nullified_on_chain)
      (λ d. one_of hashes d.id) ds (λ d h. ground arith),
  length-find-one_of hashes ds unique,
)

given_few :
    (hashes : List ℕ) (key address target : ℕ) (ds : Collection) (given : List Commitment)
    → Unique ds
    → Provides hashes (of_token hashes key address ds) target given
    → length given ≤ length hashes
given_few hashes key address target ds given unique (inl (e, nothing)) =
    omega (arith, ap length nothing)
given_few hashes key address target ds given unique (inr (asked, same, some_given, covers)) =
    omega (
      arith,
      ap length same,
      length-to_commitments (of_token hashes key address ds),
      of_token_few hashes key address ds unique,
    )

-- What is provided never takes more slots than there are.
pub validate_provided_few :
    (r : Request) (ds : Collection) (given given_fee : List Commitment)
    → Unique ds
    → validate_provided r ds ≡ ok (given, given_fee)
    → length given + length given_fee ≤ r.max_nullifiers
unfolding validate_provided
validate_provided_few r ds given given_fee unique h =
    let (provides, provides_fee) = validate_provided-Provides r ds given given_fee h in
    elim (Bool-cases (ltb r.max_nullifiers (length r.provided + length r.provided_fee))) [
      | inl t ↦ let g = rw t at h in absurd (cc g)
      | inr f ↦ omega (
        arith,
        ltb→le _ _ f,
        given_few r.provided _ _ _ ds given unique provides,
        given_few r.provided_fee _ _ _ ds given_fee unique provides_fee,
      )
    ]
