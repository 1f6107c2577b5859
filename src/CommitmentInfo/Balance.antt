-- ===== src/CommitmentInfo/Balance.antt =====
-- The outputs of `getCommitmentInfo` in nightfall-client/src/utils/getCommitmentInfo.mjs against its
-- inputs, token by token.
use nightfall.Common.{
  ℕ, ◌+◌, ◌-◌, ◌*◌, ◌≡◌, ◌&&◌, refl, inl, inr, List, [], ◌∷◌, ◌++◌, length, Bool, true, ◌==◌,
  if◌then◌else◌, Bool-cases, ==→eq, arith, ℤ, pos, negsuc, above, below, ◌+ℤ◌, ◌-ℤ◌, difference_lem,
  ℤ-eq,
}
use nightfall.Commitments.Values.{total}
use nightfall.Commitments.Usable.{Usable}
use nightfall.CommitmentInfo.Request.{Request, added_fee}
use nightfall.CommitmentInfo.Outputs.{
  Output, is_zero, change, change_fee, sent, change_output, outputs,
}

-- `i` is m - n.
abbrev Amounts : ℤ → ℕ → ℕ → Type 0
Amounts i m n = above i + n ≡ below i + m

Amounts-add :
    (i j : ℤ) (m n k l : ℕ) → Amounts i m n → Amounts j k l → Amounts (i +ℤ j) (m + k) (n + l)
Amounts-add i j m n k l p q =
    omega (arith, difference_lem (above i + above j) (below i + below j), p, q)

Amounts-sub : (m n : ℕ) → Amounts (pos m -ℤ pos n) m n
Amounts-sub m n = omega (arith, difference_lem (m + 0) (0 + n))

-- A token is an address and a token id.
abbrev pub is_token : ℕ → ℕ → ℕ × ℕ → Bool
is_token address token_id token = address == token.0 && token_id == token.1

-- What goes out of a token.
unfoldable pub total_of : ℕ × ℕ → List Output → ℤ
total_of token [] = pos 0
total_of token (o ∷ os) =
    let rest = total_of token os in
    if is_token o.erc_address o.token_id token then o.value +ℤ rest else rest

abbrev pub share : Bool → ℕ → ℕ
share of_it n = if of_it then n else 0

total_of-append :
    (a : ℕ × ℕ) (xs ys : List Output) (m n k l : ℕ)
    → Amounts (total_of a xs) m n
    → Amounts (total_of a ys) k l
    → Amounts (total_of a (xs ++ ys)) (m + k) (n + l)
unfolding total_of
total_of-append a [] ys m n k l p q = omega (arith, p, q)
total_of-append a (x ∷ xs) ys m n k l p q =
    elim (Bool-cases (is_token x.erc_address x.token_id a)) [
      | inl t ↦
          let p' : Amounts (x.value +ℤ total_of a xs) m n = rw t at p in
          let ih =
            total_of-append a xs ys (above (total_of a xs)) (below (total_of a xs)) k l
              (omega arith) q in
          rw t (
            omega (
              arith,
              p',
              ih,
              difference_lem (above x.value + above (total_of a xs))
                  (below x.value + below (total_of a xs)),
              difference_lem (above x.value + above (total_of a (xs ++ ys)))
                  (below x.value + below (total_of a (xs ++ ys))),
            ))
      | inr f ↦ rw f (total_of-append a xs ys m n k l (rw f at p) q)
    ]

zero_Amounts : (z : ℤ) (m n : ℕ) → is_zero z ≡ true → Amounts z m n → m ≡ n
zero_Amounts (pos k) m n t h = omega (arith, ==→eq k 0 t, h)
zero_Amounts (negsuc k) m n t h = absurd (cc t)

module _ (r : Request) (a : ℕ × ℕ) where
  -- Whether the token is the one asked for, and whether it is the fee's.
  abbrev pub asked : Bool
  asked = is_token r.erc_address r.token_id a

  abbrev pub of_fee : Bool
  of_fee = is_token r.fee_address 0 a

  total_of-sent :
      (recipients : List ℕ)
      → Amounts
          (total_of a (sent (record r { recipients = recipients })))
          (share asked (length recipients * r.total_value_to_send))
          0
  unfolding total_of sent
  total_of-sent [] = elim (Bool-cases asked) [ inl t ↦ rw t (omega arith) | inr f ↦ rw f refl ]
  total_of-sent (k ∷ ks) = elim (Bool-cases asked) [
    | inl t ↦
        let ih = rw t at (total_of-sent ks) in
        rw t (
          omega (
            arith,
            ih,
            difference_lem
                (r.total_value_to_send + above (total_of a (sent (record r { recipients = ks }))))
                (0 + below (total_of a (sent (record r { recipients = ks })))),
          ))
    | inr f ↦ rw f (rw f at (total_of-sent ks))
  ]

  total_of-change_output :
      (z : ℤ) (address token_id m n : ℕ)
      → Amounts z m n
      → Amounts
          (total_of a (change_output r z address token_id))
          (share (is_token address token_id a) m)
          (share (is_token address token_id a) n)
  unfolding total_of change_output
  total_of-change_output z address token_id m n h = elim (Bool-cases (is_zero z)) [
    | inl t ↦ rw t (elim (Bool-cases (is_token address token_id a)) [
      | inl u ↦ rw u (omega (arith, zero_Amounts z m n t h))
      | inr g ↦ rw g refl
    ])
    | inr f ↦ rw f (elim (Bool-cases (is_token address token_id a)) [
      | inl u ↦ rw u (omega (arith, h, difference_lem (above z + 0) (below z + 0)))
      | inr g ↦ rw g refl
    ])
  ]

  -- Two of the parts of what is asked, together.
  Amounts-outputs :
      (inputs : Usable)
      → Amounts
          (total_of a (outputs r inputs))
          (share asked (length r.recipients * r.total_value_to_send)
            + (share asked (total inputs.old_commitments)
                + share of_fee (total inputs.old_commitments_fee)))
          (0
            + (share asked (r.total_value_to_send + added_fee r)
                + share of_fee (r.fee - added_fee r)))
  unfolding outputs change change_fee
  Amounts-outputs inputs = total_of-append a (sent r) _ _ _ _ _ (total_of-sent r.recipients) (
      total_of-append a _ _ _ _ _ _
        (total_of-change_output (change r inputs) r.erc_address r.token_id
          (total inputs.old_commitments) (r.total_value_to_send + added_fee r) (Amounts-sub _ _))
        (total_of-change_output (change_fee r inputs) r.fee_address 0
          (total inputs.old_commitments_fee) (r.fee - added_fee r) (Amounts-sub _ _)))

  -- Of every token goes in what goes out, is paid as the fee, and is sent with no recipient in the
  -- shielded pool.
  pub outputs_balance :
      (inputs : Usable)
      → total_of a (outputs r inputs)
          +ℤ pos (
              share asked (r.total_value_to_send + added_fee r)
              + share of_fee (r.fee - added_fee r))
        ≡ pos (
            share asked (total inputs.old_commitments)
            + share of_fee (total inputs.old_commitments_fee)
            + share asked (length r.recipients * r.total_value_to_send))
  outputs_balance inputs =
      let z = total_of a (outputs r inputs) in
      let paid =
        share asked (r.total_value_to_send + added_fee r) + share of_fee (r.fee - added_fee r) in
      ℤ-eq (z +ℤ pos paid) _
        (omega (arith, difference_lem (above z + paid) (below z + 0), Amounts-outputs inputs))
