-- ===== src/Commitments/Pending.antt =====
-- `markPending` of nightfall-client/src/services/commitment-storage.mjs takes what a transaction
-- spends out of what is available to the next one.
use nightfall.Common.{
  ℕ, ◌≡◌, ◌≢◌, refl, sym, ap, subst, ◌∙◌, List, [], ◌∷◌, ◌++◌, map, Bool, true, false, not, ◌&&◌,
  ◌||◌, ◌==◌, Bool-cases, eq→==, ne→==, ==→eq, inl, inr, ok,
}
use nightfall.Commitments.Values.{Commitment}
use nightfall.Commitments.Store.{
  Stored, Collection, update_one, find, one_of, mark_pending, is_available,
  get_available_commitments,
}
use nightfall.Commitments.Usable.{mark_all_pending, Sort, Usable, find_usable_commitments}
use nightfall.Commitments.Selection.{Sorts}
use nightfall.Commitments.Funding.{find_usable_commitments-Funds}

abbrev pub NoneHas : ℕ → Collection → Type 0
NoneHas i [] = Unit {0}
NoneHas i (d ∷ ds) = (d.id ≢ i) × NoneHas i ds

-- The `_id` of a document is unique.
abbrev pub Unique : Collection → Type 0
Unique [] = Unit {0}
Unique (d ∷ ds) = NoneHas d.id ds × Unique ds

find-rest :
    (q : Stored → Bool) (d : Stored) (ds : Collection) → q d ≡ false → find q (d ∷ ds) ≡ find q ds
unfolding find
find-rest q d ds f = rw f refl

find-first :
    (q : Stored → Bool) (d : Stored) (ds : Collection)
    → q d ≡ true
    → find q (d ∷ ds) ≡ d ∷ find q ds
unfolding find
find-first q d ds t = rw t refl

and_false : (a : Bool) → (a && false) ≡ false
and_false true = refl
and_false false = refl

find-find :
    (p q r : Stored → Bool)
    → ((d : Stored) → r d ≡ (p d && q d))
    → (ds : Collection) → find p (find q ds) ≡ find r ds
find-find p q r h [] = unfold find in refl
find-find p q r h (d ∷ ds) = elim (Bool-cases (q d)) [
  | inl t ↦ elim (Bool-cases (p d)) [
    | inl pt ↦ rw (find-first q d ds t) (
        find-first p d (find q ds) pt
        ∙ ap (λ l. d ∷ l) (find-find p q r h ds)
        ∙ sym (find-first r d ds (h d ∙ rw (t, pt) refl)))
    | inr pf ↦ rw (find-first q d ds t) (
        find-rest p d (find q ds) pf
        ∙ find-find p q r h ds
        ∙ sym (find-rest r d ds (h d ∙ rw pf refl)))
  ]
  | inr f ↦
      rw (find-rest q d ds f)
        (find-find p q r h ds ∙ sym (find-rest r d ds (h d ∙ rw f (and_false (p d)))))
]

-- Without the document there is nothing to leave out.
find-NoneHas :
    (i : ℕ) (q : Stored → Bool) (ds : Collection)
    → NoneHas i ds
    → find (λ d. not (i == d.id)) (find q ds) ≡ find q ds
find-NoneHas i q [] other = unfold find in refl
find-NoneHas i q (d ∷ ds) (ne, other) = elim (Bool-cases (q d)) [
  | inl t ↦
      rw
        (
          find-first q d ds t,
          find-first (λ d. not (i == d.id)) d (find q ds) (ap not (ne→== i d.id (λ e. ne (sym e)))),
        )
        (ap (λ l. d ∷ l) (find-NoneHas i q ds other))
  | inr f ↦ rw (find-rest q d ds f) (find-NoneHas i q ds other)
]

NoneHas-mark_pending : (i c : ℕ) (ds : Collection) → NoneHas i ds → NoneHas i (mark_pending c ds)
unfolding mark_pending update_one
NoneHas-mark_pending i c [] other = tt
NoneHas-mark_pending i c (d ∷ ds) (ne, other) = elim (Bool-cases (d.id == c)) [
  | inl t ↦ rw t (ne, other)
  | inr f ↦ rw f (ne, NoneHas-mark_pending i c ds other)
]

pub Unique-mark_pending : (c : ℕ) (ds : Collection) → Unique ds → Unique (mark_pending c ds)
unfolding mark_pending update_one
Unique-mark_pending c [] unique = tt
Unique-mark_pending c (d ∷ ds) (new, unique) = elim (Bool-cases (d.id == c)) [
  | inl t ↦ rw t (new, unique)
  | inr f ↦ rw f (NoneHas-mark_pending d.id c ds new, Unique-mark_pending c ds unique)
]

module _ (key erc_address token_id : ℕ) where
  abbrev available : Stored → Bool
  available = is_available key erc_address token_id

  pending_not_available :
      (d : Stored) → available (record d { is_pending_nullification = true }) ≡ false
  unfolding is_available
  pending_not_available d = and_false _

  -- Marking one commitment pending leaves out that one.
  mark_pending-available :
      (c : ℕ) (ds : Collection)
      → Unique ds
      → get_available_commitments key erc_address token_id (mark_pending c ds)
        ≡ find (λ d. not (c == d.id)) (get_available_commitments key erc_address token_id ds)
  unfolding get_available_commitments mark_pending update_one
  mark_pending-available c [] unique = unfold find in refl
  mark_pending-available c (d ∷ ds) (new, unique) = elim (Bool-cases (d.id == c)) [
    | inl t ↦
        let same : d.id ≡ c = ==→eq d.id c t in
        let other : NoneHas c ds = subst (λ n. NoneHas n ds) same new in
        rw t (
          find-rest available (record d { is_pending_nullification = true }) ds
            (pending_not_available d)
          ∙ sym (find-NoneHas c available ds other)
          ∙ sym (drops d ds (ap not (eq→== c d.id (sym same)))))
    | inr f ↦ rw f (
        keeps d (update_one (λ e. e.id == c) (λ e. record e { is_pending_nullification = true }) ds)
          ds (ap not (ne→== c d.id (λ e. different d f (sym e))))
          (mark_pending-available c ds unique))
  ]
    where
      different : (d : Stored) → (d.id == c) ≡ false → d.id ≢ c
      different d f e = absurd (cc (sym (eq→== d.id c e) ∙ f))

      drops :
          (d : Stored) (ds : Collection)
          → not (c == d.id) ≡ false
          → find (λ e. not (c == e.id)) (find available (d ∷ ds))
            ≡ find (λ e. not (c == e.id)) (find available ds)
      drops d ds f = elim (Bool-cases (available d)) [
        | inl t ↦
            rw (find-first available d ds t)
              (find-rest (λ e. not (c == e.id)) d (find available ds) f)
        | inr g ↦ rw (find-rest available d ds g) refl
      ]

      keeps :
          (d : Stored) (es ds : Collection)
          → not (c == d.id) ≡ true
          → find available es ≡ find (λ e. not (c == e.id)) (find available ds)
          → find available (d ∷ es) ≡ find (λ e. not (c == e.id)) (find available (d ∷ ds))
      keeps d es ds t same = elim (Bool-cases (available d)) [
        | inl u ↦
            rw (find-first available d es u, find-first available d ds u)
              (ap (λ l. d ∷ l) same
                ∙ sym (find-first (λ e. not (c == e.id)) d (find available ds) t))
        | inr g ↦ rw (find-rest available d es g, find-rest available d ds g) same
      ]

  -- Marking commitments pending takes exactly these out of what is available.
  pub mark_all_pending-available :
      (cs : List Commitment) (ds : Collection)
      → Unique ds
      → get_available_commitments key erc_address token_id (mark_all_pending cs ds)
        ≡ find
            (λ d. not (one_of (map (λ (c : Commitment). c.id) cs) d.id))
            (get_available_commitments key erc_address token_id ds)
  unfolding mark_all_pending
  mark_all_pending-available [] ds unique =
      sym (find-all (get_available_commitments key erc_address token_id ds))
    where
      find-all : (ds : Collection) → find (λ d. not (one_of [] d.id)) ds ≡ ds
      find-all [] = unfold find in refl
      find-all (d ∷ ds) =
          find-first (λ d. not (one_of [] d.id)) d ds (unfold one_of in refl)
          ∙ ap (λ l. d ∷ l) (find-all ds)
  mark_all_pending-available (c ∷ cs) ds unique =
      mark_all_pending-available cs (mark_pending c.id ds) (Unique-mark_pending c.id ds unique)
      ∙ ap (find (λ d. not (one_of (map (λ (c : Commitment). c.id) cs) d.id)))
          (mark_pending-available c.id ds unique)
      ∙ find-find (λ d. not (one_of (map (λ (c : Commitment). c.id) cs) d.id))
          (λ d. not (c.id == d.id))
          (λ d. not (one_of (map (λ (c : Commitment). c.id) (c ∷ cs)) d.id))
          (λ d.
            unfold one_of in
            not_or (c.id == d.id) (one_of (map (λ (c : Commitment). c.id) cs) d.id))
          (get_available_commitments key erc_address token_id ds)
    where
      not_or : (a b : Bool) → not (a || b) ≡ (not b && not a)
      not_or true true = refl
      not_or true false = refl
      not_or false true = refl
      not_or false false = refl

-- If the `_id` of a document is unique and the sort permutes, then after `findUsableCommitments`
-- returns, the available commitments of every key and token are those before it that it did not
-- choose.
pub find_usable_commitments-reserves :
    (sort : Sort) (ds : Collection)
    (key erc_address token_id erc_address_fee value fee max_nullifiers max_non_fee : ℕ)
    (usable : Usable) (ds' : Collection) (key' erc_address' token_id' : ℕ)
    → Unique ds
    → Sorts sort
    → find_usable_commitments sort ds key erc_address token_id erc_address_fee value fee
        max_nullifiers max_non_fee
      ≡ ok (usable, ds')
    → get_available_commitments key' erc_address' token_id' ds'
      ≡ find
          (λ d. not (
            one_of
              (map
                (λ (c : Commitment). c.id)
                (usable.old_commitments ++ usable.old_commitments_fee))
              d.id))
          (get_available_commitments key' erc_address' token_id' ds)
find_usable_commitments-reserves sort ds key erc_address token_id erc_address_fee value fee
      max_nullifiers max_non_fee usable ds' key' erc_address' token_id' unique sorts h =
    let funds =
      find_usable_commitments-Funds sort ds key erc_address token_id erc_address_fee value fee
        max_nullifiers max_non_fee usable ds' sorts h in
    ap (get_available_commitments key' erc_address' token_id') funds.pending
    ∙ mark_all_pending-available key' erc_address' token_id'
        (usable.old_commitments ++ usable.old_commitments_fee) ds unique
