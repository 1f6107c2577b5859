-- ===== src/CommitmentInfo/Marks.antt =====
-- `markPending` and `clearPending` of nightfall-client/src/services/commitment-storage.mjs, one after
-- the other: clearing what was marked gives back a collection in which it was not pending.
use nightfall.Common.{
  ℕ, ◌≡◌, ◌≢◌, refl, sym, ap, subst, ◌∙◌, ◌⊎◌, inl, inr, List, [], ◌∷◌, true, false, eq-cases,
  eq→==, ne→==,
}
use nightfall.Commitments.Values.{Commitment}
use nightfall.Commitments.Store.{Stored, Collection, update_one, mark_pending, clear_pending}
use nightfall.Commitments.Usable.{mark_all_pending}
use nightfall.Commitments.Pending.{Unique, Unique-mark_pending}
use nightfall.CommitmentInfo.Inputs.{clear_all_pending}

-- The first document with the id, if there is one, is not pending.
abbrev pub Free : ℕ → Collection → Type 0
Free i [] = Unit {0}
Free i (d ∷ ds) = ((d.id ≡ i) × (d.is_pending_nullification ≡ false)) ⊎ ((d.id ≢ i) × Free i ds)

module _ (c : ℕ) (d : Stored) (ds : Collection) where
  abbrev marked : Stored
  marked = record d { is_pending_nullification = true }

  abbrev cleared : Stored
  cleared = record d { is_pending_nullification = false }

  mark_here : d.id ≡ c → mark_pending c (d ∷ ds) ≡ marked ∷ ds
  unfolding mark_pending update_one
  mark_here e = rw (eq→== d.id c e) refl

  mark_later : d.id ≢ c → mark_pending c (d ∷ ds) ≡ d ∷ mark_pending c ds
  unfolding mark_pending update_one
  mark_later ne = rw (ne→== d.id c ne) refl

  clear_here : d.id ≡ c → clear_pending c (d ∷ ds) ≡ cleared ∷ ds
  unfolding clear_pending update_one
  clear_here e = rw (eq→== d.id c e) refl

  clear_later : d.id ≢ c → clear_pending c (d ∷ ds) ≡ d ∷ clear_pending c ds
  unfolding clear_pending update_one
  clear_later ne = rw (ne→== d.id c ne) refl

clear_pending-mark_pending :
    (c : ℕ) (ds : Collection) → clear_pending c (mark_pending c ds) ≡ clear_pending c ds
clear_pending-mark_pending c [] = unfold mark_pending update_one in refl
clear_pending-mark_pending c (d ∷ ds) = elim (eq-cases d.id c) [
  | inl e ↦ rw (mark_here c d ds e, clear_here c (marked c d ds) ds e, clear_here c d ds e) refl
  | inr ne ↦
      rw (mark_later c d ds ne, clear_later c d (mark_pending c ds) ne, clear_later c d ds ne)
        (ap (λ l. d ∷ l) (clear_pending-mark_pending c ds))
]

-- Two that differ do not meet.
clear_pending-mark_pending_other :
    (c x : ℕ) (ds : Collection)
    → c ≢ x
    → clear_pending c (mark_pending x ds) ≡ mark_pending x (clear_pending c ds)
clear_pending-mark_pending_other c x [] ne = unfold mark_pending clear_pending update_one in refl
clear_pending-mark_pending_other c x (d ∷ ds) ne = elim (eq-cases d.id c) [
  | inl e ↦
      let other : d.id ≢ x = λ f. ne (sym e ∙ f) in
      rw
        (
          mark_later x d ds other,
          clear_here c d (mark_pending x ds) e,
          clear_here c d ds e,
          mark_later x (cleared c d ds) ds other,
        )
        refl
  | inr away ↦ elim (eq-cases d.id x) [
    | inl f ↦
        rw
          (
            mark_here x d ds f,
            clear_later c (marked x d ds) ds away,
            clear_later c d ds away,
            mark_here x d (clear_pending c ds) f,
          )
          refl
    | inr off ↦
        rw
          (
            mark_later x d ds off,
            clear_later c d (mark_pending x ds) away,
            clear_later c d ds away,
            mark_later x d (clear_pending c ds) off,
          )
          (ap (λ l. d ∷ l) (clear_pending-mark_pending_other c x ds ne))
  ]
]

-- Nothing to clear.
clear_pending-Free : (c : ℕ) (ds : Collection) → Free c ds → clear_pending c ds ≡ ds
clear_pending-Free c [] free = unfold clear_pending update_one in refl
clear_pending-Free c (d ∷ ds) (inl (e, idle)) =
    clear_here c d ds e ∙ ap (λ b. record d { is_pending_nullification = b } ∷ ds) (sym idle)
clear_pending-Free c (d ∷ ds) (inr (ne, free)) =
    clear_later c d ds ne ∙ ap (λ l. d ∷ l) (clear_pending-Free c ds free)

-- Marking makes nothing free.
pub mark_pending-Free : (c x : ℕ) (ds : Collection) → Free c (mark_pending x ds) → Free c ds
mark_pending-Free c x [] free = tt
mark_pending-Free c x (d ∷ ds) free = elim (eq-cases d.id x) [
  | inl e ↦
      let free' : Free c (marked x d ds ∷ ds) = subst (Free c) (mark_here x d ds e) free in
      elim free' [ inl (same, busy) ↦ absurd (cc busy) | inr rest ↦ inr rest ]
  | inr ne ↦
      let free' : Free c (d ∷ mark_pending x ds) = subst (Free c) (mark_later x d ds ne) free in
      elim free' [
        | inl here ↦ inl here
        | inr (away, rest) ↦ inr (away, mark_pending-Free c x ds rest)
      ]
]

pub mark_all_pending-Free :
    (c : ℕ) (cs : List Commitment) (ds : Collection) → Free c (mark_all_pending cs ds) → Free c ds
unfolding mark_all_pending
mark_all_pending-Free c [] ds free = free
mark_all_pending-Free c (x ∷ xs) ds free =
    mark_pending-Free c x.id ds (mark_all_pending-Free c xs (mark_pending x.id ds) free)

pub mark_all_pending-Unique :
    (cs : List Commitment) (ds : Collection) → Unique ds → Unique (mark_all_pending cs ds)
unfolding mark_all_pending
mark_all_pending-Unique [] ds unique = unique
mark_all_pending-Unique (c ∷ cs) ds unique =
    mark_all_pending-Unique cs (mark_pending c.id ds) (Unique-mark_pending c.id ds unique)

abbrev pub In : ℕ → List Commitment → Type 0
In i [] = ⊥
In i (c ∷ cs) = (c.id ≡ i) ⊎ In i cs

-- What is cleared anyway may be marked before.
clear_all_pending-mark_pending :
    (i : ℕ) (cs : List Commitment) (ds : Collection)
    → In i cs
    → clear_all_pending cs (mark_pending i ds) ≡ clear_all_pending cs ds
unfolding clear_all_pending
clear_all_pending-mark_pending i [] ds among = absurd among
clear_all_pending-mark_pending i (c ∷ cs) ds among = elim (eq-cases c.id i) [
  | inl e ↦ ap (clear_all_pending cs) (
      ap (λ n. clear_pending c.id (mark_pending n ds)) (sym e) ∙ clear_pending-mark_pending c.id ds)
  | inr ne ↦
      ap (clear_all_pending cs) (clear_pending-mark_pending_other c.id i ds ne)
      ∙ clear_all_pending-mark_pending i cs (clear_pending c.id ds) (later i c cs ne among)
]
  where
    later : (i : ℕ) (c : Commitment) (cs : List Commitment) → c.id ≢ i → In i (c ∷ cs) → In i cs
    later i c cs ne (inl e) = absurd (ne e)
    later i c cs ne (inr among) = among

-- What holds of every commitment of a list.
abbrev pub Each : (Commitment → Type 0) → List Commitment → Type 0
Each P [] = Unit {0}
Each P (c ∷ cs) = P c × Each P cs

abbrev pub AllIn : List Commitment → List Commitment → Type 0
AllIn xs cs = Each (λ x. In x.id cs) xs

pub clear_all_pending-mark_all_pending :
    (xs cs : List Commitment) (ds : Collection)
    → AllIn xs cs
    → clear_all_pending cs (mark_all_pending xs ds) ≡ clear_all_pending cs ds
unfolding mark_all_pending
clear_all_pending-mark_all_pending [] cs ds among = refl
clear_all_pending-mark_all_pending (x ∷ xs) cs ds (first, among) =
    clear_all_pending-mark_all_pending xs cs (mark_pending x.id ds) among
    ∙ clear_all_pending-mark_pending x.id cs ds first

abbrev pub AllFree : List Commitment → Collection → Type 0
AllFree cs ds = Each (λ c. Free c.id ds) cs

pub clear_all_pending-AllFree :
    (cs : List Commitment) (ds : Collection) → AllFree cs ds → clear_all_pending cs ds ≡ ds
unfolding clear_all_pending
clear_all_pending-AllFree [] ds free = refl
clear_all_pending-AllFree (c ∷ cs) ds (first, free) =
    ap (clear_all_pending cs) (clear_pending-Free c.id ds first)
    ∙ clear_all_pending-AllFree cs ds free
