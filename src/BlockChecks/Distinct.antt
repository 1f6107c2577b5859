-- ===== src/BlockChecks/Distinct.antt =====
-- `find_duplicate`, the loop of the checks for duplicates in
-- nightfall-optimist/src/services/check-block.mjs, finds one exactly if there is one.
use nightfall.Common.{
  ℕ, suc, ◌+◌, ◌<◌, ◌≡◌, ◌≢◌, refl, sym, ap, subst, ◌∙◌, inl, inr, Option, some, List, [], ◌∷◌,
  get_elem?, if◌then◌else◌, arith, eq-cases, eq→==, ne→==,
}
use nightfall.BlockChecks.Duplicates.{last_index_of, break_or, find_duplicate}
use nightfall.BlockChecks.Positions.{last_index_of_lem}

abbrev pub NoneIs : ℕ → List ℕ → Type 0
NoneIs x [] = Unit {0}
NoneIs x (y ∷ ys) = (x ≢ y) × NoneIs x ys

-- All values are different.
abbrev pub Distinct : List ℕ → Type 0
Distinct [] = Unit {0}
Distinct (x ∷ xs) = NoneIs x xs × Distinct xs

NoneIs-positions : (x : ℕ) (ys : List ℕ) → ((k : ℕ) → get_elem? ys k ≢ some x) → NoneIs x ys
NoneIs-positions x [] h = tt
NoneIs-positions x (y ∷ ys) h =
    ((λ e. h 0 (ap some (sym e))), NoneIs-positions x ys (λ k. h (suc k)))

-- The rest of the values stands from a position on.
abbrev FromPosition : List ℕ → ℕ → List ℕ → Type 0
FromPosition values index rest = (k : ℕ) → get_elem? rest k ≡ get_elem? values (index + k)

FromPosition-tail :
    (values : List ℕ) (index x : ℕ) (xs : List ℕ)
    → FromPosition values index (x ∷ xs)
    → FromPosition values (suc index) xs
FromPosition-tail values index x xs h k = h (suc k) ∙ ap (get_elem? values) (add-suc index k)
  where
    add-suc : (a b : ℕ) → a + suc b ≡ suc a + b
    add-suc a b = omega arith

FromPosition-head :
    (values : List ℕ) (index x : ℕ) (xs : List ℕ)
    → FromPosition values index (x ∷ xs)
    → get_elem? values index ≡ some x
FromPosition-head values index x xs h = ap (get_elem? values) (add-zero index) ∙ sym (h 0)
  where
    add-zero : (a : ℕ) → a ≡ a + 0
    add-zero a = omega arith

-- If the loop finds nothing, the values are different.
pub find_duplicate-Distinct :
    (values : List ℕ) (index : ℕ) (rest : List ℕ)
    → FromPosition values index rest
    → (find_duplicate values index rest).1 ≡ 0
    → Distinct rest
unfolding find_duplicate
find_duplicate-Distinct values index [] from h = tt
find_duplicate-Distinct values index (x ∷ xs) from h =
    let (m, found, le, same) =
      last_index_of_lem x 0 index values (FromPosition-head values index x xs from) in
    elim (eq-cases index (0 + m)) [
      | inl last ↦ (
        NoneIs-positions x xs (later m last found),
        find_duplicate-Distinct values (suc index) xs (FromPosition-tail values index x xs from)
            (rw (found, eq→== index (0 + m) last) at h),
      )
      | inr ne ↦
          let zero_last : 0 + m ≡ 0 = rw (found, ne→== index (0 + m) ne) at h in
          absurd (omega arith)
    ]
  where
    some_same : {a b : ℕ} → ◌≡◌ {A = Option ℕ} (some a) (some b) → a ≡ b
    some_same h = cc

    later :
        (m : ℕ)
        → index ≡ 0 + m
        → last_index_of x 0 values ≡ some (0 + m)
        → (k : ℕ) → get_elem? xs k ≢ some x
    later m last found k e =
        let (n, found', le, same) =
          last_index_of_lem x 0 (suc index + k) values
            (sym (FromPosition-tail values index x xs from k) ∙ e) in
        let agree : ◌≡◌ {A = Option ℕ} (some _) (some _) = sym found ∙ found' in
        absurd (omega (arith, some_same agree))

find_duplicate-goes_on :
    (values : List ℕ) (index x : ℕ) (xs : List ℕ)
    → last_index_of x 0 values ≡ some index
    → find_duplicate values index (x ∷ xs) ≡ find_duplicate values (suc index) xs
unfolding find_duplicate
find_duplicate-goes_on values index x xs found =
    ap (break_or (find_duplicate values (suc index) xs) index) found
    ∙ ap (λ b. if b then find_duplicate values (suc index) xs else (index, index))
        (eq→== index index refl)

find_duplicate-stops :
    (values : List ℕ) (index x last : ℕ) (xs : List ℕ)
    → last_index_of x 0 values ≡ some last
    → index ≢ last
    → find_duplicate values index (x ∷ xs) ≡ (index, last)
unfolding find_duplicate
find_duplicate-stops values index x last xs found ne =
    ap (break_or (find_duplicate values (suc index) xs) index) found
    ∙ ap (λ b. if b then find_duplicate values (suc index) xs else (index, last))
        (ne→== index last ne)

-- Two positions of one value.
abbrev pub Twice : List ℕ → ℕ × ℕ → Type 0
Twice values found =
    (x : ℕ) × (found.0 < found.1)
    × (get_elem? values found.0 ≡ some x)
    × (get_elem? values found.1 ≡ some x)

-- If it finds something, it is two positions of one value, the first one first.
pub find_duplicate-Twice :
    (values : List ℕ) (index : ℕ) (rest : List ℕ)
    → FromPosition values index rest
    → (find_duplicate values index rest).1 ≢ 0
    → Twice values (find_duplicate values index rest)
find_duplicate-Twice values index [] from ne = absurd (ne (unfold find_duplicate in refl))
find_duplicate-Twice values index (x ∷ xs) from ne =
    let (m, found, le, same) =
      last_index_of_lem x 0 index values (FromPosition-head values index x xs from) in
    elim (eq-cases index m) [
      | inl last ↦
          let on : find_duplicate values index (x ∷ xs) ≡ find_duplicate values (suc index) xs =
            find_duplicate-goes_on values index x xs (found ∙ ap some (zero_add m ∙ sym last)) in
          subst (Twice values) (sym on) (
            find_duplicate-Twice values (suc index) xs (FromPosition-tail values index x xs from)
              (λ h. ne (ap (λ p. p.1) on ∙ h)))
      | inr other ↦
          subst (Twice values)
            (sym (find_duplicate-stops values index x m xs (found ∙ ap some (zero_add m)) other))
            (x, omega arith, FromPosition-head values index x xs from, same)
    ]
  where
    zero_add : (a : ℕ) → 0 + a ≡ a
    zero_add a = omega arith
