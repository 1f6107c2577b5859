-- ===== src/Timber/Path.antt =====
-- The path strings of common-files/classes/timber.mjs:
-- `Number(n).toString(2).padStart(height, '0')`, and their slices.
use nightfall.Common.{
  ℕ, zero, suc, ◌+◌, ◌-◌, ◌/◌, ◌%◌, ◌≡◌, refl, List, [], ◌∷◌, ◌++◌, length, take, replicate, ◌==◌,
  leb, if◌then◌else◌,
}
use nightfall.Timber.Tree.{Digit, d0, d1}

abbrev pub digit : ℕ → Digit
digit zero = d0
digit (suc n) = d1

-- The binary digits of `n`, none for 0. The fuel `n` is enough, since `n / 2 < n`.
unfoldable pub digits : ℕ → ℕ → List Digit
digits zero n = []
digits (suc fuel) n =
    let rest = digits fuel (n / 2) ++ digit (n % 2) ∷ [] in if n == 0 then [] else rest

-- `Number(n).toString(2)`
unfoldable pub to_binary : ℕ → List Digit
unfolding digits
to_binary n = if n == 0 then d0 ∷ [] else digits n n

-- `s.padStart(height, c)`
unfoldable pub pad_start : ℕ → Digit → List Digit → List Digit
pad_start height c s = replicate (height - length s) c ++ s

-- `Number(n).toString(2).padStart(height, '0')`
unfoldable pub path_to : ℕ → ℕ → List Digit
unfolding to_binary pad_start
path_to height n = pad_start height d0 (to_binary n)

-- `s.slice(0, a - b)`: a negative end counts from the end of the string.
unfoldable pub slice_to : List Digit → ℕ → ℕ → List Digit
slice_to s a b = if leb b a then take (a - b) s else take (length s - (b - a)) s

-- `'0'.padStart(a + 1, '1')`
unfoldable pub right_then_left : ℕ → List Digit
unfolding pad_start
right_then_left a = pad_start (a + 1) d1 (d0 ∷ [])

path_to_six : path_to 5 6 ≡ d0 ∷ d0 ∷ d1 ∷ d1 ∷ d0 ∷ []
unfolding path_to
path_to_six = refl
