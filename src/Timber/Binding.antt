-- ===== src/Timber/Binding.antt =====
-- What a sibling path that `verifySiblingPath` of common-files/classes/timber.mjs accepts commits
-- to, up to a collision of the hash.
use nightfall.Common.{
  ℕ, ◌≡◌, ◌≢◌, sym, ap, subst, ◌∙◌, ◌⊎◌, inl, inr, some, none, List, [], ◌∷◌, length, foldl, map,
  get_elem?, true, ==→eq, eq-cases, ne→==, eq→==, Result, ok,
}
use nightfall.Timber.Tree.{
  Root, is_root, HashType, Error, Side, left, right, Sibling, SiblingPath, climb,
  verify_sibling_path,
}
use nightfall.Timber.Object.{Timber, get_sibling_path}
use nightfall.Timber.Contract.{Holds}
use nightfall.Timber.SiblingPaths.{get_sibling_path-verifies}

abbrev pub directions : List Sibling → List Side
directions path = map (λ s. s.dir) path

-- The two arguments that `concatenateThenHash` gets at a level of a path.
abbrev pub pair : Side → ℕ → ℕ → ℕ × ℕ
pair left value sibling = (sibling, value)
pair right value sibling = (value, sibling)

module _ (hash : HashType → ℕ → ℕ → ℕ) (ht : HashType) where
  -- At some level of the two climbs the hash gets two different pairs, and gives the same value.
  abbrev pub Collide : ℕ → ℕ → List Sibling → List Sibling → Type 0
  Collide v w [] other = ⊥
  Collide v w (a ∷ path) [] = ⊥
  Collide v w (a ∷ path) (b ∷ other) =
      ((pair a.dir v a.value ≢ pair b.dir w b.value) × (climb hash ht v a ≡ climb hash ht w b))
      ⊎ Collide (climb hash ht v a) (climb hash ht w b) path other

  same_value : (s : Side) (v w a b : ℕ) → v ≢ w → pair s v a ≢ pair s w b
  same_value left v w a b ne e = ne (ap (λ p. p.1) e)
  same_value right v w a b ne e = ne (ap (λ p. p.0) e)

  -- Two climbs with the same turns to the same root start from the same value, or collide.
  climb_binds :
      (v w : ℕ) (path other : List Sibling)
      → directions path ≡ directions other
      → foldl (climb hash ht) v path ≡ foldl (climb hash ht) w other
      → (v ≡ w) ⊎ Collide v w path other
  climb_binds v w [] [] same e = inl e
  climb_binds v w [] (b ∷ other) same e = absurd (cc)
  climb_binds v w (a ∷ path) [] same e = absurd (cc)
  climb_binds v w (a ∷ path) (b ∷ other) same e =
      let turn : a.dir ≡ b.dir = cc in
      let rest : directions path ≡ directions other = cc in
      elim (climb_binds (climb hash ht v a) (climb hash ht w b) path other rest e) [
        | inr later ↦ inr (inr later)
        | inl joined ↦ elim (eq-cases v w) [
          | inl equal ↦ inl equal
          | inr ne ↦ inr (
              inl (
                subst (λ s. pair a.dir v a.value ≢ pair s w b.value) turn
                    (same_value a.dir v w a.value b.value ne),
                joined,
              ))
        ]
      ]

  -- An accepted path climbs to the root.
  pub verify_sound :
      (v : ℕ) (root : Root) (proof : SiblingPath)
      → verify_sibling_path hash v root proof ht ≡ true
      → root ≡ some (foldl (climb hash ht) v proof.path)
  unfolding verify_sibling_path
  verify_sound v root proof accepted = elim (eq-cases (length proof.path) 0) [
    | inl e ↦ absurd (cc (rw (eq→== _ _ e) at accepted))
    | inr ne ↦ rooted _ root (rw (ne→== _ _ ne) at accepted)
  ]
    where
      rooted : (n : ℕ) (root : Root) → is_root n root ≡ true → root ≡ some n
      rooted n none h = absurd (cc h)
      rooted n (some r) h = ap (λ m. some m) (sym (==→eq n r h))

  pub verify_binding :
      (v w : ℕ) (root : Root) (proof other : SiblingPath)
      → directions proof.path ≡ directions other.path
      → verify_sibling_path hash v root proof ht ≡ true
      → verify_sibling_path hash w root other ht ≡ true
      → (v ≡ w) ⊎ Collide v w proof.path other.path
  verify_binding v w root proof other same a b =
      climb_binds v w proof.path other.path same
        (some_injective _ _ (sym (verify_sound v root proof a) ∙ verify_sound w root other b))
    where
      some_injective : (m n : ℕ) → ◌≡◌ {A = Root} (some m) (some n) → m ≡ n
      some_injective m n e = cc e

-- If an object holds a list, a path that verifies against its root and has the turns of the path that
-- `getSiblingPath` returns for the leaf at an index is a path for that leaf's value, or at some level
-- of the two paths the hash gets two different pairs and gives the same value.
pub verify-binds-leaf :
    (hash : HashType → ℕ → ℕ → ℕ) (t : Timber) (xs : List ℕ) (x w i : ℕ)
    (honest proof : SiblingPath)
    → Holds hash t xs
    → get_elem? xs i ≡ some x
    → get_sibling_path hash t x (some i) ≡ ok honest
    → directions proof.path ≡ directions honest.path
    → verify_sibling_path hash w t.root proof t.hash_type ≡ true
    → (w ≡ x) ⊎ Collide hash t.hash_type w x proof.path honest.path
verify-binds-leaf hash t xs x w i honest proof held at found same accepted =
    let (known, e, member, levels, verifies) = get_sibling_path-verifies hash t xs held x i at in
    let is_known : known ≡ honest = ok_injective known honest (sym e ∙ found) in
    verify_binding hash t.hash_type w x t.root proof honest same accepted
      (subst (λ p. verify_sibling_path hash x t.root p t.hash_type ≡ true) is_known verifies)
  where
    ok_injective : (p q : SiblingPath) → ◌≡◌ {A = Result Error SiblingPath} (ok p) (ok q) → p ≡ q
    ok_injective p q e = cc
