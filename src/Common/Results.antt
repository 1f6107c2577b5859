-- ===== src/Common/Results.antt =====
-- JavaScript's exceptions as values: a call returns, or throws.
use mathlib.Core.Path.{◌≡◌, refl}

pub data Result {ℓ κ} (E : Type ℓ) (A : Type κ) : Type (ℓ ⊔ κ) where
  ok : A → Result E A
  throws : E → Result E A

infixl 5 ◌>>=◌
abbrev pub ◌>>=◌ {ℓ κ μ} :
    {E : Type ℓ} {A : Type κ} {B : Type μ} → Result E A → (A → Result E B) → Result E B
ok a >>= f = f a
throws e >>= f = throws e

-- The next call, for its effect alone.
infixl 5 ◌>>◌
abbrev pub ◌>>◌ {ℓ κ μ} :
    {E : Type ℓ} {A : Type κ} {B : Type μ} → Result E A → Result E B → Result E B
first >> second = first >>= (λ ignored. second)

-- What a chain went through if it returns.
module _ {ℓ κ μ} {E : Type ℓ} {A : Type κ} {B : Type μ} where
  abbrev Through : (A → Result E B) → Result E A → B → Type (ℓ ⊔ κ ⊔ μ)
  Through next first b = (a : A) × (first ≡ ok a) × (next a ≡ ok b)

  pub through :
      (first : Result E A) (next : A → Result E B) {b : B}
      → first >>= next ≡ ok b
      → Through next first b
  through (throws e) next returned = absurd (cc)
  through (ok a) next returned = (a, refl, returned)

abbrev returns {ℓ κ} : {E : Type ℓ} {A : Type κ} → A → Result E A
returns a = ok a

pub ok-injective {ℓ κ} : {E : Type ℓ} {A : Type κ} (a b : A) → returns {E = E} a ≡ ok b → a ≡ b
ok-injective a b h = cc
