-- ===== src/Raise.antt =====
-- Python code that may raise: a function returns its value or the exception, and a method that also
-- writes files returns, beside either, the files as they stand when it ends.
use lua_mongodb.Base.{◌≡◌, refl}

pub data Result {ℓ} (E : Type 0) (A : Type ℓ) : Type ℓ where
  ok : A → Result E A
  raise : E → Result E A

module _ {ℓ κ} {E : Type 0} {A : Type ℓ} {B : Type κ} where
  infixl 5 ◌>>=◌
  abbrev pub ◌>>=◌ : Result E A → (A → Result E B) → Result E B
  ok a >>= f = f a
  raise e >>= f = raise e

  pub bind-eq-ok :
      (m : Result E A) (f : A → Result E B) {b : B}
      → (m >>= f) ≡ ok b
      → (a : A) × (m ≡ ok a) × (f a ≡ ok b)
  bind-eq-ok (ok a) f h = (a, refl, h)
  bind-eq-ok (raise e) f h = cc

-- What holds of the value of a function that returns.
pub record Ensures {ℓ κ} {E : Type 0} {A : Type ℓ} (P : A → Type κ) (m : Result E A)
    : Type (ℓ ⊔ κ) where
  pub at : (a : A) → m ≡ ok a → P a

module _ {ℓ κ μ} {E : Type 0} {A : Type ℓ} {B : Type κ} {P : B → Type μ} where
  -- the rest of a block may use what the first step returned
  pub Ensures-bind :
      (m : Result E A) (f : A → Result E B)
      → ((a : A) → m ≡ ok a → Ensures P (f a))
      → Ensures P (m >>= f)
  Ensures-bind m f rest = record {
    at = λ b h. let (a, first, later) = bind-eq-ok m f h in (rest a first).at b later;
  }

module _ {ℓ} {E : Type 0} {A : Type ℓ} where
  -- a function returns one value
  pub ok_unique : (m : Result E A) {a b : A} → m ≡ ok a → m ≡ ok b → a ≡ b
  ok_unique (ok c) p q = cc
  ok_unique (raise e) p q = cc
