-- ===== src/Base/Result.antt =====
-- Go's `(value, error)` results.
use mathlib.Core.Path.{◌≡◌, refl, ap}
use mathlib.Core.Logic.{◌⊎◌, inl, inr}

pub data Result (E A : Type 0) : Type 0 where
  ok : A → Result E A
  err : E → Result E A

module _ {E : Type 0} where
  infixl 5 ◌>>=◌
  abbrev pub ◌>>=◌ : {A B : Type 0} → Result E A → (A → Result E B) → Result E B
  ok a >>= f = f a
  err e >>= f = err e

  pub Result-cases :
      {A : Type 0} (r : Result E A) → ((e : E) × (r ≡ err e)) ⊎ ((a : A) × (r ≡ ok a))
  Result-cases (ok a) = inr (a, refl)
  Result-cases (err e) = inl (e, refl)

  -- What a chain that ends well went through.
  pub bind-ok :
      {A B : Type 0} (r : Result E A) (f : A → Result E B) (b : B)
      → r >>= f ≡ ok b
      → (a : A) × (r ≡ ok a) × (f a ≡ ok b)
  bind-ok (ok a) f b h = (a, refl, h)
  bind-ok (err e) f b h = cc

  pub bind_of :
      {A B : Type 0} (r : Result E A) (f : A → Result E B) (a : A) → r ≡ ok a → r >>= f ≡ f a
  bind_of r f a h = ap (λ x. x >>= f) h
