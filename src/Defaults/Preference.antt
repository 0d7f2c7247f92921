-- ===== src/Defaults/Preference.antt =====
-- One value over another: the relations by which the merge of defaults and the inheritance from a
-- discovery are stated.
use dataprepper_operator.Base.{◌≡◌, ◌≢◌, refl, string_eq, Option, none, some, List, [], ◌∷◌, map}
use dataprepper_operator.Defaults.{or_default, or_list}

-- The own value is kept unless it is the empty one, which the default replaces.
abbrev pub Prefers {ℓ} : {A : Type ℓ} → (empty own default merged : A) → Type ℓ
Prefers empty own default merged = (own ≢ empty → merged ≡ own) × (own ≡ empty → merged ≡ default)

-- The same number of elements, each in the relation with the one at its place.
abbrev pub Pairwise {ℓ} : {A : Type ℓ} → (A → A → Type 0) → List A → List A → Type 0
Pairwise R [] [] = Unit
Pairwise R (x ∷ xs) (y ∷ ys) = R x y × Pairwise R xs ys
Pairwise R _ _ = ⊥

abbrev pub OnBoth {ℓ} : {A : Type ℓ} → (A → A → Type 0) → Option A → Option A → Type 0
OnBoth R none none = Unit
OnBoth R (some a) (some b) = R a b
OnBoth R _ _ = ⊥

pub map-Pairwise {ℓ} :
    {A : Type ℓ} (R : A → A → Type 0) (f : A → A)
    → ((x : A) → R x (f x))
    → (xs : List A) → Pairwise R xs (map f xs)
map-Pairwise R f h [] = tt
map-Pairwise R f h (x ∷ xs) = (h x, map-Pairwise R f h xs)

pub or_default-Prefers {ℓ} : {A : Type ℓ} (own d : Option A) → Prefers none own d (or_default own d)
or_default-Prefers none d = (λ h. absurd (h refl), λ h. refl)
or_default-Prefers (some a) d = (λ h. refl, λ h. cc)

pub or_list-Prefers {ℓ} : {A : Type ℓ} (own ds : List A) → Prefers [] own ds (or_list own ds)
or_list-Prefers [] ds = (λ h. absurd (h refl), λ h. refl)
or_list-Prefers (x ∷ xs) ds = (λ h. refl, λ h. cc)

pub Prefers-self {ℓ} : {A : Type ℓ} (empty own : A) → Prefers empty own empty own
Prefers-self empty own = (λ h. refl, λ h. h)

pub OnBoth-self {ℓ} :
    {A : Type ℓ} (R : A → A → Type 0) → ((a : A) → R a a) → (o : Option A) → OnBoth R o o
OnBoth-self R h none = tt
OnBoth-self R h (some a) = h a

pub Pairwise-self {ℓ} :
    {A : Type ℓ} (R : A → A → Type 0) → ((a : A) → R a a) → (xs : List A) → Pairwise R xs xs
Pairwise-self R h [] = tt
Pairwise-self R h (x ∷ xs) = (h x, Pairwise-self R h xs)
