-- ===== src/Common/Panics.antt =====
-- A Go call that returns or panics: a nil pointer that is read, a division by zero.
use mathlib.Core.Path.{◌≡◌, refl}
use mathlib.Core.Option.{Option, none, some}

pub data Outcome {ℓ} (A : Type ℓ) : Type ℓ where
  returns : A → Outcome A
  panics : Outcome A

infixl 5 ◌>>=◌
abbrev pub ◌>>=◌ {ℓ κ} : {A : Type ℓ} {B : Type κ} → Outcome A → (A → Outcome B) → Outcome B
returns a >>= f = f a
panics >>= f = panics

-- `*p` of a pointer.
abbrev pub deref {ℓ} : {A : Type ℓ} → Option A → Outcome A
deref none = panics
deref (some a) = returns a

pub >>=-eq-returns {ℓ κ} :
    {A : Type ℓ} {B : Type κ} (m : Outcome A) (f : A → Outcome B) {b : B}
    → (m >>= f) ≡ returns b
    → (a : A) × (m ≡ returns a) × (f a ≡ returns b)
>>=-eq-returns (returns a) f h = (a, refl, h)
>>=-eq-returns panics f h = cc

pub returns_of_ne {ℓ} : {A : Type ℓ} (o : Outcome A) → (o ≡ panics → ⊥) → (a : A) × (o ≡ returns a)
returns_of_ne (returns a) h = (a, refl)
returns_of_ne panics h = absurd (h refl)

-- A property of what a call returns, if it returns.
abbrev pub OnReturn {ℓ κ} : {A : Type ℓ} → (A → Type κ) → Outcome A → Type κ
OnReturn P (returns a) = P a
OnReturn P panics = Unit

pub OnReturn-bind {ℓ κ μ ν} :
    {A : Type ℓ} {B : Type κ} (P : A → Type μ) (Q : B → Type ν) (o : Outcome A) (f : A → Outcome B)
    → OnReturn P o
    → ((a : A) → P a → OnReturn Q (f a))
    → OnReturn Q (o >>= f)
OnReturn-bind P Q (returns a) f h k = k a h
OnReturn-bind P Q panics f h k = tt

pub OnReturn-map {ℓ κ μ} :
    {A : Type ℓ} (P : A → Type κ) (Q : A → Type μ) (o : Outcome A)
    → ((a : A) → P a → Q a)
    → OnReturn P o
    → OnReturn Q o
OnReturn-map P Q (returns a) h p = h a p
OnReturn-map P Q panics h p = tt
