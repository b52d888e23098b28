-- ===== src/Base/Results.antt =====
-- A Go result with an error: `inl` is the error.
use mathlib.Core.Logic.{◌⊎◌, inl, inr}
use mathlib.Core.Option.{Option, none, some}

infixl 5 ◌>>=◌
abbrev pub ◌>>=◌ {ℓ κ μ} : {E : Type μ} {A : Type ℓ} {B : Type κ} → E ⊎ A → (A → E ⊎ B) → E ⊎ B
inl e >>= f = inl e
inr a >>= f = f a

-- The result under another type of errors.
abbrev pub with_error {ℓ κ μ} : {E : Type μ} {G : Type κ} {A : Type ℓ} → (E → G) → E ⊎ A → G ⊎ A
with_error f (inl e) = inl (f e)
with_error f (inr a) = inr a

abbrev pub either {ℓ κ μ} : {E : Type μ} {A : Type ℓ} {B : Type κ} → (E → B) → (A → B) → E ⊎ A → B
either f g (inl e) = f e
either f g (inr a) = g a

pub either_cases {ℓ κ μ ν} :
    {E : Type μ} {A : Type ℓ} {B : Type κ} (Q : B → Type ν) (f : E → B) (g : A → B) (s : E ⊎ A)
    → ((e : E) → Q (f e))
    → ((a : A) → Q (g a))
    → Q (either f g s)
either_cases Q f g (inl e) h k = h e
either_cases Q f g (inr a) h k = k a

-- A computation on fuel, and what follows it.
abbrev pub and_then {ℓ κ} : {A : Type ℓ} {B : Type κ} → Option A → (A → Option B) → Option B
and_then none f = none
and_then (some a) f = f a

-- There is a value, and it has a property.
abbrev pub Returns {ℓ} : {A : Type ℓ} → (A → Type 0) → Option A → Type 0
Returns P none = ⊥
Returns P (some a) = P a

pub and_then-Returns {ℓ κ} :
    {A : Type ℓ} {B : Type κ} (P : A → Type 0) (Q : B → Type 0) (o : Option A) (f : A → Option B)
    → Returns P o
    → ((a : A) → P a → Returns Q (f a))
    → Returns Q (and_then o f)
and_then-Returns P Q none f h k = absurd h
and_then-Returns P Q (some a) f h k = k a h

-- A result, if there is no error, has a property.
abbrev pub Accepts {ℓ} : {E : Type 0} {A : Type ℓ} → (A → Type 0) → E ⊎ A → Type 0
Accepts P (inl e) = Unit
Accepts P (inr a) = P a

pub >>=-Accepts {ℓ κ} :
    {E : Type 0} {A : Type ℓ} {B : Type κ} (P : A → Type 0) (Q : B → Type 0) (m : E ⊎ A)
    (f : A → E ⊎ B)
    → Accepts P m
    → ((a : A) → P a → Accepts Q (f a))
    → Accepts Q (m >>= f)
>>=-Accepts P Q (inl e) f h k = tt
>>=-Accepts P Q (inr a) f h k = k a h

pub with_error-Accepts {ℓ} :
    {E : Type 0} {G : Type 0} {A : Type ℓ} (P : A → Type 0) (g : E → G) (m : E ⊎ A)
    → Accepts P m
    → Accepts P (with_error g m)
with_error-Accepts P g (inl e) h = tt
with_error-Accepts P g (inr a) h = h
