-- ===== src/Prelude/Options.antt =====
-- Results that may be missing: a nil pointer, a missing key, or a panic.
use mathlib.Core.Option.{Option, none, some, some-injective}
use mathlib.Core.Bool.{Bool, true, false}
use mathlib.Core.Path.{◌≡◌, refl}
use panda_k8s.Prelude.Tests.{if◌then◌else◌}

infixl 5 ◌>>=◌
abbrev pub ◌>>=◌ {ℓ} : {A B : Type ℓ} → Option A → (A → Option B) → Option B
none >>= f = none
some a >>= f = f a

-- what a sequence that succeeds went through
pub some_of_bind :
    {A B : Type 0} (o : Option A) (f : A → Option B) (b : B)
    → (o >>= f) ≡ some b
    → (a : A) × (o ≡ some a) × (f a ≡ some b)
some_of_bind none f b h = cc
some_of_bind (some a) f b h = (a, refl, h)

pub some_eq : {A : Type 0} {a b : A} → some a ≡ some b → a ≡ b
some_eq {a = a} {b = b} h = some-injective a b h

-- A sequence succeeds if both parts do.
pub bind_total :
    {A B : Type 0} (o : Option A) (f : A → Option B)
    → (a : A) × (o ≡ some a)
    → ((a : A) → o ≡ some a → (b : B) × (f a ≡ some b))
    → (b : B) × ((o >>= f) ≡ some b)
bind_total none f (a, h) k = cc
bind_total (some c) f (a, h) k = k c refl

-- The result is there, and has the property.
abbrev pub Yields : {A : Type 0} → (A → Type 0) → Option A → Type 0
Yields {A} P o = (a : A) × (o ≡ some a) × P a

pub if_Yields :
    {A : Type 0} (P : A → Type 0) (b : Bool) (x y : Option A)
    → (b ≡ true → Yields P x)
    → (b ≡ false → Yields P y)
    → Yields P (if b then x else y)
if_Yields P true x y f g = f refl
if_Yields P false x y f g = g refl
