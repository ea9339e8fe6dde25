-- ===== src/Prelude/Lists.antt =====
-- Lists measured by native numbers, and membership by recursion, which computes to a sum.
use Prim.Native.Nat.{ℕ, suc, ◌+◌}
use mathlib.Core.Path.{◌≡◌, refl, ap, sym, subst}
use mathlib.Core.Logic.{◌⊎◌, inl, inr}
use mathlib.Core.Bool.{Bool, true, false, ◌||◌, ◌&&◌}
use mathlib.Core.List.{List, [], ◌∷◌, ◌++◌, map}
use native.Mathlib.Omega.{arith}

module _ {ℓ} {A : Type ℓ} where
  abbrev pub length : List A → ℕ
  length [] = 0
  length (x ∷ xs) = suc (length xs)

  -- a loop that returns true at the first hit
  abbrev pub any : (A → Bool) → List A → Bool
  any p [] = false
  any p (x ∷ xs) = p x || any p xs

  abbrev pub all : (A → Bool) → List A → Bool
  all p [] = true
  all p (x ∷ xs) = p x && all p xs

  pub length-append : (xs ys : List A) → length (xs ++ ys) ≡ length xs + length ys
  length-append [] ys = omega arith
  length-append (x ∷ xs) ys = omega (arith, length-append xs ys)

-- where an element stands in a list
abbrev pub In : {A : Type 0} → A → List A → Type 0
In a [] = ⊥
In a (x ∷ xs) = (a ≡ x) ⊎ In a xs

abbrev pub All {ℓ κ} : {A : Type ℓ} → (A → Type κ) → List A → Type κ
All P [] = Unit
All P (x ∷ xs) = P x × All P xs

pub All_map {ℓ κ} :
    {A : Type ℓ} {P Q : A → Type κ} → ((a : A) → P a → Q a) → (xs : List A) → All P xs → All Q xs
All_map f [] h = tt
All_map f (x ∷ xs) h = (f x h.0, All_map f xs h.1)

pub All_all {ℓ κ} : {A : Type ℓ} {P : A → Type κ} → ((a : A) → P a) → (xs : List A) → All P xs
All_all f [] = tt
All_all f (x ∷ xs) = (f x, All_all f xs)

pub All-append {ℓ κ} :
    {A : Type ℓ} (P : A → Type κ) (xs ys : List A) → All P xs → All P ys → All P (xs ++ ys)
All-append P [] ys hx hy = hy
All-append P (x ∷ xs) ys hx hy = (hx.0, All-append P xs ys hx.1 hy)

pub all-append {ℓ} :
    {A : Type ℓ} (p : A → Bool) (xs ys : List A) → all p (xs ++ ys) ≡ (all p xs && all p ys)
all-append p [] ys = refl
all-append p (x ∷ xs) ys = ground (arith, all-append p xs ys)

pub any-append {ℓ} :
    {A : Type ℓ} (p : A → Bool) (xs ys : List A) → any p (xs ++ ys) ≡ (any p xs || any p ys)
any-append p [] ys = refl
any-append p (x ∷ xs) ys = ground (arith, any-append p xs ys)

module _ {A B : Type 0} (f : A → B) where
  pub All-map : (P : B → Type 0) (xs : List A) → All (λ x. P (f x)) xs → All P (map f xs)
  All-map P [] h = tt
  All-map P (x ∷ xs) h = (h.0, All-map P xs h.1)

  pub All_of_map : (P : B → Type 0) (xs : List A) → All P (map f xs) → All (λ x. P (f x)) xs
  All_of_map P [] h = tt
  All_of_map P (x ∷ xs) h = (h.0, All_of_map P xs h.1)

  pub In-map : (x : A) (xs : List A) → In x xs → In (f x) (map f xs)
  In-map x [] h = absurd h
  In-map x (y ∷ ys) (inl h) = inl (ap f h)
  In-map x (y ∷ ys) (inr h) = inr (In-map x ys h)

-- what holds together of the elements
pub All_zip {ℓ κ} :
    {A : Type ℓ} (P Q : A → Type κ) (xs : List A) → All P xs → All Q xs → All (λ x. P x × Q x) xs
All_zip P Q [] h k = tt
All_zip P Q (x ∷ xs) h k = ((h.0, k.0), All_zip P Q xs h.1 k.1)

pub All-In : {A : Type 0} (P : A → Type 0) (a : A) (xs : List A) → All P xs → In a xs → P a
All-In P a [] h i = absurd i
All-In P a (x ∷ xs) h (inl same) = subst P (sym same) h.0
All-In P a (x ∷ xs) h (inr i) = All-In P a xs h.1 i

pub All_of_In : {A : Type 0} (P : A → Type 0) (xs : List A) → ((a : A) → In a xs → P a) → All P xs
All_of_In P [] f = tt
All_of_In P (x ∷ xs) f = (f x (inl refl), All_of_In P xs (λ a i. f a (inr i)))
