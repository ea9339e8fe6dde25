-- ===== src/Prelude/Sort.antt =====
-- Go's `sort.SliceStable`: an insertion sort, which keeps the order of elements that are not told
-- apart, as the stable sort does. `before` is the function `less`.
use mathlib.Core.Bool.{Bool, true, false, not, ◌&&◌, ◌||◌}
use mathlib.Core.List.{List, [], ◌∷◌}
use mathlib.Core.Logic.{◌⊎◌, ◌↔◌, inl, inr}
use mathlib.Core.Path.{◌≡◌}
use native.Mathlib.Omega.{arith}
use panda_k8s.Prelude.Lists.{All, In}
use panda_k8s.Prelude.Tests.{if◌then◌else◌, Bool-cases}

module _ {A : Type 0} (before : A → A → Bool) where
  -- an element that came before all others
  abbrev insert_by : A → List A → List A
  insert_by x [] = x ∷ []
  insert_by x (y ∷ ys) = let rest = insert_by x ys in if before y x then y ∷ rest else x ∷ y ∷ ys

  unfoldable pub sort : List A → List A
  sort [] = []
  sort (x ∷ xs) = insert_by x (sort xs)

  -- No element is before an earlier one.
  abbrev pub IsSorted : List A → Type 0
  IsSorted [] = Unit
  IsSorted (x ∷ xs) = All (λ y. before y x ≡ false) xs × IsSorted xs

  insert_by-All : (P : A → Type 0) (x : A) (xs : List A) → P x → All P xs → All P (insert_by x xs)
  insert_by-All P x [] h a = (h, tt)
  insert_by-All P x (y ∷ ys) h a = elim (Bool-cases (before y x)) [
    | inl less ↦ rw less (a.0, insert_by-All P x ys h a.1)
    | inr other ↦ rw other (h, a)
  ]

  pub sort-All : (P : A → Type 0) (xs : List A) → All P xs → All P (sort xs)
  unfolding sort
  sort-All P [] a = tt
  sort-All P (x ∷ xs) a = insert_by-All P x (sort xs) a.0 (sort-All P xs a.1)

  In-insert_by : (z x : A) (xs : List A) → In z (insert_by x xs) ↔ ((z ≡ x) ⊎ In z xs)
  In-insert_by z x [] = (λ h. h, λ h. h)
  In-insert_by z x (y ∷ ys) = ground (arith, In-insert_by z x ys)

  -- Sorting loses nothing and adds nothing.
  pub In-sort : (z : A) (xs : List A) → In z (sort xs) ↔ In z xs
  unfolding sort
  In-sort z [] = (λ h. h, λ h. h)
  In-sort z (x ∷ xs) = ground (arith, In-insert_by z x (sort xs), In-sort z xs)

  module _ (asymmetric : (a b : A) → before a b ≡ true → before b a ≡ false)
      (transitive : (a b c : A)
        → before b a ≡ false
        → before c b ≡ false
        → before c a ≡ false) where
    All_after :
        (x y : A) (ys : List A)
        → before y x ≡ false
        → All (λ z. before z y ≡ false) ys
        → All (λ z. before z x ≡ false) ys
    All_after x y [] h a = tt
    All_after x y (z ∷ zs) h a = (transitive x y z h a.0, All_after x y zs h a.1)

    insert_by-IsSorted : (x : A) (xs : List A) → IsSorted xs → IsSorted (insert_by x xs)
    insert_by-IsSorted x [] h = (tt, tt)
    insert_by-IsSorted x (y ∷ ys) h = elim (Bool-cases (before y x)) [
      | inl less ↦ rw less (
        insert_by-All (λ z. before z y ≡ false) x ys (asymmetric y x less) h.0,
        insert_by-IsSorted x ys h.1,
      )
      | inr other ↦ rw other ((other, All_after x y ys other h.0), h)
    ]

    pub sort-IsSorted : (xs : List A) → IsSorted (sort xs)
    unfolding sort
    sort-IsSorted [] = tt
    sort-IsSorted (x ∷ xs) = insert_by-IsSorted x (sort xs) (sort-IsSorted xs)

-- by the first order, and by the second where the first does not tell
abbrev pub then_by : {A : Type 0} → (A → A → Bool) → (A → A → Bool) → A → A → Bool
then_by first second a b = first a b || (not (first b a) && second a b)

module _ {A : Type 0} (before second : A → A → Bool)
    (asymmetric : (a b : A) → before a b ≡ true → before b a ≡ false)
    (transitive : (a b c : A) → before b a ≡ false → before c b ≡ false → before c a ≡ false) where
  after_both :
      (x : A) (zs : List A)
      → All (λ z. before z x ≡ false) zs
      → All (λ z. second z x ≡ false) zs
      → All (λ z. then_by before second z x ≡ false) zs
  after_both x [] a b = tt
  after_both x (z ∷ zs) a b = (ground (arith, a.0, b.0), after_both x zs a.1 b.1)

  first_after :
      (y : A) (zs : List A)
      → All (λ z. then_by before second z y ≡ false) zs
      → All (λ z. before z y ≡ false) zs
  first_after y [] a = tt
  first_after y (z ∷ zs) a = (ground (arith, a.0), first_after y zs a.1)

  insert_by-lex :
      (x : A) (xs : List A)
      → All (λ z. second z x ≡ false) xs
      → IsSorted (then_by before second) xs
      → IsSorted (then_by before second) (insert_by before x xs)
  insert_by-lex x [] a h = (tt, tt)
  insert_by-lex x (y ∷ ys) a h = elim (Bool-cases (before y x)) [
    | inl less ↦ rw less (
      insert_by-All before (λ z. then_by before second z y ≡ false) x ys
          (ground (arith, less, asymmetric y x less)) h.0,
      insert_by-lex x ys a.1 h.1,
    )
    | inr other ↦ rw other (
      after_both x (y ∷ ys)
          (other, All_after before asymmetric transitive x y ys other (first_after y ys h.0)) a,
      h,
    )
  ]

  -- The sort is stable: what an earlier sort has put in order stays so where it does not tell.
  pub sort-lex :
      (xs : List A) → IsSorted second xs → IsSorted (then_by before second) (sort before xs)
  unfolding sort
  sort-lex [] h = tt
  sort-lex (x ∷ xs) h =
      insert_by-lex x (sort before xs) (sort-All before (λ z. second z x ≡ false) xs h.0)
        (sort-lex xs h.1)
