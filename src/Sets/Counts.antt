-- ===== src/Sets/Counts.antt =====
-- How often a value stands in a list, up to the comparison, and how the loops of `Compare` change
-- the number of free elements.
use panda_k8s.Equality.{IsEquiv}
use panda_k8s.Prelude.{
  ℕ, suc, ◌+◌, Bool, true, ◌≡◌, refl, List, [], ◌∷◌, none, some, length, if◌then◌else◌, arith, inl,
  inr, Option-cases, ap,
}
use panda_k8s.Sets.{make_visited, claim}

module _ {A : Type 0} where
  -- the elements that are not visited
  unfoldable pub free : List A → List Bool → List A
  free (y ∷ ys) (v ∷ vs) = if v then free ys vs else y ∷ free ys vs
  free _ _ = []

  pub free_new : (ys : List A) → free ys (make_visited (length ys)) ≡ ys
  unfolding free make_visited
  free_new [] = refl
  free_new (y ∷ ys) = ap (◌∷◌ y) (free_new ys)

module _ {A : Type 0} (eq : A → A → Bool) where
  -- the elements of a list that equal `z`
  unfoldable pub count : A → List A → ℕ
  count z [] = 0
  count z (x ∷ xs) = (if eq z x then 1 else 0) + count z xs

  pub claim-none :
      (x : A) (ys : List A) (vs : List Bool) → claim eq x ys vs ≡ none → count x (free ys vs) ≡ 0
  unfolding claim free count
  claim-none x [] vs h = refl
  claim-none x (y ∷ ys) [] h = refl
  claim-none x (y ∷ ys) (v ∷ vs) h = ground (arith, claim-none x ys vs)

  pub length-claim-some :
      (x : A) (ys : List A) (vs vs' : List Bool)
      → claim eq x ys vs ≡ some vs'
      → length (free ys vs) ≡ suc (length (free ys vs'))
  unfolding claim free
  length-claim-some x [] vs vs' h = cc
  length-claim-some x (y ∷ ys) [] vs' h = cc
  length-claim-some x (y ∷ ys) (v ∷ vs) vs' h = elim (Option-cases (claim eq x ys vs)) [
    | inl lost ↦ ground arith
    | inr (us, found) ↦ ground (arith, length-claim-some x ys vs us found)
  ]

module _ {A : Type 0} {eq : A → A → Bool} (l : IsEquiv eq) where
  -- Values that are equal to one another are counted alike.
  same_test : (z x y : A) → eq x y ≡ true → eq z x ≡ eq z y
  same_test z x y h = ground (arith, l.transitive z x y, l.transitive z y x, l.symmetric x y tt tt)

  -- `claim` takes one element out of the free ones, and it equals `x`
  pub claim-some :
      (x z : A) (ys : List A) (vs vs' : List Bool)
      → claim eq x ys vs ≡ some vs'
      → count eq z (free ys vs) ≡ (if eq z x then 1 else 0) + count eq z (free ys vs')
  unfolding claim free count
  claim-some x z [] vs vs' h = cc
  claim-some x z (y ∷ ys) [] vs' h = cc
  claim-some x z (y ∷ ys) (v ∷ vs) vs' h = elim (Option-cases (claim eq x ys vs)) [
    | inl lost ↦ ground (arith, same_test z x y)
    | inr (us, found) ↦ ground (arith, same_test z x y, claim-some x z ys vs us found)
  ]
