-- ===== src/Prelude/Filters.antt =====
-- Loops that leave some elements out.
use mathlib.Core.Bool.{Bool, true}
use mathlib.Core.List.{List, [], ◌∷◌}
use mathlib.Core.Logic.{◌↔◌, inl, inr}
use mathlib.Core.Option.{Option, none, some, some-injective}
use mathlib.Core.Path.{◌≡◌, refl, sym, ◌∙◌, ap}
use panda_k8s.Prelude.Lists.{All, In}
use panda_k8s.Prelude.Tests.{if◌then◌else◌, Bool-cases, Option-cases}

-- a loop that stops at the first element that passes the test
unfoldable pub first : {A : Type 0} → (A → Bool) → List A → Option A
first p [] = none
first p (x ∷ xs) = let rest = first p xs in if p x then some x else rest

pub first_passes :
    {A : Type 0} (p : A → Bool) (xs : List A) (x : A) → first p xs ≡ some x → In x xs × (p x ≡ true)
unfolding first
first_passes p [] x h = cc
first_passes p (y ∷ ys) x h = elim (Bool-cases (p y)) [
  | inl passes ↦
      let same : y ≡ x = some-injective y x (rw passes at h) in
      (inl (sym same), ap p (sym same) ∙ passes)
  | inr fails ↦ let rest = first_passes p ys x (rw fails at h) in (inr rest.0, rest.1)
]

-- a loop that appends what it makes of an element, or continues without
unfoldable pub filter_map : {A B : Type 0} → (A → Option B) → List A → List B
filter_map f [] = []
filter_map f (x ∷ xs) = let rest = filter_map f xs in elim (f x) [ none ↦ rest | some y ↦ y ∷ rest ]

module _ {A B : Type 0} (f : A → Option B) where
  pub In-filter_map :
      (y : B) (xs : List A) → In y (filter_map f xs) ↔ ((x : A) × In x xs × (f x ≡ some y))
  unfolding filter_map
  In-filter_map y [] = (λ h. absurd h, λ h. absurd h.1)
  In-filter_map y (x ∷ xs) = elim (Option-cases (f x)) [
    | inl left_out ↦
        rw (left_out, In)
          (
            λ h. let (z, i, k) = (In-filter_map y xs).0 h in (z, inr i, k),
            λ (z, i, k). elim i [
              | inl same ↦ let e = sym left_out ∙ ap f (sym same) ∙ k in cc
              | inr later ↦ (In-filter_map y xs).1 (z, later, k)
            ],
          )
    | inr (u, found) ↦
        rw (found, In)
          (
            λ h. elim h [
              | inl same ↦ (x, inl refl, found ∙ ap some (sym same))
              | inr later ↦ let (z, i, k) = (In-filter_map y xs).0 later in (z, inr i, k)
            ],
            λ (z, i, k). elim i [
              | inl same ↦ inl (some-injective y u (sym k ∙ ap f same ∙ found))
              | inr later ↦ inr ((In-filter_map y xs).1 (z, later, k))
            ],
          )
  ]

  pub filter_map-All :
      (P : B → Type 0) (xs : List A)
      → ((x : A) (y : B) → f x ≡ some y → P y)
      → All P (filter_map f xs)
  unfolding filter_map
  filter_map-All P [] h = tt
  filter_map-All P (x ∷ xs) h = elim (Option-cases (f x)) [
    | inl left_out ↦ rw (left_out, All) (filter_map-All P xs h)
    | inr (y, found) ↦ rw (found, All) (h x y found, filter_map-All P xs h)
  ]

  -- If the loop has left all out, it has made nothing of any.
  pub filter_map-nothing : (xs : List A) → filter_map f xs ≡ [] → All (λ x. f x ≡ none) xs
  unfolding filter_map
  filter_map-nothing [] h = tt
  filter_map-nothing (x ∷ xs) h = elim (Option-cases (f x)) [
    | inl left_out ↦ (left_out, filter_map-nothing xs (rw (left_out, filter_map) at h))
    | inr (y, found) ↦ let clash = rw (found, filter_map) at h in cc
  ]
