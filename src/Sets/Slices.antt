-- ===== src/Sets/Slices.antt =====
-- A Go slice: nil, or made. Both a nil and an empty slice have no elements, and the code can tell
-- them apart.
use panda_k8s.Prelude.{ℕ, Bool, true, false, List, [], ◌∷◌, length, ◌≡◌, refl}

pub data Slice (A : Type 0) : Type 0 where
  nil : Slice A
  made : List A → Slice A

abbrev pub elems : {A : Type 0} → Slice A → List A
elems nil = []
elems (made xs) = xs

abbrev pub is_nil : {A : Type 0} → Slice A → Bool
is_nil nil = true
is_nil (made xs) = false

-- `len`
abbrev pub len : {A : Type 0} → Slice A → ℕ
len s = length (elems s)

-- a nil slice to which elements are appended
abbrev pub appended : {A : Type 0} → List A → Slice A
appended [] = nil
appended (x ∷ xs) = made (x ∷ xs)

pub elems-appended : {A : Type 0} (xs : List A) → elems (appended xs) ≡ xs
elems-appended [] = refl
elems-appended (x ∷ xs) = refl
