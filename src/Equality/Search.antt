-- ===== src/Equality/Search.antt =====
-- The comparison by search: every element of the first list is found in the second, and both are
-- of one length. It is symmetric where the first list holds no element twice.
use panda_k8s.Equality.Defs.{Laws}
use panda_k8s.Equality.Loops.{each_found, same_elements}
use panda_k8s.Prelude.{
  suc, Bool, true, false, not, ◌&&◌, ◌≡◌, refl, List, [], ◌∷◌, ◌++◌, all-append, length, any, all,
  All, arith, Bool-cases, inl, inr, if◌then◌else◌,
}

module _ {A : Type 0} (e : A → A → Bool) where
  -- no two elements are equal
  abbrev pub distinct : List A → Bool
  distinct [] = true
  distinct (x ∷ xs) = all (λ y. not (e x y)) xs && distinct xs

  -- the list without the first element that equals `x`
  abbrev without : A → List A → List A
  without x [] = []
  without x (y ∷ ys) = if e x y then ys else y ∷ without x ys

  length-without :
      (x : A) (ys : List A) → any (λ y. e x y) ys ≡ true → length ys ≡ suc (length (without x ys))
  length-without x [] h = ground arith
  length-without x (y ∷ ys) h = ground (arith, length-without x ys)

  each_found-weaken :
      (xs ys : List A) (y : A) → each_found e xs ys ≡ true → each_found e xs (y ∷ ys) ≡ true
  each_found-weaken [] ys y h = refl
  each_found-weaken (x ∷ xs) ys y h = ground (arith, each_found-weaken xs ys y)

module _ {A : Type 0} {P : A → Type 0} {e : A → A → Bool} (l : Laws P e) where
  each_found_refl : (xs : List A) → each_found e xs xs ≡ true
  each_found_refl [] = refl
  each_found_refl (x ∷ xs) =
      ground (arith, l.reflexive x, each_found-weaken e xs xs x (each_found_refl xs))

  found_mono :
      (x y : A) (zs : List A)
      → e x y ≡ true
      → any (λ z. e y z) zs ≡ true
      → any (λ z. e x z) zs ≡ true
  found_mono x y [] p h = h
  found_mono x y (z ∷ zs) p h = ground (arith, l.transitive x y z, found_mono x y zs p)

  found-through :
      (x : A) (ys zs : List A)
      → any (λ y. e x y) ys ≡ true
      → each_found e ys zs ≡ true
      → any (λ z. e x z) zs ≡ true
  found-through x [] zs p h = ground arith
  found-through x (y ∷ ys) zs p h = ground (arith, found_mono x y zs, found-through x ys zs)

  each_found_trans :
      (xs ys zs : List A)
      → each_found e xs ys ≡ true
      → each_found e ys zs ≡ true
      → each_found e xs zs ≡ true
  each_found_trans [] ys zs p q = refl
  each_found_trans (x ∷ xs) ys zs p q =
      ground (arith, found-through x ys zs, each_found_trans xs ys zs)

  found-without :
      (x x' : A) (ys : List A)
      → P x
      → P x'
      → All P ys
      → not (e x x') ≡ true
      → any (λ y. e x' y) ys ≡ true
      → any (λ y. e x' y) (without e x ys) ≡ true
  found-without x x' [] px px' py n h = h
  found-without x x' (y ∷ ys) px px' py n h =
      ground
        (arith, l.symmetric x' y px' py.0, l.transitive x y x', found-without x x' ys px px' py.1 n)

  each_found-without :
      (x : A) (xs ys : List A)
      → P x
      → All P xs
      → All P ys
      → all (λ y. not (e x y)) xs ≡ true
      → each_found e xs ys ≡ true
      → each_found e xs (without e x ys) ≡ true
  each_found-without x [] ys px pxs pys n h = refl
  each_found-without x (x' ∷ xs) ys px pxs pys n h =
      ground (arith, found-without x x' ys px pxs.0 pys, each_found-without x xs ys px pxs.1 pys)

  All-without : (x : A) (ys : List A) → All P ys → All P (without e x ys)
  All-without x [] h = tt
  All-without x (y ∷ ys) h = elim (Bool-cases (e x y)) [
    | inl same ↦ rw same h.1
    | inr other ↦ rw other (h.0, All-without x ys h.1)
  ]

  each_found-back :
      (x : A) (xs ys : List A)
      → P x
      → All P ys
      → each_found e (without e x ys) xs ≡ true
      → each_found e ys (x ∷ xs) ≡ true
  each_found-back x xs [] px pys h = refl
  each_found-back x xs (y ∷ ys) px pys h = elim (Bool-cases (e x y)) [
    | inl same ↦ rw (l.symmetric x y px pys.0 same) (each_found-weaken e ys xs x (rw same at h))
    | inr other ↦
        let k : (any (λ z. e y z) xs && each_found e (without e x ys) xs) ≡ true = rw other at h in
        ground (arith, each_found-back x xs ys px pys.1)
  ]

  each_found-sym :
      (xs ys : List A)
      → All P xs
      → All P ys
      → distinct e xs ≡ true
      → length xs ≡ length ys
      → each_found e xs ys ≡ true
      → each_found e ys xs ≡ true
  each_found-sym [] [] px py d n h = refl
  each_found-sym [] (y ∷ ys) px py d n h = absurd (omega arith)
  each_found-sym (x ∷ xs) ys px py d n h = each_found-back x xs ys px.0 py (
      each_found-sym xs (without e x ys) px.1 (All-without x ys py) (ground arith)
        (ground (arith, length-without e x ys))
        (each_found-without x xs ys px.0 px.1 py (ground arith) (ground arith)))

  -- The comparison by search keeps the laws, and symmetry wants distinct elements.
  pub same_elements-Laws : Laws (λ xs. All P xs × (distinct e xs ≡ true)) (same_elements e)
  same_elements-Laws = record {
    reflexive = λ xs. ground (arith, each_found_refl xs);
    transitive = λ xs ys zs p q. ground (arith, each_found_trans xs ys zs);
    symmetric = λ xs ys p q h. ground (arith, each_found-sym xs ys p.0 q.0 p.1);
  }

-- An element that no other equals may be added at the end.
pub distinct-append_one :
    {A : Type 0} (e : A → A → Bool) (xs : List A) (z : A)
    → any (λ x. e x z) xs ≡ false
    → distinct e xs ≡ true
    → distinct e (xs ++ z ∷ []) ≡ true
distinct-append_one e [] z h d = refl
distinct-append_one {A} e (x ∷ xs) z h d =
    ground (arith, all-append (λ y. not (e x y)) xs (z ∷ []), distinct-append_one e xs z)
