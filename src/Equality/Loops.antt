-- ===== src/Equality/Loops.antt =====
-- The loops by which the `Equal` methods compare two slices: by index, and by search.
use panda_k8s.Equality.Defs.{Laws, IsEquiv, Any, weaken}
use panda_k8s.Prelude.{
  Bool, true, ◌&&◌, ◌≡◌, refl, List, [], ◌∷◌, length, any, all, All, nat_eq, arith,
}

module _ {A : Type 0} (e : A → A → Bool) where
  -- `for i, x := range xs { if !x.Equal(ys[i]) { return false } }`, after a test of the lengths
  abbrev pub each_equal : List A → List A → Bool
  each_equal (x ∷ xs) (y ∷ ys) = e x y && each_equal xs ys
  each_equal _ _ = true

  abbrev pub same_order : List A → List A → Bool
  same_order xs ys = nat_eq (length xs) (length ys) && each_equal xs ys

  -- `for _, x := range xs { found := false; for _, y := range ys { … } }`
  abbrev pub each_found : List A → List A → Bool
  each_found xs ys = all (λ x. any (λ y. e x y) ys) xs

  abbrev pub same_elements : List A → List A → Bool
  same_elements xs ys = nat_eq (length xs) (length ys) && each_found xs ys

pub All-Any : {A : Type 0} (xs : List A) → All Any xs
All-Any [] = tt
All-Any (x ∷ xs) = (tt, All-Any xs)

module _ {A : Type 0} {P : A → Type 0} {e : A → A → Bool} (l : Laws P e) where
  same_order_refl : (xs : List A) → same_order e xs xs ≡ true
  same_order_refl [] = refl
  same_order_refl (x ∷ xs) = ground (arith, l.reflexive x, same_order_refl xs)

  same_order_trans :
      (xs ys zs : List A)
      → same_order e xs ys ≡ true
      → same_order e ys zs ≡ true
      → same_order e xs zs ≡ true
  same_order_trans [] [] zs p q = q
  same_order_trans (x ∷ xs) (y ∷ ys) (z ∷ zs) p q =
      ground (arith, l.transitive x y z, same_order_trans xs ys zs)
  same_order_trans [] (y ∷ ys) zs p q = ground arith
  same_order_trans (x ∷ xs) [] zs p q = ground arith
  same_order_trans (x ∷ xs) (y ∷ ys) [] p q = ground arith

  same_order-sym :
      (xs ys : List A) → All P xs → All P ys → same_order e xs ys ≡ true → same_order e ys xs ≡ true
  same_order-sym [] [] p q h = refl
  same_order-sym (x ∷ xs) (y ∷ ys) p q h =
      ground (arith, l.symmetric x y p.0 q.0, same_order-sym xs ys p.1 q.1)
  same_order-sym [] (y ∷ ys) p q h = ground arith
  same_order-sym (x ∷ xs) [] p q h = ground arith

  -- The comparison by index keeps the laws.
  pub same_order-Laws : Laws (All P) (same_order e)
  same_order-Laws = record {
    reflexive = same_order_refl;
    transitive = same_order_trans;
    symmetric = same_order-sym;
  }

pub same_order-IsEquiv : {A : Type 0} {e : A → A → Bool} → IsEquiv e → IsEquiv (same_order e)
same_order-IsEquiv l = weaken (λ xs _. All-Any xs) (same_order-Laws l)
