-- ===== src/Sets/Multisets.antt =====
-- `Compare` decides equality of multisets, up to the comparison of the elements.
use panda_k8s.Equality.{IsEquiv, ==-IsEquiv}
use panda_k8s.Prelude.{
  String, Bool, true, ◌≡◌, refl, List, [], ◌∷◌, length, arith, inl, inr, Option-cases, ◌↔◌, ◌==◌,
  sym, ◌∙◌,
}
use panda_k8s.Sets.{make_visited, claim, claim_all, compare, string_elements_match}
use panda_k8s.Sets.Counts.{count, free, free_new, claim-none, claim-some, length-claim-some}
use panda_k8s.Sets.Slices.{Slice, nil, made, elems, is_nil}

module _ {A : Type 0} (eq : A → A → Bool) where
  -- every value stands in both lists equally often
  abbrev pub SameCounts : List A → List A → Type 0
  SameCounts xs ys = (z : A) → count eq z xs ≡ count eq z ys

  -- the multiset that a slice holds, and whether the slice is nil
  abbrev pub SameSlices : Slice A → Slice A → Type 0
  SameSlices a b = (is_nil a ≡ is_nil b) × SameCounts (elems a) (elems b)

module _ {A : Type 0} {eq : A → A → Bool} (l : IsEquiv eq) where
  count_of_empty : (z : A) (ys : List A) → length ys ≡ 0 → count eq z ys ≡ 0
  unfolding count
  count_of_empty z [] h = refl
  count_of_empty z (y ∷ ys) h = absurd (omega arith)

  empty_of_count : (ys : List A) → ((z : A) → 0 ≡ count eq z ys) → 0 ≡ length ys
  unfolding count
  empty_of_count [] h = refl
  empty_of_count (y ∷ ys) h = ground (arith, h y, l.reflexive y)

  claim_all_sound :
      (z : A) (xs ys : List A) (vs : List Bool)
      → length xs ≡ length (free ys vs)
      → claim_all eq xs ys vs ≡ true
      → count eq z xs ≡ count eq z (free ys vs)
  unfolding claim_all count
  claim_all_sound z [] ys vs n h = sym (count_of_empty z (free ys vs) (sym n))
  claim_all_sound z (x ∷ xs) ys vs n h = elim (Option-cases (claim eq x ys vs)) [
    | inl lost ↦ absurd (ground arith)
    | inr (us, found) ↦
        let same =
          claim_all_sound z xs ys us (omega (arith, length-claim-some eq x ys vs us found))
            (rw (found, claim_all) at h) in
        omega (arith, claim-some l x z ys vs us found)
  ]

  claim_all_complete :
      (xs ys : List A) (vs : List Bool)
      → SameCounts eq xs (free ys vs)
      → (claim_all eq xs ys vs ≡ true) × (length xs ≡ length (free ys vs))
  unfolding claim_all count
  claim_all_complete [] ys vs h = (refl, empty_of_count (free ys vs) h)
  claim_all_complete (x ∷ xs) ys vs h = elim (Option-cases (claim eq x ys vs)) [
    | inl lost ↦ absurd (ground (arith, claim-none eq x ys vs lost, h x, l.reflexive x))
    | inr (us, found) ↦
        let (again, same) =
          claim_all_complete xs ys us (λ z. omega (arith, claim-some l x z ys vs us found, h z)) in
        (rw (found, claim_all) again, omega (arith, length-claim-some eq x ys vs us found))
  ]

  -- Of an equivalence of elements: `Compare` answers true exactly for two slices that are both nil
  -- or both not, and hold every element equally often.
  pub compare_iff : (a b : Slice A) → (compare eq a b ≡ true) ↔ SameSlices eq a b
  unfolding compare
  compare_iff nil nil = (λ _. (refl, λ z. refl), λ _. refl)
  compare_iff nil (made ys) = ground arith
  compare_iff (made xs) nil = ground arith
  compare_iff (made xs) (made ys) = (
    λ h. (
      refl,
      λ z. rw (free_new ys) at (
          claim_all_sound z xs ys (make_visited (length ys)) (rw (free_new ys) (ground arith))
            (ground arith)),
    ),
    λ h.
        let (found, same) =
          claim_all_complete xs ys (make_visited (length ys)) (λ z. rw (free_new ys) (h.1 z)) in
        let n : length xs ≡ length ys = rw (free_new ys) at same in ground arith,
  )

  -- `Compare` is an equivalence if the comparison of elements is.
  pub compare-IsEquiv : IsEquiv (compare eq)
  compare-IsEquiv = record {
    reflexive = λ a. (compare_iff a a).1 (refl, λ z. refl);
    transitive = λ a b c p q.
        let (n, same) = (compare_iff a b).0 p in
        let (m, same') = (compare_iff b c).0 q in
        (compare_iff a c).1 (n ∙ m, λ z. same z ∙ same' z);
    symmetric = λ a b _ _ p.
        let (n, same) = (compare_iff a b).0 p in (compare_iff b a).1 (sym n, λ z. sym (same z));
  }

pub string_elements_match_iff :
    (a b : Slice String) → (string_elements_match a b ≡ true) ↔ SameSlices ◌==◌ a b
unfolding string_elements_match
string_elements_match_iff = compare_iff ==-IsEquiv

pub string_elements_match-IsEquiv : IsEquiv string_elements_match
unfolding string_elements_match
string_elements_match-IsEquiv = compare-IsEquiv ==-IsEquiv
