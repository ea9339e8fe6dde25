-- ===== src/Pointers.antt =====
-- Pointers into a heap, and how the `Equal` methods compare what they point to. A pointer is nil
-- or an address; the heap is one function from addresses to values for each type, so that two
-- pointers with one address point to one value.
use panda_k8s.Equality.{Any, Laws, IsEquiv, weaken, decides-IsEquiv}
use panda_k8s.Prelude.{
  ℕ, Option, none, some, Bool, true, false, ◌≡◌, refl, nat_eq, nat_eq_iff, if◌then◌else◌, sym, ap,
  Bool-cases, ◌⊎◌, inl, inr,
}

pub data Ptr (A : Type 0) : Type 0 where
  nil : Ptr A
  at : ℕ → Ptr A

-- `p == q`, the comparison of addresses
abbrev pub same_address : {A : Type 0} → Ptr A → Ptr A → Bool
same_address nil nil = true
same_address (at m) (at n) = nat_eq m n
same_address _ _ = false

module _ {A : Type 0} (heap : ℕ → A) where
  -- Both point to a value, and `e` holds of the two.
  abbrev both_point : (A → A → Bool) → Ptr A → Ptr A → Bool
  both_point e (at m) (at n) = e (heap m) (heap n)
  both_point e _ _ = false

  -- `if p == q { return true }; if p == nil || q == nil { return false }; …`
  abbrev pub pointees_equal : (A → A → Bool) → Ptr A → Ptr A → Bool
  pointees_equal e p q = if same_address p q then true else both_point e p q

  -- what holds of the value, if there is one
  abbrev pub Pointee : (A → Type 0) → Ptr A → Type 0
  Pointee P nil = Unit
  Pointee P (at n) = P (heap n)

pub same_address-IsEquiv : {A : Type 0} → IsEquiv (same_address {A = A})
same_address-IsEquiv {A} = decides-IsEquiv {A = Ptr A} sound reflexive
  where
    sound : (p q : Ptr A) → same_address p q ≡ true → p ≡ q
    sound nil nil h = refl
    sound (at m) (at n) h = ap at ((nat_eq_iff m n).0 h)
    sound nil (at n) h = cc
    sound (at m) nil h = cc

    reflexive : (p : Ptr A) → same_address p p ≡ true
    reflexive nil = refl
    reflexive (at m) = (nat_eq_iff m m).1 refl

module _ {A : Type 0} (heap : ℕ → A) {P : A → Type 0} {e : A → A → Bool} (l : Laws P e) where
  -- The test of the addresses is a shortcut: it never says more than the comparison of the values.
  pub pointees_equal-at : (m n : ℕ) → pointees_equal heap e (at m) (at n) ≡ e (heap m) (heap n)
  pointees_equal-at m n = elim (Bool-cases (nat_eq m n)) [
    | inl same ↦ rw (same, ← (nat_eq_iff m n).0 same) (sym (l.reflexive (heap m)))
    | inr other ↦ rw other
  ]

  pub pointees_equal-Laws : Laws (Pointee heap P) (pointees_equal heap e)
  pointees_equal-Laws = record { reflexive = self; transitive = step; symmetric = flip }
    where
      self : (p : Ptr A) → pointees_equal heap e p p ≡ true
      self nil = refl
      self (at m) = rw (pointees_equal-at m m) (l.reflexive (heap m))

      step :
          (p q r : Ptr A)
          → pointees_equal heap e p q ≡ true
          → pointees_equal heap e q r ≡ true
          → pointees_equal heap e p r ≡ true
      step nil nil r h k = k
      step nil (at n) r h k = cc
      step (at m) nil r h k = cc
      step (at m) (at n) nil h k = cc
      step (at m) (at n) (at o) h k = rw (pointees_equal-at m o) (
          l.transitive (heap m) (heap n) (heap o) (rw (pointees_equal-at m n) at h)
            (rw (pointees_equal-at n o) at k))

      flip :
          (p q : Ptr A)
          → Pointee heap P p
          → Pointee heap P q
          → pointees_equal heap e p q ≡ true
          → pointees_equal heap e q p ≡ true
      flip nil nil _ _ h = h
      flip nil (at n) _ _ h = cc
      flip (at m) nil _ _ h = cc
      flip (at m) (at n) hp hq h =
          rw (pointees_equal-at n m)
            (l.symmetric (heap m) (heap n) hp hq (rw (pointees_equal-at m n) at h))

pub pointees_equal-IsEquiv :
    {A : Type 0} (heap : ℕ → A) {e : A → A → Bool} → IsEquiv e → IsEquiv (pointees_equal heap e)
pointees_equal-IsEquiv {A} heap l = weaken any_pointee (pointees_equal-Laws heap l)
  where
    any_pointee : (p : Ptr A) → Any p → Pointee heap Any p
    any_pointee nil _ = tt
    any_pointee (at n) _ = tt

-- the value that a pointer points to, and a panic at nil
abbrev pub load : {A : Type 0} → (ℕ → A) → Ptr A → Option A
load heap nil = none
load heap (at n) = some (heap n)

pub Ptr-cases : {A : Type 0} (p : Ptr A) → (p ≡ nil) ⊎ ((n : ℕ) × (p ≡ at n))
Ptr-cases nil = inl refl
Ptr-cases (at n) = inr (n, refl)
