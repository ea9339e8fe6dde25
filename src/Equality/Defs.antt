-- ===== src/Equality/Defs.antt =====
-- Laws of the Boolean `Equal` methods. `Laws P e` says that `e` is reflexive and transitive, and
-- symmetric between values for which `P` holds.
use panda_k8s.Prelude.{
  Bool, true, ◌&&◌, ◌≡◌, refl, nat_eq, nat_eq_iff, beq, beq_iff, int_eq, int_eq_iff, ◌==◌, ==_iff,
  arith,
}

pub record Laws {A : Type 0} (P : A → Type 0) (e : A → A → Bool) : Type 0 where
  pub reflexive : (a : A) → e a a ≡ true
  pub transitive : (a b c : A) → e a b ≡ true → e b c ≡ true → e a c ≡ true
  pub symmetric : (a b : A) → P a → P b → e a b ≡ true → e b a ≡ true

-- what holds of every value
abbrev pub Any : {A : Type 0} → A → Type 0
Any _ = Unit {0}

abbrev pub IsEquiv : {A : Type 0} → (A → A → Bool) → Type 0
IsEquiv = Laws Any

-- the comparison of one field
module _ {A B : Type 0} {P : A → Type 0} {Q : B → Type 0} {e : B → B → Bool} where
  pub on_if : (f : A → B) → ((a : A) → P a → Q (f a)) → Laws Q e → Laws P (λ a b. e (f a) (f b))
  on_if f h l = record {
    reflexive = λ a. l.reflexive (f a);
    transitive = λ a b c. l.transitive (f a) (f b) (f c);
    symmetric = λ a b p q. l.symmetric (f a) (f b) (h a p) (h b q);
  }

pub on :
    {A B : Type 0} {P : A → Type 0} {e : B → B → Bool} (f : A → B)
    → IsEquiv e
    → Laws P (λ a b. e (f a) (f b))
on f l = on_if f (λ a _. tt) l

-- symmetry on fewer values
pub weaken :
    {A : Type 0} {P Q : A → Type 0} {e : A → A → Bool} → ((a : A) → P a → Q a) → Laws Q e → Laws P e
weaken h l = record {
  reflexive = l.reflexive;
  transitive = l.transitive;
  symmetric = λ a b p q. l.symmetric a b (h a p) (h b q);
}

-- two comparisons in a row
infixl 35 ◌&◌
pub ◌&◌ :
    {A : Type 0} {P : A → Type 0} {e f : A → A → Bool}
    → Laws P e
    → Laws P f
    → Laws P (λ a b. e a b && f a b)
l & m = record {
  reflexive = λ a. ground (arith, l.reflexive a, m.reflexive a);
  transitive = λ a b c p q. ground (arith, l.transitive a b c, m.transitive a b c);
  symmetric = λ a b p q h. ground (arith, l.symmetric a b p q, m.symmetric a b p q);
}

-- A comparison that decides a path is an equivalence.
pub decides-IsEquiv :
    {A : Type 0} {e : A → A → Bool}
    → ((a b : A) → e a b ≡ true → a ≡ b)
    → ((a : A) → e a a ≡ true)
    → IsEquiv e
decides-IsEquiv sound complete = record {
  reflexive = complete;
  transitive = λ a b c p q. rw (sound a b p) q;
  symmetric = λ a b _ _ p. rw (sound a b p) (complete b);
}

pub nat_eq-IsEquiv : IsEquiv nat_eq
nat_eq-IsEquiv = decides-IsEquiv (λ a b. (nat_eq_iff a b).0) (λ a. (nat_eq_iff a a).1 refl)

pub beq-IsEquiv : IsEquiv beq
beq-IsEquiv = decides-IsEquiv (λ a b. (beq_iff a b).0) (λ a. (beq_iff a a).1 refl)

pub ==-IsEquiv : IsEquiv ◌==◌
==-IsEquiv = decides-IsEquiv (λ a b. (==_iff a b).0) (λ a. (==_iff a a).1 refl)

pub int_eq-IsEquiv : IsEquiv int_eq
int_eq-IsEquiv = decides-IsEquiv (λ a b. (int_eq_iff a b).0) (λ a. (int_eq_iff a a).1 refl)

-- Equal values compare alike with every other value.
pub interchange :
    {A : Type 0} {P : A → Type 0} {e : A → A → Bool} (l : Laws P e) (a b c : A)
    → P a
    → P b
    → e a b ≡ true
    → (e b a ≡ true) × (e a c ≡ e b c)
interchange l a b c p q h =
    ground (arith, l.symmetric a b p q, l.transitive a b c, l.transitive b a c)
