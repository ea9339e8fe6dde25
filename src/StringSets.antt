-- ===== src/StringSets.antt =====
-- `sets.String` of apimachinery, which the controller imports: an interface with the documented
-- behaviour of its operations, and a list that meets it.
use panda_k8s.Equality.{distinct}
use panda_k8s.Prelude.{
  false, all, ℕ, String, Bool, true, not, ◌&&◌, ◌||◌, ◌==◌, ==_iff, ◌≡◌, refl, List, [], ◌∷◌, In,
  length, any, if◌then◌else◌, ◌↔◌, arith,
}

pub record StringSets : Type 1 where
  pub Set : Type 0
  -- `sets.NewString()` and `sets.NewString(x)`
  pub empty : Set
  pub new_string : String → Set
  pub insert : Set → String → Set
  pub delete : Set → String → Set
  pub has : Set → String → Bool
  pub difference : Set → Set → Set
  pub len : Set → ℕ
  pub list : Set → List String
  pub has-empty : (y : String) → has empty y ≡ false
  pub has-new_string : (x y : String) → has (new_string x) y ≡ (x == y)
  pub has-insert : (s : Set) (x y : String) → has (insert s x) y ≡ (x == y || has s y)
  pub has-delete : (s : Set) (x y : String) → has (delete s x) y ≡ (not (x == y) && has s y)
  pub has-difference :
      (s t : Set) (y : String) → has (difference s t) y ≡ (has s y && not (has t y))
  pub in-list : (s : Set) (y : String) → In y (list s) ↔ (has s y ≡ true)
  pub list-distinct : (s : Set) → distinct ◌==◌ (list s) ≡ true
  pub length-list : (s : Set) → length (list s) ≡ len s

-- A list of texts as a set.
abbrev member : List String → String → Bool
member xs y = any (λ x. x == y) xs

abbrev without : List String → String → List String
without [] x = []
without (y ∷ ys) x = if x == y then without ys x else y ∷ without ys x

pub member-without :
    (s : List String) (x y : String) → member (without s x) y ≡ (not (x == y) && member s y)
member-without [] x y = ground arith
member-without (z ∷ s) x y =
    ground (arith, ==_iff x z, ==_iff z y, ==_iff x y, member-without s x y)

abbrev minus : List String → List String → List String
minus [] ys = []
minus (x ∷ xs) ys = let rest = minus xs ys in if member ys x then rest else x ∷ rest

pub member-minus :
    (s t : List String) (y : String) → member (minus s t) y ≡ (member s y && not (member t y))
member-minus [] t y = ground arith
member-minus (x ∷ s) t y = ground (arith, ==_iff x y, member-minus s t y)

pub In-member : (s : List String) (y : String) → In y s ↔ (member s y ≡ true)
In-member [] y = (λ h. absurd h, λ h. cc)
In-member (x ∷ s) y = ground (arith, ==_iff x y, In-member s y)

pub member_one : (x y : String) → member (x ∷ []) y ≡ (x == y)
member_one x y = ground arith

-- A list without repeated texts.
abbrev once : List String → List String
once [] = []
once (x ∷ xs) = let rest = once xs in if member rest x then rest else x ∷ rest

member-once : (s : List String) (y : String) → member (once s) y ≡ member s y
member-once [] y = refl
member-once (x ∷ s) y = ground (arith, ==_iff x y, member-once s y, member-once s x)

all_apart : (xs : List String) (x : String) → all (λ y. not (x == y)) xs ≡ not (member xs x)
all_apart [] x = refl
all_apart (y ∷ xs) x = ground (arith, ==_iff x y, ==_iff y x, all_apart xs x)

pub once-distinct : (s : List String) → distinct ◌==◌ (once s) ≡ true
once-distinct [] = refl
once-distinct (x ∷ s) = ground (arith, all_apart (once s) x, once-distinct s)

pub In-once : (s : List String) (y : String) → In y (once s) ↔ (member s y ≡ true)
In-once s y = rw (← member-once s y) (In-member (once s) y)

abbrev pub list_sets : StringSets
list_sets = record {
  Set = List String;
  empty = [];
  new_string = λ x. x ∷ [];
  insert = λ s x. x ∷ s;
  delete = without;
  has = member;
  difference = minus;
  len = λ s. length (once s);
  list = once;
  has-empty = λ y. refl;
  has-new_string = member_one;
  has-insert = λ s x y. refl;
  has-delete = member-without;
  has-difference = member-minus;
  in-list = In-once;
  list-distinct = once-distinct;
  length-list = λ s. refl;
}
