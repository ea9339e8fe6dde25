-- ===== src/Equality/Maps.antt =====
-- `map[string]string`, and `reflect.DeepEqual` on two of them: both nil or both made, of one
-- length, and with the same value at every key.
use panda_k8s.Equality.Defs.{Laws, IsEquiv, Any, on, ◌&◌, ==-IsEquiv}
use panda_k8s.Equality.Loops.{same_elements, All-Any}
use panda_k8s.Equality.Search.{distinct, same_elements-Laws}
use panda_k8s.Prelude.{
  String, Bool, true, false, not, ◌&&◌, ◌==◌, ◌≡◌, refl, List, [], ◌∷◌, all, All, arith,
}

abbrev pub Entry : Type 0
Entry = String × String

abbrev pub key_eq : Entry → Entry → Bool
key_eq a b = a.0 == b.0

abbrev pub entry_eq : Entry → Entry → Bool
entry_eq a b = a.0 == b.0 && a.1 == b.1

-- nil, or made with entries of which no two have one key
pub data StringMap : Type 0 where
  nil : StringMap
  made : (entries : List Entry) → distinct key_eq entries ≡ true → StringMap

abbrev pub deep_equal : StringMap → StringMap → Bool
deep_equal nil nil = true
deep_equal (made m _) (made n _) = same_elements entry_eq m n
deep_equal _ _ = false

entry_eq-IsEquiv : IsEquiv entry_eq
entry_eq-IsEquiv = on (λ a. a.0) ==-IsEquiv & on (λ a. a.1) ==-IsEquiv

apart :
    (x : Entry) (xs : List Entry)
    → all (λ y. not (key_eq x y)) xs ≡ true
    → all (λ y. not (entry_eq x y)) xs ≡ true
apart x [] h = refl
apart x (y ∷ ys) h = ground (arith, apart x ys)

distinct_entries : (xs : List Entry) → distinct key_eq xs ≡ true → distinct entry_eq xs ≡ true
distinct_entries [] h = refl
distinct_entries (x ∷ xs) h = ground (arith, apart x xs, distinct_entries xs)

pub deep_equal-IsEquiv : IsEquiv deep_equal
deep_equal-IsEquiv = record { reflexive = self; transitive = step; symmetric = flip }
  where
    entries : Laws (λ xs. All Any xs × (distinct entry_eq xs ≡ true)) (same_elements entry_eq)
    entries = same_elements-Laws entry_eq-IsEquiv

    self : (a : StringMap) → deep_equal a a ≡ true
    self nil = refl
    self (made m d) = entries.reflexive m

    step :
        (a b c : StringMap) → deep_equal a b ≡ true → deep_equal b c ≡ true → deep_equal a c ≡ true
    step nil nil c p q = q
    step nil (made n d) c p q = cc
    step (made m d) nil c p q = cc
    step (made m d) (made n d') nil p q = cc
    step (made m d) (made n d') (made o d'') p q = entries.transitive m n o p q

    flip : (a b : StringMap) → Unit {0} → Unit {0} → deep_equal a b ≡ true → deep_equal b a ≡ true
    flip nil nil _ _ p = p
    flip nil (made n d) _ _ p = cc
    flip (made m d) nil _ _ p = cc
    flip (made m d) (made n d') _ _ p =
        entries.symmetric m n (All-Any m, distinct_entries m d) (All-Any n, distinct_entries n d') p
