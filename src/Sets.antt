-- ===== src/Sets.antt =====
-- pkg/util/sets/match.go: comparison of two slices without regard to order.
pub mod Slices
pub mod Counts
pub mod Multisets
use mathlib.Core.Option
use panda_k8s.Prelude.{
  ℕ, suc, zero, String, Bool, true, false, not, beq, ◌&&◌, ◌==◌, nat_eq, List, [], ◌∷◌, Option,
  none, some, if◌then◌else◌,
}
use Slices.{Slice, elems, is_nil, len}

-- `make([]bool, n)`
unfoldable pub make_visited : ℕ → List Bool
make_visited zero = []
make_visited (suc n) = false ∷ make_visited n

module _ {A : Type 0} (eq : A → A → Bool) where
  -- The inner loop: the marks with the first free element that equals `x` visited, or `none` if
  -- `found` stays false.
  unfoldable pub claim : A → List A → List Bool → Option (List Bool)
  claim x (y ∷ ys) (v ∷ vs) =
      let rest = Option.map (◌∷◌ v) (claim x ys vs) in
      if v then rest else if eq x y then some (true ∷ vs) else rest
  claim x _ _ = none

  -- the outer loop
  unfoldable pub claim_all : List A → List A → List Bool → Bool
  claim_all [] ys visited = true
  claim_all (x ∷ xs) ys visited = elim (claim x ys visited) [
    | none ↦ false
    | some visited' ↦ claim_all xs ys visited'
  ]

  -- `Compare`, on two slices
  unfoldable pub compare : Slice A → Slice A → Bool
  unfolding make_visited
  compare a b =
      if is_nil a && is_nil b
      then true
      else if not (beq (is_nil a) (is_nil b))
      then false
      else if not (nat_eq (len a) (len b))
      then false
      else claim_all (elems a) (elems b) (make_visited (len b))

-- `StringElementsMatch`, with `compareStrings`
unfoldable pub string_elements_match : Slice String → Slice String → Bool
string_elements_match a b = compare ◌==◌ a b
