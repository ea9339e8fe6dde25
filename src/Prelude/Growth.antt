-- ===== src/Prelude/Growth.antt =====
-- Maps to which a loop adds entries, each of which has a property, and from which it takes none.
use mathlib.Core.Bool.{true}
use mathlib.Core.List.{List, [], ◌∷◌}
use mathlib.Core.Logic.{inl, inr}
use mathlib.Core.Option.{some}
use mathlib.Core.Path.{◌≡◌, refl}
use Prim.Native.String.{String}
use panda_k8s.Prelude.Lists.{All, All_map}
use panda_k8s.Prelude.Maps.{
  lookup, lookup-store, store, store-All, distinct_keys, store-distinct_keys,
}
use panda_k8s.Prelude.Tests.{◌==◌, ==_iff, Bool-cases}

-- the map has the key
abbrev pub HasKey : {V : Type 0} → String → List (String × V) → Type 0
HasKey {V} k u = (v : V) × (lookup k u ≡ some v)

module _ {V : Type 0} where
  pub store-HasKey :
      (k j : String) (v : V) (u : List (String × V)) → HasKey k u → HasKey k (store j v u)
  store-HasKey k j v u (b, h) = elim (Bool-cases (j == k)) [
    | inl same ↦ (v, rw (lookup-store j k v u, same) refl)
    | inr other ↦ (b, rw (lookup-store j k v u, other) h)
  ]

  pub stored-HasKey : (k : String) (v : V) (u : List (String × V)) → HasKey k (store k v u)
  stored-HasKey k v u = (v, rw (lookup-store k k v u, (==_iff k k).1 refl) refl)

  cons-HasKey : (k j : String) (v : V) (u : List (String × V)) → HasKey k u → HasKey k ((j, v) ∷ u)
  unfolding lookup
  cons-HasKey k j v u (w, h) = elim (Bool-cases (j == k)) [
    | inl same ↦ (v, rw same refl)
    | inr other ↦ (w, rw other h)
  ]

  -- The map has the keys of its entries.
  pub All-HasKey : (u : List (String × V)) → All (λ e. HasKey e.0 u) u
  unfolding lookup
  All-HasKey [] = tt
  All-HasKey ((j, v) ∷ u) =
      ((v, rw ((==_iff j j).1 refl) refl), All_map (λ e. cons-HasKey e.0 j v u) u (All-HasKey u))

pub data Grows {V : Type 0} (P : String → V → Type 0)
    : List (String × V) → List (String × V) → Type 0 where
  same : {u : List (String × V)} → Grows P u u
  added :
      {u w : List (String × V)} (k : String) (v : V) → P k v → Grows P (store k v u) w → Grows P u w

module _ {V : Type 0} {P : String → V → Type 0} where
  pub then_Grows : {u v w : List (String × V)} → Grows P u v → Grows P v w → Grows P u w
  then_Grows Grows.same h = h
  then_Grows (Grows.added k v p g) h = Grows.added k v p (then_Grows g h)

  pub Grows-HasKey : {u w : List (String × V)} (k : String) → Grows P u w → HasKey k u → HasKey k w
  Grows-HasKey k Grows.same h = h
  Grows-HasKey {u} k (Grows.added j v p g) h = Grows-HasKey k g (store-HasKey k j v u h)

  pub Grows-All :
      {u w : List (String × V)} → Grows P u w → All (λ e. P e.0 e.1) u → All (λ e. P e.0 e.1) w
  Grows-All Grows.same a = a
  Grows-All {u} (Grows.added k v p g) a = Grows-All g (store-All P k v u a p)

  pub Grows-distinct_keys :
      {u w : List (String × V)} → Grows P u w → distinct_keys u ≡ true → distinct_keys w ≡ true
  Grows-distinct_keys Grows.same d = d
  Grows-distinct_keys {u} (Grows.added k v p g) d =
      Grows-distinct_keys g (store-distinct_keys k v u d)
