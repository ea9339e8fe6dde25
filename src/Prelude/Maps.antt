-- ===== src/Prelude/Maps.antt =====
-- Go's maps with text keys: an entry for each key, in the order in which the keys were added. What
-- the code does with a map does not depend on the order in which a loop visits the entries.
use mathlib.Core.Bool.{Bool, true, false}
use mathlib.Core.List.{List, [], ◌∷◌}
use mathlib.Core.Option.{Option, none, some, some-injective}
use mathlib.Core.Path.{◌≡◌, refl}
use Prim.Native.String.{String}
use native.Mathlib.Omega.{arith}
use mathlib.Core.Logic.{inl, inr}
use mathlib.Core.Path.{sym, subst}
use panda_k8s.Prelude.Lists.{All, In}
use panda_k8s.Prelude.Tests.{◌==◌, ==_iff, if◌then◌else◌, Bool-cases}

module _ {V : Type 0} where
  -- `m[k]`
  unfoldable pub lookup : String → List (String × V) → Option V
  lookup k [] = none
  lookup k ((j, v) ∷ m) = if j == k then some v else lookup k m

  -- `m[k] = v`
  unfoldable pub store : String → V → List (String × V) → List (String × V)
  store k v [] = (k, v) ∷ []
  store k v ((j, w) ∷ m) = if j == k then (j, v) ∷ m else (j, w) ∷ store k v m

  -- `delete(m, k)`
  unfoldable pub remove : String → List (String × V) → List (String × V)
  remove k [] = []
  remove k ((j, w) ∷ m) = if j == k then remove k m else (j, w) ∷ remove k m

  -- no key is there twice
  unfoldable pub distinct_keys : List (String × V) → Bool
  unfolding lookup
  distinct_keys [] = true
  distinct_keys ((j, w) ∷ m) = elim (lookup j m) [ none ↦ distinct_keys m | some _ ↦ false ]

  pub lookup-In : (k : String) (v : V) (m : List (String × V)) → lookup k m ≡ some v → In (k, v) m
  unfolding lookup
  lookup-In k v [] h = absurd (ground arith)
  lookup-In k v ((j, w) ∷ m) h = elim (Bool-cases (j == k)) [
    | inl same ↦
        let e : j ≡ k = (==_iff j k).0 same in
        let f : w ≡ v = some-injective w v (rw same at h) in inl (sym cc)
    | inr other ↦ inr (lookup-In k v m (rw other at h))
  ]

  pub lookup-store :
      (k j : String) (v : V) (m : List (String × V))
      → lookup j (store k v m) ≡ (if k == j then some v else lookup j m)
  unfolding lookup store
  lookup-store k j v [] = refl
  lookup-store k j v ((i, w) ∷ m) =
      ground (arith, ==_iff k j, ==_iff i k, ==_iff i j, lookup-store k j v m)

  pub lookup-remove :
      (k j : String) (m : List (String × V))
      → lookup j (remove k m) ≡ (if k == j then none else lookup j m)
  unfolding lookup remove
  lookup-remove k j [] = ground arith
  lookup-remove k j ((i, w) ∷ m) =
      ground (arith, ==_iff k j, ==_iff i k, ==_iff i j, lookup-remove k j m)

  pub store-distinct_keys :
      (k : String) (v : V) (m : List (String × V))
      → distinct_keys m ≡ true
      → distinct_keys (store k v m) ≡ true
  unfolding store distinct_keys
  store-distinct_keys k v [] h = refl
  store-distinct_keys k v ((i, w) ∷ m) h =
      ground (arith, ==_iff i k, ==_iff k i, lookup-store k i v m, store-distinct_keys k v m)

  pub remove-distinct_keys :
      (k : String) (m : List (String × V))
      → distinct_keys m ≡ true
      → distinct_keys (remove k m) ≡ true
  unfolding remove distinct_keys
  remove-distinct_keys k [] h = refl
  remove-distinct_keys k ((i, w) ∷ m) h =
      ground (arith, ==_iff i k, ==_iff k i, lookup-remove k i m, remove-distinct_keys k m)

  module _ (P : String → V → Type 0) where
    pub lookup-All :
        (k : String) (v : V) (m : List (String × V))
        → All (λ e. P e.0 e.1) m
        → lookup k m ≡ some v
        → P k v
    unfolding lookup
    lookup-All k v [] a h = absurd (ground arith)
    lookup-All k v ((j, w) ∷ m) a h = elim (Bool-cases (j == k)) [
      | inl same ↦
          subst (λ (i : String). P i v) ((==_iff j k).0 same)
            (subst (λ (u : V). P j u) (some-injective w v (rw same at h)) a.0)
      | inr other ↦ lookup-All k v m a.1 (rw other at h)
    ]

    pub store-All :
        (k : String) (v : V) (m : List (String × V))
        → All (λ e. P e.0 e.1) m
        → P k v
        → All (λ e. P e.0 e.1) (store k v m)
    unfolding store
    store-All k v [] a h = (h, tt)
    store-All k v ((j, w) ∷ m) a h = elim (Bool-cases (j == k)) [
      | inl same ↦ rw same (subst (λ (i : String). P i v) (sym ((==_iff j k).0 same)) h, a.1)
      | inr other ↦ rw other (a.0, store-All k v m a.1 h)
    ]

    pub remove-All :
        (k : String) (m : List (String × V))
        → All (λ e. P e.0 e.1) m
        → All (λ e. P e.0 e.1) (remove k m)
    unfolding remove
    remove-All k [] a = tt
    remove-All k ((j, w) ∷ m) a = elim (Bool-cases (j == k)) [
      | inl same ↦ rw same (remove-All k m a.1)
      | inr other ↦ rw other (a.0, remove-All k m a.1)
    ]
