-- ===== src/ObjectRefs.antt =====
-- internal/ingress/controller/store/objectref.go: which consumers (Ingresses) refer to which
-- objects. Every method but Len runs under the map's lock, so it is
-- one step; Len only reads the length of the map.
pub mod Relation
pub mod Queries
pub mod Runs
use panda_k8s.Prelude.{
  ℕ, String, Bool, true, false, List, [], ◌∷◌, Option, none, some, lookup, store, length, nat_eq,
  any, if◌then◌else◌, ◌||◌,
}
use panda_k8s.StringSets.{StringSets}

module _ (sets : StringSets) where
  open sets use {
    Set, new_string, insert as set_insert, delete as set_delete, has as set_has, len, list,
  }

  -- `objectRefMap.v`
  abbrev pub Refs : Type 0
  Refs = List (String × Set)

  abbrev pub new_object_ref_map : Refs
  new_object_ref_map = []

  -- the loop body of `Insert`
  unfoldable pub add_consumer : Refs → String → String → Refs
  unfolding lookup store
  add_consumer v consumer r = elim (lookup r v) [
    | none ↦ store r (new_string consumer) v
    | some consumers ↦ store r (set_insert consumers consumer) v
  ]

  -- `Insert`
  unfoldable pub insert : Refs → String → List String → Refs
  insert v consumer [] = v
  insert v consumer (r ∷ refs) = insert (add_consumer v consumer r) consumer refs

  -- `Delete`: a reference that loses its last consumer goes
  unfoldable pub delete : Refs → String → Refs
  delete [] consumer = []
  delete ((ref, consumers) ∷ v) consumer =
      let left = set_delete consumers consumer in
      let rest = delete v consumer in if nat_eq (len left) 0 then rest else (ref, left) ∷ rest

  -- `Len`
  unfoldable pub len_refs : Refs → ℕ
  len_refs v = length v

  -- `Has`
  unfoldable pub has : Refs → String → Bool
  unfolding lookup
  has v ref = elim (lookup ref v) [ none ↦ false | some _ ↦ true ]

  -- `HasConsumer`
  unfoldable pub has_consumer : Refs → String → Bool
  has_consumer [] consumer = false
  has_consumer ((ref, consumers) ∷ v) consumer =
      set_has consumers consumer || has_consumer v consumer

  -- `Reference`
  unfoldable pub reference : Refs → String → List String
  unfolding lookup
  reference v ref = elim (lookup ref v) [ none ↦ [] | some consumers ↦ list consumers ]

  -- `ReferencedBy`
  unfoldable pub referenced_by : Refs → String → List String
  referenced_by [] consumer = []
  referenced_by ((ref, consumers) ∷ v) consumer =
      if set_has consumers consumer
      then ref ∷ referenced_by v consumer
      else referenced_by v consumer
