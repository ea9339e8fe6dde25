-- ===== src/ObjectRefs/Queries.antt =====
-- What the queries of objectref.go answer, in terms of the relation that the map holds.
use panda_k8s.ObjectRefs
use panda_k8s.ObjectRefs.Relation.{refers, IsValid}
use panda_k8s.Prelude.{
  String, true, ◌==◌, ==_iff, ◌≡◌, refl, ◌≢◌, ◌↔◌, inl, inr, List, [], ◌∷◌, In, some, lookup,
  distinct_keys, length, All, arith, Bool-cases, Option-cases,
}
use panda_k8s.StringSets.{StringSets}

module _ (sets : StringSets) where
  open sets use {Set, len}

  abbrev Refs : Type 0
  Refs = ObjectRefs.Refs sets

  member_of_set : (x : Set) → len x ≢ 0 → (c : String) × (sets.has x c ≡ true)
  member_of_set x h = first (sets.list x) (sets.length-list x) (λ c. (sets.in-list x c).0)
    where
      first :
          (l : List String)
          → length l ≡ len x
          → ((c : String) → In c l → sets.has x c ≡ true)
          → (c : String) × (sets.has x c ≡ true)
      first [] e k = absurd (h (ground arith))
      first (c ∷ l) e k = (c, k c (inl refl))

  consumed_at :
      (v : Refs) (ref : String) (x : Set)
      → All (λ e. len e.1 ≢ 0) v
      → lookup ref v ≡ some x
      → len x ≢ 0
  unfolding lookup
  consumed_at [] ref x a h = cc
  consumed_at ((r, y) ∷ v) ref x a h = elim (Bool-cases (r == ref)) [
    | inl same ↦ λ e. a.0 (ground arith)
    | inr other ↦ consumed_at v ref x a.1 (ground arith)
  ]

  -- `Has` answers true exactly for the objects that some consumer refers to.
  pub has_iff :
      (v : Refs) (ref : String)
      → IsValid sets v
      → (ObjectRefs.has sets v ref ≡ true) ↔ ((c : String) × (refers sets v ref c ≡ true))
  unfolding ObjectRefs.has refers
  has_iff v ref h = elim (Option-cases (lookup ref v)) [
    | inl missed ↦ (λ e. absurd (ground arith), λ w. absurd (ground arith))
    | inr (x, hit) ↦ (
      λ _. let (c, m) = member_of_set x (consumed_at v ref x h.consumed hit) in (c, ground arith),
      λ _. ground arith,
    )
  ]

  -- `Reference` lists exactly the consumers that refer to the object.
  pub In-reference :
      (v : Refs) (ref c : String)
      → In c (ObjectRefs.reference sets v ref) ↔ (refers sets v ref c ≡ true)
  unfolding ObjectRefs.reference refers
  In-reference v ref c = elim (Option-cases (lookup ref v)) [
    | inl missed ↦
        (λ m. absurd (rw (missed, ObjectRefs.reference) at m), λ e. absurd (ground arith))
    | inr (x, hit) ↦ (
      λ m. rw (hit, refers) ((sets.in-list x c).0 (rw (hit, ObjectRefs.reference) at m)),
      λ e. rw (hit, ObjectRefs.reference) ((sets.in-list x c).1 (rw (hit, refers) at e)),
    )
  ]

  -- `ReferencedBy` lists exactly the objects that the consumer refers to.
  pub In-referenced_by :
      (v : Refs) (consumer ref : String)
      → distinct_keys v ≡ true
      → In ref (ObjectRefs.referenced_by sets v consumer) ↔ (refers sets v ref consumer ≡ true)
  unfolding ObjectRefs.referenced_by refers lookup distinct_keys
  In-referenced_by [] consumer ref h = (λ m. absurd m, λ e. cc)
  In-referenced_by ((r, x) ∷ v) consumer ref h = elim (Bool-cases (sets.has x consumer)) [
    | inl here ↦ rw here (ground (arith, ==_iff r ref, In-referenced_by v consumer ref))
    | inr away ↦ rw away (ground (arith, ==_iff r ref, In-referenced_by v consumer ref))
  ]

  -- `HasConsumer` answers true exactly if `ReferencedBy` lists something.
  pub has_consumer_iff :
      (v : Refs) (consumer : String)
      → (ObjectRefs.has_consumer sets v consumer ≡ true)
        ↔ (ObjectRefs.referenced_by sets v consumer ≢ [])
  unfolding ObjectRefs.has_consumer ObjectRefs.referenced_by
  has_consumer_iff [] consumer = ground arith
  has_consumer_iff ((r, x) ∷ v) consumer = ground (arith, has_consumer_iff v consumer)
