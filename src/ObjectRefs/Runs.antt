-- ===== src/ObjectRefs/Runs.antt =====
-- objectref.go as a relation: after any sequence of insertions and deletions the queries answer as a
-- relation between objects and consumers does, whatever the map and its sets look like.
use panda_k8s.ObjectRefs
use panda_k8s.ObjectRefs.Queries.{has_iff, In-reference, In-referenced_by, has_consumer_iff}
use panda_k8s.ObjectRefs.Relation.{
  refers, IsValid, insert-refers, insert-IsValid, delete-refers, delete-IsValid,
}
use panda_k8s.Prelude.{
  String, Bool, true, false, not, ◌&&◌, ◌||◌, ◌==◌, ◌≡◌, ◌≢◌, ◌↔◌, refl, subst, ap, ◌∙◌, List, [],
  ◌∷◌, any, In, inl, distinct_keys, lookup,
}
use panda_k8s.StringSets.{StringSets}

-- a call that changes the map
pub data Operation : Type 0 where
  inserted : String → List String → Operation
  deleted : String → Operation

-- which consumers refer to which objects
abbrev pub Relation : Type 0
Relation = String → String → Bool

abbrev pub nothing_refers : Relation
nothing_refers ref c = false

-- what a call means for the relation
abbrev pub meaning : Relation → Operation → Relation
meaning relation (Operation.inserted consumer refs) ref c =
    any (λ r. r == ref) refs && consumer == c || relation ref c
meaning relation (Operation.deleted consumer) ref c = not (consumer == c) && relation ref c

abbrev pub meaning_of : Relation → List Operation → Relation
meaning_of relation [] = relation
meaning_of relation (o ∷ os) = meaning_of (meaning relation o) os

module _ (sets : StringSets) where
  abbrev Refs : Type 0
  Refs = ObjectRefs.Refs sets

  -- the call
  abbrev pub step : Refs → Operation → Refs
  step v (Operation.inserted consumer refs) = ObjectRefs.insert sets v consumer refs
  step v (Operation.deleted consumer) = ObjectRefs.delete sets v consumer

  abbrev pub run : Refs → List Operation → Refs
  run v [] = v
  run v (o ∷ os) = run (step v o) os

  step-IsValid : (v : Refs) (o : Operation) → IsValid sets v → IsValid sets (step v o)
  step-IsValid v (Operation.inserted consumer refs) h = insert-IsValid sets refs v consumer h
  step-IsValid v (Operation.deleted consumer) h = delete-IsValid sets v consumer h

  step-meaning :
      (v : Refs) (o : Operation)
      → IsValid sets v
      → refers sets (step v o) ≡ meaning (refers sets v) o
  step-meaning v (Operation.inserted consumer refs) h =
      λ i ref c. insert-refers sets refs v consumer ref c i
  step-meaning v (Operation.deleted consumer) h =
      λ i ref c. delete-refers sets v consumer ref c h.keys i

  run-meaning :
      (v : Refs) (os : List Operation)
      → IsValid sets v
      → IsValid sets (run v os) × (refers sets (run v os) ≡ meaning_of (refers sets v) os)
  run-meaning v [] h = (h, refl)
  run-meaning v (o ∷ os) h =
      let (valid, same) = run-meaning (step v o) os (step-IsValid v o h) in
      (valid, same ∙ ap (λ r. meaning_of r os) (step-meaning v o h))

  -- Every query answers as the relation does.
  pub record Represents (v : Refs) (relation : Relation) : Type 0 where
    pub has :
        (ref : String)
        → (ObjectRefs.has sets v ref ≡ true) ↔ ((c : String) × (relation ref c ≡ true))
    pub has_consumer :
        (c : String)
        → (ObjectRefs.has_consumer sets v c ≡ true) ↔ ((ref : String) × (relation ref c ≡ true))
    pub reference :
        (ref c : String) → In c (ObjectRefs.reference sets v ref) ↔ (relation ref c ≡ true)
    pub referenced_by :
        (c ref : String) → In ref (ObjectRefs.referenced_by sets v c) ↔ (relation ref c ≡ true)

  -- a list that is not empty has an element
  something : (l : List String) → (l ≢ []) ↔ ((x : String) × In x l)
  something [] = (λ h. absurd (h refl), λ w. absurd w.1)
  something (x ∷ l) = (λ h. (x, inl refl), λ w e. cc)

  represented : (v : Refs) → IsValid sets v → Represents v (refers sets v)
  represented v h = record {
    has = λ ref. has_iff sets v ref h;
    has_consumer = λ c.
        let lists = something (ObjectRefs.referenced_by sets v c) in
        let listed = has_consumer_iff sets v c in
        (
          λ e.
              let (ref, i) = lists.0 (listed.0 e) in
              (ref, (In-referenced_by sets v c ref h.keys).0 i),
          λ (ref, e). listed.1 (lists.1 (ref, (In-referenced_by sets v c ref h.keys).1 e)),
        );
    reference = λ ref c. In-reference sets v ref c;
    referenced_by = λ c ref. In-referenced_by sets v c ref h.keys;
  }

  -- After any sequence of calls of Insert and Delete on a new map, the map has no object twice and
  -- none without a consumer, and Has, HasConsumer, Reference and ReferencedBy answer as the relation
  -- does to which an insertion adds the pairs of its consumer, and from which a deletion takes all
  -- pairs of its consumer.
  pub run-Represents :
      (os : List Operation)
      → IsValid sets (run (ObjectRefs.new_object_ref_map sets) os)
        × Represents (run (ObjectRefs.new_object_ref_map sets) os) (meaning_of nothing_refers os)
  unfolding refers lookup distinct_keys
  run-Represents os =
      let (valid, same) =
        run-meaning (ObjectRefs.new_object_ref_map sets) os
          (record { keys = refl; consumed = tt }) in
      (
        valid,
        subst (Represents (run (ObjectRefs.new_object_ref_map sets) os)) same
            (represented (run (ObjectRefs.new_object_ref_map sets) os) valid),
      )
