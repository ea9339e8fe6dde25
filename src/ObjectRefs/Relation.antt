-- ===== src/ObjectRefs/Relation.antt =====
-- The map of objectref.go holds a relation between references and consumers, and its methods are
-- the operations on that relation.
use panda_k8s.ObjectRefs
use panda_k8s.Prelude.{
  String, Bool, true, false, not, ◌&&◌, ◌||◌, ◌==◌, ==_iff, ◌≡◌, refl, ◌≢◌, inl, inr, List, [], ◌∷◌,
  In, none, some, lookup, store, distinct_keys, lookup-store, store-distinct_keys, length, any, All,
  arith, nat_eq, nat_eq_iff, ◌∙◌, Bool-cases, Option-cases,
}
use panda_k8s.StringSets.{StringSets}

module _ (sets : StringSets) where
  open sets use {Set, new_string, len}

  abbrev Refs : Type 0
  Refs = ObjectRefs.Refs sets

  -- The relation: does the consumer refer to the object?
  unfoldable pub refers : Refs → String → String → Bool
  unfolding lookup
  refers v ref consumer = elim (lookup ref v) [
    | none ↦ false
    | some consumers ↦ sets.has consumers consumer
  ]

  -- no reference is there twice, and none without a consumer
  pub record IsValid (v : Refs) : Type 0 where
    pub keys : distinct_keys v ≡ true
    pub consumed : All (λ e. len e.1 ≢ 0) v

  add_consumer-refers :
      (v : Refs) (consumer r ref c : String)
      → refers (ObjectRefs.add_consumer sets v consumer r) ref c
        ≡ (r == ref && consumer == c || refers v ref c)
  unfolding ObjectRefs.add_consumer refers
  add_consumer-refers v consumer r ref c = elim (Option-cases (lookup r v)) [
    | inl new ↦ ground (
      arith,
      ==_iff r ref,
      lookup-store r ref (new_string consumer) v,
      sets.has-new_string consumer c,
    )
    | inr (s, old) ↦ ground (
      arith,
      ==_iff r ref,
      lookup-store r ref (sets.insert s consumer) v,
      sets.has-insert s consumer c,
    )
  ]

  -- `Insert` adds exactly the pairs of the consumer with the given references.
  pub insert-refers :
      (refs : List String) (v : Refs) (consumer ref c : String)
      → refers (ObjectRefs.insert sets v consumer refs) ref c
        ≡ (any (λ r. r == ref) refs && consumer == c || refers v ref c)
  unfolding ObjectRefs.insert
  insert-refers [] v consumer ref c = refl
  insert-refers (r ∷ refs) v consumer ref c = ground (
    arith,
    insert-refers refs (ObjectRefs.add_consumer sets v consumer r) consumer ref c,
    add_consumer-refers v consumer r ref c,
  )

  lost : (x : Set) (c : String) → len x ≡ 0 → sets.has x c ≡ false
  lost x c h = elim (Bool-cases (sets.has x c)) [
    | inl found ↦ absurd (nobody (sets.list x) (sets.length-list x) ((sets.in-list x c).1 found))
    | inr missed ↦ missed
  ]
    where
      nobody : (l : List String) → length l ≡ len x → ¬ In c l
      nobody [] e m = m
      nobody (y ∷ l) e m = omega arith

  delete_misses :
      (v : Refs) (consumer ref : String)
      → lookup ref v ≡ none
      → lookup ref (ObjectRefs.delete sets v consumer) ≡ none
  unfolding lookup ObjectRefs.delete
  delete_misses [] consumer ref h = refl
  delete_misses ((r, x) ∷ v) consumer ref h = ground (arith, delete_misses v consumer ref)

  -- `Delete` takes away exactly the pairs of the consumer.
  pub delete-refers :
      (v : Refs) (consumer ref c : String)
      → distinct_keys v ≡ true
      → refers (ObjectRefs.delete sets v consumer) ref c ≡ (not (consumer == c) && refers v ref c)
  unfolding ObjectRefs.delete refers distinct_keys lookup
  delete-refers [] consumer ref c h = ground arith
  delete-refers ((r, x) ∷ v) consumer ref c h = ground (
    arith,
    ==_iff r ref,
    sets.has-delete x consumer c,
    lost (sets.delete x consumer) c,
    delete-refers v consumer ref c,
    delete_misses v consumer r,
  )

  -- a set with a member is not empty
  some_of_has : (x : Set) (c : String) → sets.has x c ≡ true → len x ≢ 0
  some_of_has x c h e = cc (lost x c e)

  All-store :
      (r : String) (x : Set) (v : Refs)
      → len x ≢ 0
      → All (λ e. len e.1 ≢ 0) v
      → All (λ e. len e.1 ≢ 0) (store r x v)
  unfolding store
  All-store r x [] h a = (h, tt)
  All-store r x ((k, y) ∷ v) h a = elim (Bool-cases (k == r)) [
    | inl same ↦ rw same (h, a.1)
    | inr other ↦ rw other (a.0, All-store r x v h a.1)
  ]

  add_consumer-IsValid :
      (v : Refs) (consumer r : String)
      → IsValid v
      → IsValid (ObjectRefs.add_consumer sets v consumer r)
  unfolding ObjectRefs.add_consumer
  add_consumer-IsValid v consumer r h = elim (Option-cases (lookup r v)) [
    | inl new ↦
        rw (new, ObjectRefs.add_consumer)
          (stored (new_string consumer)
            (sets.has-new_string consumer consumer ∙ (==_iff consumer consumer).1 refl))
    | inr (s, old) ↦
        rw (old, ObjectRefs.add_consumer)
          (stored (sets.insert s consumer)
            (ground (arith, sets.has-insert s consumer consumer, ==_iff consumer consumer)))
  ]
    where
      stored : (x : Set) → sets.has x consumer ≡ true → IsValid (store r x v)
      stored x m = record {
        keys = store-distinct_keys r x v h.keys;
        consumed = All-store r x v (some_of_has x consumer m) h.consumed;
      }

  -- `Insert` keeps the invariant.
  pub insert-IsValid :
      (refs : List String) (v : Refs) (consumer : String)
      → IsValid v
      → IsValid (ObjectRefs.insert sets v consumer refs)
  unfolding ObjectRefs.insert
  insert-IsValid [] v consumer h = h
  insert-IsValid (r ∷ refs) v consumer h =
      insert-IsValid refs (ObjectRefs.add_consumer sets v consumer r) consumer
        (add_consumer-IsValid v consumer r h)

  delete-keys :
      (v : Refs) (consumer : String)
      → distinct_keys v ≡ true
      → distinct_keys (ObjectRefs.delete sets v consumer) ≡ true
  unfolding ObjectRefs.delete distinct_keys
  delete-keys [] consumer h = refl
  delete-keys ((r, x) ∷ v) consumer h =
      ground (arith, delete-keys v consumer, delete_misses v consumer r)

  delete-consumed :
      (v : Refs) (consumer : String) → All (λ e. len e.1 ≢ 0) (ObjectRefs.delete sets v consumer)
  unfolding ObjectRefs.delete
  delete-consumed [] consumer = tt
  delete-consumed ((r, x) ∷ v) consumer =
      elim (Bool-cases (nat_eq (len (sets.delete x consumer)) 0)) [
        | inl empty ↦ rw empty (delete-consumed v consumer)
        | inr left ↦ rw left (
          (λ e. cc ((nat_eq_iff (len (sets.delete x consumer)) 0).1 e)),
          delete-consumed v consumer,
        )
      ]

  -- `Delete` keeps the invariant.
  pub delete-IsValid :
      (v : Refs) (consumer : String) → IsValid v → IsValid (ObjectRefs.delete sets v consumer)
  delete-IsValid v consumer h = record {
    keys = delete-keys v consumer h.keys;
    consumed = delete-consumed v consumer;
  }
