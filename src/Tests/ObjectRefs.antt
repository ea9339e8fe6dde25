-- ===== src/Tests/ObjectRefs.antt =====
-- The reference map over sets kept as lists.
use panda_k8s.ObjectRefs
use panda_k8s.ObjectRefs.Relation.{IsValid}
use panda_k8s.ObjectRefs.Runs.{
  Operation, run, Represents, meaning_of, nothing_refers, run-Represents,
}
use panda_k8s.Prelude.{◌≡◌, refl, List, [], ◌∷◌}
use panda_k8s.StringSets.{list_sets}

-- two Ingresses, one with a secret of its own and both with a shared one
abbrev two : ObjectRefs.Refs list_sets
two = ("default/own", "ns/a" ∷ []) ∷ ("default/shared", "ns/b" ∷ "ns/a" ∷ []) ∷ []

insert_run :
    ObjectRefs.insert list_sets
      (ObjectRefs.insert list_sets [] "ns/a" ("default/own" ∷ "default/shared" ∷ []))
      "ns/b"
      ("default/shared" ∷ [])
    ≡ two
unfolding ObjectRefs.insert ObjectRefs.add_consumer
insert_run = refl

delete_run : ObjectRefs.delete list_sets two "ns/a" ≡ ("default/shared", "ns/b" ∷ []) ∷ []
unfolding ObjectRefs.delete
delete_run = refl

abbrev calls : List Operation
calls =
    Operation.inserted "ns/a" ("default/own" ∷ "default/shared" ∷ [])
    ∷ Operation.inserted "ns/b" ("default/shared" ∷ [])
    ∷ Operation.deleted "ns/a"
    ∷ []

calls_run : run list_sets [] calls ≡ ("default/shared", "ns/b" ∷ []) ∷ []
unfolding ObjectRefs.insert ObjectRefs.add_consumer ObjectRefs.delete
calls_run = refl

run-Represents_example :
    IsValid list_sets (run list_sets [] calls)
    × Represents list_sets (run list_sets [] calls) (meaning_of nothing_refers calls)
run-Represents_example = run-Represents list_sets calls
