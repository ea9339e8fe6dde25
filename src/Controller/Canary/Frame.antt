-- ===== src/Controller/Canary/Frame.antt =====
-- What the merges of canary backends leave alone.
use mathlib.Core.Path.{subst}
use panda_k8s.Api.Backends.{Backend}
use panda_k8s.Api.Heap.{Heap}
use panda_k8s.Api.Ingresses.{Ingress}
use panda_k8s.Api.Servers.{Server}
use panda_k8s.Controller.Canary.{
  Upstreams, shares_affinity, merge_alternative_backend, merge_alternative_backends,
}
use panda_k8s.Controller.Canary.Steps.{Step, Steps, merge_alternative_backends-Steps}
use panda_k8s.Prelude.{
  String, ◌==◌, ==_iff, ◌≡◌, ap, refl, ◌∙◌, inl, inr, List, some, any, lookup, store, lookup-store,
  lookup-remove, Bool-cases, some_eq, arith,
}
use panda_k8s.Sets.Slices.{elems}

-- The two backends differ in their session affinity and their alternatives at most.
abbrev pub Unchanged : Backend → Backend → Type 0
Unchanged b c =
    record b {
      session_affinity = c.session_affinity;
      alternative_backends = c.alternative_backends;
    }
    ≡ c

-- Every backend of the second map comes from the one of its key in the first.
abbrev pub Kept : Upstreams → Upstreams → Type 0
Kept u w =
    (key : String) (c : Backend)
    → lookup key w ≡ some c
    → (b : Backend) × (lookup key u ≡ some b) × Unchanged b c

module _ (ing : Ingress) where
  primary-Unchanged :
      (pri alt : Backend) → Unchanged pri (merge_alternative_backend ing pri alt).primary
  unfolding merge_alternative_backend
  primary-Unchanged pri alt = elim (Bool-cases pri.no_server) [
    | inl serverless ↦ rw serverless refl
    | inr served ↦
        rw served (elim (Bool-cases (any (λ ab. ab == alt.name) (elems pri.alternative_backends))) [
          | inl old ↦ rw old refl
          | inr new ↦ rw new refl
        ])
  ]

  alternative-Unchanged :
      (pri alt : Backend) → Unchanged alt (merge_alternative_backend ing pri alt).alternative
  unfolding merge_alternative_backend
  alternative-Unchanged pri alt = elim (Bool-cases pri.no_server) [
    | inl serverless ↦ rw serverless refl
    | inr served ↦
        rw served (elim (Bool-cases (any (λ ab. ab == alt.name) (elems pri.alternative_backends))) [
          | inl old ↦ rw old refl
          | inr new ↦ rw new (elim (Bool-cases (shares_affinity ing.parsed_annotations)) [
            | inl shared ↦ rw shared refl
            | inr legacy ↦ rw legacy refl
          ])
        ])
  ]

  -- a backend that is stored comes from the one that was read
  Kept-store :
      (u v : Upstreams) (k : String) (b c : Backend)
      → lookup k u ≡ some b
      → Unchanged b c
      → Kept u v
      → Kept u (store k c v)
  Kept-store u v k b c i e h key d m = elim (Bool-cases (k == key)) [
    | inl same ↦
        let f : k ≡ key = (==_iff k key).0 same in
        let g : c ≡ d = some_eq (rw (lookup-store k key c v, same) at m) in
        (b, subst (λ (j : String). lookup j u ≡ some b) f i, subst (Unchanged b) g e)
    | inr other ↦ h key d (rw (lookup-store k key c v, other) at m)
  ]

  Step-Kept : {u w : Upstreams} → Step ing u w → Kept u w
  Step-Kept (Step.merge u p a pri alt i j c) =
      Kept-store u (store p (merge_alternative_backend ing pri alt).primary u) a alt
        (merge_alternative_backend ing pri alt).alternative j (alternative-Unchanged pri alt)
        (Kept-store u u p pri (merge_alternative_backend ing pri alt).primary i
          (primary-Unchanged pri alt) (λ key c m. (c, m, refl)))
  Step-Kept (Step.gone u k) = λ key c m. elim (Bool-cases (k == key)) [
    | inl same ↦ absurd (ground (arith, lookup-remove k key u))
    | inr other ↦ (c, rw (lookup-remove k key u, other) at m, refl)
  ]

  Unchanged-trans : (a b c : Backend) → Unchanged a b → Unchanged b c → Unchanged a c
  Unchanged-trans a b c h k =
      ap
        (λ (x : Backend). record x {
          session_affinity = c.session_affinity;
          alternative_backends = c.alternative_backends;
        })
        h
      ∙ k

  Steps-Kept : {u w : Upstreams} → Steps ing u w → Kept u w
  Steps-Kept Steps.here key c m = (c, m, refl)
  Steps-Kept (Steps.next s k) key c m =
      let (b, i, e) = Steps-Kept k key c m in
      let (a, j, f) = Step-Kept s key b i in (a, j, Unchanged-trans a b c f e)

  -- Every backend that is in the map after `mergeAlternativeBackends` was there before under the
  -- same key, with the same name, service, port, endpoints and all else except its session affinity
  -- and its alternatives.
  pub merge_alternative_backends-Unchanged :
      (heap : Heap) (servers : List (String × Server)) (u w : Upstreams) (key : String)
      (c : Backend)
      → merge_alternative_backends heap ing servers u ≡ some w
      → lookup key w ≡ some c
      → (b : Backend) × (lookup key u ≡ some b) × Unchanged b c
  merge_alternative_backends-Unchanged heap servers u w key c h i =
      Steps-Kept (merge_alternative_backends-Steps ing heap servers u w h) key c i
