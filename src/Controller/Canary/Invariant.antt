-- ===== src/Controller/Canary/Invariant.antt =====
-- What the merges of canary backends keep.
use panda_k8s.Api.Backends.{Backend}
use panda_k8s.Api.Heap.{Heap}
use panda_k8s.Api.Ingresses.{Ingress}
use panda_k8s.Api.Servers.{Server}
use panda_k8s.Controller.Canary.{
  Upstreams, can_merge_backend, shares_affinity, merge_alternative_backend,
  merge_alternative_backends,
}
use panda_k8s.Controller.Canary.Steps.{Step, Steps, merge_alternative_backends-Steps}
use panda_k8s.Equality.{distinct, distinct-append_one}
use panda_k8s.Prelude.{
  String, true, false, ◌==◌, ==_iff, ◌≡◌, inl, inr, List, [], ◌∷◌, some, any, any-append, All,
  store, lookup-All, store-All, remove-All, Bool-cases, arith,
}
use panda_k8s.Sets.Slices.{elems}

-- A backend stands under its name, is not among its own alternatives, and has no alternative twice.
pub record IsFit (key : String) (b : Backend) : Type 0 where
  pub named : b.name ≡ key
  pub apart : any (λ a. a == b.name) (elems b.alternative_backends) ≡ false
  pub unique : distinct ◌==◌ (elems b.alternative_backends) ≡ true

abbrev pub IsFitAll : Upstreams → Type 0
IsFitAll u = All (λ e. IsFit e.0 e.1) u

module _ (ing : Ingress) where
  primary-IsFit :
      (key : String) (pri alt : Backend)
      → can_merge_backend pri (some alt) ≡ true
      → IsFit key pri
      → IsFit key (merge_alternative_backend ing pri alt).primary
  unfolding can_merge_backend merge_alternative_backend
  primary-IsFit key pri alt h f = elim (Bool-cases pri.no_server) [
    | inl serverless ↦ absurd (ground arith)
    | inr served ↦
        rw served (elim (Bool-cases (any (λ ab. ab == alt.name) (elems pri.alternative_backends))) [
          | inl old ↦ rw old (record { named = f.named; apart = f.apart; unique = f.unique })
          | inr new ↦ rw new (record {
            named = f.named;
            apart = ground (
              arith,
              f.apart,
              ==_iff pri.name alt.name,
              ==_iff alt.name pri.name,
              any-append (λ a. a == pri.name) (elems pri.alternative_backends) (alt.name ∷ []),
            );
            unique =
                distinct-append_one ◌==◌ (elems pri.alternative_backends) alt.name new f.unique;
          })
        ])
  ]

  alternative-IsFit :
      (key : String) (pri alt : Backend)
      → IsFit key alt
      → IsFit key (merge_alternative_backend ing pri alt).alternative
  unfolding merge_alternative_backend
  alternative-IsFit key pri alt f = elim (Bool-cases pri.no_server) [
    | inl serverless ↦ rw serverless f
    | inr served ↦
        rw served (elim (Bool-cases (any (λ ab. ab == alt.name) (elems pri.alternative_backends))) [
          | inl old ↦ rw old f
          | inr new ↦ rw new (elim (Bool-cases (shares_affinity ing.parsed_annotations)) [
            | inl shared ↦
                rw shared (record { named = f.named; apart = f.apart; unique = f.unique })
            | inr legacy ↦ rw legacy f
          ])
        ])
  ]

  Step-IsFitAll : {u w : Upstreams} → Step ing u w → IsFitAll u → IsFitAll w
  Step-IsFitAll (Step.merge u p a pri alt i j c) f =
      store-All IsFit a (merge_alternative_backend ing pri alt).alternative
        (store p (merge_alternative_backend ing pri alt).primary u)
        (store-All IsFit p (merge_alternative_backend ing pri alt).primary u f
          (primary-IsFit p pri alt c (lookup-All IsFit p pri u f i)))
        (alternative-IsFit a pri alt (lookup-All IsFit a alt u f j))
  Step-IsFitAll (Step.gone u key) f = remove-All IsFit key u f

  pub Steps-IsFitAll : {u w : Upstreams} → Steps ing u w → IsFitAll u → IsFitAll w
  Steps-IsFitAll Steps.here f = f
  Steps-IsFitAll (Steps.next s k) f = Steps-IsFitAll k (Step-IsFitAll s f)

  -- If every backend stands under its name, is not among its own alternatives and has no
  -- alternative twice, that is still so after `mergeAlternativeBackends`, if it does not panic.
  pub merge_alternative_backends-IsFitAll :
      (heap : Heap) (servers : List (String × Server)) (u w : Upstreams)
      → IsFitAll u
      → merge_alternative_backends heap ing servers u ≡ some w
      → IsFitAll w
  merge_alternative_backends-IsFitAll heap servers u w f h =
      Steps-IsFitAll (merge_alternative_backends-Steps ing heap servers u w h) f
