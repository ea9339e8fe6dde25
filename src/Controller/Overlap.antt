-- ===== src/Controller/Overlap.antt =====
-- internal/ingress/controller/controller.go: does a new Ingress claim a host and path that another
-- one has? `none` is a panic at a nil pointer.
pub mod Verdicts
pub mod Decisions
use panda_k8s.Annotations.Parser.{get_bool_annotation, is_enabled, is_missing}
use panda_k8s.Api.Heap.{Heap}
use panda_k8s.Api.Ingresses.{Ingress, IngressRule, HttpIngressPath}
use panda_k8s.Api.Servers.{Location, Server}
use panda_k8s.Controller.Canary.{def_server_name}
use panda_k8s.Controller.Locations.{root_location}
use panda_k8s.Pointers.{Ptr, load}
use panda_k8s.Prelude.{
  String, Bool, true, false, not, ◌&&◌, ◌||◌, ◌==◌, List, [], ◌∷◌, ◌++◌, Option, none, some, any,
  ◌>>=◌, if◌then◌else◌,
}
use panda_k8s.Sets.Slices.{elems}

-- what a path leads to: the next path, or the end of the whole check
pub data Verdict : Type 0 where
  next accepted rejected : Verdict

module _ (heap : Heap) where
  -- the loop of `ingressForHostPath` over the locations of a server
  unfoldable pub ingresses_at : String → List (Ptr Location) → Option (List Ingress)
  ingresses_at path [] = some []
  ingresses_at path (p ∷ ps) = do
    loc ← load heap.location p
    rest ← ingresses_at path ps
    if not (loc.path == path)
        then some rest
        else if loc.is_def_backend
        then some rest
        else load heap.ingress loc.ingress >>= (λ ing. some (ing ∷ rest))

  -- `ingressForHostPath`
  unfoldable pub ingress_for_host_path : String → String → List (Ptr Server) → Option (List Ingress)
  unfolding ingresses_at
  ingress_for_host_path hostname path [] = some []
  ingress_for_host_path hostname path (p ∷ ps) = do
    server ← load heap.server p
    rest ← ingress_for_host_path hostname path ps
    if not (hostname == server.hostname)
        then some rest
        else ingresses_at path (elems server.locations) >>= (λ here. some (here ++ rest))

  module _ (prefix : String) (ing : Ingress) (servers : List (Ptr Server)) where
    abbrev pub is_same_ingress : Ingress → Bool
    is_same_ingress e = e.namespace == ing.namespace && e.name == ing.name

    -- both are canaries, or neither has the annotation
    unfoldable pub conflicts : Ingress → Bool
    conflicts e =
        let mine = get_bool_annotation prefix "canary" ing.annotations in
        let other = get_bool_annotation prefix "canary" e.annotations in
        is_enabled mine && is_enabled other || is_missing mine && is_missing other

    -- from the Ingresses found at a path to the verdict
    unfoldable pub judge : List Ingress → Verdict
    unfolding conflicts
    judge [] = Verdict.next
    judge (e ∷ es) =
        if any is_same_ingress (e ∷ es)
        then Verdict.accepted
        else if any conflicts (e ∷ es)
        then Verdict.rejected
        else Verdict.accepted

    unfoldable pub check_path : String → HttpIngressPath → Option Verdict
    unfolding judge ingress_for_host_path
    check_path host path = elim path.service [
      | none ↦ some Verdict.next
      | some service ↦ do
        existing ←
            ingress_for_host_path host (if path.path == "" then root_location else path.path)
              servers
        some (judge existing)
    ]

    unfoldable pub check_paths : String → List HttpIngressPath → Option Verdict
    unfolding check_path
    check_paths host [] = some Verdict.next
    check_paths host (p ∷ ps) = check_path host p >>= (λ v. elim v [
      | Verdict.next ↦ check_paths host ps
      | Verdict.accepted ↦ some Verdict.accepted
      | Verdict.rejected ↦ some Verdict.rejected
    ])

    unfoldable pub check_rules : List IngressRule → Option Verdict
    unfolding check_paths
    check_rules [] = some Verdict.accepted
    check_rules (rule ∷ rules) = elim rule.http [
      | none ↦ check_rules rules
      | some paths ↦
          check_paths (if rule.host == "" then def_server_name else rule.host) paths >>= (λ v.
            elim v [
              | Verdict.next ↦ check_rules rules
              | Verdict.accepted ↦ some Verdict.accepted
              | Verdict.rejected ↦ some Verdict.rejected
            ])
    ]

    -- `checkOverlap`
    unfoldable pub check_overlap : Option Verdict
    unfolding check_rules
    check_overlap = check_rules ing.rules
