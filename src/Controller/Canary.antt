-- ===== src/Controller/Canary.antt =====
-- internal/ingress/controller/controller.go: how the backends of canary Ingresses join the primary
-- backends that their locations use. The map of upstreams holds each backend once, under its name,
-- so that the model goes by value. `none` is a panic: a nil pointer that the code follows.
pub mod Steps
pub mod Invariant
pub mod Frame
pub mod Removal
pub mod Total
use panda_k8s.Annotations.Parsed.{ParsedAnnotations}
use panda_k8s.Api.Backends.{Backend}
use panda_k8s.Api.Heap.{Heap}
use panda_k8s.Api.Ingresses.{Ingress, IngressRule, HttpIngressPath, IngressBackend}
use panda_k8s.Api.Servers.{Location, Server}
use panda_k8s.Controller.Upstreams.{upstream_name}
use panda_k8s.Kube.{path_type_eq}
use panda_k8s.Pointers.{Ptr, nil, at}
use panda_k8s.Prelude.{
  String, Bool, true, false, not, ◌&&◌, ◌==◌, List, [], ◌∷◌, ◌++◌, Option, none, some, any, lookup,
  store, remove, ◌>>=◌, if◌then◌else◌,
}
use panda_k8s.Sets.Slices.{made, elems}

abbrev pub def_upstream_name : String
def_upstream_name = "upstream-default-backend"

abbrev pub def_server_name : String
def_server_name = "_"

abbrev pub Upstreams : Type 0
Upstreams = List (String × Backend)

-- `canMergeBackend`
unfoldable pub can_merge_backend : Backend → Option Backend → Bool
can_merge_backend primary none = false
can_merge_backend primary (some alternative) =
    not (primary.name == alternative.name)
    && not (primary.name == def_upstream_name)
    && not primary.no_server

-- the annotations are there, and do not ask for the legacy behaviour
abbrev pub shares_affinity : Option ParsedAnnotations → Bool
shares_affinity none = false
shares_affinity (some a) = not (a.session_affinity.canary_behavior == "legacy")

-- What `mergeAlternativeBackend` answers, and the two backends after it.
pub record Merge : Type 0 where
  pub merged : Bool
  pub primary : Backend
  pub alternative : Backend

unfoldable pub merge_alternative_backend : Ingress → Backend → Backend → Merge
merge_alternative_backend ing pri_ups alt_ups =
    if pri_ups.no_server
    then record { merged = false; primary = pri_ups; alternative = alt_ups }
    else if any (λ ab. ab == alt_ups.name) (elems pri_ups.alternative_backends)
    then record { merged = true; primary = pri_ups; alternative = alt_ups }
    else record {
      merged = true;
      primary = record pri_ups {
        alternative_backends = made (elems pri_ups.alternative_backends ++ alt_ups.name ∷ []);
      };
      alternative =
          if shares_affinity ing.parsed_annotations
          then record alt_ups { session_affinity = pri_ups.session_affinity }
          else alt_ups;
    }

-- the upstreams after some rounds of a loop over locations, with `merged` and `altEqualsPri`
pub record Progress : Type 0 where
  pub upstreams : Upstreams
  pub merged : Bool
  pub alt_equals_pri : Bool

module _ (heap : Heap) where
  -- the location that a pointer points to
  abbrev pub load_location : Ptr Location → Option Location
  load_location nil = none
  load_location (at n) = some (heap.location n)

  module _ (ing : Ingress) (ups_name : String) (matches : Location → Option Bool) where
    -- one round: the upstreams and `merged` after it
    unfoldable pub merge_round : Location → Backend → Backend → Upstreams → Bool → Option Progress
    unfolding can_merge_backend merge_alternative_backend
    merge_round loc pri_ups alt_ups upstreams merged = do
      chosen ← if can_merge_backend pri_ups (some alt_ups) then matches loc else some false
      let m = merge_alternative_backend ing pri_ups alt_ups in
          some (
            if chosen
            then record {
              upstreams = store ups_name m.alternative (store loc.backend m.primary upstreams);
              merged = m.merged;
              alt_equals_pri = false;
            }
            else record { upstreams = upstreams; merged = merged; alt_equals_pri = false })

    -- The loop over the locations of a server, which ends at one that uses the alternative backend.
    unfoldable pub merge_locations : List (Ptr Location) → Upstreams → Bool → Option Progress
    unfolding merge_round
    merge_locations [] upstreams merged =
        some (record { upstreams = upstreams; merged = merged; alt_equals_pri = false })
    merge_locations (p ∷ ps) upstreams merged = do
      loc ← load_location p
      alt_ups ← lookup ups_name upstreams
      pri_ups ← lookup loc.backend upstreams
      if alt_ups.name == pri_ups.name
          then some (record { upstreams = upstreams; merged = merged; alt_equals_pri = true })
          else merge_round loc pri_ups alt_ups upstreams merged
            >>= (λ next. merge_locations ps next.upstreams next.merged)

  -- The code after the loop: an alternative backend that found no primary goes.
  unfoldable pub finish_merge : Backend → Progress → Upstreams
  finish_merge alt_ups p =
      if not p.alt_equals_pri && not p.merged then remove alt_ups.name p.upstreams else p.upstreams

  -- `loc.Path == path.Path && *loc.PathType == *path.PathType`
  unfoldable pub matches_path : HttpIngressPath → Location → Option Bool
  matches_path path loc = if not (loc.path == path.path) then some false else do
    loc_type ← loc.path_type
    path_type ← path.path_type
    some (path_type_eq loc_type path_type)

  module _ (ing : Ingress) (servers : List (String × Server)) where
    -- the merge of the catch-all backend
    unfoldable pub merge_default : IngressBackend → Upstreams → Option Upstreams
    unfolding merge_locations finish_merge
    merge_default backend upstreams =
        let ups_name = upstream_name ing.namespace backend.service in
        elim (lookup ups_name upstreams) [
          | none ↦ some upstreams
          | some alt_ups ↦ do
            server ← lookup def_server_name servers
            end ←
                merge_locations ing ups_name (λ loc. some true) (elems server.locations) upstreams
                  false
            some (finish_merge alt_ups end)
        ]

    -- the body of the loop over the paths of a rule
    unfoldable pub merge_path : String → HttpIngressPath → Upstreams → Option Upstreams
    unfolding merge_locations finish_merge matches_path
    merge_path host path upstreams = elim path.service [
      | none ↦ some upstreams
      | some service ↦
          let ups_name = upstream_name ing.namespace (some service) in
          elim (lookup ups_name upstreams) [
            | none ↦ some upstreams
            | some alt_ups ↦ elim (lookup host servers) [
              | none ↦ some upstreams
              | some server ↦ do
                end ←
                    merge_locations ing ups_name (matches_path path) (elems server.locations)
                      upstreams false
                some (finish_merge alt_ups end)
            ]
          ]
    ]

    unfoldable pub merge_paths : String → List HttpIngressPath → Upstreams → Option Upstreams
    unfolding merge_path
    merge_paths host [] upstreams = some upstreams
    merge_paths host (p ∷ ps) upstreams = merge_path host p upstreams >>= merge_paths host ps

    unfoldable pub merge_rules : List IngressRule → Upstreams → Option Upstreams
    unfolding merge_paths
    merge_rules [] upstreams = some upstreams
    merge_rules (rule ∷ rules) upstreams = do
      paths ← rule.http
      next ← merge_paths (if rule.host == "" then def_server_name else rule.host) paths upstreams
      merge_rules rules next

    -- `mergeAlternativeBackends`
    unfoldable pub merge_alternative_backends : Upstreams → Option Upstreams
    unfolding merge_default merge_rules
    merge_alternative_backends upstreams =
        elim ing.default_backend [
          | none ↦ some upstreams
          | some backend ↦ merge_default backend upstreams
        ]
        >>= merge_rules ing.rules
