-- ===== src/Controller/Places.antt =====
-- internal/ingress/controller/controller.go: where a path of a rule goes among the locations of its
-- server (`getBackendServers`).
use panda_k8s.Annotations.Parsed.{ParsedAnnotations}
use panda_k8s.Api.Backends.{Backend}
use panda_k8s.Api.Ingresses.{HttpIngressPath}
use panda_k8s.Api.Servers.{Location}
use panda_k8s.Api.Zero.{no_location}
use panda_k8s.Controller.Drafts.{location_apply_annotations}
use panda_k8s.Controller.Locations.{root_location}
use panda_k8s.Kube.{PathType, path_type_eq}
use panda_k8s.Pointers.{at}
use panda_k8s.Prelude.{
  ℕ, String, Bool, true, false, not, ◌==◌, List, [], ◌∷◌, ◌++◌, Option, none, some, if◌then◌else◌,
}

-- `DeepEqual` of two path types
abbrev pub same_type : Option PathType → Option PathType → Bool
same_type none none = true
same_type (some a) (some b) = path_type_eq a b
same_type _ _ = false

-- `nginxPath`
abbrev pub nginx_path : HttpIngressPath → String
nginx_path path = if path.path == "" then root_location else path.path

-- the locations, and whether `FromToWWW` is set at the one that the path got
pub record Placement : Type 0 where
  pub locations : List Location
  pub from_to_www : Bool

-- a location before the others
abbrev pub before_all : Location → Option Placement → Option Placement
before_all loc none = none
before_all loc (some p) =
    some (record { locations = loc ∷ p.locations; from_to_www = p.from_to_www })

-- The loop over the locations: it stops at the first with the path. `none` is a new location to add.
unfoldable pub find_place :
    String → Option PathType → (Location → Location) → List Location → Option Placement
find_place path type take [] = none
find_place path type take (loc ∷ rest) =
    let later = find_place path type take rest in
    if not (loc.path == path)
    then before_all loc later
    else if not (same_type loc.path_type type)
    then none
    else if not loc.is_def_backend
    then some (record { locations = loc ∷ rest; from_to_www = false })
    else some
        (record { locations = take loc ∷ rest; from_to_www = (take loc).redirect.from_to_www })

-- a location that the default backend had
unfoldable pub take_over : ℕ → ParsedAnnotations → Backend → Location → Location
unfolding location_apply_annotations
take_over n anns ups loc =
    location_apply_annotations
      (record loc {
        backend = ups.name;
        is_def_backend = false;
        port = ups.port;
        service = ups.service;
        ingress = at n;
      })
      anns

-- a new location
unfoldable pub new_location : ℕ → ParsedAnnotations → Backend → HttpIngressPath → Location
unfolding location_apply_annotations
new_location n anns ups path =
    location_apply_annotations
      (record no_location {
        path = nginx_path path;
        path_type = path.path_type;
        backend = ups.name;
        is_def_backend = false;
        service = ups.service;
        port = ups.port;
        ingress = at n;
      })
      anns

-- the locations of the server once the path has one
unfoldable pub place_path :
    ℕ → ParsedAnnotations → Backend → HttpIngressPath → List Location → Placement
unfolding find_place take_over new_location
place_path n anns ups path locations =
    elim (find_place (nginx_path path) path.path_type (take_over n anns ups) locations) [
      | some p ↦ p
      | none ↦ record {
        locations = locations ++ new_location n anns ups path ∷ [];
        from_to_www = (new_location n anns ups path).redirect.from_to_www;
      }
    ]
