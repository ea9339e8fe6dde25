-- ===== src/Controller/BackendServers/Duplicates.antt =====
-- When a path gets a second location.
use Prim.Native.Nat.{◌+◌}
use panda_k8s.Annotations.Parsed.{ParsedAnnotations}
use panda_k8s.Api.Backends.{Backend}
use panda_k8s.Api.Ingresses.{HttpIngressPath}
use panda_k8s.Api.Servers.{Location}
use panda_k8s.Controller.Places.{same_type, nginx_path, find_place, new_location, place_path}
use panda_k8s.Controller.BackendServers.Paths.{same_type_refl}
use panda_k8s.Controller.Drafts.{location_apply_annotations}
use panda_k8s.Kube.{PathType}
use panda_k8s.Prelude.{
  ℕ, String, false, ◌&&◌, ◌==◌, ==_iff, ◌≡◌, refl, ap, List, [], ◌∷◌, ◌++◌, Option, if◌then◌else◌,
  arith,
}

-- how many locations have the path and the type
unfoldable pub count_path : String → Option PathType → List Location → ℕ
count_path path type [] = 0
count_path path type (l ∷ ls) =
    (if l.path == path && same_type l.path_type type then 1 else 0) + count_path path type ls

count_path-append :
    (path : String) (type : Option PathType) (ls ms : List Location)
    → count_path path type (ls ++ ms) ≡ count_path path type ls + count_path path type ms
unfolding count_path
count_path-append path type [] ms = omega arith
count_path-append path type (l ∷ ls) ms = omega (arith, count_path-append path type ls ms)

-- If the first location of the server has the path with another type, the path gets a new location,
-- even if there is one with its path and its type behind the first: that one is there once more.
pub place_path_duplicate :
    (n : ℕ) (anns : ParsedAnnotations) (ups : Backend) (path : HttpIngressPath) (l : Location)
    (ls : List Location)
    → l.path ≡ nginx_path path
    → same_type l.path_type path.path_type ≡ false
    → count_path (nginx_path path) path.path_type (place_path n anns ups path (l ∷ ls)).locations
      ≡ count_path (nginx_path path) path.path_type (l ∷ ls) + 1
unfolding place_path find_place count_path new_location location_apply_annotations
place_path_duplicate n anns ups path l ls h k =
    rw (added, count_path-append (nginx_path path) path.path_type (l ∷ ls) (fresh ∷ []))
      (ap (λ m. count_path (nginx_path path) path.path_type (l ∷ ls) + m) one)
  where
    fresh : Location
    fresh = new_location n anns ups path

    added : (place_path n anns ups path (l ∷ ls)).locations ≡ (l ∷ ls) ++ fresh ∷ []
    added = rw ((==_iff l.path (nginx_path path)).1 h, k, place_path) refl

    one : count_path (nginx_path path) path.path_type (fresh ∷ []) ≡ 1
    one =
        rw
          (
            count_path,
            (==_iff (nginx_path path) (nginx_path path)).1 refl,
            same_type_refl path.path_type,
          )
          refl
