-- ===== src/Controller/Locations.antt =====
-- internal/ingress/controller/location.go: the location blocks of one server. The code changes the
-- locations that the slice points to in place; the slice holds no pointer twice, so the model goes
-- by value. `none` is the panic at a location without a path type.
pub mod Exact
pub mod Slashes
use panda_k8s.Api.Servers.{Location}
use panda_k8s.Kube.{PathType, exact, prefix, path_type_eq}
use panda_k8s.Prelude.{
  ◌>>=◌, String, text_append, ◌++◌, Bool, true, false, not, ◌&&◌, ◌||◌, ◌==◌, List, [], ◌∷◌, Option,
  none, some, any, is_empty, ends_in_slash, if◌then◌else◌,
}

abbrev pub root_location : String
root_location = "/"

-- `normalizePrefixPath`
unfoldable pub normalize_prefix_path : String → String
normalize_prefix_path path =
    if path == root_location
    then root_location
    else if not (ends_in_slash path)
    then text_append path "/"
    else path

-- `needsRewrite`
unfoldable pub needs_rewrite : Location → Bool
needs_rewrite l = not (is_empty l.rewrite.target) && not (l.rewrite.target == l.path)

-- the keys of `exactLocations`
unfoldable pub exact_locations : List Location → Option (List String)
exact_locations [] = some []
exact_locations (l ∷ ls) = do
  path_type ← l.path_type
  paths ← exact_locations ls
  some (if path_type_eq path_type exact then l.path ∷ paths else paths)

-- what one round of the loop appends
unfoldable pub update_location : List String → PathType → Location → List Location
unfolding normalize_prefix_path needs_rewrite
update_location exacts path_type l =
    if l.path == root_location
    then l ∷ []
    else let l' = record l { ingress_path = l.path } in
      if not (path_type_eq path_type prefix)
      then l' ∷ []
      else if needs_rewrite l' || l'.rewrite.use_regex
      then l' ∷ []
      else if any (λ p. p == l'.path) exacts
      then record l' { path = normalize_prefix_path l'.path } ∷ []
      else record l' { path = normalize_prefix_path l'.path }
        ∷ record l' { path_type = some exact }
        ∷ []

unfoldable pub update_locations : List String → List Location → Option (List Location)
update_locations exacts [] = some []
update_locations exacts (l ∷ ls) = do
  path_type ← l.path_type
  rest ← update_locations exacts ls
  some (update_location exacts path_type l ++ rest)

-- `updateServerLocations`
unfoldable pub update_server_locations : List Location → Option (List Location)
unfolding exact_locations update_locations
update_server_locations ls = do exacts ← exact_locations ls; update_locations exacts ls
