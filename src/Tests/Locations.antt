-- ===== src/Tests/Locations.antt =====
-- `updateServerLocations` on the locations of one server.
use panda_k8s.Api.Servers.{Location}
use panda_k8s.Controller.Locations.{update_server_locations, update_location, needs_rewrite}
use panda_k8s.Controller.Locations.Exact.{
  is_extended, count_type, count_extended, count-update_server_locations,
}
use panda_k8s.Kube.{PathType, exact, prefix}
use panda_k8s.Prelude.{none, String, true, ◌≡◌, refl, List, [], ◌∷◌, some, nat_eq, if◌then◌else◌}
use panda_k8s.Api.Zero.{no_location}

abbrev at_path : String → PathType → Location
at_path p t = record no_location { path = p; path_type = some t }

abbrev updated : String → PathType → String → Location
updated p t q = record no_location { path = p; path_type = some t; ingress_path = q }

-- the root, a Prefix location with an Exact one of its path, and one without
abbrev three : List Location
three = at_path "/" prefix ∷ at_path "/a" prefix ∷ at_path "/a" exact ∷ at_path "/b" prefix ∷ []

abbrev three_updated : List Location
three_updated =
    at_path "/" prefix
    ∷ updated "/a/" prefix "/a"
    ∷ updated "/a" exact "/a"
    ∷ updated "/b/" prefix "/b"
    ∷ updated "/b" exact "/b"
    ∷ []

three_run : update_server_locations three ≡ some three_updated
unfolding update_server_locations update_location
three_run = refl

-- a location without a path type panics
untyped_run : update_server_locations (no_location ∷ []) ≡ none
unfolding update_server_locations
untyped_run = refl

count-update_server_locations_example : count_type exact "/b" three_updated ≡ (
    if nat_eq (count_type exact "/b" three) 0
    then count_extended "/b" three
    else count_type exact "/b" three)
count-update_server_locations_example =
    count-update_server_locations three three_updated "/b" three_run

abbrev twins_updated : List Location
twins_updated =
    updated "/a/" prefix "/a"
    ∷ updated "/a" exact "/a"
    ∷ updated "/a/" prefix "/a/"
    ∷ updated "/a/" exact "/a/"
    ∷ []

twins_run :
    update_server_locations (at_path "/a" prefix ∷ at_path "/a/" prefix ∷ []) ≡ some twins_updated
unfolding update_server_locations update_location
twins_run = refl

first-extended : is_extended (at_path "/a" prefix) ≡ true
unfolding needs_rewrite
first-extended = refl

second-extended : is_extended (at_path "/a/" prefix) ≡ true
unfolding needs_rewrite
second-extended = refl
