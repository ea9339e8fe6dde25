-- ===== src/Controller/BackendServers/Order.antt =====
-- The order of the locations of a server.
use panda_k8s.Api.Servers.{Location}
use panda_k8s.Controller.BackendServers.{by_path, by_length, sort_locations}
use panda_k8s.Prelude.{
  ◌↔◌, ◌≡◌, true, false, List, In, sort, IsSorted, In-sort, sort-IsSorted, then_by, sort-lex,
  text_lt_asymmetric, text_lt_transitive, arith,
}

by_length_asymmetric : (a b : Location) → by_length a b ≡ true → by_length b a ≡ false
by_length_asymmetric a b h = ground arith

by_length_transitive :
    (a b c : Location) → by_length b a ≡ false → by_length c b ≡ false → by_length c a ≡ false
by_length_transitive a b c h k = ground arith

-- Locations with longer paths come first, and of those with paths of one length the ones whose
-- paths are greater; nothing is lost or added.
pub sort_locations-IsSorted :
    (ls : List Location)
    → IsSorted (then_by by_length by_path) (sort_locations ls)
      × ((l : Location) → In l (sort_locations ls) ↔ In l ls)
unfolding sort_locations
sort_locations-IsSorted ls = (
  sort-lex by_length by_path by_length_asymmetric by_length_transitive (sort by_path ls) (
      sort-IsSorted by_path (λ a b. text_lt_asymmetric b.path a.path)
        (λ a b c h k. text_lt_transitive c.path b.path a.path k h) ls),
  λ l. (
    λ h. (In-sort by_path l ls).0 ((In-sort by_length l (sort by_path ls)).0 h),
    λ h. (In-sort by_length l (sort by_path ls)).1 ((In-sort by_path l ls).1 h),
  ),
)
