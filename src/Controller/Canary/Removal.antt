-- ===== src/Controller/Canary/Removal.antt =====
-- When a canary path removes its backend from the upstreams.
use panda_k8s.Api.Backends.{Backend}
use panda_k8s.Api.Heap.{Heap}
use panda_k8s.Api.Ingresses.{Ingress, HttpIngressPath, ServiceBackend}
use panda_k8s.Api.Servers.{Location, Server}
use panda_k8s.Controller.Canary.{
  Upstreams, can_merge_backend, load_location, merge_round, merge_locations, matches_path,
  finish_merge, merge_path,
}
use panda_k8s.Controller.Upstreams.{upstream_name}
use panda_k8s.Pointers.{Ptr}
use panda_k8s.Prelude.{
  String, false, ◌==◌, ◌≡◌, refl, inl, inr, List, [], ◌∷◌, some, All, lookup, remove, Bool-cases,
}
use panda_k8s.Sets.Slices.{elems}

module _ (heap : Heap) (ing : Ingress) (path : HttpIngressPath) (alt : Backend)
    (u : Upstreams) where
  -- The pointer leads to a location of another path, and to its backend, which is not the
  -- alternative one.
  abbrev pub Passes : Ptr Location → Type 0
  Passes p =
      (loc : Location) × (pri : Backend) × (load_location heap p ≡ some loc)
      × (lookup loc.backend u ≡ some pri)
      × ((alt.name == pri.name) ≡ false)
      × ((loc.path == path.path) ≡ false)

  merge_locations_pass :
      (ups_name : String) (ps : List (Ptr Location))
      → lookup ups_name u ≡ some alt
      → All Passes ps
      → merge_locations heap ing ups_name (matches_path heap path) ps u false
        ≡ some (record { upstreams = u; merged = false; alt_equals_pri = false })
  unfolding merge_locations merge_round matches_path
  merge_locations_pass ups_name [] i a = refl
  merge_locations_pass ups_name (p ∷ ps) i ((loc, pri, l, j, n, m), a) = rw l (
      rw i (
        rw j (
          rw n (elim (Bool-cases (can_merge_backend pri (some alt))) [
            | inl fit ↦ rw fit (rw m (merge_locations_pass ups_name ps i a))
            | inr unfit ↦ rw unfit (merge_locations_pass ups_name ps i a)
          ]))))

  -- If the backend of a canary path is there, and every location of the server of its host has
  -- another path and a backend of another name, the backend is removed from the upstreams and
  -- nothing else changes, also if another path of the same Ingress has merged the backend before.
  pub merge_path_unmatched :
      (servers : List (String × Server)) (host : String) (service : ServiceBackend)
      (server : Server)
      → path.service ≡ some service
      → lookup (upstream_name ing.namespace (some service)) u ≡ some alt
      → lookup host servers ≡ some server
      → All Passes (elems server.locations)
      → merge_path heap ing servers host path u ≡ some (remove alt.name u)
  unfolding merge_path finish_merge
  merge_path_unmatched servers host service server s i k a = simp (
    s,
    i,
    k,
    merge_locations_pass (upstream_name ing.namespace (some service)) (elems server.locations) i a,
    merge_path,
  )
