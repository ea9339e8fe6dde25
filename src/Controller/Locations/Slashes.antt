-- ===== src/Controller/Locations/Slashes.antt =====
-- The paths of the Prefix locations after `updateServerLocations`.
use panda_k8s.Api.Servers.{Location}
use panda_k8s.Controller.Locations.{
  root_location, normalize_prefix_path, needs_rewrite, exact_locations, update_location,
  update_locations, update_server_locations,
}
use panda_k8s.Controller.Locations.Exact.{has_type, is_extended, count_type, count_type-append}
use panda_k8s.Kube.{PathType, exact, prefix, implementation_specific}
use panda_k8s.Prelude.{
  ℕ, ◌+◌, ◌≤◌, String, text_append, ends_in_slash, ends_in_slash-append, is_empty, Bool, true,
  false, not, ◌&&◌, ◌||◌, ◌==◌, ==_iff, ◌≡◌, inl, inr, List, [], ◌∷◌, some, all, all-append, arith,
  if◌then◌else◌, Option-cases,
}

-- Is it no Prefix location, or has it a rewrite target or a regular expression, or a path that is `/`
-- or ends in a slash?
abbrev pub ends_well : Location → Bool
ends_well l =
    not (has_type prefix l && is_empty l.rewrite.target && not l.rewrite.use_regex)
    || l.path == root_location
    || ends_in_slash l.path

normalize_ends :
    (p : String) → (p == root_location) ≡ false → ends_in_slash (normalize_prefix_path p) ≡ true
unfolding normalize_prefix_path
normalize_ends p h = ground (arith, ends_in_slash-append p)

update_location-ends_well :
    (exacts : List String) (t : PathType) (l : Location)
    → l.path_type ≡ some t
    → all ends_well (update_location exacts t l) ≡ true
unfolding update_location needs_rewrite
update_location-ends_well exacts exact l h = ground arith
update_location-ends_well exacts implementation_specific l h = ground arith
update_location-ends_well exacts prefix l h = ground (arith, normalize_ends l.path)

update_locations-ends_well :
    (exacts : List String) (ls out : List Location)
    → update_locations exacts ls ≡ some out
    → all ends_well out ≡ true
unfolding update_locations
update_locations-ends_well exacts [] out h = ground arith
update_locations-ends_well exacts (l ∷ ls) out h = elim (Option-cases l.path_type) [
  | inl untyped ↦ absurd (ground arith)
  | inr (t, typed) ↦ elim (Option-cases (update_locations exacts ls)) [
    | inl failed ↦ absurd (ground arith)
    | inr (rest, done) ↦ ground (
      arith,
      update_locations-ends_well exacts ls rest done,
      update_location-ends_well exacts t l typed,
      all-append ends_well (update_location exacts t l) rest,
    )
  ]
]

-- After the update every Prefix location without rewrite target and regular expression has a path
-- that is `/` or ends in a slash, so that a longer name does not match it.
pub update_server_locations-ends_well :
    (ls out : List Location) → update_server_locations ls ≡ some out → all ends_well out ≡ true
unfolding update_server_locations
update_server_locations-ends_well ls out h = elim (Option-cases (exact_locations ls)) [
  | inl failed ↦ absurd (ground arith)
  | inr (es, done) ↦ update_locations-ends_well es ls out (ground arith)
]

-- the path of a Prefix location after the update
abbrev pub updated_path : Location → String
updated_path l = if is_extended l then normalize_prefix_path l.path else l.path

-- the Prefix locations whose path will be `p`
unfoldable pub count_updated : String → List Location → ℕ
count_updated p [] = 0
count_updated p (l ∷ ls) =
    (if has_type prefix l && updated_path l == p then 1 else 0) + count_updated p ls

count_prefix :
    (exacts : List String) (t : PathType) (l : Location) (p : String)
    → l.path_type ≡ some t
    → count_type prefix p (update_location exacts t l)
      ≡ (if has_type prefix l && updated_path l == p then 1 else 0)
unfolding update_location count_type
count_prefix exacts exact l p h = ground arith
count_prefix exacts implementation_specific l p h = ground arith
count_prefix exacts prefix l p h = ground arith

count_prefixes :
    (exacts : List String) (p : String) (ls out : List Location)
    → update_locations exacts ls ≡ some out
    → count_type prefix p out ≡ count_updated p ls
unfolding update_locations count_updated count_type
count_prefixes exacts p [] out h = ground arith
count_prefixes exacts p (l ∷ ls) out h = elim (Option-cases l.path_type) [
  | inl untyped ↦ absurd (ground arith)
  | inr (t, typed) ↦ elim (Option-cases (update_locations exacts ls)) [
    | inl failed ↦ absurd (ground arith)
    | inr (rest, done) ↦ ground (
      arith,
      count_prefixes exacts p ls rest done,
      count_prefix exacts t l p typed,
      count_type-append prefix p (update_location exacts t l) rest,
    )
  ]
]

-- Two Prefix locations that the update extends and whose paths differ only in the slash at the end
-- become two Prefix locations of one path.
pub update_server_locations-duplicate :
    (l m : Location) (ls out : List Location)
    → is_extended l ≡ true
    → is_extended m ≡ true
    → ends_in_slash l.path ≡ false
    → m.path ≡ text_append l.path "/"
    → update_server_locations (l ∷ m ∷ ls) ≡ some out
    → 2 ≤ count_type prefix m.path out
unfolding update_server_locations count_updated normalize_prefix_path
update_server_locations-duplicate l m ls out hl hm s e h =
    elim (Option-cases (exact_locations (l ∷ m ∷ ls))) [
      | inl failed ↦ absurd (ground arith)
      | inr (es, done) ↦
          let c : count_type prefix m.path out ≡ count_updated m.path (l ∷ m ∷ ls) =
            count_prefixes es m.path (l ∷ m ∷ ls) out (ground arith) in
          let slashed : ends_in_slash m.path ≡ true = rw e (ends_in_slash-append l.path) in
          ground (arith, ==_iff (text_append l.path "/") m.path, ==_iff m.path m.path)
    ]
