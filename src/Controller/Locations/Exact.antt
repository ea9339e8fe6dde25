-- ===== src/Controller/Locations/Exact.antt =====
-- What `updateServerLocations` makes of the locations of a server.
use mathlib.Core.Path.{subst}
use panda_k8s.Api.Servers.{Location}
use panda_k8s.Controller.Locations.{
  root_location, needs_rewrite, exact_locations, update_location, update_locations,
  update_server_locations,
}
use panda_k8s.Kube.{PathType, exact, prefix, implementation_specific, path_type_eq}
use panda_k8s.Prelude.{
  ℕ, ◌+◌, String, Bool, false, not, ◌&&◌, ◌==◌, ==_iff, ◌≡◌, refl, inl, inr, List, [], ◌∷◌, ◌++◌,
  none, some, any, All, arith, if◌then◌else◌, Bool-cases, Option-cases, nat_eq,
}

abbrev pub has_type : PathType → Location → Bool
has_type t l = elim l.path_type [ none ↦ false | some t' ↦ path_type_eq t' t ]

-- how many locations of a type have a path
unfoldable pub count_type : PathType → String → List Location → ℕ
count_type t p [] = 0
count_type t p (l ∷ ls) = (if has_type t l && l.path == p then 1 else 0) + count_type t p ls

-- a Prefix location that the code may give a second block
abbrev pub is_extended : Location → Bool
is_extended l =
    has_type prefix l
    && not (l.path == root_location)
    && not (needs_rewrite l)
    && not l.rewrite.use_regex

unfoldable pub count_extended : String → List Location → ℕ
count_extended p [] = 0
count_extended p (l ∷ ls) = (if is_extended l && l.path == p then 1 else 0) + count_extended p ls

pub count_type-append :
    (t : PathType) (p : String) (ls ms : List Location)
    → count_type t p (ls ++ ms) ≡ count_type t p ls + count_type t p ms
unfolding count_type
count_type-append t p [] ms = omega arith
count_type-append t p (l ∷ ls) ms = omega (arith, count_type-append t p ls ms)

module _ (exacts : List String) (l : Location) where
  -- One round keeps an Exact location, and adds one for an extended location whose path is not taken.
  count_self :
      (t : PathType)
      → l.path_type ≡ some t
      → count_type exact l.path (update_location exacts t l)
        ≡ (if has_type exact l then 1 else 0)
          + (if is_extended l && not (any (λ q. q == l.path) exacts) then 1 else 0)
  unfolding update_location count_type
  count_self exact h = ground (arith, ==_iff l.path l.path)
  count_self prefix h = ground (arith, ==_iff l.path l.path)
  count_self implementation_specific h = ground (arith, ==_iff l.path l.path)

  count_other :
      (t : PathType) (p : String)
      → l.path_type ≡ some t
      → (l.path == p) ≡ false
      → count_type exact p (update_location exacts t l) ≡ 0
  unfolding update_location count_type
  count_other exact p h n = ground arith
  count_other prefix p h n = ground arith
  count_other implementation_specific p h n = ground arith

count_update_location :
    (exacts : List String) (t : PathType) (l : Location) (p : String)
    → l.path_type ≡ some t
    → count_type exact p (update_location exacts t l)
      ≡ (if has_type exact l && l.path == p then 1 else 0)
        + (if any (λ q. q == p) exacts then 0 else if is_extended l && l.path == p then 1 else 0)
count_update_location exacts t l p h = elim (Bool-cases (l.path == p)) [
  | inl same ↦
      let e : l.path ≡ p = (==_iff l.path p).0 same in
      subst
        (λ (q : String).
          count_type exact q (update_location exacts t l)
          ≡ (if has_type exact l && l.path == q then 1 else 0)
            + (if any (λ r. r == q) exacts
                then 0
                else if is_extended l && l.path == q
                then 1
                else 0))
        e (ground (arith, count_self exacts l t h, ==_iff l.path l.path))
  | inr other ↦ ground (arith, count_other exacts l t p h other)
]

count_update_locations :
    (exacts : List String) (p : String) (ls out : List Location)
    → update_locations exacts ls ≡ some out
    → count_type exact p out
      ≡ count_type exact p ls + (if any (λ q. q == p) exacts then 0 else count_extended p ls)
unfolding update_locations count_type count_extended
count_update_locations exacts p [] out h = ground arith
count_update_locations exacts p (l ∷ ls) out h = elim (Option-cases l.path_type) [
  | inl untyped ↦ absurd (ground arith)
  | inr (t, typed) ↦ elim (Option-cases (update_locations exacts ls)) [
    | inl failed ↦ absurd (ground arith)
    | inr (rest, done) ↦ ground (
      arith,
      count_update_locations exacts p ls rest done,
      count_update_location exacts t l p typed,
      count_type-append exact p (update_location exacts t l) rest,
    )
  ]
]

exact_locations-count :
    (p : String) (ls : List Location) (es : List String)
    → exact_locations ls ≡ some es
    → any (λ q. q == p) es ≡ not (nat_eq (count_type exact p ls) 0)
unfolding exact_locations count_type
exact_locations-count p [] es h = ground arith
exact_locations-count p (l ∷ ls) es h = elim (Option-cases l.path_type) [
  | inl untyped ↦ absurd (ground arith)
  | inr (t, typed) ↦ elim (Option-cases (exact_locations ls)) [
    | inl failed ↦ absurd (ground arith)
    | inr (rest, done) ↦ ground (arith, exact_locations-count p ls rest done)
  ]
]

-- Of a server's locations, those of type Exact at a path are, after the update, the ones that were
-- there; and if there was none, one for each Prefix location of that path that is not `/`, has no
-- rewrite and no regular expression.
pub count-update_server_locations :
    (ls out : List Location) (p : String)
    → update_server_locations ls ≡ some out
    → count_type exact p out
      ≡ (if nat_eq (count_type exact p ls) 0 then count_extended p ls else count_type exact p ls)
unfolding update_server_locations
count-update_server_locations ls out p h = elim (Option-cases (exact_locations ls)) [
  | inl failed ↦ absurd (ground arith)
  | inr (es, done) ↦
      ground (arith, exact_locations-count p ls es done, count_update_locations es p ls out)
]

update_locations_total :
    (exacts : List String) (ls : List Location)
    → All (λ l. (t : PathType) × (l.path_type ≡ some t)) ls
    → (out : List Location) × (update_locations exacts ls ≡ some out)
unfolding update_locations
update_locations_total exacts [] h = ([], refl)
update_locations_total exacts (l ∷ ls) h =
    let (t, typed) = h.0 in
    let (rest, done) = update_locations_total exacts ls h.1 in
    (update_location exacts t l ++ rest, ground arith)

exact_locations_total :
    (ls : List Location)
    → All (λ l. (t : PathType) × (l.path_type ≡ some t)) ls
    → (es : List String) × (exact_locations ls ≡ some es)
unfolding exact_locations
exact_locations_total [] h = ([], refl)
exact_locations_total (l ∷ ls) h =
    let (t, typed) = h.0 in
    let (rest, done) = exact_locations_total ls h.1 in
    (if path_type_eq t exact then l.path ∷ rest else rest, ground arith)

-- The update does not panic if every location has a path type.
pub update_server_locations_total :
    (ls : List Location)
    → All (λ l. (t : PathType) × (l.path_type ≡ some t)) ls
    → (out : List Location) × (update_server_locations ls ≡ some out)
unfolding update_server_locations
update_server_locations_total ls h =
    let (es, found) = exact_locations_total ls h in
    let (out, done) = update_locations_total es ls h in (out, ground arith)
