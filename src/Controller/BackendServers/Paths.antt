-- ===== src/Controller/BackendServers/Paths.antt =====
-- Where the paths of the rules go: each gets a location, and no location is lost.
use panda_k8s.Annotations.Parsed.{ParsedAnnotations}
use panda_k8s.Api.Backends.{Backend}
use panda_k8s.Api.Ingresses.{HttpIngressPath}
use panda_k8s.Api.Servers.{Location}
use panda_k8s.Controller.Places.{
  same_type, nginx_path, Placement, before_all, find_place, take_over, new_location, place_path,
}
use panda_k8s.Controller.Drafts.{location_apply_annotations}
use panda_k8s.Kube.{PathType, exact, prefix, implementation_specific}
use panda_k8s.Prelude.{
  ℕ, String, Bool, true, false, not, ◌==◌, ==_iff, ◌≡◌, ◌⊎◌, refl, subst, ap, ◌∙◌, List, [], ◌∷◌,
  ◌++◌, In, Option, none, some, some_eq, inl, inr, Bool-cases, Option-cases, if◌then◌else◌,
}

-- a location has the path and the type
abbrev pub HasPath : String → Option PathType → List Location → Type 0
HasPath path type [] = ⊥
HasPath path type (l ∷ ls) =
    ((l.path ≡ path) × (same_type l.path_type type ≡ true)) ⊎ HasPath path type ls

-- Every path that has a location keeps one of its type.
abbrev pub KeepsPaths : List Location → List Location → Type 0
KeepsPaths ls ms =
    (path : String) (type : Option PathType) → HasPath path type ls → HasPath path type ms

pub same_type_refl : (t : Option PathType) → same_type t t ≡ true
same_type_refl none = refl
same_type_refl (some exact) = refl
same_type_refl (some prefix) = refl
same_type_refl (some implementation_specific) = refl

HasPath-append_left :
    (path : String) (type : Option PathType) (ls ms : List Location)
    → HasPath path type ls
    → HasPath path type (ls ++ ms)
HasPath-append_left path type [] ms h = absurd h
HasPath-append_left path type (l ∷ ls) ms (inl h) = inl h
HasPath-append_left path type (l ∷ ls) ms (inr h) = inr (HasPath-append_left path type ls ms h)

HasPath-append_right :
    (path : String) (type : Option PathType) (ls ms : List Location)
    → HasPath path type ms
    → HasPath path type (ls ++ ms)
HasPath-append_right path type [] ms h = h
HasPath-append_right path type (l ∷ ls) ms h = inr (HasPath-append_right path type ls ms h)

HasPath-In :
    (path : String) (type : Option PathType) (ls : List Location)
    → HasPath path type ls
    → (l : Location) × In l ls × (l.path ≡ path) × (same_type l.path_type type ≡ true)
HasPath-In path type [] h = absurd h
HasPath-In path type (l ∷ ls) (inl (e, t)) = (l, inl refl, e, t)
HasPath-In path type (l ∷ ls) (inr h) =
    let (m, i, e, t) = HasPath-In path type ls h in (m, inr i, e, t)

In-HasPath :
    (path : String) (type : Option PathType) (l : Location) (ls : List Location)
    → In l ls
    → l.path ≡ path
    → same_type l.path_type type ≡ true
    → HasPath path type ls
In-HasPath path type l [] i e t = absurd i
In-HasPath path type l (m ∷ ls) (inl same) e t =
    inl
      (subst (λ (m : Location). (m.path ≡ path) × (same_type m.path_type type ≡ true)) same (e, t))
In-HasPath path type l (m ∷ ls) (inr i) e t = inr (In-HasPath path type l ls i e t)

-- The order of the locations does not matter.
pub HasPath-same :
    (path : String) (type : Option PathType) (ls ms : List Location)
    → ((l : Location) → In l ls → In l ms)
    → HasPath path type ls
    → HasPath path type ms
HasPath-same path type ls ms k h =
    let (l, i, e, t) = HasPath-In path type ls h in In-HasPath path type l ms (k l i) e t

pub before_all-some :
    (loc : Location) (o : Option Placement) (p : Placement)
    → before_all loc o ≡ some p
    → (q : Placement) × (o ≡ some q) × (loc ∷ q.locations ≡ p.locations)
before_all-some loc none p h = cc
before_all-some loc (some q) p h = (q, refl, ap (λ (r : Placement). r.locations) (some_eq h))

module _ (path : String) (type : Option PathType) (take : Location → Location)
    (same_path : (l : Location) → (take l).path ≡ l.path)
    (same : (l : Location) → (take l).path_type ≡ l.path_type) where
  -- Taking a location over keeps its path and its type.
  take_keeps : (l : Location) (ls : List Location) → KeepsPaths (l ∷ ls) (take l ∷ ls)
  take_keeps l ls p t (inl (h, k)) = inl (same_path l ∙ h, rw (same l) k)
  take_keeps l ls p t (inr h) = inr h

  placed :
      (l : Location) (ls : List Location) (free : Bool) (p : Placement)
      → l.path ≡ path
      → same_type l.path_type type ≡ true
      → (if not free
          then some (record { locations = l ∷ ls; from_to_www = false })
          else some
              (record { locations = take l ∷ ls; from_to_www = (take l).redirect.from_to_www }))
        ≡ some p
      → HasPath path type p.locations × KeepsPaths (l ∷ ls) p.locations
  placed l ls false p here alike h =
      subst (λ (q : Placement). HasPath path type q.locations × KeepsPaths (l ∷ ls) q.locations)
        (some_eq h) (inl (here, alike), λ r t k. k)
  placed l ls true p here alike h =
      subst (λ (q : Placement). HasPath path type q.locations × KeepsPaths (l ∷ ls) q.locations)
        (some_eq h) (inl (same_path l ∙ here, rw (same l) alike), take_keeps l ls)

  find_place-HasPath :
      (ls : List Location) (p : Placement)
      → find_place path type take ls ≡ some p
      → HasPath path type p.locations × KeepsPaths ls p.locations
  unfolding find_place
  find_place-HasPath [] p h = cc
  find_place-HasPath (l ∷ ls) p h = elim (Bool-cases (l.path == path)) [
    | inr other ↦
        let (q, i, e) = before_all-some l (find_place path type take ls) p (rw other at h) in
        let (found, kept) = find_place-HasPath ls q i in
        subst (λ ms. HasPath path type ms × KeepsPaths (l ∷ ls) ms) e
          (inr found, λ r t k. elim k [ inl here ↦ inl here | inr there ↦ inr (kept r t there) ])
    | inl here ↦ elim (Bool-cases (same_type l.path_type type)) [
      | inr unlike ↦ let clash = rw (here, unlike) at h in cc
      | inl alike ↦
          placed l ls l.is_def_backend p ((==_iff l.path path).0 here) alike (rw (here, alike) at h)
    ]
  ]

-- The path has a location after `place_path`, and so have all paths that had one.
pub place_path-HasPath :
    (n : ℕ) (anns : ParsedAnnotations) (ups : Backend) (path : HttpIngressPath) (ls : List Location)
    → HasPath (nginx_path path) path.path_type (place_path n anns ups path ls).locations
      × KeepsPaths ls (place_path n anns ups path ls).locations
unfolding place_path take_over new_location location_apply_annotations
place_path-HasPath n anns ups path ls =
    elim (Option-cases (find_place (nginx_path path) path.path_type (take_over n anns ups) ls)) [
      | inr (p, found) ↦
          rw (found, place_path)
            (find_place-HasPath (nginx_path path) path.path_type (take_over n anns ups) (λ l. refl)
              (λ l. refl) ls p found)
      | inl nowhere ↦
          rw (nowhere, place_path)
            (
              HasPath-append_right (nginx_path path) path.path_type ls
                  (new_location n anns ups path ∷ []) (inl (refl, same_type_refl path.path_type)),
              λ p t h. HasPath-append_left p t ls (new_location n anns ups path ∷ []) h,
            )
    ]
