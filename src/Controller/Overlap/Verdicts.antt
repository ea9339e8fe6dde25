-- ===== src/Controller/Overlap/Verdicts.antt =====
-- When `checkOverlap` rejects an Ingress.
use panda_k8s.Api.Heap.{Heap}
use panda_k8s.Api.Ingresses.{Ingress, IngressRule, HttpIngressPath}
use panda_k8s.Api.Servers.{Server}
use panda_k8s.Controller.Drafts.{host_of}
use panda_k8s.Controller.Locations.{root_location}
use panda_k8s.Controller.Overlap.{
  Verdict, rejected, ingress_for_host_path, is_same_ingress, conflicts, judge, check_path,
  check_paths, check_rules, check_overlap,
}
use panda_k8s.Pointers.{Ptr}
use panda_k8s.Prelude.{
  String, Bool, true, false, ◌==◌, ◌≡◌, refl, inl, inr, List, [], ◌∷◌, some, some_eq, some_of_bind,
  any, In, Bool-cases, Option-cases, arith, if◌then◌else◌,
}

-- an element that passes a test
pub any-In :
    {A : Type 0} (f : A → Bool) (xs : List A) → any f xs ≡ true → (x : A) × In x xs × (f x ≡ true)
any-In f [] h = absurd (ground arith)
any-In f (x ∷ xs) h = elim (Bool-cases (f x)) [
  | inl hit ↦ (x, inl refl, hit)
  | inr miss ↦ let (y, m, e) = any-In f xs (ground arith) in (y, inr m, e)
]

-- the path that the code looks up
abbrev pub path_of : HttpIngressPath → String
path_of path = if path.path == "" then root_location else path.path

module _ (heap : Heap) (prefix : String) (ing : Ingress) (servers : List (Ptr Server)) where
  -- At this host and path there are Ingresses, none of them is the new one, and one conflicts.
  abbrev pub Overlaps : String → HttpIngressPath → Type 0
  Overlaps host path =
      (es : List Ingress) × (e : Ingress) × (ingress_for_host_path heap host (path_of path) servers
        ≡ some es)
      × In e es
      × (any (is_same_ingress heap prefix ing servers) es ≡ false)
      × (conflicts heap prefix ing servers e ≡ true)

  judge_rejected :
      (es : List Ingress)
      → judge heap prefix ing servers es ≡ rejected
      → (any (is_same_ingress heap prefix ing servers) es ≡ false)
        × ((e : Ingress) × In e es × (conflicts heap prefix ing servers e ≡ true))
  unfolding judge
  judge_rejected [] h = cc
  judge_rejected (e ∷ es) h =
      elim (Bool-cases (any (is_same_ingress heap prefix ing servers) (e ∷ es))) [
        | inl same ↦ absurd (ground arith)
        | inr apart ↦ elim (Bool-cases (any (conflicts heap prefix ing servers) (e ∷ es))) [
          | inl clash ↦ (apart, any-In (conflicts heap prefix ing servers) (e ∷ es) clash)
          | inr clear ↦ absurd (ground arith)
        ]
      ]

  check_path_rejected :
      (host : String) (path : HttpIngressPath)
      → check_path heap prefix ing servers host path ≡ some rejected
      → Overlaps host path
  unfolding check_path
  check_path_rejected host path h = elim (Option-cases path.service) [
    | inl absent ↦ absurd (ground arith)
    | inr (service, given) ↦
        let (es, i, k) =
          some_of_bind (ingress_for_host_path heap host (path_of path) servers)
            (λ es. some (judge heap prefix ing servers es)) rejected
            (rw (given, check_path) at h) in
        let (apart, (e, m, c)) = judge_rejected es (some_eq k) in (es, e, i, m, apart, c)
  ]

  check_paths_rejected :
      (host : String) (paths : List HttpIngressPath)
      → check_paths heap prefix ing servers host paths ≡ some rejected
      → (path : HttpIngressPath) × In path paths × Overlaps host path
  unfolding check_paths
  check_paths_rejected host [] h = absurd (ground arith)
  check_paths_rejected host (p ∷ ps) h =
      elim (Option-cases (check_path heap prefix ing servers host p)) [
        | inl failed ↦ absurd (ground arith)
        | inr (Verdict.next, i) ↦
            let (path, m, o) = check_paths_rejected host ps (rw (i, check_paths) at h) in
            (path, inr m, o)
        | inr (Verdict.accepted, i) ↦ absurd (ground arith)
        | inr (Verdict.rejected, i) ↦ (p, inl refl, check_path_rejected host p i)
      ]

  check_rules_rejected :
      (rules : List IngressRule)
      → check_rules heap prefix ing servers rules ≡ some rejected
      → (rule : IngressRule) × (paths : List HttpIngressPath) × (path : HttpIngressPath) × In rule
          rules
        × (rule.http ≡ some paths)
        × In path paths
        × Overlaps (host_of rule) path
  unfolding check_rules
  check_rules_rejected [] h = absurd (ground arith)
  check_rules_rejected (rule ∷ rules) h = elim (Option-cases rule.http) [
    | inl absent ↦
        let (r, qs, path, m, g, q, o) =
          check_rules_rejected rules (rw (absent, check_rules) at h) in
        (r, qs, path, inr m, g, q, o)
    | inr (paths, given) ↦
        elim (Option-cases (check_paths heap prefix ing servers (host_of rule) paths)) [
          | inl failed ↦ absurd (ground arith)
          | inr (Verdict.next, i) ↦
              let (r, qs, path, m, g, q, o) =
                check_rules_rejected rules (rw (given, i, check_rules) at h) in
              (r, qs, path, inr m, g, q, o)
          | inr (Verdict.accepted, i) ↦ absurd (ground arith)
          | inr (Verdict.rejected, i) ↦
              let (path, m, o) = check_paths_rejected (host_of rule) paths i in
              (rule, paths, path, inl refl, given, m, o)
        ]
  ]

  -- If `checkOverlap` returns an error, a path of a rule of the Ingress is one at which there are
  -- Ingresses, none of which is the new one, and one that conflicts with it: both are canaries, or
  -- neither has the annotation.
  pub check_overlap_rejected :
      check_overlap heap prefix ing servers ≡ some rejected
      → (rule : IngressRule) × (paths : List HttpIngressPath) × (path : HttpIngressPath) × In rule
          ing.rules
        × (rule.http ≡ some paths)
        × In path paths
        × Overlaps (host_of rule) path
  unfolding check_overlap
  check_overlap_rejected h = check_rules_rejected ing.rules h
