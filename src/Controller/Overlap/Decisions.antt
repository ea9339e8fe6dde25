-- ===== src/Controller/Overlap/Decisions.antt =====
-- Which path `checkOverlap` decides by, and how.
use panda_k8s.Annotations.Parser.{Found, get_bool_annotation, is_enabled, is_missing}
use panda_k8s.Api.Heap.{Heap}
use panda_k8s.Api.Ingresses.{Ingress, IngressRule, HttpIngressPath}
use panda_k8s.Api.Servers.{Server}
use panda_k8s.Controller.CreateUpstreams.{paths_of}
use panda_k8s.Controller.Drafts.{host_of}
use panda_k8s.Controller.Overlap.{
  Verdict, accepted, rejected, ingress_for_host_path, is_same_ingress, conflicts, judge, check_path,
  check_paths, check_rules, check_overlap,
}
use panda_k8s.Controller.Overlap.Verdicts.{any-In, path_of}
use panda_k8s.Pointers.{Ptr}
use panda_k8s.Prelude.{
  String, Bool, true, false, ◌&&◌, ◌||◌, ==_iff, ◌≡◌, ◌↔◌, ◌⊎◌, refl, sym, ap, ◌∙◌, inl, inr, List,
  [], ◌∷◌, ◌++◌, Option, none, some, some_eq, subst, any, map, In, All, All_map, Bool-cases,
  Option-cases, arith, ◌>>=◌,
}

-- no element passes a test
any-none : {A : Type 0} (f : A → Bool) (xs : List A) → any f xs ≡ false → All (λ x. f x ≡ false) xs
any-none f [] h = tt
any-none f (x ∷ xs) h = elim (Bool-cases (f x)) [
  | inl hit ↦ absurd (ground arith)
  | inr miss ↦ (miss, any-none f xs (ground arith))
]

both_iff :
    (a b c d : Bool)
    → ((a && b || c && d) ≡ true) ↔ (((a ≡ true) × (b ≡ true)) ⊎ ((c ≡ true) × (d ≡ true)))
both_iff true true c d = (λ _. inl (refl, refl), λ _. refl)
both_iff true false true true = (λ _. inr (refl, refl), λ _. refl)
both_iff true false true false = (λ h. cc, λ h. elim h [ inl p ↦ p.1 | inr p ↦ p.1 ])
both_iff true false false d = (λ h. cc, λ h. elim h [ inl p ↦ p.1 | inr p ↦ p.0 ])
both_iff false b true true = (λ _. inr (refl, refl), λ _. refl)
both_iff false b true false = (λ h. cc, λ h. elim h [ inl p ↦ p.0 | inr p ↦ p.1 ])
both_iff false b false d = (λ h. cc, λ h. elim h [ inl p ↦ p.0 | inr p ↦ p.0 ])

module _ (heap : Heap) (prefix : String) (ing : Ingress) (servers : List (Ptr Server)) where
  -- The Ingress is the new one.
  abbrev pub IsSame : Ingress → Type 0
  IsSame e = (e.namespace ≡ ing.namespace) × (e.name ≡ ing.name)

  abbrev canary_of : Ingress → Found Bool
  canary_of e = get_bool_annotation prefix "canary" e.annotations

  -- Both are canaries, or neither has the annotation.
  abbrev pub IsRival : Ingress → Type 0
  IsRival e =
      ((is_enabled (canary_of ing) ≡ true) × (is_enabled (canary_of e) ≡ true))
      ⊎ ((is_missing (canary_of ing) ≡ true) × (is_missing (canary_of e) ≡ true))

  is_same_ingress_iff :
      (e : Ingress) → (is_same_ingress heap prefix ing servers e ≡ true) ↔ IsSame e
  is_same_ingress_iff e = (
    λ h. (
      (==_iff e.namespace ing.namespace).0 (ground arith),
      (==_iff e.name ing.name).0 (ground arith),
    ),
    λ (h, k). rw ((==_iff e.namespace ing.namespace).1 h, (==_iff e.name ing.name).1 k) refl,
  )

  conflicts_iff : (e : Ingress) → (conflicts heap prefix ing servers e ≡ true) ↔ IsRival e
  unfolding conflicts
  conflicts_iff e =
      both_iff (is_enabled (canary_of ing)) (is_enabled (canary_of e)) (is_missing (canary_of ing))
        (is_missing (canary_of e))

  -- the verdict of a path at which there are the Ingresses
  abbrev pub Decides : List Ingress → Option Verdict → Type 0
  Decides es verdict =
      ((verdict ≡ some rejected) × All (λ e. ¬ IsSame e) es × ((e : Ingress) × In e es × IsRival e))
      ⊎ ((verdict ≡ some accepted)
          × (((e : Ingress) × In e es × IsSame e) ⊎ All (λ e. ¬ IsRival e) es))

  judge-Decides :
      (e : Ingress) (es : List Ingress)
      → Decides (e ∷ es) (some (judge heap prefix ing servers (e ∷ es)))
  unfolding judge
  judge-Decides e es = elim (Bool-cases (any (is_same_ingress heap prefix ing servers) (e ∷ es))) [
    | inl same ↦
        let (x, i, h) = any-In (is_same_ingress heap prefix ing servers) (e ∷ es) same in
        inr (ap some (rw same refl), inl (x, i, (is_same_ingress_iff x).0 h))
    | inr apart ↦ elim (Bool-cases (any (conflicts heap prefix ing servers) (e ∷ es))) [
      | inl clash ↦
          let (x, i, h) = any-In (conflicts heap prefix ing servers) (e ∷ es) clash in
          inl (
            ap some (rw (apart, clash) refl),
            All_map (λ x h s. let k = (is_same_ingress_iff x).1 s in cc) (e ∷ es)
                (any-none (is_same_ingress heap prefix ing servers) (e ∷ es) apart),
            (x, i, (conflicts_iff x).0 h),
          )
      | inr clear ↦ inr (
        ap some (rw (apart, clear) refl),
        inr (
            All_map (λ x h s. let k = (conflicts_iff x).1 s in cc) (e ∷ es)
              (any-none (conflicts heap prefix ing servers) (e ∷ es) clear)),
      )
    ]
  ]

  -- the Ingresses at a path of a host; none are looked up for a path without a Service
  unfoldable pub found_at : String × HttpIngressPath → Option (List Ingress)
  found_at (host, path) = elim path.service [
    | none ↦ some []
    | some service ↦ ingress_for_host_path heap host (path_of path) servers
  ]

  check_path_found :
      (host : String) (path : HttpIngressPath) (es : List Ingress)
      → found_at (host, path) ≡ some es
      → check_path heap prefix ing servers host path ≡ some (judge heap prefix ing servers es)
  unfolding check_path found_at judge
  check_path_found host path es h = elim (Option-cases path.service) [
    | inl absent ↦
        subst
          (λ es.
            check_path heap prefix ing servers host path ≡ some (judge heap prefix ing servers es))
          (some_eq (rw (absent, found_at) at h)) (rw (absent, check_path) refl)
    | inr (service, given) ↦
        rw (given, check_path)
          (ap (λ o. o >>= (λ es. some (judge heap prefix ing servers es)))
            (rw (given, found_at) at h))
  ]

  -- the paths in the order in which the code goes through them, each with its host
  unfoldable pub paths_in_order : List IngressRule → List (String × HttpIngressPath)
  paths_in_order [] = []
  paths_in_order (rule ∷ rules) =
      map (λ p. (host_of rule, p)) (paths_of rule) ++ paths_in_order rules

  -- the two loops as one
  check_all : List (String × HttpIngressPath) → Option Verdict
  check_all [] = some accepted
  check_all (c ∷ cs) = check_path heap prefix ing servers c.0 c.1 >>= (λ v. elim v [
    | Verdict.next ↦ check_all cs
    | Verdict.accepted ↦ some accepted
    | Verdict.rejected ↦ some rejected
  ])

  check_all-paths :
      (host : String) (paths : List HttpIngressPath) (cs : List (String × HttpIngressPath))
      → (check_paths heap prefix ing servers host paths >>= (λ v. elim v [
        | Verdict.next ↦ check_all cs
        | Verdict.accepted ↦ some accepted
        | Verdict.rejected ↦ some rejected
      ]))
        ≡ check_all (map (λ p. (host, p)) paths ++ cs)
  unfolding check_paths check_all
  check_all-paths host [] cs = refl
  check_all-paths host (p ∷ ps) cs =
      elim (Option-cases (check_path heap prefix ing servers host p)) [
        | inl failed ↦ rw (failed, check_paths, check_all) refl
        | inr (Verdict.next, i) ↦ rw (i, check_paths, check_all) (check_all-paths host ps cs)
        | inr (Verdict.accepted, i) ↦ rw (i, check_paths, check_all) refl
        | inr (Verdict.rejected, i) ↦ rw (i, check_paths, check_all) refl
      ]

  check_rules-all :
      (rules : List IngressRule)
      → check_rules heap prefix ing servers rules ≡ check_all (paths_in_order rules)
  unfolding check_rules check_all paths_in_order
  check_rules-all [] = refl
  check_rules-all (rule ∷ rules) = elim (Option-cases rule.http) [
    | inl absent ↦ rw (absent, check_rules, paths_of) (check_rules-all rules)
    | inr (paths, given) ↦
        rw (given, check_rules, paths_of)
          (ap
              (λ o. check_paths heap prefix ing servers (host_of rule) paths >>= (λ v. elim v [
                | Verdict.next ↦ o
                | Verdict.accepted ↦ some accepted
                | Verdict.rejected ↦ some rejected
              ]))
              (check_rules-all rules)
            ∙ check_all-paths (host_of rule) paths (paths_in_order rules))
  ]

  -- a path at which there is no Ingress, or that has no Service
  abbrev pub IsFree : String × HttpIngressPath → Type 0
  IsFree c = found_at c ≡ some []

  check_all-append :
      (before after : List (String × HttpIngressPath))
      → All IsFree before
      → check_all (before ++ after) ≡ check_all after
  unfolding check_all judge
  check_all-append [] after a = refl
  check_all-append (c ∷ before) after a =
      rw (check_path_found c.0 c.1 [] a.0, check_all) (check_all-append before after a.1)

  check_all-judge :
      (host : String) (path : HttpIngressPath) (e : Ingress) (es : List Ingress)
      (after : List (String × HttpIngressPath))
      → found_at (host, path) ≡ some (e ∷ es)
      → check_all ((host, path) ∷ after) ≡ some (judge heap prefix ing servers (e ∷ es))
  unfolding check_all
  check_all-judge host path e es after h =
      rw (check_path_found host path (e ∷ es) h, check_all)
        (elim (judge-Decides e es) [
          | inl (verdict, _, _) ↦ rw (some_eq verdict) refl
          | inr (verdict, _) ↦ rw (some_eq verdict) refl
        ])

  -- Of the paths of all rules, in their order, the first one at which there are Ingresses decides,
  -- whatever the paths behind it are: checkOverlap returns an error if none of these is the new
  -- Ingress and one conflicts with it (both are canaries, or neither has the annotation), and none if
  -- one of them is the new Ingress or none conflicts.
  pub check_overlap-Decides :
      (before after : List (String × HttpIngressPath)) (host : String) (path : HttpIngressPath)
      (e : Ingress) (es : List Ingress)
      → paths_in_order ing.rules ≡ before ++ (host, path) ∷ after
      → All IsFree before
      → found_at (host, path) ≡ some (e ∷ es)
      → Decides (e ∷ es) (check_overlap heap prefix ing servers)
  unfolding check_overlap
  check_overlap-Decides before after host path e es order free found =
      subst (Decides (e ∷ es))
        (sym (
          check_rules-all ing.rules
          ∙ ap check_all order
          ∙ check_all-append before ((host, path) ∷ after) free
          ∙ check_all-judge host path e es after found))
        (judge-Decides e es)
