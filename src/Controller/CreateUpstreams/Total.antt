-- ===== src/Controller/CreateUpstreams/Total.antt =====
-- When `createUpstreams` does not panic, and what becomes of canaries and of the default upstream.
use panda_k8s.Annotations.Parsed.{ParsedAnnotations}
use panda_k8s.Api.Backends.{Endpoint, Backend}
use panda_k8s.Api.Heap.{Heap}
use panda_k8s.Api.Ingresses.{Ingress, IngressRule, HttpIngressPath, ServiceBackend}
use panda_k8s.Controller.Canary.{Upstreams, def_upstream_name}
use panda_k8s.Controller.CreateUpstreams.{
  path_upstream, default_backend_upstream, create_for_service, create_for_path, create_for_paths,
  paths_of, create_for_rules, default_service_of, create_default, create_for_ingresses,
  create_upstreams, get_default_upstream, default_upstream_of, is_no_list, blank_upstream,
  default_endpoint,
}
use panda_k8s.Controller.CreateUpstreams.Built.{IsNew}
use panda_k8s.Controller.Endpoints.{get_endpoints}
use panda_k8s.Controller.Store.{Store, Options}
use panda_k8s.Controller.Upstreams.{upstream_name}
use panda_k8s.Externals.{Externals}
use panda_k8s.Kube.{Service, ServicePort}
use panda_k8s.Pointers.{Ptr, nil, at}
use panda_k8s.Prelude.{
  false, ◌≡◌, ◌>>=◌, if◌then◌else◌, subst, refl, ap, ◌∙◌, List, [], ◌∷◌, some, some_eq, lookup,
  store as put, All, is_empty, inl, inr, Bool-cases, Option-cases,
}
use panda_k8s.Sets.Slices.{elems, made}

-- The annotations of the Ingress have been parsed.
abbrev pub HasAnnotations : Ingress → Type 0
HasAnnotations ing = (anns : ParsedAnnotations) × (ing.parsed_annotations ≡ some anns)

module _ (ext : Externals) (heap : Heap) (store : Store) (cfg : Options) where
  module _ (ing : Ingress) (h : HasAnnotations ing) where
    create_for_service_total :
        (service : ServiceBackend) (u : Upstreams)
        → (w : Upstreams) × (create_for_service ext heap store cfg ing service u ≡ some w)
    unfolding create_for_service
    create_for_service_total service u =
        elim (Option-cases (lookup (upstream_name ing.namespace (some service)) u)) [
          | inr (b, found) ↦ (u, rw (found, create_for_service) refl)
          | inl missing ↦
              let (anns, e) = h in
              (
                put (upstream_name ing.namespace (some service))
                    (path_upstream ext heap store cfg ing.namespace anns service) u,
                rw (missing, e, create_for_service) refl,
              )
        ]

    create_for_path_total :
        (path : HttpIngressPath) (u : Upstreams)
        → (w : Upstreams) × (create_for_path ext heap store cfg ing path u ≡ some w)
    unfolding create_for_path
    create_for_path_total path u = elim (Option-cases path.service) [
      | inl nothing ↦ (u, rw (nothing, create_for_path) refl)
      | inr (s, named) ↦
          let (w, e) = create_for_service_total s u in (w, rw (named, create_for_path) e)
    ]

    create_for_paths_total :
        (paths : List HttpIngressPath) (u : Upstreams)
        → (w : Upstreams) × (create_for_paths ext heap store cfg ing paths u ≡ some w)
    unfolding create_for_paths
    create_for_paths_total [] u = (u, refl)
    create_for_paths_total (p ∷ ps) u =
        let (v, e) = create_for_path_total p u in
        let (w, k) = create_for_paths_total ps v in
        (w, ap (λ o. o >>= create_for_paths ext heap store cfg ing ps) e ∙ k)

    create_for_rules_total :
        (rules : List IngressRule) (u : Upstreams)
        → (w : Upstreams) × (create_for_rules ext heap store cfg ing rules u ≡ some w)
    unfolding create_for_rules
    create_for_rules_total [] u = (u, refl)
    create_for_rules_total (r ∷ rs) u =
        let (v, e) = create_for_paths_total (paths_of r) u in
        let (w, k) = create_for_rules_total rs v in
        (w, ap (λ o. o >>= create_for_rules ext heap store cfg ing rs) e ∙ k)

    create_default_total :
        (u : Upstreams) → (w : Upstreams) × (create_default ext heap store cfg ing u ≡ some w)
    unfolding create_default
    create_default_total u = elim (Option-cases (default_service_of ing)) [
      | inl nothing ↦ (u, rw (nothing, create_default) refl)
      | inr (s, named) ↦
          let (anns, e) = h in
          (
            put (upstream_name ing.namespace (some s))
                (default_backend_upstream ext heap store cfg ing.namespace anns s) u,
            rw (named, e, create_default) refl,
          )
    ]

  create_for_ingresses_total :
      (ings : List Ingress) (u : Upstreams)
      → All HasAnnotations ings
      → (w : Upstreams) × (create_for_ingresses ext heap store cfg ings u ≡ some w)
  unfolding create_for_ingresses
  create_for_ingresses_total [] u a = (u, refl)
  create_for_ingresses_total (ing ∷ ings) u a =
      let (v, e) = create_default_total ing a.0 u in
      let (x, k) = create_for_rules_total ing a.0 ing.rules v in
      let (w, l) = create_for_ingresses_total ings x a.1 in (w, rw (e, k) l)

  -- createUpstreams does not panic if the annotations of every Ingress have been parsed.
  pub create_upstreams_total :
      (ings : List Ingress) (du : Backend)
      → All HasAnnotations ings
      → (w : Upstreams) × (create_upstreams ext heap store cfg ings du ≡ some w)
  unfolding create_upstreams
  create_upstreams_total ings du a =
      create_for_ingresses_total ings ((def_upstream_name, du) ∷ []) a

  default_upstream_of-IsNew :
      (p : Ptr Service) (svc : Service) (ports : List ServicePort) (du : Backend)
      → default_upstream_of ext heap store cfg p svc ports ≡ some du
      → IsNew def_upstream_name du × (is_no_list (elems du.endpoints) ≡ false)
  unfolding default_upstream_of
  default_upstream_of-IsNew p svc [] du h = cc
  default_upstream_of-IsNew p svc (port ∷ ports) du h =
      subst (λ du. IsNew def_upstream_name du × (is_no_list (elems du.endpoints) ≡ false))
        (some_eq h)
        (
          (refl, refl),
          some_endpoint
              (get_endpoints ext (some svc) (some port) "TCP" store.get_service_endpoints),
        )
    where
      some_endpoint :
          (es : List Endpoint)
          → is_no_list (if is_no_list es then default_endpoint ext heap store cfg ∷ [] else es)
            ≡ false
      some_endpoint [] = refl
      some_endpoint (e ∷ es) = refl

  -- The default upstream, if there is no panic, has its name, no alternatives and an endpoint.
  pub get_default_upstream-IsNew :
      (du : Backend)
      → get_default_upstream ext heap store cfg ≡ some du
      → IsNew def_upstream_name du × (is_no_list (elems du.endpoints) ≡ false)
  unfolding get_default_upstream
  get_default_upstream-IsNew du h = elim (Bool-cases (is_empty cfg.default_service)) [
    | inl unset ↦ from_alone (some_eq (rw unset at h))
    | inr set ↦ elim (Option-cases (store.get_service cfg.default_service)) [
      | inl missing ↦ from_alone (some_eq (rw (set, missing) at h))
      | inr (n, found) ↦
          default_upstream_of-IsNew (at n) (heap.service n) (heap.service n).ports du
            (rw (set, found) at h)
    ]
  ]
    where
      alone : Backend
      alone = blank_upstream def_upstream_name nil (made (default_endpoint ext heap store cfg ∷ []))

      from_alone :
          alone ≡ du → IsNew def_upstream_name du × (is_no_list (elems du.endpoints) ≡ false)
      from_alone e =
          subst (λ du. IsNew def_upstream_name du × (is_no_list (elems du.endpoints) ≡ false)) e
            ((refl, refl), refl)
