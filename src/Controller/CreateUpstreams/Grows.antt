-- ===== src/Controller/CreateUpstreams/Grows.antt =====
-- `createUpstreams` adds upstreams and removes none: what it returns.
use panda_k8s.Annotations.Parsed.{ParsedAnnotations}
use panda_k8s.Api.Backends.{Backend}
use panda_k8s.Api.Heap.{Heap}
use panda_k8s.Api.Ingresses.{Ingress, IngressRule, HttpIngressPath, ServiceBackend}
use panda_k8s.Controller.Canary.{Upstreams, def_upstream_name}
use panda_k8s.Controller.CreateUpstreams.{
  default_backend_upstream, path_upstream, create_for_service, create_for_path, create_for_paths,
  paths_of, create_for_rules, default_service_of, create_default, create_for_ingresses,
  create_upstreams,
}
use panda_k8s.Controller.CreateUpstreams.Built.{
  IsNew, default_backend_upstream-IsNew, path_upstream-IsNew,
}
use panda_k8s.Controller.Store.{Store, Options}
use panda_k8s.Controller.Upstreams.{upstream_name}
use panda_k8s.Externals.{Externals}
use panda_k8s.Prelude.{
  In, All_of_In, ◌⊎◌, HasKey, stored-HasKey, String, Grows, then_Grows, Grows-HasKey, Grows-All,
  All_all, ◌≡◌, sym, subst, ◌∙◌, List, [], ◌∷◌, some, some_eq, some_of_bind, lookup, store as put,
  All, All_map, inl, inr, Option-cases,
}

-- the Ingress names the Service: as its default backend or in a path
abbrev pub Names : Ingress → ServiceBackend → Type 0
Names ing service =
    (default_service_of ing ≡ some service)
    ⊎ ((rule : IngressRule) × In rule ing.rules
        × (path : HttpIngressPath) × In path (paths_of rule)
        × (path.service ≡ some service))

-- ... as the path does
abbrev NamesPath : Ingress → HttpIngressPath → Type 0
NamesPath ing path = (service : ServiceBackend) → path.service ≡ some service → Names ing service

module _ (ext : Externals) (heap : Heap) (store : Store) (cfg : Options) where
  module _ (ing : Ingress) where
    -- the upstream of the path is there
    abbrev pub Covers : Upstreams → HttpIngressPath → Type 0
    Covers w path =
        (service : ServiceBackend)
        → path.service ≡ some service
        → HasKey (upstream_name ing.namespace (some service)) w

    -- the Service of the default backend has an upstream
    abbrev pub CoversDefault : Upstreams → Type 0
    CoversDefault w =
        (service : ServiceBackend)
        → default_service_of ing ≡ some service
        → HasKey (upstream_name ing.namespace (some service)) w

  -- the Services of the Ingress have upstreams
  abbrev pub CoversIngress : Upstreams → Ingress → Type 0
  CoversIngress w ing =
      CoversDefault ing w × All (λ rule. All (Covers ing w) (paths_of rule)) ing.rules

  module _ (P : String → Backend → Type 0) where
    -- the upstreams that an Ingress makes have the property
    abbrev pub Makes : Ingress → Type 0
    Makes ing =
        (anns : ParsedAnnotations) (service : ServiceBackend)
        → Names ing service
        → ing.parsed_annotations ≡ some anns
        → P (upstream_name ing.namespace (some service))
            (path_upstream ext heap store cfg ing.namespace anns service)
          × P (upstream_name ing.namespace (some service))
              (default_backend_upstream ext heap store cfg ing.namespace anns service)

    Grows-Covers :
        (ing : Ingress) {u w : Upstreams}
        → Grows P u w
        → (p : HttpIngressPath) → Covers ing u p
        → Covers ing w p
    Grows-Covers ing g p c s h = Grows-HasKey (upstream_name ing.namespace (some s)) g (c s h)

    module _ (ing : Ingress) (makes : Makes ing) where
      create_for_service-Grows :
          (service : ServiceBackend) (u w : Upstreams)
          → Names ing service
          → create_for_service ext heap store cfg ing service u ≡ some w
          → Grows P u w × HasKey (upstream_name ing.namespace (some service)) w
      unfolding create_for_service
      create_for_service-Grows service u w names h =
          let name = upstream_name ing.namespace (some service) in
          elim (Option-cases (lookup name u)) [
            | inr (b, found) ↦
                subst (λ v. Grows P u v × HasKey name v)
                  (some_eq (rw (found, create_for_service) at h)) (Grows.same, (b, found))
            | inl missing ↦
                let (anns, parsed, k) =
                  some_of_bind ing.parsed_annotations (λ anns. _) w
                    (rw (missing, create_for_service) at h) in
                let b = path_upstream ext heap store cfg ing.namespace anns service in
                subst (λ v. Grows P u v × HasKey name v) (some_eq k)
                  (
                    Grows.added name b (makes anns service names parsed).0 Grows.same,
                    stored-HasKey name b u,
                  )
          ]

      create_for_path-Grows :
          (path : HttpIngressPath) (u w : Upstreams)
          → NamesPath ing path
          → create_for_path ext heap store cfg ing path u ≡ some w
          → Grows P u w × Covers ing w path
      unfolding create_for_path
      create_for_path-Grows path u w names h = elim (Option-cases path.service) [
        | inl none_named ↦
            let e : u ≡ w = some_eq (rw none_named at h) in
            (subst (Grows P u) e Grows.same, λ s k. let l = sym none_named ∙ k in cc)
        | inr (s, named) ↦
            let (g, k) = create_for_service-Grows s u w (names s named) (rw named at h) in
            (
              g,
              λ t l.
                  subst (λ t. HasKey (upstream_name ing.namespace (some t)) w)
                    (some_eq (sym named ∙ l)) k,
            )
      ]

      create_for_paths-Grows :
          (paths : List HttpIngressPath) (u w : Upstreams)
          → All (NamesPath ing) paths
          → create_for_paths ext heap store cfg ing paths u ≡ some w
          → Grows P u w × All (Covers ing w) paths
      unfolding create_for_paths
      create_for_paths-Grows [] u w names h = (subst (Grows P u) (some_eq h) Grows.same, tt)
      create_for_paths-Grows (p ∷ ps) u w names h =
          let (v, k, l) =
            some_of_bind (create_for_path ext heap store cfg ing p u)
              (create_for_paths ext heap store cfg ing ps) w h in
          let (g, c) = create_for_path-Grows p u v names.0 k in
          let (i, d) = create_for_paths-Grows ps v w names.1 l in
          (then_Grows g i, (Grows-Covers ing i p c, d))

      create_for_rules-Grows :
          (rules : List IngressRule) (u w : Upstreams)
          → All (λ rule. All (NamesPath ing) (paths_of rule)) rules
          → create_for_rules ext heap store cfg ing rules u ≡ some w
          → Grows P u w × All (λ rule. All (Covers ing w) (paths_of rule)) rules
      unfolding create_for_rules
      create_for_rules-Grows [] u w names h = (subst (Grows P u) (some_eq h) Grows.same, tt)
      create_for_rules-Grows (r ∷ rs) u w names h =
          let (v, k, l) =
            some_of_bind (create_for_paths ext heap store cfg ing (paths_of r) u)
              (create_for_rules ext heap store cfg ing rs) w h in
          let (g, c) = create_for_paths-Grows (paths_of r) u v names.0 k in
          let (i, d) = create_for_rules-Grows rs v w names.1 l in
          (then_Grows g i, (All_map (Grows-Covers ing i) (paths_of r) c, d))

      create_default-Grows :
          (u w : Upstreams)
          → create_default ext heap store cfg ing u ≡ some w
          → Grows P u w × CoversDefault ing w
      unfolding create_default
      create_default-Grows u w h = elim (Option-cases (default_service_of ing)) [
        | inl none_named ↦
            let e : u ≡ w = some_eq (rw (none_named, create_default) at h) in
            (subst (Grows P u) e Grows.same, λ s k. let l = sym none_named ∙ k in cc)
        | inr (s, named) ↦
            let (anns, parsed, k) =
              some_of_bind ing.parsed_annotations (λ anns. _) w (rw (named, create_default) at h) in
            let name = upstream_name ing.namespace (some s) in
            let b = default_backend_upstream ext heap store cfg ing.namespace anns s in
            subst (λ v. Grows P u v × CoversDefault ing v) (some_eq k)
              (
                Grows.added name b (makes anns s (inl named) parsed).1 Grows.same,
                λ t l.
                    subst (λ t. HasKey (upstream_name ing.namespace (some t)) (put name b u))
                      (some_eq (sym named ∙ l)) (stored-HasKey name b u),
              )
      ]

    all_named : (ing : Ingress) → All (λ rule. All (NamesPath ing) (paths_of rule)) ing.rules
    all_named ing =
        All_of_In _ ing.rules
          (λ rule i. All_of_In _ (paths_of rule) (λ path j service e. inr (rule, i, path, j, e)))

    Grows-CoversIngress :
        {u w : Upstreams}
        → Grows P u w
        → (ing : Ingress) → CoversIngress u ing
        → CoversIngress w ing
    Grows-CoversIngress {u} {w} g ing (d, c) = (
      λ s h. Grows-HasKey (upstream_name ing.namespace (some s)) g (d s h),
      All_map (λ rule. All_map (Grows-Covers ing g) (paths_of rule)) ing.rules c,
    )

    pub create_for_ingresses-Grows :
        (ings : List Ingress) (u w : Upstreams)
        → All Makes ings
        → create_for_ingresses ext heap store cfg ings u ≡ some w
        → Grows P u w × All (CoversIngress w) ings
    unfolding create_for_ingresses
    create_for_ingresses-Grows [] u w m h = (subst (Grows P u) (some_eq h) Grows.same, tt)
    create_for_ingresses-Grows (ing ∷ ings) u w makes h =
        let (v, k, l) = some_of_bind (create_default ext heap store cfg ing u) (λ v. _) w h in
        let (x, m, n) =
          some_of_bind (create_for_rules ext heap store cfg ing ing.rules v)
            (create_for_ingresses ext heap store cfg ings) w l in
        let (g, d) = create_default-Grows ing makes.0 u v k in
        let (i, c) = create_for_rules-Grows ing makes.0 ing.rules v x (all_named ing) m in
        let (j, e) = create_for_ingresses-Grows ings x w makes.1 n in
        (
          then_Grows g (then_Grows i j),
          (
            Grows-CoversIngress j ing
                (λ s h. Grows-HasKey (upstream_name ing.namespace (some s)) i (d s h), c),
            e,
          ),
        )

    pub create_upstreams-Grows :
        (ings : List Ingress) (du : Backend) (w : Upstreams)
        → All Makes ings
        → create_upstreams ext heap store cfg ings du ≡ some w
        → Grows P ((def_upstream_name, du) ∷ []) w × All (CoversIngress w) ings
    unfolding create_upstreams
    create_upstreams-Grows ings du w makes h =
        create_for_ingresses-Grows ings ((def_upstream_name, du) ∷ []) w makes h

  pub Makes-IsNew : (ing : Ingress) → Makes IsNew ing
  Makes-IsNew ing anns service _ _ = (
    path_upstream-IsNew ext heap store cfg ing.namespace anns service,
    default_backend_upstream-IsNew ext heap store cfg ing.namespace anns service,
  )

  -- createUpstreams, if it does not panic and the default upstream has its name and no alternatives,
  -- returns a map with the default upstream and an upstream for the Service of every path and of
  -- every default backend of the Ingresses; each stands under its name and has no alternatives.
  pub create_upstreams_covers :
      (ings : List Ingress) (du : Backend) (w : Upstreams)
      → IsNew def_upstream_name du
      → create_upstreams ext heap store cfg ings du ≡ some w
      → All (λ e. IsNew e.0 e.1) w × HasKey def_upstream_name w × All (CoversIngress w) ings
  unfolding put
  create_upstreams_covers ings du w n h =
      let (g, c) =
        create_upstreams-Grows IsNew ings du w (All_all (λ ing. Makes-IsNew ing) ings) h in
      (
        Grows-All g (n, tt),
        Grows-HasKey def_upstream_name g (stored-HasKey def_upstream_name du []),
        c,
      )
