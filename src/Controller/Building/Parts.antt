-- ===== src/Controller/Building/Parts.antt =====
-- What a run of `getBackendServers` goes through.
use panda_k8s.Annotations.Parsed.{ParsedAnnotations}
use panda_k8s.Api.Backends.{Backend}
use panda_k8s.Api.Heap.{Heap}
use panda_k8s.Controller.BackendServers.{Backends, add_rules, add_ingresses}
use panda_k8s.Controller.Building.{
  canary_ingresses, merge_canaries, non_canary_ingress_exists, sorted_result, get_backend_servers,
}
use panda_k8s.Controller.Canary.{Upstreams, def_upstream_name}
use panda_k8s.Controller.CreateServers.{create_servers}
use panda_k8s.Controller.CreateUpstreams.{
  get_default_upstream, default_upstream_of, create_upstreams,
}
use panda_k8s.Controller.CreateUpstreams.Built.{IsNew}
use panda_k8s.Controller.CreateUpstreams.Canaries.{path_upstream_serves}
use panda_k8s.Controller.CreateUpstreams.Grows.{
  Names, CoversIngress, Makes, Makes-IsNew, create_upstreams-Grows,
}
use panda_k8s.Controller.CreateUpstreams.Total.{get_default_upstream-IsNew}
use panda_k8s.Controller.Drafts.{Draft, Drafts, annotations_of, drop_snippet_directives}
use panda_k8s.Controller.Store.{Store, Options}
use panda_k8s.Api.Ingresses.{ServiceBackend}
use panda_k8s.Controller.Upstreams.{upstream_name}
use panda_k8s.Externals.{Externals}
use panda_k8s.Kube.{Service, ServicePort}
use panda_k8s.Pointers.{Ptr, at}
use panda_k8s.Prelude.{
  In, All_of_In, ◌≢◌, true, ℕ, String, false, ◌≡◌, refl, sym, subst, ◌∙◌, List, [], ◌∷◌, some,
  some_eq, some_of_bind, is_empty, map, All, All-map, All_of_map, HasKey, stored-HasKey,
  store as put, Grows-HasKey, Grows-All, if_holds, inl, inr, Bool-cases, Option-cases,
  if◌then◌else◌,
}
use panda_k8s.StringSets.{StringSets}

module _ (ext : Externals) (heap : Heap) (store : Store) (cfg : Options) (sets : StringSets) where
  -- The Ingress is no canary.
  abbrev pub NoCanary : ℕ → Type 0
  NoCanary n =
      (anns : ParsedAnnotations)
      → (heap.ingress n).parsed_annotations ≡ some anns
      → anns.canary.enabled ≡ false

  -- The Ingress is a canary.
  abbrev pub IsCanary : ℕ → Type 0
  IsCanary n =
      (anns : ParsedAnnotations) × ((heap.ingress n).parsed_annotations ≡ some anns)
      × (anns.canary.enabled ≡ true)

  -- No canary names a Service that has the upstream.
  abbrev pub Unclaimed : List ℕ → String → Type 0
  Unclaimed ns name =
      (n : ℕ) (service : ServiceBackend)
      → In n ns
      → IsCanary n
      → Names (heap.ingress n) service
      → upstream_name (heap.ingress n).namespace (some service) ≢ name

  -- A backend as it is created, which has a server unless a canary names it.
  abbrev pub IsPrimary : List ℕ → String → Backend → Type 0
  IsPrimary ns name b = IsNew name b × (Unclaimed ns name → b.no_server ≡ false)

  -- Dropping the snippets makes no canary.
  pub annotations_of-NoCanary :
      (n : ℕ) (anns : ParsedAnnotations)
      → NoCanary n
      → annotations_of store (heap.ingress n) ≡ some anns
      → anns.canary.enabled ≡ false
  unfolding annotations_of drop_snippet_directives
  annotations_of-NoCanary n anns primary h =
      let (a, parsed, e) = some_of_bind (heap.ingress n).parsed_annotations (λ a. _) anns h in
      subst (λ (x : ParsedAnnotations). x.canary.enabled ≡ false) (some_eq e)
        (if_holds (λ (x : ParsedAnnotations). x.canary.enabled ≡ false)
          store.allow_snippet_annotations a (drop_snippet_directives a)
          (λ allowed. primary a parsed) (λ dropped. primary a parsed))

  Makes-IsPrimary :
      (ns : List ℕ) (n : ℕ) → In n ns → Makes ext heap store cfg (IsPrimary ns) (heap.ingress n)
  Makes-IsPrimary ns n i anns service named parsed =
      let (a, b) = Makes-IsNew ext heap store cfg (heap.ingress n) anns service named parsed in
      elim (Bool-cases anns.canary.enabled) [
        | inl on ↦ (
          (a, λ free. absurd (free n service i (anns, parsed, on) named refl)),
          (b, λ free. absurd (free n service i (anns, parsed, on) named refl)),
        )
        | inr off ↦
            let (c, d) =
              path_upstream_serves ext heap store cfg (heap.ingress n).namespace anns service off in
            ((a, λ free. c), (b, λ free. d))
      ]

  default_upstream_of_serves :
      (p : Ptr Service) (svc : Service) (ports : List ServicePort) (du : Backend)
      → default_upstream_of ext heap store cfg p svc ports ≡ some du
      → du.no_server ≡ false
  unfolding default_upstream_of
  default_upstream_of_serves p svc [] du h = cc
  default_upstream_of_serves p svc (port ∷ ports) du h =
      subst (λ (x : Backend). x.no_server ≡ false) (some_eq h) refl

  get_default_upstream_serves :
      (du : Backend)
      → get_default_upstream ext heap store cfg ≡ some du
      → IsNew def_upstream_name du × (du.no_server ≡ false)
  unfolding get_default_upstream
  get_default_upstream_serves du h = (
    (get_default_upstream-IsNew ext heap store cfg du h).0,
    elim (Bool-cases (is_empty cfg.default_service)) [
      | inl unset ↦ subst (λ (x : Backend). x.no_server ≡ false) (some_eq (rw unset at h)) refl
      | inr set ↦ elim (Option-cases (store.get_service cfg.default_service)) [
        | inl missing ↦
            subst (λ (x : Backend). x.no_server ≡ false) (some_eq (rw (set, missing) at h)) refl
        | inr (n, found) ↦
            default_upstream_of_serves (at n) (heap.service n) (heap.service n).ports du
              (rw (set, found) at h)
      ]
    ],
  )

  -- Ingresses that are gone through have annotations.
  pub add_ingresses_annotated :
      (ns : List ℕ) (b c : Backends)
      → add_ingresses heap store ns b ≡ some c
      → All
          (λ n. (anns : ParsedAnnotations) × (annotations_of store (heap.ingress n) ≡ some anns))
          ns
  unfolding add_ingresses
  add_ingresses_annotated [] b c h = tt
  add_ingresses_annotated (n ∷ ns) b c h =
      let (anns, e, i) = some_of_bind (annotations_of store (heap.ingress n)) (λ anns. _) c h in
      let (m, _, k) =
        some_of_bind
          (add_rules store.proxy_ssl_location_only n (heap.ingress n) anns (heap.ingress n).rules b)
          (add_ingresses heap store ns) c i in
      ((anns, e), add_ingresses_annotated ns m c k)

  -- Without canaries nothing is merged.
  pub unmerged :
      (ns : List ℕ) (b : Backends)
      → canary_ingresses ext heap store cfg sets ns ≡ []
      → (if non_canary_ingress_exists ext heap store cfg sets ns
            (canary_ingresses ext heap store cfg sets ns)
          then merge_canaries ext heap store cfg sets b.servers
              (canary_ingresses ext heap store cfg sets ns)
              b.upstreams
          else some b.upstreams)
        ≡ some b.upstreams
  unfolding merge_canaries
  unmerged ns b none = elim (Bool-cases (non_canary_ingress_exists ext heap store cfg sets ns [])) [
    | inl there ↦ rw none (rw there refl)
    | inr alone ↦ rw none (rw alone refl)
  ]

  -- the upstreams and servers before the Ingresses are gone through, and after
  pub record Parts (ns : List ℕ) (backends : List Backend) (drafts : List Draft) : Type 0 where
    pub du : Backend
    pub upstreams : Upstreams
    pub servers : Drafts
    pub last : Backends
    pub merged : Upstreams
    pub created : create_servers ext heap store cfg sets ns upstreams du ≡ some servers
    pub added :
        add_ingresses heap store ns (record { servers = servers; upstreams = upstreams })
        ≡ some last
    pub sorted : sorted_result ext heap store cfg sets merged last.servers ≡ (backends, drafts)
    pub merged_none : canary_ingresses ext heap store cfg sets ns ≡ [] → merged ≡ last.upstreams
    pub primary : All (λ e. IsPrimary ns e.0 e.1) upstreams
    pub covered : All (λ n. CoversIngress ext heap store cfg upstreams (heap.ingress n)) ns
    pub default_there : HasKey def_upstream_name upstreams
    pub default_new : IsNew def_upstream_name du

  pub get_backend_servers-Parts :
      (ns : List ℕ) (backends : List Backend) (drafts : List Draft)
      → get_backend_servers ext heap store cfg sets ns ≡ some (backends, drafts)
      → Parts ns backends drafts
  unfolding get_backend_servers merge_canaries put
  get_backend_servers-Parts ns backends drafts h =
      let (du, d, i) =
        some_of_bind (get_default_upstream ext heap store cfg) (λ du. _) (backends, drafts) h in
      let (upstreams, u, j) =
        some_of_bind (create_upstreams ext heap store cfg (map heap.ingress ns) du) (λ upstreams. _)
          (backends, drafts) i in
      let (servers, s, k) =
        some_of_bind (create_servers ext heap store cfg sets ns upstreams du) (λ servers. _)
          (backends, drafts) j in
      let (b, a, l) =
        some_of_bind
          (add_ingresses heap store ns (record { servers = servers; upstreams = upstreams }))
          (λ b. _) (backends, drafts) k in
      let (merged, m, o) =
        some_of_bind
          (if non_canary_ingress_exists ext heap store cfg sets ns
              (canary_ingresses ext heap store cfg sets ns)
            then merge_canaries ext heap store cfg sets b.servers
                (canary_ingresses ext heap store cfg sets ns) b.upstreams
            else some b.upstreams)
          (λ merged. _) (backends, drafts) l in
      let (p, q) = get_default_upstream_serves du d in
      let (g, c) =
        create_upstreams-Grows ext heap store cfg (IsPrimary ns) (map heap.ingress ns) du upstreams
          (All-map heap.ingress (Makes ext heap store cfg (IsPrimary ns)) ns
            (All_of_In _ ns (Makes-IsPrimary ns)))
          u in
      record {
        du = du;
        upstreams = upstreams;
        servers = servers;
        last = b;
        merged = merged;
        created = s;
        added = a;
        sorted = some_eq o;
        merged_none = λ none. some_eq (sym m ∙ unmerged ns b none);
        primary = Grows-All g ((p, λ free. q), tt);
        covered = All_of_map heap.ingress (CoversIngress ext heap store cfg upstreams) ns c;
        default_there = Grows-HasKey def_upstream_name g (stored-HasKey def_upstream_name du []);
        default_new = p;
      }
