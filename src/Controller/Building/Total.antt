-- ===== src/Controller/Building/Total.antt =====
-- When `getBackendServers` does not panic, without canary Ingresses.
use panda_k8s.Annotations.Parsed.{ParsedAnnotations}
use panda_k8s.Api.Backends.{Backend}
use panda_k8s.Annotations.SessionAffinity
use panda_k8s.Api.Heap.{Heap}
use panda_k8s.Controller.BackendServers.{add_ingresses}
use panda_k8s.Api.Ingresses.{Ingress, HttpIngressPath}
use panda_k8s.Controller.BackendServers.Total.{HasUpstreams, add_ingresses_total}
use panda_k8s.Controller.Building.{
  canary_ingresses, merge_canaries, sorted_result, get_backend_servers,
}
use panda_k8s.Controller.Building.Parts.{unmerged}
use panda_k8s.Controller.CreateServers.{create_servers}
use panda_k8s.Controller.CreateServers.Complete.{create_servers-IsServerAll}
use panda_k8s.Controller.CreateServers.Total.{create_servers_total}
use panda_k8s.Controller.CreateUpstreams.{
  get_default_upstream, default_upstream_of, create_upstreams, is_no_list, paths_of,
}
use panda_k8s.Controller.CreateUpstreams.Built.{IsNew}
use panda_k8s.Controller.CreateUpstreams.Cookies.{IsHolding, create_upstreams-IsHolding}
use panda_k8s.Controller.CreateUpstreams.Grows.{CoversIngress, create_upstreams_covers}
use panda_k8s.Controller.CreateUpstreams.Total.{
  HasAnnotations, create_upstreams_total, get_default_upstream-IsNew,
}
use panda_k8s.Controller.Drafts.{Draft, annotations_of, drop_snippet_directives}
use panda_k8s.Controller.Store.{Store, Options}
use panda_k8s.Api.Ingresses.{ServiceBackend}
use panda_k8s.Controller.Canary.{Upstreams, def_upstream_name}
use panda_k8s.Controller.Upstreams.{upstream_name}
use panda_k8s.Externals.{Externals}
use panda_k8s.Kube.{Service, ServicePort}
use panda_k8s.Pointers.{Ptr, at}
use panda_k8s.Prelude.{
  String, ◌==◌, ◌≢◌, ◌∙◌, true, subst, some_eq, some_of_bind, if_holds, lookup-All, All-In,
  All_of_In, ℕ, false, ◌≡◌, refl, List, [], ◌∷◌, some, bind_total, is_empty, map, All, All_map,
  All-map, All_of_map, inl, inr, Bool-cases, Option-cases, ◌>>=◌, ap,
}
use panda_k8s.StringSets.{StringSets}

module _ (ext : Externals) (heap : Heap) (store : Store) (cfg : Options) (sets : StringSets) where
  -- The Service of the default backend has a port, if it is there.
  abbrev pub DefaultHasPort : Type 0
  DefaultHasPort =
      (n : ℕ)
      → store.get_service cfg.default_service ≡ some n
      → is_no_list (heap.service n).ports ≡ false

  default_upstream_of_total :
      (p : Ptr Service) (svc : Service) (ports : List ServicePort)
      → is_no_list ports ≡ false
      → (du : Backend) × (default_upstream_of ext heap store cfg p svc ports ≡ some du)
  unfolding default_upstream_of
  default_upstream_of_total p svc [] h = cc
  default_upstream_of_total p svc (port ∷ ports) h = (_, refl)

  get_default_upstream_total :
      DefaultHasPort → (du : Backend) × (get_default_upstream ext heap store cfg ≡ some du)
  unfolding get_default_upstream
  get_default_upstream_total h = elim (Bool-cases (is_empty cfg.default_service)) [
    | inl unset ↦ rw unset (_, refl)
    | inr set ↦ elim (Option-cases (store.get_service cfg.default_service)) [
      | inl missing ↦ rw (set, missing) (_, refl)
      | inr (n, found) ↦
          rw (set, found)
            (default_upstream_of_total (at n) (heap.service n) (heap.service n).ports (h n found))
    ]
  ]

  annotated :
      (n : ℕ)
      → HasAnnotations (heap.ingress n)
      → (anns : ParsedAnnotations) × (annotations_of store (heap.ingress n) ≡ some anns)
  unfolding annotations_of
  annotated n (anns, h) = rw h (_, refl)

  -- The upstream of the path has not the name of the default upstream.
  abbrev pub Elsewhere : String → HttpIngressPath → Type 0
  Elsewhere namespace path =
      (service : ServiceBackend)
      → path.service ≡ some service
      → upstream_name namespace (some service) ≢ def_upstream_name

  -- The Ingress does not have the cookie affinity, or no path of it has a Service whose upstream has
  -- the name of the default upstream.
  abbrev pub NoDefaultCookie : Ingress → Type 0
  NoDefaultCookie ing =
      (anns : ParsedAnnotations)
      → ing.parsed_annotations ≡ some anns
      → (anns.session_affinity.type == "cookie") ≡ true
      → All (λ rule. All (Elsewhere ing.namespace) (paths_of rule)) ing.rules

  -- Dropping the snippets keeps the affinity.
  annotations_of_affinity :
      (ing : Ingress) (anns : ParsedAnnotations)
      → annotations_of store ing ≡ some anns
      → (parsed : ParsedAnnotations) × (ing.parsed_annotations ≡ some parsed)
        × (parsed.session_affinity ≡ anns.session_affinity)
  unfolding annotations_of drop_snippet_directives
  annotations_of_affinity ing anns h =
      let (a, parsed, e) = some_of_bind ing.parsed_annotations (λ a. _) anns h in
      (
        a,
        parsed,
        subst (λ (x : ParsedAnnotations). a.session_affinity ≡ x.session_affinity) (some_eq e)
            (if_holds (λ (x : ParsedAnnotations). a.session_affinity ≡ x.session_affinity)
              store.allow_snippet_annotations a (drop_snippet_directives a) (λ allowed. refl)
              (λ dropped. refl)),
      )

  -- Every path has its upstream.
  upstream_there :
      (ing : Ingress) (anns : ParsedAnnotations) (u : Upstreams)
      → NoDefaultCookie ing
      → annotations_of store ing ≡ some anns
      → All (λ e. IsHolding e.0 e.1) u
      → CoversIngress ext heap store cfg u ing
      → HasUpstreams anns u ing
  upstream_there ing anns u plain h holds (_, covers) =
      let (a, parsed, same) = annotations_of_affinity ing anns h in
      All_of_In _ ing.rules (λ rule i. All_of_In _ (paths_of rule) (λ path j service named.
        let (b, found) =
          All-In _ path (paths_of rule) (All-In _ rule ing.rules covers i) j service named in
        (
          b,
          found,
          λ cookie.
              lookup-All IsHolding (upstream_name ing.namespace (some service)) b u holds found (
                All-In _ path (paths_of rule)
                  (All-In _ rule ing.rules
                    (plain a parsed
                      (ap (λ (c : SessionAffinity.Config). c.type == "cookie") same ∙ cookie))
                    i)
                  j service named),
        )))

  upstreams_there :
      (ns : List ℕ) (du : Backend) (u : Upstreams)
      → All (λ n. NoDefaultCookie (heap.ingress n)) ns
      → IsNew def_upstream_name du
      → create_upstreams ext heap store cfg (map heap.ingress ns) du ≡ some u
      → All
          (λ n.
            (anns : ParsedAnnotations)
            → annotations_of store (heap.ingress n) ≡ some anns
            → HasUpstreams anns u (heap.ingress n))
          ns
  upstreams_there ns du u plain new h =
      let covered =
        All_of_map heap.ingress (CoversIngress ext heap store cfg u) ns
          (create_upstreams_covers ext heap store cfg (map heap.ingress ns) du u new h).2 in
      All_of_In _ ns (λ n i anns k.
        upstream_there (heap.ingress n) anns u (All-In _ n ns plain i) k
          (create_upstreams-IsHolding ext heap store cfg (map heap.ingress ns) du u h)
          (All-In _ n ns covered i))

  -- Of Ingresses whose annotations have been parsed, without a canary among them, getBackendServers
  -- returns servers and backends and does not panic, if the Service of the default backend has a port
  -- or is not there, and if no path of an Ingress with the cookie affinity has a Service whose
  -- upstream has the name of the default upstream.
  pub get_backend_servers_total :
      (ns : List ℕ)
      → DefaultHasPort
      → All (λ n. HasAnnotations (heap.ingress n)) ns
      → All (λ n. NoDefaultCookie (heap.ingress n)) ns
      → canary_ingresses ext heap store cfg sets ns ≡ []
      → (result : List Backend × List Draft) × (get_backend_servers ext heap store cfg sets ns
          ≡ some result)
  unfolding get_backend_servers merge_canaries
  get_backend_servers_total ns port parsed plain none =
      bind_total (get_default_upstream ext heap store cfg) (λ du. _)
        (get_default_upstream_total port)
        (λ du d.
          bind_total (create_upstreams ext heap store cfg (map heap.ingress ns) du) (λ upstreams. _)
            (create_upstreams_total ext heap store cfg (map heap.ingress ns) du
              (All-map heap.ingress HasAnnotations ns parsed))
            (λ upstreams u.
              bind_total (create_servers ext heap store cfg sets ns upstreams du) (λ servers. _)
                (create_servers_total ext heap store cfg sets ns upstreams du parsed)
                (λ servers s.
                  bind_total
                    (add_ingresses heap store ns
                      (record { servers = servers; upstreams = upstreams }))
                    (λ b. _)
                    (add_ingresses_total heap store ns
                      (record { servers = servers; upstreams = upstreams })
                      (create_servers-IsServerAll ext heap store cfg sets ns upstreams du servers
                        s).2
                      (All_map annotated ns parsed)
                      (upstreams_there ns du upstreams plain
                        (get_default_upstream-IsNew ext heap store cfg du d).0 u))
                    (λ b a. (
                      sorted_result ext heap store cfg sets b.upstreams b.servers,
                      ap
                          (λ m. m >>= (λ merged.
                            some (sorted_result ext heap store cfg sets merged b.servers)))
                          (unmerged ext heap store cfg sets ns b none),
                    )))))
