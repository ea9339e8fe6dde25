-- ===== src/Controller/BackendServers/Total.antt =====
-- When the loops of `getBackendServers` over the Ingresses do not panic.
use panda_k8s.Annotations.Parsed.{ParsedAnnotations}
use panda_k8s.Annotations.SessionAffinity
use panda_k8s.Api.Backends.{Backend, CookieSessionAffinity, SessionAffinityConfig}
use panda_k8s.Api.Heap.{Heap}
use panda_k8s.Api.Ingresses.{Ingress, IngressRule, HttpIngressPath, ServiceBackend}
use panda_k8s.Controller.BackendServers.{
  with_auth, with_cookie, with_affinity, with_upstream, Built, add_path, add_paths, Backends,
  server_key, add_rule, add_rules, add_ingresses,
}
use panda_k8s.Controller.BackendServers.Covered.{KeepsUpstreams, KeepsServers, add_path-Adds}
use panda_k8s.Controller.BackendServers.Located.{add_rule-AddsRule, add_rules-AddsRules}
use panda_k8s.Controller.Canary.{Upstreams, def_server_name}
use panda_k8s.Controller.CreateUpstreams.{paths_of}
use panda_k8s.Controller.CreateUpstreams.Cookies.{HasLocations}
use panda_k8s.Controller.Drafts.{Draft, Drafts, annotations_of, host_of}
use panda_k8s.Controller.Store.{Store}
use panda_k8s.Controller.Upstreams.{upstream_name}
use panda_k8s.Sets.Slices.{elems}
use panda_k8s.Prelude.{
  if_holds, true, ◌∙◌, ℕ, String, Bool, ◌==◌, ◌≡◌, refl, List, [], ◌∷◌, some, bind_total, lookup,
  store as put, if◌then◌else◌, HasKey, All, All_map, inl, inr, Option-cases,
}

-- the Service of the path has an upstream, with a map of cookies if the annotations need it
abbrev pub HasUpstream : ParsedAnnotations → String → Upstreams → HttpIngressPath → Type 0
HasUpstream anns namespace u path =
    (service : ServiceBackend)
    → path.service ≡ some service
    → (b : Backend) × (lookup (upstream_name namespace (some service)) u ≡ some b)
      × ((anns.session_affinity.type == "cookie") ≡ true → HasLocations b)

-- ... those of all paths of the Ingress
abbrev pub HasUpstreams : ParsedAnnotations → Upstreams → Ingress → Type 0
HasUpstreams anns u ing =
    All (λ rule. All (HasUpstream anns ing.namespace u) (paths_of rule)) ing.rules

kept_upstream :
    (anns : ParsedAnnotations) (namespace : String) (u w : Upstreams)
    → KeepsUpstreams u w
    → (path : HttpIngressPath) → HasUpstream anns namespace u path
    → HasUpstream anns namespace w path
kept_upstream anns namespace u w k path h service named =
    let (b, found, held) = h service named in
    let (c, there, _, l) = k (upstream_name namespace (some service)) b found in
    (c, there, λ cookie. l (held cookie))

-- The affinity is set if the map is there, or is not needed.
with_affinity_total :
    (a : SessionAffinity.Config) (path : String) (hosts : List String) (s : SessionAffinityConfig)
    → ((a.type == "cookie") ≡ true
        → (locs : List (String × List String)) × (s.cookie_session_affinity.locations ≡ some locs))
    → (t : SessionAffinityConfig) × (with_affinity a path hosts s ≡ some t)
unfolding with_affinity with_cookie
with_affinity_total a path hosts s held =
    bind_total (with_cookie a path hosts s.cookie_session_affinity) (λ c. _)
      (if_holds (λ o. (c : CookieSessionAffinity) × (o ≡ some c)) (a.type == "cookie") _ _
        (λ cookie.
          bind_total s.cookie_session_affinity.locations (λ locs. _) (held cookie)
            (λ locs _. (_, refl)))
        (λ other. (_, refl)))
      (λ c _. (_, refl))

kept_default :
    (u w : Drafts) → KeepsServers u w → HasKey def_server_name u → HasKey def_server_name w
kept_default u w k (d, h) = let (e, i, _) = k.kept def_server_name d h in (e, i)

-- A server is chosen if the default one is there.
server_key_there :
    (host : String) (u : Drafts)
    → HasKey def_server_name u
    → (d : Draft) × (lookup (server_key host u) u ≡ some d)
server_key_there host u (d, h) = elim (Option-cases (lookup host u)) [
  | inl missing ↦ (d, rw (missing, server_key) h)
  | inr (e, found) ↦ (e, rw (found, server_key) found)
]

module _ (n : ℕ) (ing : Ingress) (anns : ParsedAnnotations) where
  with_upstream_total :
      (host : String) (path : HttpIngressPath) (name : String) (ups : Backend) (b : Built)
      → ((anns.session_affinity.type == "cookie") ≡ true → HasLocations ups)
      → (c : Built) × (with_upstream n anns host path name ups b ≡ some c)
  unfolding with_upstream
  with_upstream_total host path name ups b held =
      if_holds (λ o. (c : Built) × (o ≡ some c)) ups.no_server _ _ (λ serverless. (b, refl))
        (λ served.
          bind_total
            (with_affinity anns.session_affinity path.path (host ∷ elems b.draft.server.aliases)
              ups.session_affinity)
            (λ affinity. _)
            (with_affinity_total anns.session_affinity path.path
              (host ∷ elems b.draft.server.aliases) ups.session_affinity held)
            (λ affinity _. (_, refl)))

  add_path_total :
      (host : String) (path : HttpIngressPath) (b : Built)
      → HasUpstream anns ing.namespace b.upstreams path
      → (c : Built) × (add_path n ing anns host path b ≡ some c)
  unfolding add_path
  add_path_total host path b h = elim (Option-cases path.service) [
    | inl nothing ↦ (b, rw (nothing, add_path) refl)
    | inr (s, named) ↦
        let name = upstream_name ing.namespace (some s) in
        let (ups, found, held) = h s named in
        let (c, e) = with_upstream_total host path name ups b held in
        let opened : add_path n ing anns host path b ≡ with_upstream n anns host path name ups b =
          rw (named, add_path, found) refl in
        (c, opened ∙ e)
  ]

  add_paths_total :
      (host : String) (paths : List HttpIngressPath) (b : Built)
      → All (HasUpstream anns ing.namespace b.upstreams) paths
      → (c : Built) × (add_paths n ing anns host paths b ≡ some c)
  unfolding add_paths
  add_paths_total host [] b a = (b, refl)
  add_paths_total host (p ∷ ps) b a =
      bind_total (add_path n ing anns host p b) (add_paths n ing anns host ps)
        (add_path_total host p b a.0)
        (λ m e. add_paths_total host ps m (
          All_map
            (kept_upstream anns ing.namespace b.upstreams m.upstreams
              (add_path-Adds n ing anns host p b m e).0)
            ps a.1))

  module _ (location_only : Bool) where
    add_rule_total :
        (rule : IngressRule) (b : Backends)
        → HasKey def_server_name b.servers
        → All (HasUpstream anns ing.namespace b.upstreams) (paths_of rule)
        → (c : Backends) × (add_rule location_only n ing anns rule b ≡ some c)
    unfolding add_rule
    add_rule_total rule b default a =
        let key = server_key (host_of rule) b.servers in
        bind_total (lookup key b.servers) (λ d. _)
          (server_key_there (host_of rule) b.servers default)
          (λ d _.
            let e : Draft = record d { server = with_auth location_only anns d.server } in
            elim (Option-cases rule.http) [
              | inl nothing ↦ (
                if host_of rule == def_server_name
                    then record { servers = put key e b.servers; upstreams = b.upstreams }
                    else b,
                rw nothing refl,
              )
              | inr (paths, some_paths) ↦
                  let (built, k) =
                    add_paths_total (host_of rule) paths
                      (record { draft = e; upstreams = b.upstreams })
                      (rw (some_paths, paths_of) at a) in
                  (
                    record { servers = put key built.draft b.servers; upstreams = built.upstreams },
                    rw (some_paths, k) refl,
                  )
            ])

    add_rules_total :
        (rules : List IngressRule) (b : Backends)
        → HasKey def_server_name b.servers
        → All (λ rule. All (HasUpstream anns ing.namespace b.upstreams) (paths_of rule)) rules
        → (c : Backends) × (add_rules location_only n ing anns rules b ≡ some c)
    unfolding add_rules
    add_rules_total [] b default a = (b, refl)
    add_rules_total (r ∷ rs) b default a =
        bind_total (add_rule location_only n ing anns r b) (add_rules location_only n ing anns rs)
          (add_rule_total r b default a.0)
          (λ m e.
            let ((s, u), _) = add_rule-AddsRule location_only n ing anns r b m e in
            add_rules_total rs m (kept_default b.servers m.servers s default) (
              All_map
                (λ rule.
                  All_map (kept_upstream anns ing.namespace b.upstreams m.upstreams u)
                    (paths_of rule))
                rs a.1))

module _ (heap : Heap) (store : Store) where
  -- The loops do not panic on Ingresses with annotations, if the default server is there and every
  -- path with a Service has its upstream, with a map of cookies if the annotations need it.
  pub add_ingresses_total :
      (ns : List ℕ) (b : Backends)
      → HasKey def_server_name b.servers
      → All
          (λ n. (anns : ParsedAnnotations) × (annotations_of store (heap.ingress n) ≡ some anns))
          ns
      → All
          (λ n.
            (anns : ParsedAnnotations)
            → annotations_of store (heap.ingress n) ≡ some anns
            → HasUpstreams anns b.upstreams (heap.ingress n))
          ns
      → (c : Backends) × (add_ingresses heap store ns b ≡ some c)
  unfolding add_ingresses
  add_ingresses_total [] b default annotated a = (b, refl)
  add_ingresses_total (n ∷ ns) b default annotated a =
      bind_total (annotations_of store (heap.ingress n)) (λ anns. _) annotated.0
        (λ anns parsed.
          bind_total
            (add_rules store.proxy_ssl_location_only n (heap.ingress n) anns (heap.ingress n).rules
              b)
            (add_ingresses heap store ns)
            (add_rules_total n (heap.ingress n) anns store.proxy_ssl_location_only
              (heap.ingress n).rules b default (a.0 anns parsed))
            (λ m e.
              let ((s, u), _) =
                add_rules-AddsRules store.proxy_ssl_location_only n (heap.ingress n) anns
                  (heap.ingress n).rules b m e in
              add_ingresses_total ns m (kept_default b.servers m.servers s default) annotated.1 (
                All_map
                  (λ o c anns parsed.
                    All_map
                      (λ rule.
                        All_map
                          (kept_upstream anns (heap.ingress o).namespace b.upstreams m.upstreams u)
                          (paths_of rule))
                      (heap.ingress o).rules (c anns parsed))
                  ns a.1)))
