-- ===== src/Controller/BackendServers/Located.antt =====
-- After the loops of `getBackendServers` over the Ingresses, every path has its location.
use panda_k8s.Annotations.Parsed.{ParsedAnnotations}
use panda_k8s.Api.Backends.{Backend}
use panda_k8s.Api.Heap.{Heap}
use panda_k8s.Api.Ingresses.{Ingress, IngressRule, HttpIngressPath, ServiceBackend}
use panda_k8s.Controller.BackendServers.{
  with_auth, add_paths, Backends, server_key, add_rule, add_rules, add_ingresses,
}
use panda_k8s.Controller.Places.{nginx_path}
use panda_k8s.Controller.BackendServers.Covered.{
  KeepsUpstreams, add_paths-AddsAll, KeepsServers, KeepsServers-refl, KeepsServers-trans,
  put-KeepsServers, server_key_kept,
}
use panda_k8s.Controller.BackendServers.Paths.{HasPath}
use panda_k8s.Controller.Canary.{Upstreams, def_server_name}
use panda_k8s.Controller.Drafts.{Draft, Drafts, annotations_of, host_of}
use panda_k8s.Controller.CreateUpstreams.{paths_of}
use panda_k8s.Controller.Store.{Store}
use panda_k8s.Controller.Upstreams.{upstream_name}
use panda_k8s.Prelude.{
  ℕ, String, Bool, false, ◌==◌, ==_iff, ◌≡◌, refl, subst, ◌∙◌, List, [], ◌∷◌, some, some_eq,
  some_of_bind, lookup, lookup-store, store as put, All, All_map, if_holds, inl, inr, Option-cases,
}

-- the server of the host has a location for the path, unless the path's upstream has no server
abbrev pub Located : String → String → Upstreams → Drafts → HttpIngressPath → Type 0
Located namespace host u servers path =
    (service : ServiceBackend) (ups : Backend)
    → path.service ≡ some service
    → lookup (upstream_name namespace (some service)) u ≡ some ups
    → ups.no_server ≡ false
    → (d : Draft) × (lookup (server_key host servers) servers ≡ some d)
      × HasPath (nginx_path path) path.path_type d.locations

-- ... every path of a rule
abbrev pub LocatedRule : String → Upstreams → Drafts → IngressRule → Type 0
LocatedRule namespace u servers rule =
    All (Located namespace (host_of rule) u servers) (paths_of rule)

-- Both the servers and the upstreams stay.
abbrev pub Keeps : Backends → Backends → Type 0
Keeps b c = KeepsServers b.servers c.servers × KeepsUpstreams b.upstreams c.upstreams

Keeps-refl : (b : Backends) → Keeps b b
Keeps-refl b = (KeepsServers-refl b.servers, λ k u e. (u, e, refl, λ held. held))

Keeps-trans : (b c d : Backends) → Keeps b c → Keeps c d → Keeps b d
Keeps-trans b c d (s, u) (t, v) = (
  KeepsServers-trans b.servers c.servers d.servers s t,
  λ k x e.
      let (y, i, j, p) = u k x e in
      let (z, k', l, q) = v k y i in (z, k', l ∙ j, λ held. q (p held)),
)

-- Later rounds keep the locations, and earlier ones the upstreams.
Located-later :
    (namespace host : String) (u : Upstreams) (v w : Drafts) (path : HttpIngressPath)
    → KeepsServers v w
    → Located namespace host u v path
    → Located namespace host u w path
Located-later namespace host u v w path k l s ups e f g =
    let (d, i, j) = l s ups e f g in
    let (x, y, z) = k.kept (server_key host v) d i in
    (x, rw (server_key_kept host v w k) y, z (nginx_path path) path.path_type j)

Located-earlier :
    (namespace host : String) (u u' : Upstreams) (w : Drafts) (path : HttpIngressPath)
    → KeepsUpstreams u u'
    → Located namespace host u' w path
    → Located namespace host u w path
Located-earlier namespace host u u' w path k l s ups e f g =
    let (v, i, j, _) = k (upstream_name namespace (some s)) ups f in l s v e i (j ∙ g)

module _ (location_only : Bool) (n : ℕ) (ing : Ingress) (anns : ParsedAnnotations) where
  -- what a rule does
  abbrev AddsRule : IngressRule → Backends → Backends → Type 0
  AddsRule rule b c = Keeps b c × LocatedRule ing.namespace b.upstreams c.servers rule

  pub add_rule-AddsRule :
      (rule : IngressRule) (b c : Backends)
      → add_rule location_only n ing anns rule b ≡ some c
      → AddsRule rule b c
  unfolding add_rule with_auth
  add_rule-AddsRule rule b c h =
      let key = server_key (host_of rule) b.servers in
      let (d, i, j) = some_of_bind (lookup key b.servers) (λ d. _) c h in
      let e : Draft = record d { server = with_auth location_only anns d.server } in
      elim (Option-cases rule.http) [
        | inl nothing ↦ subst (AddsRule rule b) (some_eq (rw nothing at j)) (
            if_holds (AddsRule rule b) (host_of rule == def_server_name) _ b
              (λ default. (
                (
                  put-KeepsServers key d e b.servers i (λ p t x. x),
                  λ k u f. (u, f, refl, λ held. held),
                ),
                rw (nothing, paths_of, All) tt,
              ))
              (λ other. (Keeps-refl b, rw (nothing, paths_of, All) tt)))
        | inr (paths, some_paths) ↦
            let (built, k, l) =
              some_of_bind
                (add_paths n ing anns (host_of rule) paths
                  (record { draft = e; upstreams = b.upstreams }))
                (λ built. _) c (rw some_paths at j) in
            let (u, p, a) =
              add_paths-AddsAll n ing anns (host_of rule) paths
                (record { draft = e; upstreams = b.upstreams }) built k in
            let kept = put-KeepsServers key d built.draft b.servers i p in
            let at_key : lookup key (put key built.draft b.servers) ≡ some built.draft =
              rw (lookup-store key key built.draft b.servers, (==_iff key key).1 refl) refl in
            subst (AddsRule rule b) (some_eq l) (
              (kept, u),
              rw (some_paths, paths_of)
                  (All_map
                    (λ path x s ups f g o. (
                      built.draft,
                      rw
                          (server_key_kept (host_of rule) b.servers (put key built.draft b.servers)
                            kept)
                          at_key,
                      x s ups f g o,
                    ))
                    paths a),
            )
      ]

  pub add_rules-AddsRules :
      (rules : List IngressRule) (b c : Backends)
      → add_rules location_only n ing anns rules b ≡ some c
      → Keeps b c × All (LocatedRule ing.namespace b.upstreams c.servers) rules
  unfolding add_rules
  add_rules-AddsRules [] b c h =
      subst (λ c. Keeps b c × All (LocatedRule ing.namespace b.upstreams c.servers) []) (some_eq h)
        (Keeps-refl b, tt)
  add_rules-AddsRules (r ∷ rs) b c h =
      let (m, i, j) =
        some_of_bind (add_rule location_only n ing anns r b) (add_rules location_only n ing anns rs)
          c h in
      let ((k, u), a) = add_rule-AddsRule r b m i in
      let ((l, v), e) = add_rules-AddsRules rs m c j in
      (
        Keeps-trans b m c (k, u) (l, v),
        (
          All_map (λ p. Located-later ing.namespace (host_of r) b.upstreams m.servers c.servers p l)
              (paths_of r) a,
          All_map
              (λ q.
                All_map
                  (λ p.
                    Located-earlier ing.namespace (host_of q) b.upstreams m.upstreams c.servers p u)
                  (paths_of q))
              rs e,
        ),
      )

module _ (heap : Heap) (store : Store) where
  -- Of the Ingresses that getBackendServers goes through, every path with a Service has a location of
  -- its path and its type in the server of its host, or in the default server if the host has none,
  -- unless the upstream of the Service belongs to a canary; and no server, no upstream and no path
  -- that had a location is lost.
  pub add_ingresses-Located :
      (ns : List ℕ) (b c : Backends)
      → add_ingresses heap store ns b ≡ some c
      → Keeps b c
        × All
            (λ n.
              All
                (LocatedRule (heap.ingress n).namespace b.upstreams c.servers)
                (heap.ingress n).rules)
            ns
  unfolding add_ingresses
  add_ingresses-Located [] b c h = (subst (Keeps b) (some_eq h) (Keeps-refl b), tt)
  add_ingresses-Located (n ∷ ns) b c h =
      let (anns, _, i) = some_of_bind (annotations_of store (heap.ingress n)) (λ anns. _) c h in
      let (m, j, k) =
        some_of_bind
          (add_rules store.proxy_ssl_location_only n (heap.ingress n) anns (heap.ingress n).rules b)
          (add_ingresses heap store ns) c i in
      let ((s, u), a) =
        add_rules-AddsRules store.proxy_ssl_location_only n (heap.ingress n) anns
          (heap.ingress n).rules b m j in
      let ((t, v), e) = add_ingresses-Located ns m c k in
      (
        Keeps-trans b m c (s, u) (t, v),
        (
          All_map
              (λ r.
                All_map
                  (λ p.
                    Located-later (heap.ingress n).namespace (host_of r) b.upstreams m.servers
                      c.servers p t)
                  (paths_of r))
              (heap.ingress n).rules a,
          All_map
              (λ o.
                All_map
                  (λ r.
                    All_map
                      (λ p.
                        Located-earlier (heap.ingress o).namespace (host_of r) b.upstreams
                          m.upstreams c.servers p u)
                      (paths_of r))
                  (heap.ingress o).rules)
              ns e,
        ),
      )
