-- ===== src/Controller/Building/Served.antt =====
-- What `getBackendServers` returns: every path is served.
use panda_k8s.Annotations.Parsed.{ParsedAnnotations}
use panda_k8s.Api.Backends.{Backend}
use panda_k8s.Api.Heap.{Heap}
use panda_k8s.Api.Ingresses.{IngressRule, HttpIngressPath, ServiceBackend}
use panda_k8s.Controller.BackendServers.{server_key, sort_locations}
use panda_k8s.Controller.Places.{nginx_path}
use panda_k8s.Controller.BackendServers.Covered.{server_key_kept}
use panda_k8s.Controller.BackendServers.Located.{Located, LocatedRule, add_ingresses-Located}
use panda_k8s.Controller.BackendServers.Order.{sort_locations-IsSorted}
use panda_k8s.Controller.BackendServers.Paths.{HasPath, HasPath-same}
use panda_k8s.Controller.Building.{with_sorted, get_backend_servers}
use panda_k8s.Controller.Building.Backed.{start, servers_built, In-drafts, scanned-hostname}
use panda_k8s.Controller.Building.Parts.{
  Unclaimed, IsPrimary, NoCanary, add_ingresses_annotated, Parts, get_backend_servers-Parts,
  annotations_of-NoCanary,
}
use panda_k8s.Controller.CreateServers.Hosts.{Hosts}
use panda_k8s.Controller.CreateUpstreams.{paths_of}
use panda_k8s.Controller.CreateUpstreams.Grows.{Covers, CoversIngress}
use panda_k8s.Controller.CustomBackends.Named.{scan_upstreams-KeepsServers}
use panda_k8s.Controller.Drafts.{Draft, annotations_of, host_of}
use panda_k8s.Controller.Store.{Store, Options}
use panda_k8s.Controller.Upstreams.{upstream_name}
use panda_k8s.Externals.{Externals}
use panda_k8s.Prelude.{
  ℕ, All-In, ◌≡◌, refl, subst, ◌∙◌, List, some, lookup, lookup-All, In, All, HasKey,
}
use panda_k8s.StringSets.{StringSets}

-- a server of the host of the rule has a location of the path and its type
abbrev pub Serves : List Draft → IngressRule → HttpIngressPath → Type 0
Serves drafts rule path =
    (d : Draft) × In d drafts
    × (d.server.hostname ≡ host_of rule)
    × HasPath (nginx_path path) path.path_type d.locations

module _ (ext : Externals) (heap : Heap) (store : Store) (cfg : Options) (sets : StringSets) where
  module _ (ns : List ℕ) (backends : List Backend) (drafts : List Draft)
      (p : Parts ext heap store cfg sets ns backends drafts) where
    -- The server of a host that has one from the start is returned, with a location for the path.
    served :
        (rule : IngressRule) (path : HttpIngressPath) (d : Draft)
        → HasKey (host_of rule) p.servers
        → lookup (server_key (host_of rule) p.last.servers) p.last.servers ≡ some d
        → HasPath (nginx_path path) path.path_type d.locations
        → Serves drafts rule path
    served rule path c (d, there) i j =
        let host = host_of rule in
        let kept =
          (add_ingresses-Located heap store ns (start ext heap store cfg sets ns backends drafts p)
            p.last p.added).0.0 in
        let key : server_key host p.last.servers ≡ host =
          server_key_kept host p.servers p.last.servers kept ∙ rw (there, server_key) refl in
        let (e, x, y) =
          (scan_upstreams-KeepsServers ext heap store p.merged p.last.servers).kept host c
            (subst (λ k. lookup k p.last.servers ≡ some c) key i) in
        (
          with_sorted ext heap store cfg sets (host, e),
          In-drafts ext heap store cfg sets ns backends drafts p host e x,
          scanned-hostname ext heap store cfg sets ns backends drafts p host e x,
          HasPath-same (nginx_path path) path.path_type e.locations (sort_locations e.locations)
              (λ l. ((sort_locations-IsSorted e.locations).1 l).1)
              (y (nginx_path path) path.path_type j),
        )

    -- The host of a rule of an Ingress that is no canary has a server from the start.
    host_there :
        (n : ℕ) (rule : IngressRule)
        → In n ns
        → NoCanary ext heap store cfg sets n
        → In rule (heap.ingress n).rules
        → HasKey (host_of rule) p.servers
    host_there n rule in_ns primary in_rules =
        let (anns, e) =
          All-In
            (λ n. (anns : ParsedAnnotations) × (annotations_of store (heap.ingress n) ≡ some anns))
            n ns
            (add_ingresses_annotated ext heap store cfg sets ns
              (start ext heap store cfg sets ns backends drafts p) p.last p.added)
            in_ns in
        All-In (λ r. HasKey (host_of r) p.servers) rule (heap.ingress n).rules
          (All-In (Hosts ext heap store cfg p.servers) n ns
            (servers_built ext heap store cfg sets ns backends drafts p).3 in_ns anns e
            (annotations_of-NoCanary ext heap store cfg sets n anns primary e))
          in_rules

    path_covered :
        (n : ℕ) (rule : IngressRule) (path : HttpIngressPath)
        → In n ns
        → In rule (heap.ingress n).rules
        → In path (paths_of rule)
        → Covers ext heap store cfg (heap.ingress n) p.upstreams path
    path_covered n rule path in_ns in_rules in_paths =
        let ing = heap.ingress n in
        All-In (Covers ext heap store cfg ing p.upstreams) path (paths_of rule)
          (All-In (λ rule. All (Covers ext heap store cfg ing p.upstreams) (paths_of rule)) rule
            ing.rules
            (All-In (λ n. CoversIngress ext heap store cfg p.upstreams (heap.ingress n)) n ns
              p.covered in_ns).1
            in_rules)
          in_paths

    path-Located :
        (n : ℕ) (rule : IngressRule) (path : HttpIngressPath)
        → In n ns
        → In rule (heap.ingress n).rules
        → In path (paths_of rule)
        → Located (heap.ingress n).namespace (host_of rule) p.upstreams p.last.servers path
    path-Located n rule path in_ns in_rules in_paths =
        let ing = heap.ingress n in
        All-In (Located ing.namespace (host_of rule) p.upstreams p.last.servers) path
          (paths_of rule)
          (All-In (LocatedRule ing.namespace p.upstreams p.last.servers) rule ing.rules
            (All-In
              (λ n.
                All (LocatedRule (heap.ingress n).namespace p.upstreams p.last.servers)
                  (heap.ingress n).rules)
              n ns
              (add_ingresses-Located heap store ns
                (start ext heap store cfg sets ns backends drafts p) p.last p.added).1
              in_ns)
            in_rules)
          in_paths

  -- Of a path with a Service, in a rule of an Ingress that is no canary: getBackendServers, if it does
  -- not panic, returns a server of the host of the rule that has a location of the path and its type,
  -- unless some canary Ingress names a Service of the same upstream.
  pub get_backend_servers-Serves :
      (ns : List ℕ) (backends : List Backend) (drafts : List Draft)
      → get_backend_servers ext heap store cfg sets ns ≡ some (backends, drafts)
      → (n : ℕ) (rule : IngressRule) (path : HttpIngressPath) (service : ServiceBackend) → In n ns
      → NoCanary ext heap store cfg sets n
      → In rule (heap.ingress n).rules
      → In path (paths_of rule)
      → path.service ≡ some service
      → Unclaimed ext heap store cfg sets ns
          (upstream_name (heap.ingress n).namespace (some service))
      → Serves drafts rule path
  get_backend_servers-Serves ns backends drafts h n rule path service in_ns primary in_rules
        in_paths named free =
      let p = get_backend_servers-Parts ext heap store cfg sets ns backends drafts h in
      let name = upstream_name (heap.ingress n).namespace (some service) in
      let (ups, found) =
        path_covered ns backends drafts p n rule path in_ns in_rules in_paths service named in
      let has_server =
        (lookup-All (IsPrimary ext heap store cfg sets ns) name ups p.upstreams p.primary found).1
          free in
      let (d, i, j) =
        path-Located ns backends drafts p n rule path in_ns in_rules in_paths service ups named
          found has_server in
      served ns backends drafts p rule path d
        (host_there ns backends drafts p n rule in_ns primary in_rules) i j
