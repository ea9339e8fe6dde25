-- ===== src/Controller/CreateServers.antt =====
-- internal/ingress/controller/controller.go: a server for every host of the Ingresses
-- (`createServers`). The servers and their locations go by value, as drafts. An Ingress goes by its
-- address in the heap, which its locations keep. `dropSnippetDirectives` empties the fields of the
-- annotations each time they are read, and not once in the heap. `none` is a panic.
pub mod Hosts
pub mod Complete
pub mod Total
pub mod Noted
pub mod Aliases
pub mod Backed
pub mod Settled
use panda_k8s.Annotations.Parsed.{ParsedAnnotations}
use panda_k8s.Api.Backends.{Backend}
use panda_k8s.Api.Heap.{Heap}
use panda_k8s.Api.Ingresses.{Ingress, IngressRule}
use panda_k8s.Api.Servers.{Location, Server}
use panda_k8s.Api.Zero.{no_location, no_server}
use panda_k8s.Controller.Canary.{Upstreams, def_upstream_name, def_server_name}
use panda_k8s.Controller.Certificates.{choose_certificate, get_default_ssl_certificate}
use panda_k8s.Controller.CreateUpstreams.{default_service_of, is_no_list}
use panda_k8s.Controller.Drafts.{
  Draft, Drafts, drop_snippet_directives, annotations_of, host_of, location_apply_annotations,
  default_location, first_updated, update_first, Configured, aliases_at, note_aliases,
}
use panda_k8s.Controller.Locations.{root_location}
use panda_k8s.Controller.Store.{Store, Options}
use panda_k8s.Controller.Upstreams.{upstream_name}
use panda_k8s.Externals.{Externals}
use panda_k8s.Kube.{Service, prefix}
use panda_k8s.Pointers.{Ptr, nil, at}
use panda_k8s.Prelude.{
  ℕ, String, Bool, true, false, ◌&&◌, ◌||◌, ◌==◌, List, [], ◌∷◌, ◌++◌, Option, none, some, lookup,
  store as put, if◌then◌else◌, ◌>>=◌,
}
use panda_k8s.Sets.Slices.{Slice, made, elems}
use panda_k8s.StringSets.{StringSets}

module _ (ext : Externals) (heap : Heap) (store : Store) (cfg : Options) where
  -- the default server with its root location
  unfoldable pub default_server : Backend → Draft
  unfolding get_default_ssl_certificate
  default_server du = record {
    server = record no_server {
      hostname = def_server_name;
      ssl_cert = get_default_ssl_certificate ext heap store cfg;
    };
    locations =
        record no_location {
          path = root_location;
          path_type = some prefix;
          is_def_backend = true;
          backend = du.name;
          proxy = store.default_proxy;
          service = du.service;
          logs = record { access = store.enable_access_log_for_default_backend; rewrite = false };
        }
        ∷ [];
  }

  -- the server of a host with its root location
  unfoldable pub new_server : String → ℕ → String → ParsedAnnotations → Draft
  unfolding location_apply_annotations
  new_server un n host anns = record {
    server = record no_server {
      hostname = host;
      ssl_passthrough = anns.ssl_passthrough;
      ssl_ciphers = anns.ssl_cipher.ssl_ciphers;
      ssl_prefer_server_ciphers = anns.ssl_cipher.ssl_prefer_server_ciphers;
    };
    locations =
        location_apply_annotations
          (record no_location {
            path = root_location;
            path_type = some prefix;
            is_def_backend = true;
            backend = un;
            ingress = at n;
            service = cfg.empty_service;
          })
          anns
        ∷ [];
  }

  -- the server of a host, unless it is configured
  unfoldable pub add_host : String → ℕ → ParsedAnnotations → String → Drafts → Drafts
  unfolding new_server
  add_host un n anns host servers = elim (lookup host servers) [
    | some d ↦ servers
    | none ↦ put host (new_server un n host anns) servers
  ]

  -- the servers of the rules
  unfoldable pub add_hosts : String → ℕ → ParsedAnnotations → List IngressRule → Drafts → Drafts
  unfolding add_host
  add_hosts un n anns [] servers = servers
  add_hosts un n anns (rule ∷ rules) servers =
      add_hosts un n anns rules (add_host un n anns (host_of rule) servers)

  -- the name of the default upstream of the rules, and the servers with the catch-all location
  unfoldable pub add_default :
      ℕ → ParsedAnnotations → Upstreams → Backend → Drafts → Option (String × Drafts)
  unfolding default_location update_first
  add_default n anns upstreams du servers =
      let ing = heap.ingress n in
      elim (default_service_of ing) [
        | none ↦ some (du.name, servers)
        | some service ↦ elim (lookup (upstream_name ing.namespace (some service)) upstreams) [
          | none ↦ some (du.name, servers)
          | some b ↦ do
            d ← lookup def_server_name servers
            e ← update_first (default_location n (is_no_list ing.rules) anns b) d
            some (b.name, put def_server_name e servers)
        ]
      ]

  -- one round of the first loop over the Ingresses
  unfoldable pub add_servers : ℕ → Upstreams → Backend → Drafts → Option Drafts
  unfolding annotations_of add_default add_hosts
  add_servers n upstreams du servers = do
    anns ← annotations_of store (heap.ingress n)
    if anns.canary.enabled then some servers else do
      (un, next) ← add_default n anns upstreams du servers
      some (add_hosts un n anns (heap.ingress n).rules next)

  unfoldable pub add_all_servers : List ℕ → Upstreams → Backend → Drafts → Option Drafts
  unfolding add_servers
  add_all_servers [] upstreams du servers = some servers
  add_all_servers (n ∷ ns) upstreams du servers =
      add_servers n upstreams du servers >>= add_all_servers ns upstreams du

  -- the server after one rule of an Ingress
  unfoldable pub configure_server : Ingress → ParsedAnnotations → String → Server → Server
  unfolding choose_certificate
  configure_server ing anns host s = record s {
    aliases = if is_no_list (elems s.aliases) then anns.aliases else s.aliases;
    server_snippet = if s.server_snippet == "" then anns.server_snippet else s.server_snippet;
    ssl_ciphers = if s.ssl_ciphers == "" then anns.ssl_cipher.ssl_ciphers else s.ssl_ciphers;
    ssl_prefer_server_ciphers =
        if s.ssl_prefer_server_ciphers == ""
        then anns.ssl_cipher.ssl_prefer_server_ciphers
        else s.ssl_prefer_server_ciphers;
    ssl_cert = elim s.ssl_cert [
      | at m ↦ at m
      | nil ↦ if is_no_list ing.tls then nil else choose_certificate ext heap store cfg host ing
    ];
  }

  unfoldable pub configure_hosts :
      Ingress → ParsedAnnotations → List IngressRule → Configured → Option Configured
  unfolding configure_server note_aliases
  configure_hosts ing anns [] c = some c
  configure_hosts ing anns (rule ∷ rules) c = do
    d ← lookup (host_of rule) c.servers
    configure_hosts ing anns rules (record {
      servers =
          put (host_of rule)
            (record d { server = configure_server ing anns (host_of rule) d.server }) c.servers;
      all_aliases = note_aliases anns (host_of rule) d.server c.all_aliases;
    })

  -- the second loop over the Ingresses
  unfoldable pub configure_servers : List ℕ → Configured → Option Configured
  unfolding annotations_of configure_hosts
  configure_servers [] c = some c
  configure_servers (n ∷ ns) c = do
    anns ← annotations_of store (heap.ingress n)
    next ←
        if anns.canary.enabled
        then some c
        else configure_hosts (heap.ingress n) anns (heap.ingress n).rules c
    configure_servers ns next

  module _ (sets : StringSets) where
    open sets use {Set, empty, insert, has, list}

    -- `uniqAliases`
    unfoldable pub unique_aliases : String → Drafts → List String → Set → Set
    unique_aliases host servers [] seen = seen
    unique_aliases host servers (alias ∷ rest) seen = unique_aliases host servers rest (
        if alias == host then seen else elim (lookup alias servers) [
          | some d ↦ seen
          | none ↦ if has seen alias then seen else insert seen alias
        ])

    -- the server with its unique aliases
    abbrev pub aliased : String → List String → Drafts → Draft → Draft
    aliased host aliases servers d = record d {
      server = record (d.server) {
        aliases = made (list (unique_aliases host servers aliases empty));
      };
    }

    -- the aliases of one host
    unfoldable pub set_alias : String → List String → Drafts → Drafts
    unfolding unique_aliases
    set_alias host aliases servers = elim (lookup host servers) [
      | none ↦ servers
      | some d ↦ put host (aliased host aliases servers d) servers
    ]

    -- the loop over `allAliases`
    unfoldable pub set_aliases : List (String × List String) → Drafts → Drafts
    unfolding set_alias
    set_aliases [] servers = servers
    set_aliases ((host, aliases) ∷ rest) servers = set_aliases rest (set_alias host aliases servers)

    -- `createServers`
    unfoldable pub create_servers : List ℕ → Upstreams → Backend → Option Drafts
    unfolding default_server add_all_servers configure_servers set_aliases
    create_servers ns upstreams du = do
      servers ← add_all_servers ns upstreams du ((def_server_name, default_server du) ∷ [])
      c ← configure_servers ns (record { servers = servers; all_aliases = [] })
      some (set_aliases c.all_aliases c.servers)
