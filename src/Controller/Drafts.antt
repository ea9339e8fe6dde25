-- ===== src/Controller/Drafts.antt =====
-- internal/ingress/controller/controller.go: a server while it is built, and how the annotations
-- apply to its locations (`locationApplyAnnotations`, `dropSnippetDirectives`). A draft holds the
-- locations of a server, whose own field stays nil.
use panda_k8s.Annotations.Parsed.{ParsedAnnotations}
use panda_k8s.Api.Backends.{Backend}
use panda_k8s.Api.Ingresses.{Ingress, IngressRule}
use panda_k8s.Api.Servers.{Location, Server}
use panda_k8s.Controller.Canary.{def_upstream_name, def_server_name}
use panda_k8s.Controller.CreateUpstreams.{is_no_list}
use panda_k8s.Controller.Store.{Store}
use panda_k8s.Pointers.{at}
use panda_k8s.Prelude.{
  ℕ, String, Bool, false, ◌&&◌, ◌==◌, List, [], ◌∷◌, Option, none, some, lookup, store as put,
  if◌then◌else◌, ◌>>=◌,
}
use panda_k8s.Sets.Slices.{elems}

-- a server that is being built, with its locations
pub record Draft : Type 0 where
  pub server : Server
  pub locations : List Location

abbrev pub Drafts : Type 0
Drafts = List (String × Draft)

-- `dropSnippetDirectives`
unfoldable pub drop_snippet_directives : ParsedAnnotations → ParsedAnnotations
drop_snippet_directives anns = record anns {
  configuration_snippet = "";
  server_snippet = "";
  mod_security = record (anns.mod_security) { snippet = "" };
  external_auth = record (anns.external_auth) { auth_snippet = "" };
  stream_snippet = "";
}

-- the annotations of an Ingress, without snippets if those are not allowed
unfoldable pub annotations_of : Store → Ingress → Option ParsedAnnotations
unfolding drop_snippet_directives
annotations_of store ing = do
  anns ← ing.parsed_annotations
  some (if store.allow_snippet_annotations then anns else drop_snippet_directives anns)

-- the server name of a rule
abbrev pub host_of : IngressRule → String
host_of rule = if rule.host == "" then def_server_name else rule.host

-- `locationApplyAnnotations`
unfoldable pub location_apply_annotations : Location → ParsedAnnotations → Location
location_apply_annotations loc anns = record loc {
  basic_digest_auth = anns.basic_digest_auth;
  client_body_buffer_size = anns.client_body_buffer_size;
  configuration_snippet = anns.configuration_snippet;
  cors_config = anns.cors_config;
  external_auth = anns.external_auth;
  enable_global_auth = anns.enable_global_auth;
  http2_push_preload = anns.http2_push_preload;
  opentracing = anns.opentracing;
  proxy = anns.proxy;
  proxy_ssl = anns.proxy_ssl;
  rate_limit = anns.rate_limit;
  global_rate_limit = anns.global_rate_limit;
  redirect = anns.redirect;
  rewrite = anns.rewrite;
  upstream_vhost = anns.upstream_vhost;
  whitelist = anns.whitelist;
  denied = anns.denied;
  x_forwarded_prefix = anns.x_forwarded_prefix;
  use_port_in_redirects = anns.use_port_in_redirects;
  connection = anns.connection;
  logs = anns.logs;
  influx_db = anns.influx_db;
  default_backend = anns.default_backend;
  backend_protocol = anns.backend_protocol;
  fast_cgi = anns.fast_cgi;
  custom_http_errors = anns.custom_http_errors;
  mod_security = anns.mod_security;
  satisfy = anns.satisfy;
  mirror = anns.mirror;
  default_backend_upstream_name = def_upstream_name;
}

-- the catch-all location, once an Ingress has a default backend with an upstream
unfoldable pub default_location : ℕ → Bool → ParsedAnnotations → Backend → Location → Location
unfolding location_apply_annotations
default_location n without_rules anns b loc =
    let defined = record loc { backend = b.name; service = b.service; ingress = at n } in
    if loc.is_def_backend && without_rules
    then record (location_apply_annotations defined anns) {
      is_def_backend = false;
      redirect = loc.redirect;
      rewrite = loc.rewrite;
    }
    else defined

-- what the first location becomes
abbrev pub first_updated : (Location → Location) → List Location → Option (List Location)
first_updated f [] = none
first_updated f (loc ∷ rest) = some (f loc ∷ rest)

-- `servers[defServerName].Locations[0]`
unfoldable pub update_first : (Location → Location) → Draft → Option Draft
update_first f d = do
  locations ← first_updated f d.locations
  some (record d { locations = locations })

-- the servers and `allAliases`
pub record Configured : Type 0 where
  pub servers : Drafts
  pub all_aliases : List (String × List String)

-- `allAliases[host]`
abbrev pub aliases_at : String → List (String × List String) → List String
aliases_at host all = elim (lookup host all) [ none ↦ [] | some aliases ↦ aliases ]

unfoldable pub note_aliases :
    ParsedAnnotations → String → Server → List (String × List String) → List (String × List String)
note_aliases anns host s all =
    if is_no_list (elems s.aliases) && is_no_list (aliases_at host all)
    then put host (elems anns.aliases) all
    else all
