-- ===== src/Parsers/Flags.antt =====
-- internal/ingress/annotations/{log,opentracing,modsecurity,serviceupstream,sslpassthrough,
-- http2pushpreload,portinredirect,authreqglobal}/main.go: annotations of Booleans.
use panda_k8s.Annotations.Log
use panda_k8s.Annotations.ModSecurity
use panda_k8s.Annotations.Opentracing
use panda_k8s.Annotations.Parser.{Error, Found, or_default}
use panda_k8s.Parsers.{Resolver, Annotated, Reply, reply, bool_of, bool_or_false, string_or_empty}
use panda_k8s.Prelude.{Bool, true, false}

-- no error came with the value
abbrev is_found : {A : Type 0} → Found A → Bool
is_found (Found.value a) = true
is_found (Found.failed e) = false

-- `opentracing.Parse`, from the two annotations
unfoldable pub opentracing_of : Found Bool → Found Bool → Opentracing.Config
opentracing_of (Found.failed e) trust = record {
  enabled = false;
  set = false;
  trust_enabled = false;
  trust_set = false;
}
opentracing_of (Found.value b) (Found.failed e) = record {
  enabled = b;
  set = true;
  trust_enabled = false;
  trust_set = false;
}
opentracing_of (Found.value b) (Found.value t) = record {
  enabled = b;
  set = true;
  trust_enabled = t;
  trust_set = true;
}

-- only a missing annotation leads to the default
unfoldable pub service_upstream_of : Bool → Found Bool → Bool
service_upstream_of d (Found.value b) = b
service_upstream_of d (Found.failed Error.missing) = d
service_upstream_of d (Found.failed e) = false

module _ (r : Resolver) (ing : Annotated) where
  -- `log.Parse`
  unfoldable pub logs : Log.Config
  logs = record {
    access = or_default true (bool_of r ing "enable-access-log");
    rewrite = or_default false (bool_of r ing "enable-rewrite-log");
  }

  -- `opentracing.Parse`
  unfoldable pub opentracing : Opentracing.Config
  unfolding opentracing_of
  opentracing =
      opentracing_of (bool_of r ing "enable-opentracing")
        (bool_of r ing "opentracing-trust-incoming-span")

  -- `modSecurity.Parse`
  unfoldable pub mod_security : ModSecurity.Config
  mod_security = record {
    enable = bool_or_false r ing "enable-modsecurity";
    enable_set = is_found (bool_of r ing "enable-modsecurity");
    owasp_rules = bool_or_false r ing "enable-owasp-core-rules";
    transaction_id = string_or_empty r ing "modsecurity-transaction-id";
    snippet = string_or_empty r ing "modsecurity-snippet";
  }

  -- `serviceUpstream.Parse`
  unfoldable pub service_upstream : Bool
  unfolding service_upstream_of
  service_upstream =
      service_upstream_of (r.defaults).service_upstream (bool_of r ing "service-upstream")

  -- `sslpt.Parse`: without annotations the getter answers the same
  unfoldable pub ssl_passthrough : Reply Bool
  ssl_passthrough = reply false (bool_of r ing "ssl-passthrough")

  -- `http2PushPreload.Parse`
  unfoldable pub http2_push_preload : Reply Bool
  http2_push_preload = reply false (bool_of r ing "http2-push-preload")

  -- `portInRedirect.Parse`
  unfoldable pub use_port_in_redirects : Bool
  use_port_in_redirects =
      or_default (r.defaults).use_port_in_redirects (bool_of r ing "use-port-in-redirects")

  -- `authReqGlobal.Parse`
  unfoldable pub enable_global_auth : Bool
  enable_global_auth = or_default true (bool_of r ing "enable-global-auth")
