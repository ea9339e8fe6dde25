-- ===== src/Annotations/Parsed.antt =====
-- internal/ingress/annotations/annotations.go: the parsed annotations of one Ingress. The
-- object metadata and SecureUpstream, which only the template reads, are left out.
use panda_k8s.Annotations.Auth
use panda_k8s.Annotations.AuthReq
use panda_k8s.Annotations.AuthTls
use panda_k8s.Annotations.Connection
use panda_k8s.Annotations.Cors
use panda_k8s.Annotations.FastCgi
use panda_k8s.Annotations.GlobalRateLimit
use panda_k8s.Annotations.InfluxDb
use panda_k8s.Annotations.IpWhitelist
use panda_k8s.Annotations.Log
use panda_k8s.Annotations.Mirror
use panda_k8s.Annotations.ModSecurity
use panda_k8s.Annotations.Opentracing
use panda_k8s.Annotations.Proxy
use panda_k8s.Annotations.ProxySsl
use panda_k8s.Annotations.RateLimit
use panda_k8s.Annotations.Redirect
use panda_k8s.Annotations.Rewrite
use panda_k8s.Annotations.Canary
use panda_k8s.Annotations.SessionAffinity
use panda_k8s.Annotations.SslCipher
use panda_k8s.Annotations.UpstreamHashBy
use panda_k8s.Kube.{Service}
use panda_k8s.Pointers.{Ptr}
use panda_k8s.Prelude.{String, Bool, ℤ}
use panda_k8s.Sets.Slices.{Slice}

pub record ParsedAnnotations : Type 0 where
  pub backend_protocol : String
  pub aliases : Slice String
  pub basic_digest_auth : Auth.Config
  pub canary : Canary.Config
  pub certificate_auth : AuthTls.Config
  pub client_body_buffer_size : String
  pub configuration_snippet : String
  pub connection : Connection.Config
  pub cors_config : Cors.Config
  pub custom_http_errors : Slice ℤ
  pub default_backend : Ptr Service
  pub fast_cgi : FastCgi.Config
  pub denied : Ptr String
  pub external_auth : AuthReq.Config
  pub enable_global_auth : Bool
  pub http2_push_preload : Bool
  pub opentracing : Opentracing.Config
  pub proxy : Proxy.Config
  pub proxy_ssl : ProxySsl.Config
  pub rate_limit : RateLimit.Config
  pub global_rate_limit : GlobalRateLimit.Config
  pub redirect : Redirect.Config
  pub rewrite : Rewrite.Config
  pub satisfy : String
  pub server_snippet : String
  pub service_upstream : Bool
  pub session_affinity : SessionAffinity.Config
  pub ssl_passthrough : Bool
  pub use_port_in_redirects : Bool
  pub upstream_hash_by : UpstreamHashBy.Config
  pub load_balancing : String
  pub upstream_vhost : String
  pub whitelist : IpWhitelist.SourceRange
  pub x_forwarded_prefix : String
  pub ssl_cipher : SslCipher.Config
  pub logs : Log.Config
  pub influx_db : InfluxDb.Config
  pub mod_security : ModSecurity.Config
  pub mirror : Mirror.Config
  pub stream_snippet : String
