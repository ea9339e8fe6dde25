-- ===== src/Api/Servers.antt =====
-- pkg/apis/ingress/types.go and sslcert.go: servers, their locations and certificates.
use panda_k8s.Annotations.Auth
use panda_k8s.Annotations.AuthReq
use panda_k8s.Annotations.AuthTls
use panda_k8s.Annotations.Connection
use panda_k8s.Annotations.Cors
use panda_k8s.Annotations.FastCgi
use panda_k8s.Annotations.GlobalRateLimit
use panda_k8s.Annotations.InfluxDb
use panda_k8s.Annotations.IpWhitelist
use panda_k8s.Annotations.Log
use panda_k8s.Annotations.Mirror
use panda_k8s.Annotations.ModSecurity
use panda_k8s.Annotations.Opentracing
use panda_k8s.Annotations.Proxy
use panda_k8s.Annotations.ProxySsl
use panda_k8s.Annotations.RateLimit
use panda_k8s.Annotations.Redirect
use panda_k8s.Annotations.Rewrite
use panda_k8s.Api.Ingresses.{Ingress}
use panda_k8s.Kube.{Service, IntOrString, PathType, Time, Certificate}
use panda_k8s.Pointers.{Ptr}
use panda_k8s.Prelude.{String, Bool, ℤ, List, Option}
use panda_k8s.Sets.Slices.{Slice}

pub record SslCert : Type 0 where
  pub name : String
  pub namespace : String
  pub certificate : Option Certificate
  pub ca_certificate : List Certificate
  pub ca_file_name : String
  pub ca_sha : String
  pub crl_file_name : String
  pub crl_sha : String
  pub pem_file_name : String
  pub pem_sha : String
  pub cn : Slice String
  pub expire_time : Time
  pub pem_cert_key : String
  pub uid : String

pub record Location : Type 0 where
  pub path : String
  pub path_type : Option PathType
  pub is_def_backend : Bool
  pub ingress : Ptr Ingress
  pub ingress_path : String
  pub backend : String
  pub service : Ptr Service
  pub port : IntOrString
  pub upstream_vhost : String
  pub basic_digest_auth : Auth.Config
  pub denied : Ptr String
  pub cors_config : Cors.Config
  pub external_auth : AuthReq.Config
  pub enable_global_auth : Bool
  pub http2_push_preload : Bool
  pub rate_limit : RateLimit.Config
  pub global_rate_limit : GlobalRateLimit.Config
  pub redirect : Redirect.Config
  pub rewrite : Rewrite.Config
  pub whitelist : IpWhitelist.SourceRange
  pub proxy : Proxy.Config
  pub proxy_ssl : ProxySsl.Config
  pub use_port_in_redirects : Bool
  pub configuration_snippet : String
  pub connection : Connection.Config
  pub client_body_buffer_size : String
  pub default_backend : Ptr Service
  pub default_backend_upstream_name : String
  pub x_forwarded_prefix : String
  pub logs : Log.Config
  pub influx_db : InfluxDb.Config
  pub backend_protocol : String
  pub fast_cgi : FastCgi.Config
  pub custom_http_errors : Slice ℤ
  pub mod_security : ModSecurity.Config
  pub satisfy : String
  pub mirror : Mirror.Config
  pub opentracing : Opentracing.Config

pub record Server : Type 0 where
  pub hostname : String
  pub ssl_passthrough : Bool
  pub ssl_cert : Ptr SslCert
  pub locations : Slice (Ptr Location)
  pub aliases : Slice String
  pub redirect_from_to_www : Bool
  pub certificate_auth : AuthTls.Config
  pub proxy_ssl : ProxySsl.Config
  pub server_snippet : String
  pub ssl_ciphers : String
  pub ssl_prefer_server_ciphers : String
  pub auth_tls_error : String

pub record SslPassthroughBackend : Type 0 where
  pub service : Ptr Service
  pub port : IntOrString
  pub backend : String
  pub hostname : String
