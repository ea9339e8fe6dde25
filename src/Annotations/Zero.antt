-- ===== src/Annotations/Zero.antt =====
-- Zero values of the parsed annotations, as Go makes them.
use panda_k8s.Annotations.Auth
use panda_k8s.Annotations.AuthReq
use panda_k8s.Annotations.AuthTls
use panda_k8s.Annotations.Canary
use panda_k8s.Annotations.Connection
use panda_k8s.Annotations.Cors
use panda_k8s.Annotations.FastCgi
use panda_k8s.Annotations.GlobalRateLimit
use panda_k8s.Annotations.InfluxDb
use panda_k8s.Annotations.IpWhitelist
use panda_k8s.Annotations.Log
use panda_k8s.Annotations.Mirror
use panda_k8s.Annotations.ModSecurity
use panda_k8s.Annotations.Opentracing
use panda_k8s.Annotations.Proxy
use panda_k8s.Annotations.ProxySsl
use panda_k8s.Annotations.RateLimit
use panda_k8s.Annotations.Redirect
use panda_k8s.Annotations.Rewrite
use panda_k8s.Annotations.SessionAffinity
use panda_k8s.Annotations.UpstreamHashBy
use panda_k8s.Annotations.AuthSslCert.{AuthSslCert}
use panda_k8s.Annotations.RateLimit.{Zone}
use panda_k8s.Annotations.SessionAffinity.{Cookie}
use panda_k8s.Annotations.Parsed.{ParsedAnnotations}
use panda_k8s.Equality.Maps.{StringMap}
use panda_k8s.Pointers.{Ptr}
use panda_k8s.Prelude.{false, pos}
use panda_k8s.Sets.Slices.{Slice}

abbrev pub no_auth_annotation : Auth.Config
no_auth_annotation = record {
  type = "";
  realm = "";
  file = "";
  secured = false;
  file_sha = "";
  secret = "";
  secret_type = "";
}

abbrev pub no_cors_annotation : Cors.Config
no_cors_annotation = record {
  cors_enabled = false;
  cors_allow_origin = Slice.nil;
  cors_allow_methods = "";
  cors_allow_headers = "";
  cors_allow_credentials = false;
  cors_expose_headers = "";
  cors_max_age = pos 0;
}

abbrev pub no_auth_req_annotation : AuthReq.Config
no_auth_req_annotation = record {
  url = "";
  host = "";
  signin_url = "";
  signin_url_redirect_param = "";
  method = "";
  response_headers = Slice.nil;
  request_redirect = "";
  auth_snippet = "";
  auth_cache_key = "";
  auth_cache_duration = Slice.nil;
  keepalive_connections = pos 0;
  keepalive_requests = pos 0;
  keepalive_timeout = pos 0;
  proxy_set_headers = StringMap.nil;
  always_set_cookie = false;
}

abbrev pub no_zone : Zone
no_zone = record { name = ""; limit = pos 0; burst = pos 0; shared_size = pos 0 }

abbrev pub no_rate_limit_annotation : RateLimit.Config
no_rate_limit_annotation = record {
  connections = no_zone;
  rps = no_zone;
  rpm = no_zone;
  limit_rate = pos 0;
  limit_rate_after = pos 0;
  name = "";
  id = "";
  whitelist = Slice.nil;
}

abbrev pub no_global_rate_limit_annotation : GlobalRateLimit.Config
no_global_rate_limit_annotation = record {
  namespace = "";
  limit = pos 0;
  window_size = pos 0;
  key = "";
  ignored_cidrs = Slice.nil;
}

abbrev pub no_redirect_annotation : Redirect.Config
no_redirect_annotation = record { url = ""; code = pos 0; from_to_www = false }

abbrev pub no_rewrite_annotation : Rewrite.Config
no_rewrite_annotation = record {
  target = "";
  ssl_redirect = false;
  force_ssl_redirect = false;
  preserve_trailing_slash = false;
  app_root = "";
  use_regex = false;
}

abbrev pub no_ip_whitelist_annotation : IpWhitelist.SourceRange
no_ip_whitelist_annotation = record { cidr = Slice.nil }

abbrev pub no_proxy_annotation : Proxy.Config
no_proxy_annotation = record {
  body_size = "";
  connect_timeout = pos 0;
  send_timeout = pos 0;
  read_timeout = pos 0;
  buffers_number = pos 0;
  buffer_size = "";
  cookie_domain = "";
  cookie_path = "";
  next_upstream = "";
  next_upstream_timeout = pos 0;
  next_upstream_tries = pos 0;
  proxy_redirect_from = "";
  proxy_redirect_to = "";
  request_buffering = "";
  proxy_buffering = "";
  proxy_http_version = "";
  proxy_max_temp_file_size = "";
}

abbrev pub no_auth_ssl_cert : AuthSslCert
no_auth_ssl_cert = record {
  secret = "";
  ca_file_name = "";
  ca_sha = "";
  crl_file_name = "";
  crl_sha = "";
  pem_file_name = "";
}

abbrev pub no_proxy_ssl_annotation : ProxySsl.Config
no_proxy_ssl_annotation = record {
  auth_ssl_cert = no_auth_ssl_cert;
  ciphers = "";
  protocols = "";
  proxy_ssl_name = "";
  verify = "";
  verify_depth = pos 0;
  proxy_ssl_server_name = "";
}

abbrev pub no_connection_annotation : Connection.Config
no_connection_annotation = record { header = ""; enabled = false }

abbrev pub no_log_annotation : Log.Config
no_log_annotation = record { access = false; rewrite = false }

abbrev pub no_influx_db_annotation : InfluxDb.Config
no_influx_db_annotation = record {
  influx_db_enabled = false;
  influx_db_measurement = "";
  influx_db_port = "";
  influx_db_host = "";
  influx_db_server_name = "";
}

abbrev pub no_fast_cgi_annotation : FastCgi.Config
no_fast_cgi_annotation = record { index = ""; params = StringMap.nil }

abbrev pub no_mod_security_annotation : ModSecurity.Config
no_mod_security_annotation = record {
  enable = false;
  enable_set = false;
  owasp_rules = false;
  transaction_id = "";
  snippet = "";
}

abbrev pub no_mirror_annotation : Mirror.Config
no_mirror_annotation = record { source = ""; request_body = ""; target = ""; host = "" }

abbrev pub no_opentracing_annotation : Opentracing.Config
no_opentracing_annotation = record {
  enabled = false;
  set = false;
  trust_enabled = false;
  trust_set = false;
}

abbrev pub no_auth_tls_annotation : AuthTls.Config
no_auth_tls_annotation = record {
  auth_ssl_cert = no_auth_ssl_cert;
  verify_client = "";
  validation_depth = pos 0;
  error_page = "";
  pass_cert_to_upstream = false;
  match_cn = "";
  auth_tls_error = "";
}

abbrev pub no_canary_annotation : Canary.Config
no_canary_annotation = record {
  enabled = false;
  weight = pos 0;
  weight_total = pos 0;
  header = "";
  header_value = "";
  header_pattern = "";
  cookie = "";
}

abbrev pub no_cookie : Cookie
no_cookie = record {
  name = "";
  expires = "";
  max_age = "";
  path = "";
  change_on_failure = false;
  secure = false;
  same_site = "";
  conditional_same_site_none = false;
}

abbrev pub no_session_affinity_annotation : SessionAffinity.Config
no_session_affinity_annotation = record {
  type = "";
  mode = "";
  canary_behavior = "";
  cookie = no_cookie;
}

abbrev pub no_upstream_hash_by_annotation : UpstreamHashBy.Config
no_upstream_hash_by_annotation = record {
  upstream_hash_by = "";
  upstream_hash_by_subset = false;
  upstream_hash_by_subset_size = pos 0;
}

abbrev pub no_parsed_annotations : ParsedAnnotations
no_parsed_annotations = record {
  backend_protocol = "";
  aliases = Slice.nil;
  basic_digest_auth = no_auth_annotation;
  canary = no_canary_annotation;
  certificate_auth = no_auth_tls_annotation;
  client_body_buffer_size = "";
  configuration_snippet = "";
  connection = no_connection_annotation;
  cors_config = no_cors_annotation;
  custom_http_errors = Slice.nil;
  default_backend = Ptr.nil;
  fast_cgi = no_fast_cgi_annotation;
  denied = Ptr.nil;
  external_auth = no_auth_req_annotation;
  enable_global_auth = false;
  http2_push_preload = false;
  opentracing = no_opentracing_annotation;
  proxy = no_proxy_annotation;
  proxy_ssl = no_proxy_ssl_annotation;
  rate_limit = no_rate_limit_annotation;
  global_rate_limit = no_global_rate_limit_annotation;
  redirect = no_redirect_annotation;
  rewrite = no_rewrite_annotation;
  satisfy = "";
  server_snippet = "";
  service_upstream = false;
  session_affinity = no_session_affinity_annotation;
  ssl_passthrough = false;
  use_port_in_redirects = false;
  upstream_hash_by = no_upstream_hash_by_annotation;
  load_balancing = "";
  upstream_vhost = "";
  whitelist = no_ip_whitelist_annotation;
  x_forwarded_prefix = "";
  logs = no_log_annotation;
  influx_db = no_influx_db_annotation;
  mod_security = no_mod_security_annotation;
  mirror = no_mirror_annotation;
  ssl_cipher = record { ssl_ciphers = ""; ssl_prefer_server_ciphers = "" };
  stream_snippet = "";
}
