-- ===== src/Api/Zero.antt =====
-- Zero values of the data types, as Go makes them, and a heap that holds them everywhere.
use panda_k8s.Kube.{IntOrString, Service, ObjectReference, Time}
use panda_k8s.Api.Backends.{
  Endpoint, CookieSessionAffinity, SessionAffinityConfig, UpstreamHashByConfig,
  TrafficShapingPolicy, Backend, ProxyProtocol, L4Backend, L4Service,
}
use panda_k8s.Api.Servers.{SslCert, Location, Server, SslPassthroughBackend}
use panda_k8s.Api.Configurations.{Configuration}
use panda_k8s.Api.Ingresses.{Ingress}
use panda_k8s.Api.Heap.{Heap}
use panda_k8s.Kube.{Kind}
use panda_k8s.Annotations.Zero.{
  no_auth_annotation, no_cors_annotation, no_auth_req_annotation, no_rate_limit_annotation,
  no_global_rate_limit_annotation, no_redirect_annotation, no_rewrite_annotation,
  no_ip_whitelist_annotation, no_proxy_annotation, no_proxy_ssl_annotation,
  no_connection_annotation, no_log_annotation, no_influx_db_annotation, no_fast_cgi_annotation,
  no_mod_security_annotation, no_mirror_annotation, no_opentracing_annotation,
  no_auth_tls_annotation,
}
use panda_k8s.Pointers.{Ptr}
use panda_k8s.Prelude.{false, pos, none, []}
use panda_k8s.Sets.Slices.{Slice}

abbrev pub no_endpoint : Endpoint
no_endpoint = record { address = ""; port = ""; target = Ptr.nil }

abbrev pub no_int_or_string : IntOrString
no_int_or_string = record { kind = Kind.int; int_val = pos 0; str_val = "" }

abbrev pub no_cookie_session_affinity : CookieSessionAffinity
no_cookie_session_affinity = record {
  name = "";
  expires = "";
  max_age = "";
  locations = none;
  secure = false;
  path = "";
  same_site = "";
  conditional_same_site_none = false;
  change_on_failure = false;
}

abbrev pub no_session_affinity_config : SessionAffinityConfig
no_session_affinity_config = record {
  affinity_type = "";
  affinity_mode = "";
  cookie_session_affinity = no_cookie_session_affinity;
}

abbrev pub no_upstream_hash_by_config : UpstreamHashByConfig
no_upstream_hash_by_config = record {
  upstream_hash_by = "";
  upstream_hash_by_subset = false;
  upstream_hash_by_subset_size = pos 0;
}

abbrev pub no_traffic_shaping_policy : TrafficShapingPolicy
no_traffic_shaping_policy = record {
  weight = pos 0;
  weight_total = pos 0;
  header = "";
  header_value = "";
  header_pattern = "";
  cookie = "";
}

abbrev pub no_backend : Backend
no_backend = record {
  name = "";
  service = Ptr.nil;
  port = no_int_or_string;
  ssl_passthrough = false;
  endpoints = Slice.nil;
  session_affinity = no_session_affinity_config;
  upstream_hash_by = no_upstream_hash_by_config;
  load_balancing = "";
  no_server = false;
  traffic_shaping_policy = no_traffic_shaping_policy;
  alternative_backends = Slice.nil;
}

abbrev pub no_service : Service
no_service = record {
  namespace = "";
  name = "";
  service_type = "";
  external_name = "";
  cluster_ip = "";
  ports = [];
}

abbrev pub no_object_reference : ObjectReference
no_object_reference = record { uid = ""; resource_version = "" }

abbrev pub no_time : Time
no_time = record { instant = pos 0; zone = "" }

abbrev pub no_ssl_cert : SslCert
no_ssl_cert = record {
  name = "";
  namespace = "";
  certificate = none;
  ca_certificate = [];
  ca_file_name = "";
  ca_sha = "";
  crl_file_name = "";
  crl_sha = "";
  pem_file_name = "";
  pem_sha = "";
  cn = Slice.nil;
  expire_time = no_time;
  pem_cert_key = "";
  uid = "";
}

abbrev pub no_location : Location
no_location = record {
  path = "";
  path_type = none;
  is_def_backend = false;
  ingress = Ptr.nil;
  ingress_path = "";
  backend = "";
  service = Ptr.nil;
  port = no_int_or_string;
  upstream_vhost = "";
  basic_digest_auth = no_auth_annotation;
  denied = Ptr.nil;
  cors_config = no_cors_annotation;
  external_auth = no_auth_req_annotation;
  enable_global_auth = false;
  http2_push_preload = false;
  rate_limit = no_rate_limit_annotation;
  global_rate_limit = no_global_rate_limit_annotation;
  redirect = no_redirect_annotation;
  rewrite = no_rewrite_annotation;
  whitelist = no_ip_whitelist_annotation;
  proxy = no_proxy_annotation;
  proxy_ssl = no_proxy_ssl_annotation;
  use_port_in_redirects = false;
  configuration_snippet = "";
  connection = no_connection_annotation;
  client_body_buffer_size = "";
  default_backend = Ptr.nil;
  default_backend_upstream_name = "";
  x_forwarded_prefix = "";
  logs = no_log_annotation;
  influx_db = no_influx_db_annotation;
  backend_protocol = "";
  fast_cgi = no_fast_cgi_annotation;
  custom_http_errors = Slice.nil;
  mod_security = no_mod_security_annotation;
  satisfy = "";
  mirror = no_mirror_annotation;
  opentracing = no_opentracing_annotation;
}

abbrev pub no_server : Server
no_server = record {
  hostname = "";
  ssl_passthrough = false;
  ssl_cert = Ptr.nil;
  locations = Slice.nil;
  aliases = Slice.nil;
  redirect_from_to_www = false;
  certificate_auth = no_auth_tls_annotation;
  proxy_ssl = no_proxy_ssl_annotation;
  server_snippet = "";
  ssl_ciphers = "";
  ssl_prefer_server_ciphers = "";
  auth_tls_error = "";
}

abbrev pub no_ssl_passthrough_backend : SslPassthroughBackend
no_ssl_passthrough_backend = record {
  service = Ptr.nil;
  port = no_int_or_string;
  backend = "";
  hostname = "";
}

abbrev pub no_configuration : Configuration
no_configuration = record {
  backends = Slice.nil;
  servers = Slice.nil;
  tcp_endpoints = Slice.nil;
  udp_endpoints = Slice.nil;
  passthrough_backends = Slice.nil;
  backend_config_checksum = "";
  configuration_checksum = "";
  default_ssl_certificate = Ptr.nil;
  stream_snippets = Slice.nil;
}

abbrev pub no_ingress : Ingress
no_ingress = record {
  namespace = "";
  name = "";
  annotations = [];
  default_backend = none;
  tls = [];
  rules = [];
  parsed_annotations = none;
}

abbrev pub no_proxy_protocol : ProxyProtocol
no_proxy_protocol = record { decode = false; encode = false }

abbrev pub no_l4_backend : L4Backend
no_l4_backend = record {
  port = no_int_or_string;
  name = "";
  namespace = "";
  protocol = "";
  proxy_protocol = no_proxy_protocol;
}

abbrev pub no_l4_service : L4Service
no_l4_service = record {
  port = pos 0;
  backend = no_l4_backend;
  endpoints = Slice.nil;
  service = Ptr.nil;
}

abbrev pub no_heap : Heap
no_heap = record {
  service = λ _. no_service;
  object_reference = λ _. no_object_reference;
  ssl_cert = λ _. no_ssl_cert;
  ingress = λ _. no_ingress;
  backend = λ _. no_backend;
  location = λ _. no_location;
  server = λ _. no_server;
  passthrough = λ _. no_ssl_passthrough_backend;
  configuration = λ _. no_configuration;
}
