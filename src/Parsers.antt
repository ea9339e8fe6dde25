-- ===== src/Parsers.antt =====
-- internal/ingress/annotations: the parsers of the annotations of an Ingress. What they ask of the
-- resolver, of Go's `net`, `net/url`, `time` and `encoding/base64`, and of client-go is a parameter,
-- of which nothing is assumed.
pub mod Flags
pub mod Texts
pub mod Canary
pub mod Cors
pub mod Affinity
pub mod Addresses
pub mod RateLimits
pub mod Urls
pub mod Rewrite
pub mod Proxy
pub mod Tls
pub mod AuthReq
pub mod FastCgi
pub mod Extract
use panda_k8s.Annotations.AuthSslCert.{AuthSslCert}
use panda_k8s.Annotations.Parser.{
  Error, Found, or_default, get_bool_annotation, get_string_annotation, get_int_annotation,
}
use panda_k8s.Equality.Maps.{StringMap}
use panda_k8s.Prelude.{ℕ, String, Bool, false, ℤ, pos, List, Option, none, some}

-- a value, or an error with its text
pub data Result (A : Type 0) : Type 0 where
  ok : A → Result A
  error : String → Result A

-- `url.URL`, as far as it is read
pub record Url : Type 0 where
  pub scheme : String
  pub host : String
  pub hostname : String

-- internal/ingress/defaults: what the ConfigMap of the controller sets for every backend
pub record Defaults : Type 0 where
  pub app_root : String
  pub custom_http_errors : List ℤ
  pub preserve_trailing_slash : Bool
  pub proxy_body_size : String
  pub proxy_connect_timeout : ℤ
  pub proxy_read_timeout : ℤ
  pub proxy_send_timeout : ℤ
  pub proxy_buffers_number : ℤ
  pub proxy_buffer_size : String
  pub proxy_cookie_path : String
  pub proxy_cookie_domain : String
  pub proxy_next_upstream : String
  pub proxy_next_upstream_timeout : ℤ
  pub proxy_next_upstream_tries : ℤ
  pub proxy_redirect_from : String
  pub proxy_redirect_to : String
  pub proxy_request_buffering : String
  -- the IP addresses of the name servers, as texts
  pub resolver : List String
  pub skip_access_log_urls : List String
  pub ssl_redirect : Bool
  pub force_ssl_redirect : Bool
  pub use_port_in_redirects : Bool
  pub upstream_hash_by : String
  pub upstream_hash_by_subset : Bool
  pub upstream_hash_by_subset_size : ℤ
  pub load_balancing : String
  pub whitelist_source_range : List String
  pub limit_rate : ℤ
  pub limit_rate_after : ℤ
  pub proxy_buffering : String
  pub proxy_http_version : String
  pub proxy_max_temp_file_size : String
  pub service_upstream : Bool

pub record Resolver : Type 0 where
  -- `parser.AnnotationsPrefix`
  pub prefix : String
  -- `GetDefaultBackend`, `GetConfigMap` with the data, `GetAuthCertificate` and `GetService`, which
  -- answers the address of the Service
  pub defaults : Defaults
  pub get_config_map : String → Result StringMap
  pub get_auth_certificate : String → Result AuthSslCert
  pub get_service : String → Option ℕ
  -- `net.ParseCIDR` and `net.ParseIP`, with the text of what they parse
  pub parse_cidr : String → Result String
  pub parse_ip : String → Option String
  -- `url.Parse`, and `url.ParseRequestURI` with `URL.IsAbs`
  pub parse_url : String → Result Url
  pub parse_request_uri : String → Option Bool
  -- `time.ParseDuration`, with the number of whole seconds
  pub parse_duration : String → Result ℤ
  -- `base64.URLEncoding.EncodeToString`, of the bytes of a text
  pub encode_to_string : String → String
  -- `cache.SplitMetaNamespaceKey`
  pub split_meta_namespace_key : String → Result (String × String)

-- the parts of `networking.Ingress` that the parsers read
pub record Annotated : Type 0 where
  pub namespace : String
  pub name : String
  pub uid : String
  pub annotations : List (String × String)

-- what `Parse` returns: a value, which may be nil, and an error, which may be nil
pub record Reply (A : Type 0) : Type 0 where
  pub value : Option A
  pub error : Option Error

abbrev pub answer : {A : Type 0} → A → Reply A
answer a = record { value = some a; error = none }

abbrev pub refuse : {A : Type 0} → Error → Reply A
refuse e = record { value = none; error = some e }

-- a value, and an error all the same
abbrev pub refuse_with : {A : Type 0} → A → Error → Reply A
refuse_with a e = record { value = some a; error = some e }

-- `return parser.Get…Annotation(name, ing)`, with the zero value
abbrev pub reply : {A : Type 0} → A → Found A → Reply A
reply zero_value (Found.value a) = answer a
reply zero_value (Found.failed e) = refuse_with zero_value e

module _ (r : Resolver) (ing : Annotated) where
  abbrev pub bool_of : String → Found Bool
  bool_of name = get_bool_annotation r.prefix name ing.annotations

  abbrev pub string_of : String → Found String
  string_of name = get_string_annotation r.prefix name ing.annotations

  abbrev pub int_of : String → Found ℤ
  int_of name = get_int_annotation r.prefix name ing.annotations

  -- the values that the getters return beside an error
  abbrev pub bool_or_false : String → Bool
  bool_or_false name = or_default false (bool_of name)

  abbrev pub string_or_empty : String → String
  string_or_empty name = or_default "" (string_of name)

  abbrev pub int_or_zero : String → ℤ
  int_or_zero name = or_default (pos 0) (int_of name)
