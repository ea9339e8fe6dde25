-- ===== src/Tests/Parsers.antt =====
-- The annotation parsers on sample Ingresses, and the theorems about them at concrete inputs.
use panda_k8s.Annotations.Auth
use panda_k8s.Annotations.Parser.{
  Error, get_string_annotation, get_bool_annotation, get_int_annotation, with_prefix,
}
use panda_k8s.Annotations.Parser.References.{
  annotations_references_configmap, annotations_references_configmap_prefixed,
}
use panda_k8s.Parsers.{Reply, Defaults, Resolver, Annotated, Result, answer, refuse, refuse_with}
use panda_k8s.Parsers.Addresses.{whitelist, default_whitelist}
use panda_k8s.Parsers.Addresses.Sound.{network_or_address, all_parsed, IsListOf, whitelist_given}
use panda_k8s.Parsers.Affinity.{is_expiry}
use panda_k8s.Parsers.AuthReq.Durations.{valid_cache_duration}
use panda_k8s.Parsers.Canary
use panda_k8s.Parsers.Cors
use panda_k8s.Parsers.Cors.{is_origin, is_headers}
use panda_k8s.Parsers.Cors.Safe.{config-safe}
use panda_k8s.Parsers.Extract.Whitelist.{extract_whitelist_denied}
use panda_k8s.Pointers.{at}
use panda_k8s.Parsers.Extract.{replies, extract, Parsed, Extracted, extract_all}
use panda_k8s.Parsers.Extract.Denials.{is_some, is_denied, extract_all_denied}
use panda_k8s.Parsers.Extract.Values.{kept, extract_all-values}
use panda_k8s.Parsers.Tls.{sort_protocols, is_verify_client}
use panda_k8s.Prelude.{
  String, lookup, Bool, true, false, ◌||◌, pos, List, [], ◌∷◌, ◌++◌, none, some, any, map, split,
  trim_space, All, contains_char, ◌≡◌, ◌⊎◌, refl, if◌then◌else◌,
}
use panda_k8s.Sets.Slices.{elems, made}

abbrev defaults : Defaults
defaults = record {
  app_root = "";
  custom_http_errors = [];
  resolver = [];
  skip_access_log_urls = [];
  upstream_hash_by = "";
  upstream_hash_by_subset = false;
  upstream_hash_by_subset_size = pos 3;
  load_balancing = "";
  preserve_trailing_slash = false;
  proxy_body_size = "1m";
  proxy_connect_timeout = pos 5;
  proxy_read_timeout = pos 60;
  proxy_send_timeout = pos 60;
  proxy_buffers_number = pos 4;
  proxy_buffer_size = "4k";
  proxy_cookie_path = "off";
  proxy_cookie_domain = "off";
  proxy_next_upstream = "error timeout";
  proxy_next_upstream_timeout = pos 0;
  proxy_next_upstream_tries = pos 3;
  proxy_redirect_from = "off";
  proxy_redirect_to = "off";
  proxy_request_buffering = "on";
  ssl_redirect = true;
  force_ssl_redirect = false;
  use_port_in_redirects = false;
  whitelist_source_range = [];
  limit_rate = pos 0;
  limit_rate_after = pos 0;
  proxy_buffering = "off";
  proxy_http_version = "1.1";
  proxy_max_temp_file_size = "1024m";
  service_upstream = false;
}

-- networks are the texts with a slash, and addresses those with a dot
abbrev resolver : Resolver
resolver = record {
  prefix = "nginx.ingress.kubernetes.io";
  defaults = defaults;
  get_config_map = λ s. Result.error "not found";
  get_auth_certificate = λ s. Result.error "not found";
  get_service = λ s. none;
  parse_cidr =
      λ s. if contains_char s b'/' then Result.ok s else Result.error "invalid CIDR address";
  parse_ip = λ s. if contains_char s b'.' then some s else none;
  parse_url = λ s. Result.error "no URL";
  parse_request_uri = λ s. none;
  parse_duration = λ s. Result.error "no duration";
  encode_to_string = λ s. s;
  split_meta_namespace_key = λ s. Result.error "no key";
}

abbrev annotated : List (String × String) → Annotated
annotated annotations = record {
  namespace = "ns";
  name = "web";
  uid = "1-2";
  annotations = annotations;
}

abbrev with_cors : Annotated
with_cors = annotated (
    ("nginx.ingress.kubernetes.io/enable-cors", "true")
    ∷ ("nginx.ingress.kubernetes.io/cors-allow-origin", "https://*.foo.com:80, $evil, http://a.b")
    ∷ ("nginx.ingress.kubernetes.io/cors-allow-headers", "X-A, X-B;")
    ∷ [])

accepted_origins :
    elems (Cors.config resolver with_cors).cors_allow_origin
    ≡ "https://*.foo.com:80" ∷ "http://a.b" ∷ []
unfolding Cors.config is_origin get_string_annotation lookup
accepted_origins = refl

some_headers : is_headers "X-A, X-B,Y" ≡ true
unfolding is_headers
some_headers = refl

no_headers : is_headers "X-A,  X-B" ≡ false
unfolding is_headers
no_headers = refl

abbrev canary_off : Annotated
canary_off = annotated (("nginx.ingress.kubernetes.io/canary-weight", "10") ∷ [])

canary_not_enabled : Canary.parse resolver canary_off ≡ refuse Error.invalid_configuration
unfolding Canary.parse get_bool_annotation lookup get_int_annotation
canary_not_enabled = refl

sorted_protocols : sort_protocols "TLSv1.2  SSLv4 TLSv1" ≡ "TLSv1 TLSv1.2"
unfolding sort_protocols
sorted_protocols = refl

durations : valid_cache_duration "200 202 5m" ≡ true
unfolding valid_cache_duration
durations = refl

foreign_element : valid_cache_duration "200 never 5m" ≡ true
unfolding valid_cache_duration
foreign_element = refl

code_behind : valid_cache_duration "5m 200" ≡ false
unfolding valid_cache_duration
code_behind = refl

expiry_behind_text : is_expiry "; Domain=evil; x=1" ≡ true
unfolding is_expiry
expiry_behind_text = refl

unknown_mode : is_verify_client "none" ≡ true
unfolding is_verify_client
unknown_mode = refl

-- A dollar sign does not get into the configuration.
config-safe_example :
    All
      (λ o. contains_char o b'$' ≡ false)
      (elems (Cors.config resolver with_cors).cors_allow_origin)
    × (contains_char (Cors.config resolver with_cors).cors_allow_headers b'$' ≡ false)
    × (contains_char (Cors.config resolver with_cors).cors_allow_methods b'$' ≡ false)
    × (contains_char (Cors.config resolver with_cors).cors_expose_headers b'$' ≡ false)
config-safe_example = config-safe b'$' refl resolver with_cors

abbrev with_list : Annotated
with_list =
    annotated
      (("nginx.ingress.kubernetes.io/whitelist-source-range", "9.0.0.0/8, 1.1.1.1, all") ∷ [])

whitelist_given_example :
    (all_parsed resolver (split b',' "9.0.0.0/8, 1.1.1.1, all") ≡ false)
      × ((reason : String) × (whitelist resolver with_list
            ≡ refuse_with (default_whitelist resolver) (Error.denied reason)))
    ⊎ (all_parsed resolver (split b',' "9.0.0.0/8, 1.1.1.1, all") ≡ true)
      × ((cidrs : List String) × (whitelist resolver with_list
            ≡ answer (record { cidr = made cidrs }))
          × IsListOf resolver (split b',' "9.0.0.0/8, 1.1.1.1, all") cidrs)
unfolding get_string_annotation lookup
whitelist_given_example = whitelist_given resolver with_list "9.0.0.0/8, 1.1.1.1, all" refl

sorted_list :
    whitelist resolver (
      annotated (("nginx.ingress.kubernetes.io/whitelist-source-range", "9.0.0.0/8, 1.1.1.1") ∷ []))
    ≡ answer (record { cidr = made ("1.1.1.1" ∷ "9.0.0.0/8" ∷ []) })
unfolding whitelist get_string_annotation lookup
sorted_list = refl

abbrev denying : String → String → Parsed
denying name reason = (name, refuse_with (λ p. p) (Error.denied reason))

abbrev accepting : String → Parsed
accepting name = (name, answer (λ p. p))

abbrev start : Extracted
start = record { values = []; reason = none }

extract_all_denied_example :
    is_some (extract_all (accepting "Canary" ∷ denying "Whitelist" "no address" ∷ []) start).reason
    ≡ (is_some start.reason
        || any is_denied (accepting "Canary" ∷ denying "Whitelist" "no address" ∷ []))
extract_all_denied_example =
    extract_all_denied (accepting "Canary" ∷ denying "Whitelist" "no address" ∷ []) start

extract_all-values_example :
    lookup "Canary"
      (extract_all
        ((denying "Whitelist" "no address" ∷ [])
          ++ accepting "Canary" ∷ denying "FastCGI" "no map" ∷ [])
        start).values
    ≡ kept (answer (λ p. p))
extract_all-values_example =
    extract_all-values (denying "Whitelist" "no address" ∷ []) (denying "FastCGI" "no map" ∷ [])
      "Canary" (answer (λ p. p)) (refl, tt) (refl, tt) refl

-- The value of a second parser that denies is kept, and that of the first is not.
abbrev values_of : List Parsed → List (Bool × Bool)
values_of ps =
    let values = (extract_all ps start).values in
    (is_some (lookup "Whitelist" values), is_some (lookup "FastCGI" values)) ∷ []

whitelist_first :
    values_of (denying "Whitelist" "a" ∷ denying "FastCGI" "b" ∷ []) ≡ (false, true) ∷ []
unfolding extract_all lookup
whitelist_first = refl

fast_cgi_first :
    values_of (denying "FastCGI" "b" ∷ denying "Whitelist" "a" ∷ []) ≡ (true, false) ∷ []
unfolding extract_all lookup
fast_cgi_first = refl

annotations_references_configmap_prefixed_example :
    annotations_references_configmap (
      map
        (λ (a : String × String). (with_prefix "nginx.ingress.kubernetes.io" a.0, a.1))
        (("fastcgi-params-configmap", "ns/params") ∷ []))
    ≡ false
annotations_references_configmap_prefixed_example =
    annotations_references_configmap_prefixed "nginx.ingress.kubernetes.io"
      (("fastcgi-params-configmap", "ns/params") ∷ [])

part_not_read : all_parsed resolver (split b',' "9.0.0.0/8, 1.1.1.1, all") ≡ false
unfolding split trim_space network_or_address
part_not_read = refl

abbrev no_auth : Annotated → Reply Auth.Config
no_auth ing = refuse Error.missing

extract_whitelist_denied_example :
    (extract resolver no_auth with_list (replies resolver no_auth with_list) 7).denied ≡ at 7
unfolding get_string_annotation lookup
extract_whitelist_denied_example =
    extract_whitelist_denied resolver no_auth with_list "9.0.0.0/8, 1.1.1.1, all"
      (replies resolver no_auth with_list) 7 refl part_not_read (λ p i. i)
