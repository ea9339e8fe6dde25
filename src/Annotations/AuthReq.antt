-- ===== src/Annotations/AuthReq.antt =====
-- internal/ingress/annotations/authreq/main.go: the parsed annotation, and its `Equal`.
use panda_k8s.Equality.{IsEquiv, on, ◌&◌, ==-IsEquiv, beq-IsEquiv, int_eq-IsEquiv}
use panda_k8s.Equality.Maps.{StringMap}
use panda_k8s.Prelude.{String, Bool, ◌==◌, beq, ℤ, int_eq, ◌&&◌}
use panda_k8s.Sets.{string_elements_match}
use panda_k8s.Sets.Multisets.{string_elements_match-IsEquiv}
use panda_k8s.Sets.Slices.{Slice}

pub record Config : Type 0 where
  pub url : String
  pub host : String
  pub signin_url : String
  pub signin_url_redirect_param : String
  pub method : String
  pub response_headers : Slice String
  pub request_redirect : String
  pub auth_snippet : String
  pub auth_cache_key : String
  pub auth_cache_duration : Slice String
  pub keepalive_connections : ℤ
  pub keepalive_requests : ℤ
  pub keepalive_timeout : ℤ
  pub proxy_set_headers : StringMap
  pub always_set_cookie : Bool

-- `Equal`, on two objects
unfoldable pub equal : Config → Config → Bool
equal a b =
    a.url == b.url
    && a.host == b.host
    && a.signin_url == b.signin_url
    && a.signin_url_redirect_param == b.signin_url_redirect_param
    && a.method == b.method
    && string_elements_match a.response_headers b.response_headers
    && a.request_redirect == b.request_redirect
    && a.auth_snippet == b.auth_snippet
    && a.auth_cache_key == b.auth_cache_key
    && int_eq a.keepalive_connections b.keepalive_connections
    && int_eq a.keepalive_requests b.keepalive_requests
    && int_eq a.keepalive_timeout b.keepalive_timeout
    && beq a.always_set_cookie b.always_set_cookie
    && string_elements_match a.auth_cache_duration b.auth_cache_duration

pub equal-IsEquiv : IsEquiv equal
unfolding equal
equal-IsEquiv =
    on (λ a. a.url) ==-IsEquiv
    & on (λ a. a.host) ==-IsEquiv
    & on (λ a. a.signin_url) ==-IsEquiv
    & on (λ a. a.signin_url_redirect_param) ==-IsEquiv
    & on (λ a. a.method) ==-IsEquiv
    & on (λ a. a.response_headers) string_elements_match-IsEquiv
    & on (λ a. a.request_redirect) ==-IsEquiv
    & on (λ a. a.auth_snippet) ==-IsEquiv
    & on (λ a. a.auth_cache_key) ==-IsEquiv
    & on (λ a. a.keepalive_connections) int_eq-IsEquiv
    & on (λ a. a.keepalive_requests) int_eq-IsEquiv
    & on (λ a. a.keepalive_timeout) int_eq-IsEquiv
    & on (λ a. a.always_set_cookie) beq-IsEquiv
    & on (λ a. a.auth_cache_duration) string_elements_match-IsEquiv
