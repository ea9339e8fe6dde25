-- ===== src/Annotations/Proxy.antt =====
-- internal/ingress/annotations/proxy/main.go: the parsed annotation, and its `Equal`.
use panda_k8s.Equality.{IsEquiv, on, ◌&◌, ==-IsEquiv, int_eq-IsEquiv}
use panda_k8s.Prelude.{String, Bool, ◌==◌, ℤ, int_eq, ◌&&◌}

pub record Config : Type 0 where
  pub body_size : String
  pub connect_timeout : ℤ
  pub send_timeout : ℤ
  pub read_timeout : ℤ
  pub buffers_number : ℤ
  pub buffer_size : String
  pub cookie_domain : String
  pub cookie_path : String
  pub next_upstream : String
  pub next_upstream_timeout : ℤ
  pub next_upstream_tries : ℤ
  pub proxy_redirect_from : String
  pub proxy_redirect_to : String
  pub request_buffering : String
  pub proxy_buffering : String
  pub proxy_http_version : String
  pub proxy_max_temp_file_size : String

-- `Equal`, on two objects
unfoldable pub equal : Config → Config → Bool
equal a b =
    a.body_size == b.body_size
    && int_eq a.connect_timeout b.connect_timeout
    && int_eq a.send_timeout b.send_timeout
    && int_eq a.read_timeout b.read_timeout
    && int_eq a.buffers_number b.buffers_number
    && a.buffer_size == b.buffer_size
    && a.cookie_domain == b.cookie_domain
    && a.cookie_path == b.cookie_path
    && a.next_upstream == b.next_upstream
    && int_eq a.next_upstream_timeout b.next_upstream_timeout
    && int_eq a.next_upstream_tries b.next_upstream_tries
    && a.request_buffering == b.request_buffering
    && a.proxy_redirect_from == b.proxy_redirect_from
    && a.proxy_redirect_to == b.proxy_redirect_to
    && a.proxy_buffering == b.proxy_buffering
    && a.proxy_http_version == b.proxy_http_version
    && a.proxy_max_temp_file_size == b.proxy_max_temp_file_size

pub equal-IsEquiv : IsEquiv equal
unfolding equal
equal-IsEquiv =
    on (λ a. a.body_size) ==-IsEquiv
    & on (λ a. a.connect_timeout) int_eq-IsEquiv
    & on (λ a. a.send_timeout) int_eq-IsEquiv
    & on (λ a. a.read_timeout) int_eq-IsEquiv
    & on (λ a. a.buffers_number) int_eq-IsEquiv
    & on (λ a. a.buffer_size) ==-IsEquiv
    & on (λ a. a.cookie_domain) ==-IsEquiv
    & on (λ a. a.cookie_path) ==-IsEquiv
    & on (λ a. a.next_upstream) ==-IsEquiv
    & on (λ a. a.next_upstream_timeout) int_eq-IsEquiv
    & on (λ a. a.next_upstream_tries) int_eq-IsEquiv
    & on (λ a. a.request_buffering) ==-IsEquiv
    & on (λ a. a.proxy_redirect_from) ==-IsEquiv
    & on (λ a. a.proxy_redirect_to) ==-IsEquiv
    & on (λ a. a.proxy_buffering) ==-IsEquiv
    & on (λ a. a.proxy_http_version) ==-IsEquiv
    & on (λ a. a.proxy_max_temp_file_size) ==-IsEquiv
