-- ===== src/Api/Equal/Locations.antt =====
-- pkg/apis/ingress/types_equals.go: `Equal` of two locations. `IntOrString.String` of apimachinery
-- is a parameter.
use panda_k8s.Api.Equal.Backends
use panda_k8s.Api.Heap.{Heap}
use panda_k8s.Api.Servers.{Location}
use panda_k8s.Equality.{IsEquiv, on, ◌&◌, ==-IsEquiv, beq-IsEquiv, int_eq-IsEquiv}
use panda_k8s.Kube.{Service, IntOrString}
use panda_k8s.Pointers.{
  Ptr, same_address, same_address-IsEquiv, pointees_equal, pointees_equal-IsEquiv,
}
use panda_k8s.Prelude.{String, Bool, ℤ, ◌&&◌, ◌==◌, beq, int_eq}
use panda_k8s.Sets.{compare}
use panda_k8s.Sets.Multisets.{compare-IsEquiv}
use panda_k8s.Sets.Slices.{Slice}
use panda_k8s.Annotations.Auth
use panda_k8s.Annotations.AuthReq
use panda_k8s.Annotations.Connection
use panda_k8s.Annotations.Cors
use panda_k8s.Annotations.FastCgi
use panda_k8s.Annotations.GlobalRateLimit
use panda_k8s.Annotations.InfluxDb
use panda_k8s.Annotations.IpWhitelist
use panda_k8s.Annotations.Log
use panda_k8s.Annotations.Mirror
use panda_k8s.Annotations.ModSecurity
use panda_k8s.Annotations.Opentracing
use panda_k8s.Annotations.Proxy
use panda_k8s.Annotations.ProxySsl
use panda_k8s.Annotations.RateLimit
use panda_k8s.Annotations.Redirect
use panda_k8s.Annotations.Rewrite

unfoldable pub compare_ints : Slice ℤ → Slice ℤ → Bool
compare_ints a b = compare int_eq a b

pub compare_ints-IsEquiv : IsEquiv compare_ints
unfolding compare_ints
compare_ints-IsEquiv = compare-IsEquiv int_eq-IsEquiv

module _ (heap : Heap) where
  abbrev service_equal : Ptr Service → Ptr Service → Bool
  service_equal = Backends.service_equal heap

  service_equal-IsEquiv : IsEquiv service_equal
  service_equal-IsEquiv = Backends.service_equal-IsEquiv heap

  module _ (port_string : IntOrString → String) where
    -- `Location.Equal`, on two objects
    unfoldable pub same_location : Location → Location → Bool
    same_location a b =
        a.path == b.path
        && beq a.is_def_backend b.is_def_backend
        && a.backend == b.backend
        && service_equal a.service b.service
        && port_string a.port == port_string b.port
        && Auth.equal a.basic_digest_auth b.basic_digest_auth
        && same_address a.denied b.denied
        && Cors.equal a.cors_config b.cors_config
        && AuthReq.equal a.external_auth b.external_auth
        && beq a.enable_global_auth b.enable_global_auth
        && beq a.http2_push_preload b.http2_push_preload
        && RateLimit.equal a.rate_limit b.rate_limit
        && GlobalRateLimit.equal a.global_rate_limit b.global_rate_limit
        && Redirect.equal a.redirect b.redirect
        && Rewrite.equal a.rewrite b.rewrite
        && IpWhitelist.equal a.whitelist b.whitelist
        && Proxy.equal a.proxy b.proxy
        && ProxySsl.equal a.proxy_ssl b.proxy_ssl
        && beq a.use_port_in_redirects b.use_port_in_redirects
        && a.configuration_snippet == b.configuration_snippet
        && a.client_body_buffer_size == b.client_body_buffer_size
        && a.upstream_vhost == b.upstream_vhost
        && a.x_forwarded_prefix == b.x_forwarded_prefix
        && Connection.equal a.connection b.connection
        && Log.equal a.logs b.logs
        && InfluxDb.equal a.influx_db b.influx_db
        && a.backend_protocol == b.backend_protocol
        && FastCgi.equal a.fast_cgi b.fast_cgi
        && compare_ints a.custom_http_errors b.custom_http_errors
        && ModSecurity.equal a.mod_security b.mod_security
        && a.satisfy == b.satisfy
        && a.default_backend_upstream_name == b.default_backend_upstream_name
        && Opentracing.equal a.opentracing b.opentracing
        && Mirror.equal a.mirror b.mirror

    pub same_location-IsEquiv : IsEquiv same_location
    unfolding same_location
    same_location-IsEquiv =
        on (λ a. a.path) ==-IsEquiv
        & on (λ a. a.is_def_backend) beq-IsEquiv
        & on (λ a. a.backend) ==-IsEquiv
        & on (λ a. a.service) service_equal-IsEquiv
        & on (λ a. port_string a.port) ==-IsEquiv
        & on (λ a. a.basic_digest_auth) Auth.equal-IsEquiv
        & on (λ a. a.denied) same_address-IsEquiv
        & on (λ a. a.cors_config) Cors.equal-IsEquiv
        & on (λ a. a.external_auth) AuthReq.equal-IsEquiv
        & on (λ a. a.enable_global_auth) beq-IsEquiv
        & on (λ a. a.http2_push_preload) beq-IsEquiv
        & on (λ a. a.rate_limit) RateLimit.equal-IsEquiv
        & on (λ a. a.global_rate_limit) GlobalRateLimit.equal-IsEquiv
        & on (λ a. a.redirect) Redirect.equal-IsEquiv
        & on (λ a. a.rewrite) Rewrite.equal-IsEquiv
        & on (λ a. a.whitelist) IpWhitelist.equal-IsEquiv
        & on (λ a. a.proxy) Proxy.equal-IsEquiv
        & on (λ a. a.proxy_ssl) ProxySsl.equal-IsEquiv
        & on (λ a. a.use_port_in_redirects) beq-IsEquiv
        & on (λ a. a.configuration_snippet) ==-IsEquiv
        & on (λ a. a.client_body_buffer_size) ==-IsEquiv
        & on (λ a. a.upstream_vhost) ==-IsEquiv
        & on (λ a. a.x_forwarded_prefix) ==-IsEquiv
        & on (λ a. a.connection) Connection.equal-IsEquiv
        & on (λ a. a.logs) Log.equal-IsEquiv
        & on (λ a. a.influx_db) InfluxDb.equal-IsEquiv
        & on (λ a. a.backend_protocol) ==-IsEquiv
        & on (λ a. a.fast_cgi) FastCgi.equal-IsEquiv
        & on (λ a. a.custom_http_errors) compare_ints-IsEquiv
        & on (λ a. a.mod_security) ModSecurity.equal-IsEquiv
        & on (λ a. a.satisfy) ==-IsEquiv
        & on (λ a. a.default_backend_upstream_name) ==-IsEquiv
        & on (λ a. a.opentracing) Opentracing.equal-IsEquiv
        & on (λ a. a.mirror) Mirror.equal-IsEquiv

    -- `Location.Equal`
    unfoldable pub location_equal : Ptr Location → Ptr Location → Bool
    location_equal = pointees_equal heap.location same_location

    pub location_equal-IsEquiv : IsEquiv location_equal
    unfolding location_equal
    location_equal-IsEquiv = pointees_equal-IsEquiv heap.location same_location-IsEquiv
