-- ===== src/Api/Equal/Configurations.antt =====
-- pkg/apis/ingress/types_equals.go: `Equal` of two configurations.
use panda_k8s.Api.Configurations.{Configuration}
use panda_k8s.Api.Equal.Backends.{
  compare_backends, compare_backends-IsEquiv, compare_l4_service, compare_l4_service-IsEquiv,
}
use panda_k8s.Api.Equal.Servers.{
  DistinctAliases, ssl_cert_equal, ssl_cert_equal-IsEquiv, server_equal, server_equal-Laws,
  passthrough_equal, passthrough_equal-IsEquiv,
}
use panda_k8s.Api.Heap.{Heap}
use panda_k8s.Equality.{
  Laws, on, on_if, ◌&◌, ==-IsEquiv, same_order, same_order-Laws, same_elements, same_elements-Laws,
  distinct, All-Any,
}
use panda_k8s.Kube.{IntOrString}
use panda_k8s.Pointers.{Ptr, Pointee, pointees_equal, pointees_equal-Laws}
use panda_k8s.Prelude.{String, Bool, true, ◌≡◌, ◌&&◌, ◌==◌, All}
use panda_k8s.Sets.Slices.{elems}

module _ (heap : Heap) where
  -- What the controller builds: no server has an alias twice, and no passthrough backend is listed
  -- twice.
  pub record IsWellFormed (c : Configuration) : Type 0 where
    pub servers : All (Pointee heap.server DistinctAliases) (elems c.servers)
    pub passthrough_backends :
        distinct (passthrough_equal heap) (elems c.passthrough_backends) ≡ true

  module _ (port_string : IntOrString → String) where
    -- `Configuration.Equal`, on two objects
    unfoldable pub same_configuration : Configuration → Configuration → Bool
    same_configuration a b =
        ssl_cert_equal heap a.default_ssl_certificate b.default_ssl_certificate
        && compare_backends heap a.backends b.backends
        && same_order (server_equal heap port_string) (elems a.servers) (elems b.servers)
        && compare_l4_service heap a.tcp_endpoints b.tcp_endpoints
        && compare_l4_service heap a.udp_endpoints b.udp_endpoints
        && same_elements (passthrough_equal heap) (elems a.passthrough_backends)
            (elems b.passthrough_backends)
        && a.backend_config_checksum == b.backend_config_checksum

    pub same_configuration-Laws : Laws IsWellFormed same_configuration
    unfolding same_configuration
    same_configuration-Laws =
        on (λ a. a.default_ssl_certificate) (ssl_cert_equal-IsEquiv heap)
        & on (λ a. a.backends) (compare_backends-IsEquiv heap)
        & on_if (λ a. elems a.servers) (λ a w. w.servers)
            (same_order-Laws (server_equal-Laws heap port_string))
        & on (λ a. a.tcp_endpoints) (compare_l4_service-IsEquiv heap)
        & on (λ a. a.udp_endpoints) (compare_l4_service-IsEquiv heap)
        & on_if (λ a. elems a.passthrough_backends)
            (λ a w. (All-Any (elems a.passthrough_backends), w.passthrough_backends))
            (same_elements-Laws (passthrough_equal-IsEquiv heap))
        & on (λ a. a.backend_config_checksum) ==-IsEquiv

    -- `Configuration.Equal`
    unfoldable pub configuration_equal : Ptr Configuration → Ptr Configuration → Bool
    configuration_equal = pointees_equal heap.configuration same_configuration

    pub configuration_equal-Laws :
        Laws (Pointee heap.configuration IsWellFormed) configuration_equal
    unfolding configuration_equal
    configuration_equal-Laws = pointees_equal-Laws heap.configuration same_configuration-Laws
