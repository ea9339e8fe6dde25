-- ===== src/Controller/Streams.antt =====
-- internal/ingress/controller/controller.go: the TCP and UDP services that a ConfigMap names
-- (`getStreamServices`). The entries of the ConfigMap come in any order.
pub mod Sound
pub mod References
use panda_k8s.Api.Backends.{Endpoint, L4Service, ProxyProtocol}
use panda_k8s.Api.Heap.{Heap}
use panda_k8s.Controller.Endpoints.{get_endpoints}
use panda_k8s.Controller.Store.{Store, Options}
use panda_k8s.Externals.{Externals}
use panda_k8s.Kube.{Service, ServicePort}
use panda_k8s.Names.{parse_name_ns}
use panda_k8s.Pointers.{at}
use panda_k8s.Prelude.{
  ℕ, String, Bool, true, false, ◌&&◌, ◌==◌, ℤ, pos, int_eq, int_lt, List, [], ◌∷◌, Option, none,
  some, any, first, filter_map, sort, split, atoi, to_int32, upper_eq, if◌then◌else◌, ◌>>=◌,
}
use panda_k8s.Sets.Slices.{Slice, made, appended}

-- the number of a port, and the parts of what the entry refers to
pub record StreamRef : Type 0 where
  pub ns_name : String
  pub svc_port : String
  pub options : List String

-- `len(nsSvcPort) < 2`
abbrev stream_ref : List String → Option StreamRef
stream_ref (ns_name ∷ svc_port ∷ options) =
    some (record { ns_name = ns_name; svc_port = svc_port; options = options })
stream_ref _ = none

-- the third and the fourth part, for TCP
abbrev pub proxy_protocol : String → List String → ProxyProtocol
proxy_protocol proto [] = record { decode = false; encode = false }
proxy_protocol proto (a ∷ []) = record {
  decode = proto == "TCP" && upper_eq a "PROXY";
  encode = false;
}
proxy_protocol proto (a ∷ b ∷ []) = record {
  decode = proto == "TCP" && upper_eq a "PROXY";
  encode = proto == "TCP" && upper_eq b "PROXY";
}
proxy_protocol proto (a ∷ b ∷ c ∷ rest) = record {
  decode = proto == "TCP" && upper_eq a "PROXY";
  encode = false;
}

-- a port of the Service that the text names, by its number or its name
unfoldable pub is_stream_port : String → String → ServicePort → Bool
unfolding atoi to_int32
is_stream_port proto svc_port sp =
    let number = atoi svc_port in
    (if number.is_error then sp.name == svc_port else int_eq sp.port (to_int32 number.number))
    && sp.protocol == proto

-- `less`
abbrev pub by_port : L4Service → L4Service → Bool
by_port a b = int_lt a.port b.port

module _ (cfg : Options) where
  -- `reservedPorts`
  unfoldable pub is_reserved : ℤ → Bool
  is_reserved n =
      let ports = cfg.listen_ports in
      any (λ p. int_eq p n)
        (ports.http
          ∷ ports.https
          ∷ ports.ssl_proxy
          ∷ ports.health
          ∷ ports.default
          ∷ pos 10245
          ∷ pos 10246
          ∷ pos 10247
          ∷ [])

  module _ (ext : Externals) (heap : Heap) (store : Store) (proto : String) where
    -- `endps`
    unfoldable pub stream_endpoints : String → Service → List Endpoint
    unfolding is_stream_port first get_endpoints
    stream_endpoints svc_port svc = elim (first (is_stream_port proto svc_port) svc.ports) [
      | none ↦ []
      | some sp ↦ get_endpoints ext (some svc) (some sp) proto store.get_service_endpoints
    ]

    -- the service of an entry that has endpoints
    abbrev pub l4_service : ℤ → StreamRef → String × String → ℕ → List Endpoint → Option L4Service
    l4_service external_port ref names n [] = none
    l4_service external_port ref names n (e ∷ es) = some (record {
      port = external_port;
      backend = record {
        port = ext.from_string ref.svc_port;
        name = names.1;
        namespace = names.0;
        protocol = proto;
        proxy_protocol = proxy_protocol proto ref.options;
      };
      endpoints = made (e ∷ es);
      service = at n;
    })

    -- the service of one entry, from the parsed reference on
    unfoldable pub referred_service : ℤ → StreamRef → Option L4Service
    unfolding stream_endpoints parse_name_ns
    referred_service external_port ref = do
      names ← parse_name_ns ref.ns_name
      n ← store.get_service ref.ns_name
      l4_service external_port ref names n (stream_endpoints ref.svc_port (heap.service n))

    -- the body of the loop: none where it continues without a service
    unfoldable pub stream_service : String × String → Option L4Service
    unfolding is_reserved referred_service atoi split
    stream_service (port, svc_ref) =
        let number = atoi port in
        if number.is_error
        then none
        else if is_reserved number.number
        then none
        else stream_ref (split b':' svc_ref) >>= referred_service number.number

    -- `getStreamServices`
    unfoldable pub get_stream_services : String → Slice L4Service
    unfolding stream_service sort filter_map parse_name_ns
    get_stream_services config_map_name =
        if config_map_name == "" then made [] else elim (parse_name_ns config_map_name) [
          | none ↦ made []
          | some _ ↦ elim (store.get_config_map config_map_name) [
            | none ↦ made []
            | some entries ↦ appended (sort by_port (filter_map stream_service entries))
          ]
        ]
