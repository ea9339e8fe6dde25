-- ===== src/Controller/Removed.antt =====
-- internal/ingress/controller/controller.go: the hosts, certificates and Ingresses whose metrics
-- `syncIngress` removes (`getRemovedHosts`, `getRemovedCertificateSerialNumbers` and
-- `getRemovedIngresses`), and `SSLCert.Identifier` of pkg/apis/ingress/sslcert.go. `none` is the panic
-- at a nil server or location.
pub mod Exact
use panda_k8s.Api.Configurations.{Configuration}
use panda_k8s.Api.Heap.{Heap}
use panda_k8s.Api.Servers.{SslCert, Location, Server}
use panda_k8s.Externals.{Externals}
use panda_k8s.Pointers.{Ptr, nil, at, load}
use panda_k8s.Prelude.{
  String, text_append, not, ◌==◌, List, [], ◌∷◌, Option, none, some, if◌then◌else◌, ◌>>=◌,
}
use panda_k8s.Sets.Slices.{elems}
use panda_k8s.StringSets.{StringSets}

-- `Identifier`
unfoldable pub identifier : SslCert → String
identifier s = elim s.certificate [
  | none ↦ ""
  | some c ↦ elim c.serial_number [
    | none ↦ ""
    | some number ↦ text_append c.issuer_serial_number (text_append "-" number)
  ]
]

module _ (ext : Externals) (heap : Heap) (sets : StringSets) where
  open sets use {Set, empty, insert, has, list, difference}

  -- `if !set.Has(x) { set.Insert(x) }`
  unfoldable pub insert_once : Set → String → Set
  insert_once s x = if not (has s x) then insert s x else s

  -- a loop over the servers
  unfoldable pub over_servers : (Server → Set → Option Set) → List (Ptr Server) → Set → Option Set
  over_servers step [] s = some s
  over_servers step (p ∷ ps) s = do
    server ← load heap.server p
    next ← step server s
    over_servers step ps next

  -- what is in the set of the old configuration and not in that of the new one
  unfoldable pub removed :
      (Server → Set → Option Set) → Configuration → Configuration → Option (List String)
  unfolding over_servers
  removed step rucfg newcfg = do
    old ← over_servers step (elems rucfg.servers) empty
    new ← over_servers step (elems newcfg.servers) empty
    some (list (difference old new))

  unfoldable pub add_hostname : Server → Set → Option Set
  unfolding insert_once
  add_hostname server s = some (insert_once s server.hostname)

  -- `getRemovedHosts`
  unfoldable pub get_removed_hosts : Configuration → Configuration → Option (List String)
  unfolding removed add_hostname
  get_removed_hosts = removed add_hostname

  unfoldable pub add_identifier : Server → Set → Option Set
  unfolding insert_once identifier
  add_identifier server s = elim server.ssl_cert [
    | nil ↦ some s
    | at n ↦
        let id = identifier (heap.ssl_cert n) in
        some (if not (id == "") then insert_once s id else s)
  ]

  -- `getRemovedCertificateSerialNumbers`
  unfoldable pub get_removed_certificate_serial_numbers :
      Configuration → Configuration → Option (List String)
  unfolding removed add_identifier
  get_removed_certificate_serial_numbers = removed add_identifier

  -- the key of the Ingress of a location
  unfoldable pub add_ingress_key : Location → Set → Set
  unfolding insert_once
  add_ingress_key loc s = elim loc.ingress [
    | nil ↦ s
    | at n ↦ insert_once s (ext.meta_namespace_key (heap.ingress n).namespace (heap.ingress n).name)
  ]

  unfoldable pub add_ingress_keys : List (Ptr Location) → Set → Option Set
  unfolding add_ingress_key
  add_ingress_keys [] s = some s
  add_ingress_keys (p ∷ ps) s = do
    loc ← load heap.location p
    add_ingress_keys ps (add_ingress_key loc s)

  unfoldable pub add_ingresses_of : Server → Set → Option Set
  unfolding add_ingress_keys
  add_ingresses_of server s = add_ingress_keys (elems server.locations) s

  -- `getRemovedIngresses`
  unfoldable pub get_removed_ingresses : Configuration → Configuration → Option (List String)
  unfolding removed add_ingresses_of
  get_removed_ingresses = removed add_ingresses_of
