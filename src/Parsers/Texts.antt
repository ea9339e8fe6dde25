-- ===== src/Parsers/Texts.antt =====
-- internal/ingress/annotations/{alias,backendprotocol,connection,customhttperrors,defaultbackend,
-- influxdb,satisfy,sslcipher,upstreamhashby,loadbalancing,serversnippet,snippet,streamsnippet,
-- upstreamvhost,xforwardedprefix,clientbodybuffersize}/main.go: annotations of texts.
use panda_k8s.Annotations.Connection
use panda_k8s.Annotations.InfluxDb
use panda_k8s.Annotations.Parser.{Error, Found, or_default}
use panda_k8s.Annotations.SslCipher
use panda_k8s.Annotations.UpstreamHashBy
use panda_k8s.Parsers.{
  Resolver, Annotated, Reply, answer, refuse, refuse_with, reply, bool_of, bool_or_false, string_of,
  string_or_empty, int_or_zero,
}
use panda_k8s.Kube.{Service}
use panda_k8s.Pointers.{Ptr}
use panda_k8s.Prelude.{
  String, text_append, text_lt, Bool, true, false, ◌||◌, ◌==◌, ℤ, pos, int_eq, List, [], ◌∷◌,
  Option, none, some, any, split, sort, atoi, trim_space, upper_eq, is_empty, if◌then◌else◌,
}
use panda_k8s.Sets.Slices.{Slice}

-- `aliases`, a set whose elements `List` sorts, with the texts that are there already
unfoldable pub distinct_texts : List String → List String → List String
unfolding trim_space
distinct_texts [] seen = seen
distinct_texts (w ∷ ws) seen =
    let alias = trim_space w in
    distinct_texts ws
      (if is_empty alias then seen else if any (λ x. x == alias) seen then seen else alias ∷ seen)

-- `validProtocols`
abbrev pub protocols : List String
protocols = "AUTO_HTTP" ∷ "HTTP" ∷ "HTTPS" ∷ "AJP" ∷ "GRPC" ∷ "GRPCS" ∷ "FCGI" ∷ []

-- the protocol that the text spells, in letters of any case
unfoldable pub protocol_of : List String → String → String
unfolding upper_eq
protocol_of [] s = "HTTP"
protocol_of (p ∷ ps) s = if upper_eq s p then p else protocol_of ps s

unfoldable pub backend_protocol_of : Found String → String
unfolding protocol_of trim_space
backend_protocol_of (Found.value s) = protocol_of protocols (trim_space s)
backend_protocol_of (Found.failed e) = "HTTP"

-- the loop over the status codes
unfoldable pub codes_of : List String → Option (List ℤ)
unfolding atoi
codes_of [] = some []
codes_of (w ∷ ws) = elim (codes_of ws) [
  | none ↦ none
  | some codes ↦ let n = atoi w in if n.is_error then none else some (n.number ∷ codes)
]

abbrev on_or_off : Found Bool → String
on_or_off (Found.failed e) = ""
on_or_off (Found.value true) = "on"
on_or_off (Found.value false) = "off"

module _ (r : Resolver) (ing : Annotated) where
  -- `alias.Parse`
  unfoldable pub aliases : Reply (Slice String)
  unfolding distinct_texts sort split
  aliases = elim (string_of r ing "server-alias") [
    | Found.failed e ↦ refuse_with (Slice.made []) e
    | Found.value s ↦ answer (Slice.made (sort text_lt (distinct_texts (split b',' s) [])))
  ]

  -- `backendProtocol.Parse`: without annotations the getter answers an error
  unfoldable pub backend_protocol : String
  unfolding backend_protocol_of
  backend_protocol = backend_protocol_of (string_of r ing "backend-protocol")

  -- `connection.Parse`
  unfoldable pub connection : Reply Connection.Config
  connection = elim (string_of r ing "connection-proxy-header") [
    | Found.failed e ↦ refuse_with (record { header = ""; enabled = false }) e
    | Found.value s ↦ answer (record { header = s; enabled = true })
  ]

  -- `customhttperrors.Parse`
  unfoldable pub custom_http_errors : Reply (Slice ℤ)
  unfolding codes_of split
  custom_http_errors = elim (string_of r ing "custom-http-errors") [
    | Found.failed e ↦ refuse e
    | Found.value s ↦ elim (codes_of (split b',' s)) [
      | none ↦ refuse Error.other
      | some codes ↦ answer (Slice.made codes)
    ]
  ]

  -- `backend.Parse` of defaultbackend
  unfoldable pub default_backend : Reply (Ptr Service)
  default_backend = elim (string_of r ing "default-backend") [
    | Found.failed e ↦ refuse e
    | Found.value s ↦ elim (r.get_service (text_append ing.namespace (text_append "/" s))) [
      | none ↦ refuse Error.other
      | some svc ↦ answer (Ptr.at svc)
    ]
  ]

  -- `influxdb.Parse`
  unfoldable pub influx_db : InfluxDb.Config
  influx_db = record {
    influx_db_enabled = bool_or_false r ing "enable-influxdb";
    influx_db_measurement = or_default "default" (string_of r ing "influxdb-measurement");
    influx_db_port = or_default "8089" (string_of r ing "influxdb-port");
    influx_db_host = or_default "127.0.0.1" (string_of r ing "influxdb-host");
    influx_db_server_name = or_default "nginx-ingress" (string_of r ing "influxdb-server-name");
  }

  -- `satisfy.Parse`
  unfoldable pub satisfy : String
  satisfy = let s = string_or_empty r ing "satisfy" in if s == "any" || s == "all" then s else ""

  -- `sslCipher.Parse`
  unfoldable pub ssl_cipher : SslCipher.Config
  ssl_cipher = record {
    ssl_ciphers = string_or_empty r ing "ssl-ciphers";
    ssl_prefer_server_ciphers = on_or_off (bool_of r ing "ssl-prefer-server-ciphers");
  }

  -- `upstreamhashby.Parse`
  unfoldable pub upstream_hash_by : UpstreamHashBy.Config
  upstream_hash_by =
      let size = int_or_zero r ing "upstream-hash-by-subset-size" in
      record {
        upstream_hash_by = string_or_empty r ing "upstream-hash-by";
        upstream_hash_by_subset = bool_or_false r ing "upstream-hash-by-subset";
        upstream_hash_by_subset_size = if int_eq size (pos 0) then pos 3 else size;
      }

  -- the parsers that return one text as it is
  unfoldable pub plain_text : String → Reply String
  plain_text name = reply "" (string_of r ing name)
