-- ===== src/Parsers/Extract.antt =====
-- internal/ingress/annotations/annotations.go: all parsers, and what their replies make of an
-- Ingress. The parsers stand in a Go map, which is visited in some order.
pub mod Denials
pub mod Values
pub mod Whitelist
use panda_k8s.Annotations.Auth
use panda_k8s.Annotations.AuthTls
use panda_k8s.Annotations.Parsed.{ParsedAnnotations}
use panda_k8s.Annotations.Parser.{Error}
use panda_k8s.Annotations.Zero.{no_parsed_annotations, no_auth_tls_annotation}
use panda_k8s.Parsers.{Resolver, Annotated, Reply, answer}
use panda_k8s.Parsers.Addresses.{whitelist}
use panda_k8s.Parsers.Affinity
use panda_k8s.Parsers.AuthReq.{auth_req}
use panda_k8s.Parsers.Canary
use panda_k8s.Parsers.Cors
use panda_k8s.Parsers.FastCgi.{fast_cgi}
use panda_k8s.Parsers.Flags
use panda_k8s.Parsers.Proxy.{proxy}
use panda_k8s.Parsers.RateLimits.{rate_limit, global_rate_limit}
use panda_k8s.Parsers.Rewrite
use panda_k8s.Parsers.Texts
use panda_k8s.Parsers.Tls.{proxy_ssl, auth_tls}
use panda_k8s.Pointers.{Ptr}
use panda_k8s.Prelude.{
  ℕ, String, Bool, true, false, ◌==◌, List, [], ◌∷◌, Option, none, some, store, lookup,
  if◌then◌else◌,
}

-- a value of `data`, as what the merge does with it: it sets the field of its name
abbrev pub Setter : Type 0
Setter = ParsedAnnotations → ParsedAnnotations

-- a parser under its name, with its reply
abbrev pub Parsed : Type 0
Parsed = String × Reply Setter

-- `data`: the values by name, and the entry `Denied`
pub record Extracted : Type 0 where
  pub values : List (String × Setter)
  pub reason : Option String

abbrev pub cert_error : String → Setter
cert_error e p = record p {
  certificate_auth = record no_auth_tls_annotation { auth_tls_error = e };
}

-- `if val != nil { data[name] = val }`
abbrev pub put_value : String → Option Setter → Extracted → Extracted
put_value name none d = d
put_value name (some v) d = record d { values = store name v d.values }

-- is it the first error of the client certificates?
abbrev pub is_cert_error : String → Extracted → Bool
is_cert_error name d = elim (lookup name d.values) [
  | some _ ↦ false
  | none ↦ name == "CertificateAuth"
]

-- a location that is denied for the first time gets the reason, and no value of the parser
unfoldable pub deny : String → Option Setter → String → Extracted → Extracted
unfolding lookup store
deny name value e d =
    let first_cert = is_cert_error name d in
    let noted = if first_cert then put_value name (some (cert_error e)) d else d in
    let val = if first_cert then none else value in
    elim d.reason [ none ↦ record noted { reason = some e } | some _ ↦ put_value name val noted ]

-- one round of the loop of `Extract`
unfoldable pub extract_one : Parsed → Extracted → Extracted
unfolding deny store
extract_one (name, m) d = elim m.error [
  | none ↦ put_value name m.value d
  | some e ↦ elim e [ Error.denied reason ↦ deny name m.value reason d | _ ↦ d ]
]

unfoldable pub extract_all : List Parsed → Extracted → Extracted
unfolding extract_one
extract_all [] d = d
extract_all (p ∷ ps) d = extract_all ps (extract_one p d)

-- `mergo.MapWithOverwrite`: each value sets its field, and the reason the field `Denied`, whose
-- address is the environment's
unfoldable pub map_with_overwrite : List (String × Setter) → ParsedAnnotations
map_with_overwrite [] = no_parsed_annotations
map_with_overwrite ((name, v) ∷ rest) = v (map_with_overwrite rest)

abbrev map_option : {A B : Type 0} → (A → B) → Option A → Option B
map_option f none = none
map_option f (some a) = some (f a)

abbrev set : {A : Type 0} → (A → Setter) → Reply A → Reply Setter
set f m = record { value = map_option f m.value; error = m.error }

-- `NewAnnotationExtractor`, and each parser's reply. The parser of `auth-type`, which writes files,
-- is a parameter.
module _ (r : Resolver) (auth : Annotated → Reply Auth.Config) (ing : Annotated) where
  unfoldable pub replies : List Parsed
  replies =
      ("Aliases", set (λ v p. record p { aliases = v }) (Texts.aliases r ing))
      ∷ ("BasicDigestAuth", set (λ v p. record p { basic_digest_auth = v }) (auth ing))
      ∷ ("Canary", set (λ v p. record p { canary = v }) (Canary.parse r ing))
      ∷ ("CertificateAuth", set (λ v p. record p { certificate_auth = v }) (auth_tls r ing))
      ∷ (
        "ClientBodyBufferSize",
        set (λ v p. record p { client_body_buffer_size = v })
            (Texts.plain_text r ing "client-body-buffer-size"),
      )
      ∷ (
        "ConfigurationSnippet",
        set (λ v p. record p { configuration_snippet = v })
            (Texts.plain_text r ing "configuration-snippet"),
      )
      ∷ ("Connection", set (λ v p. record p { connection = v }) (Texts.connection r ing))
      ∷ ("CorsConfig", set (λ v p. record p { cors_config = v }) (answer (Cors.config r ing)))
      ∷ (
        "CustomHTTPErrors",
        set (λ v p. record p { custom_http_errors = v }) (Texts.custom_http_errors r ing),
      )
      ∷ (
        "DefaultBackend",
        set (λ v p. record p { default_backend = v }) (Texts.default_backend r ing),
      )
      ∷ ("FastCGI", set (λ v p. record p { fast_cgi = v }) (fast_cgi r ing))
      ∷ ("ExternalAuth", set (λ v p. record p { external_auth = v }) (auth_req r ing))
      ∷ (
        "EnableGlobalAuth",
        set (λ v p. record p { enable_global_auth = v }) (answer (Flags.enable_global_auth r ing)),
      )
      ∷ (
        "HTTP2PushPreload",
        set (λ v p. record p { http2_push_preload = v }) (Flags.http2_push_preload r ing),
      )
      ∷ (
        "Opentracing",
        set (λ v p. record p { opentracing = v }) (answer (Flags.opentracing r ing)),
      )
      ∷ ("Proxy", set (λ v p. record p { proxy = v }) (answer (proxy r ing)))
      ∷ ("ProxySSL", set (λ v p. record p { proxy_ssl = v }) (proxy_ssl r ing))
      ∷ ("RateLimit", set (λ v p. record p { rate_limit = v }) (rate_limit r ing))
      ∷ (
        "GlobalRateLimit",
        set (λ v p. record p { global_rate_limit = v }) (global_rate_limit r ing),
      )
      ∷ ("Redirect", set (λ v p. record p { redirect = v }) (Rewrite.redirect r ing))
      ∷ ("Rewrite", set (λ v p. record p { rewrite = v }) (answer (Rewrite.rewrite r ing)))
      ∷ ("Satisfy", set (λ v p. record p { satisfy = v }) (answer (Texts.satisfy r ing)))
      ∷ ("SecureUpstream", record { value = none; error = none })
      ∷ (
        "ServerSnippet",
        set (λ v p. record p { server_snippet = v }) (Texts.plain_text r ing "server-snippet"),
      )
      ∷ (
        "ServiceUpstream",
        set (λ v p. record p { service_upstream = v }) (answer (Flags.service_upstream r ing)),
      )
      ∷ (
        "SessionAffinity",
        set (λ v p. record p { session_affinity = v }) (answer (Affinity.config r ing)),
      )
      ∷ (
        "SSLPassthrough",
        set (λ v p. record p { ssl_passthrough = v }) (Flags.ssl_passthrough r ing),
      )
      ∷ (
        "UsePortInRedirects",
        set (λ v p. record p { use_port_in_redirects = v })
            (answer (Flags.use_port_in_redirects r ing)),
      )
      ∷ (
        "UpstreamHashBy",
        set (λ v p. record p { upstream_hash_by = v }) (answer (Texts.upstream_hash_by r ing)),
      )
      ∷ (
        "LoadBalancing",
        set (λ v p. record p { load_balancing = v }) (Texts.plain_text r ing "load-balance"),
      )
      ∷ (
        "UpstreamVhost",
        set (λ v p. record p { upstream_vhost = v }) (Texts.plain_text r ing "upstream-vhost"),
      )
      ∷ ("Whitelist", set (λ v p. record p { whitelist = v }) (whitelist r ing))
      ∷ (
        "XForwardedPrefix",
        set (λ v p. record p { x_forwarded_prefix = v })
            (Texts.plain_text r ing "x-forwarded-prefix"),
      )
      ∷ ("SSLCipher", set (λ v p. record p { ssl_cipher = v }) (answer (Texts.ssl_cipher r ing)))
      ∷ ("Logs", set (λ v p. record p { logs = v }) (answer (Flags.logs r ing)))
      ∷ ("InfluxDB", set (λ v p. record p { influx_db = v }) (answer (Texts.influx_db r ing)))
      ∷ (
        "BackendProtocol",
        set (λ v p. record p { backend_protocol = v }) (answer (Texts.backend_protocol r ing)),
      )
      ∷ (
        "ModSecurity",
        set (λ v p. record p { mod_security = v }) (answer (Flags.mod_security r ing)),
      )
      ∷ ("Mirror", set (λ v p. record p { mirror = v }) (answer (Rewrite.mirror r ing)))
      ∷ (
        "StreamSnippet",
        set (λ v p. record p { stream_snippet = v }) (Texts.plain_text r ing "stream-snippet"),
      )
      ∷ []

  -- `Extract`, if the parsers are visited in this order, and the reason is put at the address
  unfoldable pub extract : List Parsed → ℕ → ParsedAnnotations
  unfolding extract_all map_with_overwrite
  extract visited slot =
      let d = extract_all visited (record { values = []; reason = none }) in
      record (map_with_overwrite d.values) {
        denied = elim d.reason [ none ↦ Ptr.nil | some _ ↦ Ptr.at slot ];
      }
