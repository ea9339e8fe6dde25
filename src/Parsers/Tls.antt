-- ===== src/Parsers/Tls.antt =====
-- internal/ingress/annotations/{proxyssl,authtls}/main.go
use Prim.Native.Char.{char}
use panda_k8s.Annotations.AuthSslCert.{AuthSslCert}
use panda_k8s.Annotations.AuthTls
use panda_k8s.Annotations.Parser.{Error, Found, or_default}
use panda_k8s.Annotations.ProxySsl
use panda_k8s.Annotations.Zero.{no_auth_tls_annotation, no_proxy_ssl_annotation}
use panda_k8s.Names.{parse_name_ns}
use panda_k8s.Parsers.{
  Resolver, Annotated, Result, Reply, answer, refuse_with, bool_or_false, string_of,
  string_or_empty, int_or_zero,
}
use panda_k8s.Parsers.Cors.{matching}
use panda_k8s.Prelude.{
  String, text_append, text_lt, Bool, ◌||◌, ◌==◌, ℤ, pos, int_eq, List, [], ◌∷◌, none, some, any,
  split, join, sort, filter_map, trim_space, contains_text, Option, if◌then◌else◌,
}

abbrev pub ssl_protocols : List String
ssl_protocols = "SSLv2" ∷ "SSLv3" ∷ "TLSv1" ∷ "TLSv1.1" ∷ "TLSv1.2" ∷ "TLSv1.3" ∷ []

-- `proxySSLProtocolRegex.MatchString`, which no empty text passes
unfoldable pub is_ssl_protocol : String → Bool
is_ssl_protocol s = any (λ p. p == s) ssl_protocols

-- a protocol of the list that is kept
abbrev kept_protocol : String → Option String
kept_protocol s = let proto = trim_space s in if is_ssl_protocol proto then some proto else none

abbrev or_def_protocols : List String → String
or_def_protocols [] = "TLSv1 TLSv1.1 TLSv1.2"
or_def_protocols (p ∷ ps) = join (char b' ' tt) (sort text_lt (p ∷ ps))

-- `sortProtocols`: the loop moves the protocols to the front of the list that it reads
unfoldable pub sort_protocols : String → String
unfolding is_ssl_protocol trim_space filter_map sort split
sort_protocols protocols = or_def_protocols (filter_map kept_protocol (split b' ' protocols))

-- `proxySSLOnOffRegex.MatchString`
abbrev is_on_off : String → Bool
is_on_off s = s == "on" || s == "off"

-- `authVerifyClientRegex.MatchString`: the expression is not anchored, and its last two alternatives
-- hold "on"
unfoldable pub is_verify_client : String → Bool
unfolding contains_text
is_verify_client s = contains_text "on" s || contains_text "off" s

-- `commonNameRegex.MatchString`
unfoldable pub is_common_name : String → Bool
unfolding contains_text
is_common_name s = contains_text "CN=" s

abbrev pub not_a_name : String → String
not_a_name s =
    text_append "Location denied, reason: invalid format (namespace/name) found in '"
      (text_append s "'")

abbrev or_one : ℤ → ℤ
or_one n = if int_eq n (pos 0) then pos 1 else n

module _ (r : Resolver) (ing : Annotated) where
  -- from the name of the secret to its certificate
  unfoldable pub with_certificate : {A : Type 0} → A → String → (AuthSslCert → A) → Reply A
  unfolding parse_name_ns
  with_certificate zero secret k = elim (parse_name_ns secret) [
    | none ↦ refuse_with zero (Error.denied (not_a_name secret))
    | some _ ↦ elim (r.get_auth_certificate secret) [
      | Result.error e ↦
          refuse_with zero (Error.denied (text_append "error obtaining certificate: " e))
      | Result.ok cert ↦ answer (k cert)
    ]
  ]

  abbrev protocols : Found String → String
  protocols (Found.value s) = sort_protocols s
  protocols (Found.failed e) = "TLSv1 TLSv1.1 TLSv1.2"

  -- `proxySSL.Parse` from the certificate on
  unfoldable pub proxy_ssl_of : AuthSslCert → ProxySsl.Config
  unfolding sort_protocols
  proxy_ssl_of cert = record {
    auth_ssl_cert = cert;
    ciphers = or_default "DEFAULT" (string_of r ing "proxy-ssl-ciphers");
    protocols = protocols (string_of r ing "proxy-ssl-protocols");
    proxy_ssl_name = string_or_empty r ing "proxy-ssl-name";
    verify = matching is_on_off "off" (string_of r ing "proxy-ssl-verify");
    verify_depth = or_one (int_or_zero r ing "proxy-ssl-verify-depth");
    proxy_ssl_server_name = matching is_on_off "off" (string_of r ing "proxy-ssl-server-name");
  }

  -- `proxySSL.Parse`
  unfoldable pub proxy_ssl : Reply ProxySsl.Config
  unfolding with_certificate proxy_ssl_of
  proxy_ssl = elim (string_of r ing "proxy-ssl-secret") [
    | Found.failed e ↦ refuse_with no_proxy_ssl_annotation e
    | Found.value secret ↦ with_certificate no_proxy_ssl_annotation secret proxy_ssl_of
  ]

  -- `authTLS.Parse` from the certificate on
  unfoldable pub auth_tls_of : AuthSslCert → AuthTls.Config
  unfolding is_verify_client is_common_name
  auth_tls_of cert = record {
    auth_ssl_cert = cert;
    verify_client = matching is_verify_client "on" (string_of r ing "auth-tls-verify-client");
    validation_depth = or_one (int_or_zero r ing "auth-tls-verify-depth");
    error_page = string_or_empty r ing "auth-tls-error-page";
    pass_cert_to_upstream = bool_or_false r ing "auth-tls-pass-certificate-to-upstream";
    match_cn = matching is_common_name "" (string_of r ing "auth-tls-match-cn");
    auth_tls_error = "";
  }

  -- `authTLS.Parse`
  unfoldable pub auth_tls : Reply AuthTls.Config
  unfolding with_certificate auth_tls_of
  auth_tls = elim (string_of r ing "auth-tls-secret") [
    | Found.failed e ↦ refuse_with no_auth_tls_annotation e
    | Found.value secret ↦ with_certificate no_auth_tls_annotation secret auth_tls_of
  ]
