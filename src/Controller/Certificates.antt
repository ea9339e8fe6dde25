-- ===== src/Controller/Certificates.antt =====
-- internal/ingress/controller/certificate.go and controller.go: does a certificate belong to a host,
-- and which certificate does a server get?
pub mod Wildcards
use Prim.Native.Nat.{ℕ}
use Prim.Native.Char.{Char, code}
use Prim.Native.String.{String}
use panda_k8s.Api.Heap.{Heap}
use panda_k8s.Api.Ingresses.{Ingress, IngressTls}
use panda_k8s.Api.Servers.{SslCert}
use panda_k8s.Controller.CreateUpstreams.{service_key}
use panda_k8s.Controller.Store.{Store, Options}
use panda_k8s.Externals.{Externals}
use panda_k8s.Kube.{Certificate}
use panda_k8s.Pointers.{Ptr, at}
use panda_k8s.Prelude.{
  Bool, true, false, not, ◌&&◌, ◌||◌, ◌==◌, nat_eq, List, [], ◌∷◌, Option, none, some, any,
  is_empty, split, trim_dot, if◌then◌else◌,
}

-- the second of two texts at the place where the first has the character
abbrev replace_in : String → String → Char → Char
replace_in (String.◌∷◌ a xs) (String.◌∷◌ b ys) c =
    if nat_eq (code c) (code a) then b else replace_in xs ys c
replace_in _ _ c = c

abbrev lower_char : Char → Char
lower_char = replace_in "ABCDEFGHIJKLMNOPQRSTUVWXYZ" "abcdefghijklmnopqrstuvwxyz"

-- `toLowerCaseASCII`
unfoldable pub to_lower_case_ascii : String → String
to_lower_case_ascii String.[] = ""
to_lower_case_ascii (String.◌∷◌ c s) = String.◌∷◌ (lower_char c) (to_lower_case_ascii s)

-- the parts are the same in number and pairwise
unfoldable pub same_parts : List String → List String → Bool
same_parts [] [] = true
same_parts (p ∷ ps) (h ∷ hs) = p == h && same_parts ps hs
same_parts _ _ = false

-- the first part of the pattern may be a star
unfoldable pub parts_match : List String → List String → Bool
unfolding same_parts
parts_match [] [] = true
parts_match (p ∷ ps) (h ∷ hs) = (p == "*" || p == h) && same_parts ps hs
parts_match _ _ = false

-- `matchHostnames`
unfoldable pub match_hostnames : String → String → Bool
unfolding parts_match split
match_hostnames pattern host =
    if is_empty (trim_dot pattern) || is_empty (trim_dot host)
    then false
    else parts_match (split b'.' (trim_dot pattern)) (split b'.' (trim_dot host))

-- the text before its last character, if that is the given one
abbrev before_last : ℕ → String → Option String
before_last x String.[] = none
before_last x (String.◌∷◌ c String.[]) = if nat_eq (code c) x then some "" else none
before_last x (String.◌∷◌ c (String.◌∷◌ d s)) = elim (before_last x (String.◌∷◌ d s)) [
  | none ↦ none
  | some t ↦ some (String.◌∷◌ c t)
]

-- `candidateIP`
unfoldable pub candidate_ip : String → String
candidate_ip String.[] = ""
candidate_ip (String.◌∷◌ c s) =
    if nat_eq (code c) b'['
    then elim (before_last b']' s) [
      | none ↦ String.◌∷◌ c s
      | some inner ↦ if is_empty inner then String.◌∷◌ c s else inner
    ]
    else String.◌∷◌ c s

module _ (ext : Externals) where
  -- `verifyHostname`: has it no error?
  unfoldable pub verify_hostname : String → Certificate → Bool
  unfolding candidate_ip match_hostnames to_lower_case_ascii
  verify_hostname h c = elim (ext.parse_ip (candidate_ip h)) [
    | some ip ↦ any (λ candidate. ext.ip_equal ip candidate) c.ip_addresses
    | none ↦
        let lowered = to_lower_case_ascii h in
        elim c.dns_names [
          | [] ↦ match_hostnames (to_lower_case_ascii c.common_name) lowered
          | d ∷ ds ↦ any (λ name. match_hostnames (to_lower_case_ascii name) lowered) (d ∷ ds)
        ]
  ]

  module _ (heap : Heap) (store : Store) (cfg : Options) where
    -- the certificate of a secret
    unfoldable pub certificate_of : String → Option Certificate
    certificate_of key = elim (store.get_local_ssl_cert key) [
      | none ↦ none
      | some n ↦ (heap.ssl_cert n).certificate
    ]

    -- the first TLS entry that lists the host
    unfoldable pub listed_secret : String → List IngressTls → Option String
    unfolding to_lower_case_ascii
    listed_secret lowercase_host [] = none
    listed_secret lowercase_host (tls ∷ rest) =
        let next = listed_secret lowercase_host rest in
        if any (λ host. to_lower_case_ascii host == lowercase_host) tls.hosts
        then some tls.secret_name
        else next

    -- the first TLS entry whose certificate is valid for the host
    unfoldable pub valid_secret : String → String → List IngressTls → String
    unfolding certificate_of
    valid_secret namespace host [] = ""
    valid_secret namespace host (tls ∷ rest) =
        let next = valid_secret namespace host rest in
        if tls.secret_name == ""
        then next
        else elim (certificate_of (service_key namespace tls.secret_name)) [
          | none ↦ next
          | some c ↦ if ext.is_valid_for c host then tls.secret_name else next
        ]

    -- `extractTLSSecretName`
    unfoldable pub extract_tls_secret_name : String → Ingress → String
    unfolding listed_secret valid_secret to_lower_case_ascii
    extract_tls_secret_name host ing = elim (listed_secret (to_lower_case_ascii host) ing.tls) [
      | some name ↦ name
      | none ↦ valid_secret ing.namespace host ing.tls
    ]

    -- `getDefaultSSLCertificate`
    unfoldable pub get_default_ssl_certificate : Ptr SslCert
    get_default_ssl_certificate =
        if cfg.default_ssl_certificate == ""
        then cfg.fake_certificate
        else elim (store.get_local_ssl_cert cfg.default_ssl_certificate) [
          | none ↦ cfg.fake_certificate
          | some n ↦ at n
        ]

    -- the certificate that `createServers` gives to the server of a host
    unfoldable pub choose_certificate : String → Ingress → Ptr SslCert
    unfolding extract_tls_secret_name get_default_ssl_certificate verify_hostname
    choose_certificate host ing =
        let name = extract_tls_secret_name host ing in
        if name == ""
        then get_default_ssl_certificate
        else elim (store.get_local_ssl_cert (service_key ing.namespace name)) [
          | none ↦ get_default_ssl_certificate
          | some n ↦ elim (heap.ssl_cert n).certificate [
            | none ↦ get_default_ssl_certificate
            | some c ↦
                if ext.is_valid_for c host || verify_hostname host c
                then at n
                else get_default_ssl_certificate
          ]
        ]
