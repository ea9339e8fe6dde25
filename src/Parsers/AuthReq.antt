-- ===== src/Parsers/AuthReq.antt =====
-- internal/ingress/annotations/authreq/main.go: authentication by a request to another server.
pub mod Durations
use panda_k8s.Annotations.AuthReq.{Config}
use panda_k8s.Annotations.Parser.{Error, Found, or_default}
use panda_k8s.Equality.Maps.{StringMap, Entry}
use panda_k8s.Parsers.{
  Resolver, Annotated, Result, Url, Reply, answer, refuse, bool_or_false, string_of,
  string_or_empty, int_of,
}
use panda_k8s.Parsers.AuthReq.Durations.{parse_string_to_cache_durations}
use panda_k8s.Parsers.Urls.{string_to_url}
use panda_k8s.Prelude.{
  ℕ, String, text_append, Bool, true, false, not, ◌&&◌, ◌||◌, ◌==◌, ℤ, pos, int_lt, nat_eq,
  is_positive, List, [], ◌∷◌, Option, none, some, any, all, split, trim_space, is_empty, is_letter,
  is_digit, all_chars, contains_char, if◌then◌else◌,
}
use panda_k8s.Sets.Slices.{Slice}

abbrev pub methods : List String
methods =
    "GET" ∷ "HEAD" ∷ "POST" ∷ "PUT" ∷ "PATCH" ∷ "DELETE" ∷ "CONNECT" ∷ "OPTIONS" ∷ "TRACE" ∷ []

-- `ValidMethod`
unfoldable pub valid_method : String → Bool
valid_method method = not (is_empty method) && any (λ m. method == m) methods

-- `ValidHeader`
unfoldable pub valid_header : String → Bool
unfolding all_chars
valid_header s =
    not (is_empty s)
    && all_chars (λ n. is_letter n || is_digit n || nat_eq n b'-' || nat_eq n b'_') s

-- the loop over the response headers; none is an invalid list
unfoldable pub headers_of : List String → Option (List String)
unfolding trim_space valid_header
headers_of [] = some []
headers_of (w ∷ ws) = elim (headers_of ws) [
  | none ↦ none
  | some rest ↦
      let header = trim_space w in
      if is_empty header
      then some rest
      else if valid_header header
      then some (header ∷ rest)
      else none
]

-- what a loop over the map goes through
abbrev pub entries : StringMap → List Entry
entries StringMap.nil = []
entries (StringMap.made m _) = m

abbrev location_denied : {A : Type 0} → String → Reply A
location_denied reason = refuse (Error.denied (text_append "Location denied, reason: " reason))

-- the number of connections that are kept, from the three annotations and the host
unfoldable pub keepalive : Url → ℤ → ℤ → ℤ → ℤ
keepalive u connections requests timeout =
    if not (is_positive connections)
      || contains_char u.host b'$'
      || not (is_positive requests)
      || not (is_positive timeout)
    then pos 0
    else connections

module _ (r : Resolver) (ing : Annotated) where
  -- the headers that are set, from a ConfigMap; `%q` quotes its name, which has no character that it
  -- would escape
  abbrev config_map_of : String → Reply StringMap
  config_map_of name =
      if is_empty name then answer StringMap.nil else elim (r.get_config_map name) [
        | Result.error e ↦
            location_denied (text_append "unable to find configMap \"" (text_append name "\""))
        | Result.ok m ↦
            if all (λ e. valid_header e.0) (entries m)
            then answer m
            else location_denied "invalid proxy-set-headers in configmap"
      ]

  -- the rest of `Parse`, once the texts are split and checked
  unfoldable pub config_of : String → Url → List String → List String → StringMap → Config
  unfolding keepalive
  config_of url u durations headers set_headers =
      let requests = or_default (pos 1000) (int_of r ing "auth-keepalive-requests") in
      let timeout = or_default (pos 60) (int_of r ing "auth-keepalive-timeout") in
      record {
        url = url;
        host = u.hostname;
        signin_url = string_or_empty r ing "auth-signin";
        signin_url_redirect_param = string_or_empty r ing "auth-signin-redirect-param";
        method = string_or_empty r ing "auth-method";
        response_headers = Slice.made headers;
        request_redirect = string_or_empty r ing "auth-request-redirect";
        auth_snippet = string_or_empty r ing "auth-snippet";
        auth_cache_key = string_or_empty r ing "auth-cache-key";
        auth_cache_duration = Slice.made durations;
        keepalive_connections =
            keepalive u (or_default (pos 0) (int_of r ing "auth-keepalive")) requests timeout;
        keepalive_requests = requests;
        keepalive_timeout = timeout;
        proxy_set_headers = set_headers;
        always_set_cookie = bool_or_false r ing "auth-always-set-cookie";
      }

  abbrev and_then : {A B : Type 0} → Reply A → (A → Reply B) → Reply B
  and_then m k = elim m.error [
    | some e ↦ refuse e
    | none ↦ elim m.value [ none ↦ refuse Error.other | some a ↦ k a ]
  ]

  abbrev response_headers : String → Reply (List String)
  response_headers s = if is_empty s then answer [] else elim (headers_of (split b',' s)) [
    | none ↦ location_denied "invalid headers list"
    | some headers ↦ answer headers
  ]

  -- `Parse`, from a URL that is valid
  unfoldable pub auth_req_of : String → Url → Reply Config
  unfolding valid_method headers_of config_of parse_string_to_cache_durations split
  auth_req_of url u =
      let method = string_or_empty r ing "auth-method" in
      if not (is_empty method) && not (valid_method method)
      then location_denied "invalid HTTP method"
      else and_then (parse_string_to_cache_durations (string_or_empty r ing "auth-cache-duration"))
          (λ durations.
            and_then (response_headers (string_or_empty r ing "auth-response-headers")) (λ headers.
              and_then (config_map_of (string_or_empty r ing "auth-proxy-set-headers"))
                (λ set_headers. answer (config_of url u durations headers set_headers))))

  -- `authReq.Parse`
  unfoldable pub auth_req : Reply Config
  unfolding auth_req_of string_to_url
  auth_req = elim (string_of r ing "auth-url") [
    | Found.failed e ↦ refuse e
    | Found.value url ↦ elim (string_to_url r url) [
      | Result.error e ↦
          refuse (Error.denied (text_append "could not parse auth-url annotation: " e))
      | Result.ok u ↦ auth_req_of url u
    ]
  ]
