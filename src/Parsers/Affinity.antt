-- ===== src/Parsers/Affinity.antt =====
-- internal/ingress/annotations/sessionaffinity/main.go
use Prim.Native.Char.{code}
use Prim.Native.String.{String}
use panda_k8s.Annotations.Parser.{or_default}
use panda_k8s.Annotations.SessionAffinity.{Cookie, Config}
use panda_k8s.Annotations.Zero.{no_cookie}
use panda_k8s.Parsers.{Resolver, Annotated, bool_or_false, string_of, string_or_empty}
use panda_k8s.Parsers.Cors.{matching}
use panda_k8s.Prelude.{
  leb, is_digit, has_prefix, all_chars, ◌&&◌, ◌||◌, ◌==◌, Bool, false, if◌then◌else◌,
}

-- `[1-9]\d*$` somewhere in the text
unfoldable pub ends_in_number : String → Bool
unfolding all_chars
ends_in_number String.[] = false
ends_in_number (String.◌∷◌ c s) =
    leb b'1' (code c) && leb (code c) b'9' && all_chars is_digit s || ends_in_number s

-- `affinityCookieExpiresRegex`, `(^0|-?[1-9]\d*$)`: the anchors hold for one alternative each
unfoldable pub is_expiry : String → Bool
unfolding ends_in_number has_prefix
is_expiry s = has_prefix "0" s || ends_in_number s

module _ (r : Resolver) (ing : Annotated) where
  -- `cookieAffinityParse`
  unfoldable pub cookie_affinity_parse : Cookie
  unfolding is_expiry
  cookie_affinity_parse = record {
    name = or_default "INGRESSCOOKIE" (string_of r ing "session-cookie-name");
    expires = matching is_expiry "" (string_of r ing "session-cookie-expires");
    max_age = matching is_expiry "" (string_of r ing "session-cookie-max-age");
    path = string_or_empty r ing "session-cookie-path";
    same_site = string_or_empty r ing "session-cookie-samesite";
    secure = bool_or_false r ing "session-cookie-secure";
    conditional_same_site_none = bool_or_false r ing "session-cookie-conditional-samesite-none";
    change_on_failure = bool_or_false r ing "session-cookie-change-on-failure";
  }

  -- `Parse`, which never answers an error
  unfoldable pub config : Config
  unfolding cookie_affinity_parse
  config = record {
    type = string_or_empty r ing "affinity";
    mode = string_or_empty r ing "affinity-mode";
    canary_behavior = string_or_empty r ing "affinity-canary-behavior";
    cookie =
        if string_or_empty r ing "affinity" == "cookie" then cookie_affinity_parse else no_cookie;
  }
