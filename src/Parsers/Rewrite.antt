-- ===== src/Parsers/Rewrite.antt =====
-- internal/ingress/annotations/{rewrite,redirect,mirror}/main.go
use panda_k8s.Annotations.Mirror
use panda_k8s.Annotations.Parser.{Error, Found, or_default}
use panda_k8s.Annotations.Redirect
use panda_k8s.Annotations.Rewrite
use panda_k8s.Parsers.{
  Resolver, Annotated, Result, Reply, answer, refuse, bool_of, bool_or_false, string_of,
  string_or_empty, int_of,
}
use panda_k8s.Parsers.Urls.{string_to_url, is_valid_url}
use panda_k8s.Prelude.{
  String, text_append, Bool, true, false, not, ◌||◌, ◌==◌, ℤ, pos, int_lt, List, [], ◌∷◌, none,
  some, split, is_empty, if◌then◌else◌,
}

-- an error other than that of a missing annotation, or else the value
abbrev unless_invalid : {A B : Type 0} → A → Found A → (A → Reply B) → Reply B
unless_invalid d (Found.value a) k = k a
unless_invalid d (Found.failed Error.missing) k = k d
unless_invalid d (Found.failed e) k = refuse e

-- the first part of a text
abbrev head_part : List String → String
head_part [] = ""
head_part (w ∷ ws) = w

-- the code of a permanent redirect, which is 301 unless it is from 300 to 308
unfoldable pub redirect_code : ℤ → ℤ
redirect_code n = if int_lt n (pos 300) || int_lt (pos 308) n then pos 301 else n

module _ (r : Resolver) (ing : Annotated) where
  -- the application root: a URI that is not absolute
  unfoldable pub app_root : String
  app_root = elim (string_of r ing "app-root") [
    | Found.failed e ↦ ""
    | Found.value s ↦ elim (r.parse_request_uri s) [
      | none ↦ ""
      | some is_abs ↦ if is_abs then "" else s
    ]
  ]

  -- `rewrite.Parse`, which never answers an error
  unfoldable pub rewrite : Rewrite.Config
  unfolding app_root
  rewrite = record {
    target = string_or_empty r ing "rewrite-target";
    ssl_redirect = or_default (r.defaults).ssl_redirect (bool_of r ing "ssl-redirect");
    force_ssl_redirect =
        or_default (r.defaults).force_ssl_redirect (bool_of r ing "force-ssl-redirect");
    preserve_trailing_slash =
        or_default (r.defaults).preserve_trailing_slash (bool_of r ing "preserve-trailing-slash");
    app_root = app_root;
    use_regex = bool_or_false r ing "use-regex";
  }

  -- `redirect.Parse`, without a temporal redirect
  unfoldable pub permanent_redirect : Bool → Reply Redirect.Config
  unfolding redirect_code
  permanent_redirect r3w = unless_invalid "" (string_of r ing "permanent-redirect") (λ pr.
      unless_invalid (pos 0) (int_of r ing "permanent-redirect-code") (λ prc.
        if not (is_empty pr) || r3w
        then answer (record { url = pr; code = redirect_code prc; from_to_www = r3w })
        else refuse Error.missing))

  -- `redirect.Parse`
  unfoldable pub redirect : Reply Redirect.Config
  unfolding permanent_redirect is_valid_url
  redirect =
      let r3w = bool_or_false r ing "from-to-www-redirect" in
      unless_invalid "" (string_of r ing "temporal-redirect") (λ tr.
        if is_empty tr
        then permanent_redirect r3w
        else if is_valid_url r tr
        then answer (record { url = tr; code = pos 302; from_to_www = r3w })
        else refuse Error.other)

  -- the host of the target, up to a variable
  unfoldable pub target_host : String → String
  unfolding string_to_url split
  target_host target = if is_empty target then "" else elim (string_to_url r target) [
    | Result.error e ↦ ""
    | Result.ok u ↦ head_part (split b'$' u.hostname)
  ]

  abbrev is_found : {A : Type 0} → Found A → Bool
  is_found (Found.value a) = true
  is_found (Found.failed e) = false

  -- `mirror.Parse`, which never answers an error
  unfoldable pub mirror : Mirror.Config
  unfolding target_host
  mirror =
      let target = string_or_empty r ing "mirror-target" in
      record {
        source =
            if is_found (string_of r ing "mirror-target")
            then text_append "/_mirror-" ing.uid
            else "";
        request_body = if string_or_empty r ing "mirror-request-body" == "off" then "off" else "on";
        target = target;
        host = or_default (target_host target) (string_of r ing "mirror-host");
      }
