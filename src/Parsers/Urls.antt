-- ===== src/Parsers/Urls.antt =====
-- internal/ingress/annotations/parser/main.go and redirect/main.go: the checks of a URL.
use panda_k8s.Parsers.{Resolver, Result, Url}
use panda_k8s.Prelude.{
  String, text_append, Bool, false, contains_text, has_prefix, is_empty, if◌then◌else◌,
}

-- `StringToURL`, after `url.Parse`
unfoldable pub checked_url : Url → Result Url
unfolding contains_text
checked_url u =
    if is_empty u.scheme
    then Result.error "url scheme is empty"
    else if is_empty u.host
    then Result.error "url host is empty"
    else if contains_text ".." u.host
    then Result.error "invalid url host"
    else Result.ok u

module _ (r : Resolver) where
  -- `StringToURL`
  unfoldable pub string_to_url : String → Result Url
  unfolding checked_url
  string_to_url input = elim (r.parse_url input) [
    | Result.error e ↦ Result.error (text_append input (text_append " is not a valid URL: " e))
    | Result.ok u ↦ checked_url u
  ]

  -- `isValidURL(s) == nil`
  unfoldable pub is_valid_url : String → Bool
  unfolding has_prefix
  is_valid_url s = elim (r.parse_url s) [
    | Result.error e ↦ false
    | Result.ok u ↦ has_prefix "http" u.scheme
  ]
