-- ===== src/Parsers/Cors.antt =====
-- internal/ingress/annotations/cors/main.go
pub mod Characters
pub mod Safe
use Prim.Native.Char.{code}
use Prim.Native.String.{String}
use panda_k8s.Annotations.Cors.{Config}
use panda_k8s.Annotations.Parser.{Found, or_default}
use panda_k8s.Parsers.{
  Resolver, Annotated, Reply, answer, bool_or_false, bool_of, string_of, int_of,
}
use panda_k8s.Prelude.{
  ℕ, ℤ, pos, nat_eq, leb, is_empty, is_digit, is_letter, has_prefix, all_chars, trim_space, split,
  not, ◌&&◌, ◌||◌, ◌==◌, Bool, true, false, List, [], ◌∷◌, ◌++◌, if◌then◌else◌, ◌≡◌, ◌⊎◌, All,
  arith, refl, inl, inr, Bool-cases,
}
use panda_k8s.Sets.Slices.{made, elems}

-- `[A-Za-z0-9\-\.]`
abbrev is_host_char : ℕ → Bool
is_host_char n = is_letter n || is_digit n || nat_eq n b'-' || nat_eq n b'.'

-- `(:[0-9]+)?$`
is_port : String → Bool
unfolding all_chars
is_port String.[] = true
is_port (String.◌∷◌ c s) = nat_eq (code c) b':' && not (is_empty s) && all_chars is_digit s

-- `[A-Za-z0-9\-\.]*(:[0-9]+)?$`: a colon is no character of a host
is_host : String → Bool
unfolding is_port
is_host String.[] = true
is_host (String.◌∷◌ c s) = if is_host_char (code c) then is_host s else is_port (String.◌∷◌ c s)

-- a text, and a text that matches what follows it
after_text : String → (String → Bool) → String → Bool
after_text String.[] follows s = follows s
after_text (String.◌∷◌ d p) follows String.[] = false
after_text (String.◌∷◌ d p) follows (String.◌∷◌ c s) =
    nat_eq (code c) (code d) && after_text p follows s

-- `(\*\.)?` before that
is_pattern : String → Bool
unfolding after_text is_host
is_pattern s = after_text "*." is_host s || is_host s

-- `s?://` before that
after_http : String → Bool
unfolding after_text is_pattern
after_http s = after_text "s://" is_pattern s || after_text "://" is_pattern s

is_url : String → Bool
unfolding after_text after_http
is_url s = after_text "http" after_http s

-- `corsOriginRegex.MatchString`
unfoldable pub is_origin : String → Bool
unfolding is_url
is_origin s = is_empty s || s == "*" || is_url s

-- where a text stands in `(word,?\s?)+`: at the start, in a word, behind a comma, or behind a space
pub data Place : Type 0 where
  start word comma space : Place

-- `\s`
abbrev is_blank : ℕ → Bool
is_blank n = nat_eq n 32 || nat_eq n 9 || nat_eq n 10 || nat_eq n 12 || nat_eq n 13

-- `^(word,?\s?)+$`, with the characters of a word
pub listing : (ℕ → Bool) → Place → String → Bool
listing w Place.start String.[] = false
listing w _ String.[] = true
listing w p (String.◌∷◌ c s) =
    let in_word = listing w Place.word s in
    let at_comma = listing w Place.comma s in
    let at_space = listing w Place.space s in
    if w (code c) then in_word else elim p [
      | Place.start ↦ false
      | Place.space ↦ false
      | Place.comma ↦ if is_blank (code c) then at_space else false
      | Place.word ↦
          if nat_eq (code c) b',' then at_comma else if is_blank (code c) then at_space else false
    ]

-- `corsMethodsRegex`, `corsHeadersRegex` and `corsExposeHeadersRegex`
unfoldable pub is_methods : String → Bool
unfolding listing
is_methods s = listing is_letter Place.start s

abbrev is_header_char : ℕ → Bool
is_header_char n = is_letter n || is_digit n || nat_eq n b'-' || nat_eq n b'_'

unfoldable pub is_headers : String → Bool
unfolding listing
is_headers s = listing is_header_char Place.start s

unfoldable pub is_expose_headers : String → Bool
unfolding listing
is_expose_headers s = listing (λ n. is_header_char n || nat_eq n b'*') Place.start s

-- the loop over the origins, with those that are accepted so far; what `append` makes of them
unfoldable pub origins_of : List String → List String → List String
origins_of [] accepted = accepted
origins_of (o ∷ os) accepted =
    let origin = trim_space o in
    let rest = origins_of os (if is_origin origin then accepted ++ origin ∷ [] else accepted) in
    if origin == "*" then "*" ∷ [] else rest

-- the value, if it is found and matches
abbrev pub matching : (String → Bool) → String → Found String → String
matching p d (Found.value s) = if p s then s else d
matching p d (Found.failed e) = d

abbrev pub def_cors_methods : String
def_cors_methods = "GET, PUT, POST, DELETE, PATCH, OPTIONS"

abbrev pub def_cors_headers : String
def_cors_headers =
    "DNT,Keep-Alive,User-Agent,X-Requested-With,If-Modified-Since,Cache-Control,Content-Type,Range,Authorization"

module _ (r : Resolver) (ing : Annotated) where
  abbrev pub origins : Found String → List String
  origins (Found.value s) = origins_of (split b',' s) []
  origins (Found.failed e) = "*" ∷ []

  -- `Parse`, which never answers an error
  unfoldable pub config : Config
  unfolding origins_of is_headers is_methods is_expose_headers
  config = record {
    cors_enabled = bool_or_false r ing "enable-cors";
    cors_allow_origin = made (origins (string_of r ing "cors-allow-origin"));
    cors_allow_headers =
        matching is_headers def_cors_headers (string_of r ing "cors-allow-headers");
    cors_allow_methods =
        matching is_methods def_cors_methods (string_of r ing "cors-allow-methods");
    cors_allow_credentials = or_default true (bool_of r ing "cors-allow-credentials");
    cors_expose_headers = matching is_expose_headers "" (string_of r ing "cors-expose-headers");
    cors_max_age = or_default (pos 1728000) (int_of r ing "cors-max-age");
  }
