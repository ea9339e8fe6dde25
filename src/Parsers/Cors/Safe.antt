-- ===== src/Parsers/Cors/Safe.antt =====
-- internal/ingress/annotations/cors/main.go: what the accepted texts can hold.
use Prim.Native.String.{String}
use panda_k8s.Annotations.Parser.{Found}
use panda_k8s.Parsers.{Resolver, Annotated, string_of}
use panda_k8s.Parsers.Cors.{
  is_origin, Place, is_header_char, is_methods, is_headers, is_expose_headers, origins_of, matching,
  def_cors_methods, def_cors_headers, origins, config,
}
use panda_k8s.Parsers.Cors.Characters.{
  is_safe, IsSafeFor, letter-Within, header_char-Within, star-Within, is_not, origin_safe,
  listing_safe, all_safe,
}
use panda_k8s.Prelude.{
  ℕ, nat_eq, is_letter, all_chars, contains_char, split, trim_space, ◌||◌, ◌==◌, Bool, false, List,
  [], ◌∷◌, ◌++◌, All, All-append, ◌≡◌, refl, Bool-cases, inl, inr,
}
use panda_k8s.Sets.Slices.{elems}

module _ (x : ℕ) (unsafe : is_safe x ≡ false) where
  -- a text that is found and matches, or one that the controller brings
  matching_safe :
      (p : String → Bool) (d : String) (f : Found String)
      → IsSafeFor x unsafe p
      → contains_char d x ≡ false
      → contains_char (matching p d f) x ≡ false
  matching_safe p d (Found.failed e) safe h = h
  matching_safe p d (Found.value s) safe h = elim (Bool-cases (p s)) [
    | inl m ↦ rw m (safe s m)
    | inr m ↦ rw m h
  ]

  abbrev AreSafe : List String → Type 0
  AreSafe = All (λ o. contains_char o x ≡ false)

  origins_safe : (os accepted : List String) → AreSafe accepted → AreSafe (origins_of os accepted)
  unfolding origins_of
  origins_safe [] accepted a = a
  origins_safe (o ∷ os) accepted a = elim (Bool-cases (trim_space o == "*")) [
    | inl star ↦ rw (star, origins_of) (rw (is_not x unsafe b'*' refl) refl, tt)
    | inr other ↦ elim (Bool-cases (is_origin (trim_space o))) [
      | inl m ↦
          rw (other, origins_of)
            (rw m (
              origins_safe os (accepted ++ trim_space o ∷ []) (
                All-append _ accepted (trim_space o ∷ []) a
                  (origin_safe x unsafe (trim_space o) m, tt))))
      | inr m ↦ rw (other, origins_of) (rw m (origins_safe os accepted a))
    ]
  ]

  -- No text of a CORS configuration holds an unsafe character, such as a dollar, a quote, a semicolon
  -- or a brace, whatever the annotations are: neither an allowed origin, nor the allowed headers and
  -- methods, nor the headers that are exposed.
  pub config-safe :
      (r : Resolver) (ing : Annotated)
      → All (λ o. contains_char o x ≡ false) (elems (config r ing).cors_allow_origin)
        × (contains_char (config r ing).cors_allow_headers x ≡ false)
        × (contains_char (config r ing).cors_allow_methods x ≡ false)
        × (contains_char (config r ing).cors_expose_headers x ≡ false)
  unfolding config all_chars is_headers is_methods is_expose_headers
  config-safe r ing = (
    found_origins (string_of r ing "cors-allow-origin"),
    matching_safe is_headers def_cors_headers (string_of r ing "cors-allow-headers")
        (listing_safe x unsafe is_header_char Place.start header_char-Within)
        (all_safe x unsafe def_cors_headers refl),
    matching_safe is_methods def_cors_methods (string_of r ing "cors-allow-methods")
        (listing_safe x unsafe is_letter Place.start letter-Within)
        (all_safe x unsafe def_cors_methods refl),
    matching_safe is_expose_headers "" (string_of r ing "cors-expose-headers")
        (listing_safe x unsafe (λ n. is_header_char n || nat_eq n b'*') Place.start star-Within)
        refl,
  )
    where
      found_origins : (f : Found String) → AreSafe (origins r ing f)
      found_origins (Found.failed e) = (rw (is_not x unsafe b'*' refl) refl, tt)
      found_origins (Found.value s) = origins_safe (split b',' s) [] tt
