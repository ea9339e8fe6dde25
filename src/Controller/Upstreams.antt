-- ===== src/Controller/Upstreams.antt =====
-- internal/ingress/controller/util.go: the name of an upstream.
use text.Mathlib.TextLemmas.{append_assoc}
use panda_k8s.Api.Ingresses.{ServiceBackend}
use panda_k8s.Prelude.{
  ℤ, arith, inl, inr, Bool-cases, true, ◌||◌, ◌≡◌, String, text_append, ◌==◌, not, Option, none,
  some, itoa, is_positive, if◌then◌else◌,
}

-- `fmt.Sprintf("%s-%s-%s", a, b, c)`
abbrev dashed : String → String → String → String
dashed a b c = text_append a (text_append "-" (text_append b (text_append "-" c)))

-- `upstreamName`
unfoldable pub upstream_name : String → Option ServiceBackend → String
upstream_name namespace none = text_append namespace "-INVALID"
upstream_name namespace (some service) =
    if is_positive service.port_number
    then dashed namespace service.name (itoa service.port_number)
    else if not (service.port_name == "")
    then dashed namespace service.name service.port_name
    else text_append namespace "-INVALID"

-- One dashed name for two splits of it.
dashed_again :
    (ns a b c : String)
    → dashed (text_append ns (text_append "-" a)) b c
      ≡ dashed ns (text_append a (text_append "-" b)) c
dashed_again ns a b c = simp (append_assoc)

-- The name of an upstream does not tell where the namespace ends: the Service `b` in the namespace
-- `ns-a` and the Service `a-b` in the namespace `ns` share it, for every port with a positive number
-- or a name.
pub upstream_name_collision :
    (ns a b : String) (n : ℤ) (port : String)
    → (is_positive n || not (port == "")) ≡ true
    → upstream_name
        (text_append ns (text_append "-" a))
        (some (record { name = b; port_number = n; port_name = port }))
      ≡ upstream_name ns (
          some (record {
            name = text_append a (text_append "-" b);
            port_number = n;
            port_name = port;
          }))
unfolding upstream_name
upstream_name_collision ns a b n port h = elim (Bool-cases (is_positive n)) [
  | inl numbered ↦ rw numbered (dashed_again ns a b (itoa n))
  | inr unnumbered ↦ rw unnumbered (elim (Bool-cases (port == "")) [
    | inl unnamed ↦ absurd (ground arith)
    | inr named ↦ rw named (dashed_again ns a b port)
  ])
]
