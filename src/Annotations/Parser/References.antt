-- ===== src/Annotations/Parser/References.antt =====
-- internal/ingress/annotations/parser/main.go: does an Ingress name a ConfigMap?
use Prim.Native.String.{String, ◌++◌}
use text.Mathlib.TextLemmas.{cons-append, nil-append}
use panda_k8s.Annotations.Parser.{with_prefix}
use panda_k8s.Prelude.{
  Bool, true, false, ◌||◌, ◌==◌, ==_iff, List, [], ◌∷◌, any, contains_char, ◌≡◌, refl, arith, map,
  Bool-cases, inl, inr,
}

-- `configmapAnnotations.Has`
unfoldable pub is_configmap_annotation : String → Bool
is_configmap_annotation name = name == "auth-proxy-set-header" || name == "fastcgi-params-configmap"

-- `AnnotationsReferencesConfigmap`
unfoldable pub annotations_references_configmap : List (String × String) → Bool
unfolding is_configmap_annotation
annotations_references_configmap annotations = any (λ a. is_configmap_annotation a.0) annotations

contains_char-append :
    (a b : String) → contains_char b b'/' ≡ true → contains_char (a ++ b) b'/' ≡ true
contains_char-append String.[] b h = rw nil-append h
contains_char-append (String.◌∷◌ c a) b h =
    rw cons-append (ground (arith, contains_char-append a b h))

with_prefix-contains_char :
    (prefix name : String) → contains_char (with_prefix prefix name) b'/' ≡ true
with_prefix-contains_char prefix name =
    contains_char-append prefix ("/" ++ name) (rw cons-append refl)

slash_missed : (v : String) → contains_char v b'/' ≡ true → is_configmap_annotation v ≡ false
unfolding is_configmap_annotation
slash_missed v h = elim (Bool-cases (v == "auth-proxy-set-header")) [
  | inl one ↦ absurd (never "auth-proxy-set-header" ((==_iff _ _).0 one) refl)
  | inr other ↦ elim (Bool-cases (v == "fastcgi-params-configmap")) [
    | inl two ↦ absurd (never "fastcgi-params-configmap" ((==_iff _ _).0 two) refl)
    | inr neither ↦ rw (other, neither) refl
  ]
]
  where
    never : (w : String) → v ≡ w → contains_char w b'/' ≡ false → ⊥
    never w e k = cc

-- No annotation with the prefix counts as one that names a ConfigMap: for an Ingress that has only
-- such annotations, whatever they are, `AnnotationsReferencesConfigmap` answers false.
pub annotations_references_configmap_prefixed :
    (prefix : String) (annotations : List (String × String))
    → annotations_references_configmap
        (map (λ (a : String × String). (with_prefix prefix a.0, a.1)) annotations)
      ≡ false
unfolding annotations_references_configmap
annotations_references_configmap_prefixed prefix [] = refl
annotations_references_configmap_prefixed prefix ((n, v) ∷ rest) =
    rw (slash_missed (with_prefix prefix n) (with_prefix-contains_char prefix n))
      (annotations_references_configmap_prefixed prefix rest)
