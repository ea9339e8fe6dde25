-- ===== src/Parsers/FastCgi.antt =====
-- internal/ingress/annotations/fastcgi/main.go
use panda_k8s.Annotations.FastCgi.{Config}
use panda_k8s.Annotations.Parser.{Error, Found}
use panda_k8s.Equality.Maps.{StringMap}
use panda_k8s.Parsers.{
  Resolver, Annotated, Result, Reply, answer, refuse_with, string_of, string_or_empty,
}
use panda_k8s.Prelude.{String, text_append, ◌==◌, if◌then◌else◌}

module _ (r : Resolver) (ing : Annotated) where
  abbrev without_params : Config
  without_params = record { index = string_or_empty r ing "fastcgi-index"; params = StringMap.nil }

  -- the ConfigMap, in the namespace of the Ingress if the annotation names none
  unfoldable pub params_of : String → String → Reply Config
  params_of cmns cmn =
      let cm = text_append (if cmns == "" then ing.namespace else cmns) (text_append "/" cmn) in
      elim (r.get_config_map cm) [
        | Result.error e ↦ refuse_with without_params (
            Error.denied (
              text_append "unexpected error reading configmap "
                (text_append cm (text_append ": " e))))
        | Result.ok m ↦ answer (record without_params { params = m })
      ]

  -- `Parse`: without annotations the getters answer errors
  unfoldable pub fast_cgi : Reply Config
  unfolding params_of
  fast_cgi = elim (string_of r ing "fastcgi-params-configmap") [
    | Found.failed e ↦ answer without_params
    | Found.value cm ↦ elim (r.split_meta_namespace_key cm) [
      | Result.error e ↦
          refuse_with without_params
            (Error.denied (text_append "error reading configmap name from annotation: " e))
      | Result.ok (cmns, cmn) ↦ params_of cmns cmn
    ]
  ]
