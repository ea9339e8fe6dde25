-- ===== src/Parsers/Canary.antt =====
-- internal/ingress/annotations/canary/main.go
use panda_k8s.Annotations.Canary.{Config}
use panda_k8s.Annotations.Parser.{Error, or_default}
use panda_k8s.Parsers.{
  Resolver, Annotated, Reply, answer, refuse, bool_or_false, string_or_empty, int_or_zero, int_of,
}
use panda_k8s.Prelude.{pos, is_positive, is_empty, not, ◌&&◌, ◌||◌, if◌then◌else◌}

module _ (r : Resolver) (ing : Annotated) where
  -- the configuration before the check at the end
  abbrev pub config : Config
  config = record {
    enabled = bool_or_false r ing "canary";
    weight = int_or_zero r ing "canary-weight";
    weight_total = or_default (pos 100) (int_of r ing "canary-weight-total");
    header = string_or_empty r ing "canary-by-header";
    header_value = string_or_empty r ing "canary-by-header-value";
    header_pattern = string_or_empty r ing "canary-by-header-pattern";
    cookie = string_or_empty r ing "canary-by-cookie";
  }

  -- `Parse`
  unfoldable pub parse : Reply Config
  parse =
      let c = config in
      if not c.enabled
        && (is_positive c.weight
            || not (is_empty c.header)
            || not (is_empty c.header_value)
            || not (is_empty c.cookie)
            || not (is_empty c.header_pattern))
      then refuse Error.invalid_configuration
      else answer c
