-- ===== src/Parsers/RateLimits.antt =====
-- internal/ingress/annotations/{ratelimit,globalratelimit}/main.go
use Prim.Native.Char.{code}
use Prim.Native.String.{String}
use panda_k8s.Annotations.GlobalRateLimit
use panda_k8s.Annotations.RateLimit
use panda_k8s.Annotations.Parser.{Error, or_default}
use panda_k8s.Annotations.Zero.{no_rate_limit_annotation, no_global_rate_limit_annotation}
use panda_k8s.Parsers.{
  Resolver, Annotated, Result, Reply, answer, refuse, refuse_with, string_or_empty, int_or_zero,
  int_of,
}
use panda_k8s.Parsers.Addresses.{parse_cidrs}
use panda_k8s.Prelude.{
  ℕ, ℤ, pos, int_eq, int_mul, to_int64, nat_eq, is_empty, text_append, ◌&&◌, ◌||◌, List,
  if◌then◌else◌,
}
use panda_k8s.Sets.Slices.{Slice}

-- `strings.Replace(s, x, "", -1)`, of one character
unfoldable pub without_char : ℕ → String → String
without_char x String.[] = ""
without_char x (String.◌∷◌ c s) =
    let rest = without_char x s in if nat_eq (code c) x then rest else String.◌∷◌ c rest

-- a zone of a limit; the product wraps
unfoldable pub zone : String → ℤ → ℤ → RateLimit.Zone
unfolding to_int64
zone name limit multiplier = record {
  name = name;
  limit = limit;
  burst = to_int64 (int_mul limit multiplier);
  shared_size = pos 5;
}

module _ (r : Resolver) (ing : Annotated) where
  -- `zoneName`
  abbrev pub zone_name : String
  zone_name =
      text_append ing.namespace (text_append "_" (text_append ing.name (text_append "_" ing.uid)))

  abbrev pub burst_multiplier : ℤ
  burst_multiplier = or_default (pos 5) (int_of r ing "limit-burst-multiplier")

  -- `encode`
  unfoldable pub encode : String → String
  unfolding without_char
  encode s = without_char b'=' (r.encode_to_string s)

  -- the configuration for a list of networks
  unfoldable pub rate_limit_of : List String → RateLimit.Config
  unfolding zone encode
  rate_limit_of cidrs =
      let lr = or_default (r.defaults).limit_rate (int_of r ing "limit-rate") in
      let lra = or_default (r.defaults).limit_rate_after (int_of r ing "limit-rate-after") in
      let rpm = int_or_zero r ing "limit-rpm" in
      let rps = int_or_zero r ing "limit-rps" in
      let conn = int_or_zero r ing "limit-connections" in
      if int_eq rpm (pos 0) && int_eq rps (pos 0) && int_eq conn (pos 0)
      then record no_rate_limit_annotation { limit_rate = lr; limit_rate_after = lra }
      else record {
        connections = zone (text_append zone_name "_conn") conn burst_multiplier;
        rps = zone (text_append zone_name "_rps") rps burst_multiplier;
        rpm = zone (text_append zone_name "_rpm") rpm burst_multiplier;
        limit_rate = lr;
        limit_rate_after = lra;
        name = zone_name;
        id = encode zone_name;
        whitelist = Slice.made cidrs;
      }

  -- `ratelimit.Parse`
  unfoldable pub rate_limit : Reply RateLimit.Config
  unfolding rate_limit_of parse_cidrs
  rate_limit = elim (parse_cidrs r (string_or_empty r ing "limit-whitelist")) [
    | Result.error e ↦ refuse Error.other
    | Result.ok cidrs ↦ answer (rate_limit_of cidrs)
  ]

  abbrev pub or_remote_addr : String → String
  or_remote_addr key = if is_empty key then "$remote_addr" else key

  abbrev window_not_parsed : String
  window_not_parsed = "failed to parse 'global-rate-limit-window' value: "

  -- with a limit and a window
  unfoldable pub global_rate_limit_of : ℤ → String → Reply GlobalRateLimit.Config
  unfolding without_char parse_cidrs
  global_rate_limit_of limit window = elim (r.parse_duration window) [
    | Result.error e ↦
        refuse_with no_global_rate_limit_annotation (Error.denied (text_append window_not_parsed e))
    | Result.ok seconds ↦
        elim (parse_cidrs r (string_or_empty r ing "global-rate-limit-ignored-cidrs")) [
          | Result.error e ↦ refuse Error.other
          | Result.ok cidrs ↦ answer (record {
            namespace = without_char b'-' ing.uid;
            limit = limit;
            window_size = seconds;
            key = or_remote_addr (string_or_empty r ing "global-rate-limit-key");
            ignored_cidrs = Slice.made cidrs;
          })
        ]
  ]

  -- `globalratelimit.Parse`
  unfoldable pub global_rate_limit : Reply GlobalRateLimit.Config
  unfolding global_rate_limit_of
  global_rate_limit =
      let limit = int_or_zero r ing "global-rate-limit" in
      let window = string_or_empty r ing "global-rate-limit-window" in
      if int_eq limit (pos 0) || is_empty window
      then answer no_global_rate_limit_annotation
      else global_rate_limit_of limit window
