-- ===== src/Parsers/Addresses.antt =====
-- internal/net/ipnet.go and internal/ingress/annotations/ipwhitelist/main.go: lists of networks and
-- addresses. A map from texts is modelled by its keys, each once, since only those are read.
pub mod Sound
use panda_k8s.Annotations.IpWhitelist.{SourceRange}
use panda_k8s.Annotations.Parser.{Error, Found}
use panda_k8s.Parsers.{Resolver, Annotated, Result, Reply, answer, refuse_with, string_of}
use panda_k8s.Prelude.{
  String, text_append, text_lt, Bool, true, false, ◌==◌, List, [], ◌∷◌, ◌++◌, Option, none, some,
  any, split, sort, trim_space, if◌then◌else◌,
}
use panda_k8s.Sets.Slices.{Slice}

-- what `ParseIPNets` returns without an error: the keys of the two maps
pub record Nets : Type 0 where
  pub ip_nets : List String
  pub ips : List String

-- `m[k] = v`, of the keys
abbrev pub with_key : String → List String → List String
with_key k ks = if any (λ x. x == k) ks then ks else ks ++ k ∷ []

abbrev pub no_valid_address : String
no_valid_address = "the annotation does not contain a valid IP address or network: "

-- one round of the loop of `ParseIPNets`, from what the two parsers answer
unfoldable pub read_one : Result String → Option String → Nets → Result Nets
read_one (Result.ok k) i nets = Result.ok (record nets { ip_nets = with_key k nets.ip_nets })
read_one (Result.error e) none nets = Result.error e
read_one (Result.error e) (some i) nets = Result.ok (record nets { ips = with_key i nets.ips })

module _ (r : Resolver) where
  -- the loop of `ParseIPNets`
  unfoldable pub parse_specs : List String → Nets → Result Nets
  unfolding trim_space read_one
  parse_specs [] nets = Result.ok nets
  parse_specs (s ∷ specs) nets =
      let spec = trim_space s in
      elim (read_one (r.parse_cidr spec) (r.parse_ip spec) nets) [
        | Result.error e ↦ Result.error e
        | Result.ok next ↦ parse_specs specs next
      ]

  -- `ParseIPNets`
  unfoldable pub parse_ip_nets : List String → Result Nets
  unfolding parse_specs
  parse_ip_nets specs = parse_specs specs (record { ip_nets = []; ips = [] })

  -- the keys of both maps, sorted
  unfoldable pub sorted_keys : Nets → List String
  unfolding sort
  sorted_keys nets = sort text_lt (nets.ip_nets ++ nets.ips)

  -- `ParseCIDRs`
  unfoldable pub parse_cidrs : String → Result (List String)
  unfolding parse_ip_nets sorted_keys split
  parse_cidrs s = if s == "" then Result.ok [] else elim (parse_ip_nets (split b',' s)) [
    | Result.error e ↦ Result.error e
    | Result.ok nets ↦ Result.ok (sorted_keys nets)
  ]

  -- `defaultWhitelistSourceRange`
  unfoldable pub default_whitelist : SourceRange
  unfolding sort
  default_whitelist = record {
    cidr = Slice.made (sort text_lt (r.defaults).whitelist_source_range);
  }

  -- after the annotation is read; an error of `ParseIPNets` comes with no addresses
  unfoldable pub whitelist_of : String → Reply SourceRange
  unfolding parse_ip_nets sorted_keys split default_whitelist
  whitelist_of val = elim (parse_ip_nets (split b',' val)) [
    | Result.error e ↦ refuse_with default_whitelist (Error.denied (text_append no_valid_address e))
    | Result.ok nets ↦ answer (record { cidr = Slice.made (sorted_keys nets) })
  ]

  -- `ipwhitelist.Parse`: only a missing annotation leads to the default
  unfoldable pub whitelist : Annotated → Reply SourceRange
  unfolding whitelist_of default_whitelist
  whitelist ing = elim (string_of r ing "whitelist-source-range") [
    | Found.value s ↦ whitelist_of s
    | Found.failed e ↦ elim e [ Error.missing ↦ answer default_whitelist | _ ↦ whitelist_of "" ]
  ]
