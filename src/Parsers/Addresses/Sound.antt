-- ===== src/Parsers/Addresses/Sound.antt =====
-- internal/net/ipnet.go and internal/ingress/annotations/ipwhitelist/main.go: the lists of
-- networks and addresses hold what was written, and nothing else.
use panda_k8s.Annotations.Parser.{Error, Found}
use panda_k8s.Parsers.{Resolver, Annotated, Result, answer, refuse_with, string_of}
use panda_k8s.Parsers.Addresses.{
  Nets, with_key, read_one, parse_specs, parse_ip_nets, sorted_keys, parse_cidrs, whitelist_of,
  whitelist, default_whitelist, no_valid_address,
}
use panda_k8s.Prelude.{
  String, text_append, text_lt, text_lt_asymmetric, text_lt_transitive, Bool, true, false, ◌==◌,
  List, [], ◌∷◌, ◌++◌, Option, none, some, any, all, map, split, IsSorted, sort-IsSorted, In,
  In-sort, trim_space, ◌≡◌, ◌↔◌, ◌⊎◌, inl, inr, refl, ap, arith, Bool-cases, Option-cases, some_eq,
}
use panda_k8s.Sets.Slices.{made}
use panda_k8s.StringSets.{In-member}

-- a network, or else an address
unfoldable pub network_or_address : Result String → Option String → Option String
network_or_address (Result.ok k) i = some k
network_or_address (Result.error e) i = i

-- what a part of the list is parsed to
abbrev pub parsed : Resolver → String → Option String
parsed r s = network_or_address (r.parse_cidr (trim_space s)) (r.parse_ip (trim_space s))

abbrev pub is_some : Option String → Bool
is_some none = false
is_some (some x) = true

abbrev pub all_parsed : Resolver → List String → Bool
all_parsed r specs = all (λ s. is_some (parsed r s)) specs

abbrev no_nets : Nets
no_nets = record { ip_nets = []; ips = [] }

-- the keys of both maps
abbrev keys : Nets → List String
keys nets = nets.ip_nets ++ nets.ips

In-append : (x : String) (xs ys : List String) → In x (xs ++ ys) ↔ (In x xs ⊎ In x ys)
In-append x [] ys = (λ h. inr h, λ h. elim h [ inl a ↦ absurd a | inr b ↦ b ])
In-append x (y ∷ xs) ys = ground (arith, In-append x xs ys)

In-with_key : (x k : String) (ks : List String) → In x (with_key k ks) ↔ ((x ≡ k) ⊎ In x ks)
In-with_key x k ks = elim (Bool-cases (any (λ y. y == k) ks)) [
  | inl known ↦
      rw known (λ h. inr h, λ h. elim h [ inl e ↦ rw e ((In-member ks k).1 known) | inr old ↦ old ])
  | inr new ↦ rw new (ground (arith, In-append x ks (k ∷ [])))
]

-- one round: the text is added to one of the maps
read_one_good :
    (c : Result String) (i : Option String) (nets : Nets) (k : String)
    → network_or_address c i ≡ some k
    → (next : Nets) × (read_one c i nets ≡ Result.ok next)
      × ((x : String) → In x (keys next) ↔ ((x ≡ k) ⊎ In x (keys nets)))
unfolding read_one network_or_address
read_one_good (Result.ok n) i nets k h = (
  record nets { ip_nets = with_key n nets.ip_nets },
  refl,
  λ x. rw (← some_eq h) (
      ground (
        arith,
        In-append x (with_key n nets.ip_nets) nets.ips,
        In-append x nets.ip_nets nets.ips,
        In-with_key x n nets.ip_nets,
      )),
)
read_one_good (Result.error e) none nets k h = cc
read_one_good (Result.error e) (some n) nets k h = (
  record nets { ips = with_key n nets.ips },
  refl,
  λ x. rw (← some_eq h) (
      ground (
        arith,
        In-append x nets.ip_nets (with_key n nets.ips),
        In-append x nets.ip_nets nets.ips,
        In-with_key x n nets.ips,
      )),
)

read_one_bad :
    (c : Result String) (i : Option String) (nets : Nets)
    → network_or_address c i ≡ none
    → (e : String) × (read_one c i nets ≡ Result.error e)
unfolding read_one network_or_address
read_one_bad (Result.ok n) i nets h = cc
read_one_bad (Result.error e) none nets h = (e, refl)
read_one_bad (Result.error e) (some n) nets h = cc

some_eq_iff : (x y : String) → (some x ≡ some y) ↔ (x ≡ y)
some_eq_iff x y = (λ h. some_eq h, λ h. ap some h)

module _ (r : Resolver) where
  -- what is in the maps after the loop: what was in them, and what the parts are parsed to
  abbrev IsRead : List String → Nets → Nets → Type 0
  IsRead specs nets out =
      (x : String) → In x (keys out) ↔ (In x (keys nets) ⊎ In (some x) (map (parsed r) specs))

  parse_specs-IsRead :
      (specs : List String) (nets : Nets)
      → all_parsed r specs ≡ true
      → (out : Nets) × (parse_specs r specs nets ≡ Result.ok out) × IsRead specs nets out
  unfolding parse_specs
  parse_specs-IsRead [] nets h =
      (nets, refl, λ x. (λ a. inl a, λ a. elim a [ inl b ↦ b | inr b ↦ absurd b ]))
  parse_specs-IsRead (s ∷ specs) nets h = elim (Option-cases (parsed r s)) [
    | inl bad ↦ absurd (cc (rw bad at h))
    | inr (k, good) ↦
        let (next, n, added) = read_one_good _ _ nets k good in
        let (out, o, known) = parse_specs-IsRead specs next (rw good at h) in
        rw (n, parse_specs)
          (out, o, λ x. rw good (ground (arith, added x, known x, some_eq_iff x k)))
  ]

  parse_specs_bad :
      (specs : List String) (nets : Nets)
      → all_parsed r specs ≡ false
      → (e : String) × (parse_specs r specs nets ≡ Result.error e)
  unfolding parse_specs
  parse_specs_bad [] nets h = cc
  parse_specs_bad (s ∷ specs) nets h = elim (Option-cases (parsed r s)) [
    | inl bad ↦ let (e, n) = read_one_bad _ _ nets bad in rw (n, parse_specs) (e, refl)
    | inr (k, good) ↦
        let (next, n, added) = read_one_good _ _ nets k good in
        rw (n, parse_specs) (parse_specs_bad specs next (rw good at h))
  ]

  -- The list is sorted, and holds what the parts of the text are parsed to, and nothing else.
  abbrev pub IsListOf : List String → List String → Type 0
  IsListOf specs cidrs =
      IsSorted text_lt cidrs × ((x : String) → In x cidrs ↔ In (some x) (map (parsed r) specs))

  sorted_keys-IsListOf :
      (specs : List String) (out : Nets)
      → IsRead specs no_nets out
      → IsListOf specs (sorted_keys r out)
  unfolding sorted_keys
  sorted_keys-IsListOf specs out h = (
    sort-IsSorted text_lt text_lt_asymmetric text_lt_transitive (keys out),
    λ x. ground (arith, In-sort text_lt x (keys out), h x),
  )

  -- `ParseCIDRs` of a text that is not empty fails exactly if one of its parts, between commas, is
  -- neither a network nor an address; otherwise it answers a sorted list of exactly the networks and
  -- addresses of the parts.
  pub parse_cidrs_lem :
      (s : String)
      → (s == "") ≡ false
      → (all_parsed r (split b',' s) ≡ false) × ((e : String) × (parse_cidrs r s ≡ Result.error e))
        ⊎ (all_parsed r (split b',' s) ≡ true)
          × ((cidrs : List String) × (parse_cidrs r s ≡ Result.ok cidrs)
              × IsListOf (split b',' s) cidrs)
  unfolding parse_cidrs parse_ip_nets
  parse_cidrs_lem s h = elim (Bool-cases (all_parsed r (split b',' s))) [
    | inl good ↦
        let (out, o, known) = parse_specs-IsRead (split b',' s) no_nets good in
        inr (
          good,
          (sorted_keys r out, rw h (rw o refl), sorted_keys-IsListOf (split b',' s) out known),
        )
    | inr bad ↦
        let (e, o) = parse_specs_bad (split b',' s) no_nets bad in inl (bad, (e, rw h (rw o refl)))
  ]

  -- With an annotation `whitelist-source-range`, the addresses are never left open by mistake: if one
  -- of its parts is neither a network nor an address, the location is denied, and otherwise the list
  -- is sorted and holds exactly the networks and addresses of the parts.
  pub whitelist_given :
      (ing : Annotated) (s : String)
      → string_of r ing "whitelist-source-range" ≡ Found.value s
      → (all_parsed r (split b',' s) ≡ false)
          × ((reason : String) × (whitelist r ing
                ≡ refuse_with (default_whitelist r) (Error.denied reason)))
        ⊎ (all_parsed r (split b',' s) ≡ true)
          × ((cidrs : List String) × (whitelist r ing ≡ answer (record { cidr = made cidrs }))
              × IsListOf (split b',' s) cidrs)
  unfolding whitelist whitelist_of parse_ip_nets
  whitelist_given ing s h = elim (Bool-cases (all_parsed r (split b',' s))) [
    | inl good ↦
        let (out, o, known) = parse_specs-IsRead (split b',' s) no_nets good in
        inr (
          good,
          (
            sorted_keys r out,
            rw (h, whitelist) (rw (o, whitelist_of) refl),
            sorted_keys-IsListOf (split b',' s) out known,
          ),
        )
    | inr bad ↦
        let (e, o) = parse_specs_bad (split b',' s) no_nets bad in
        inl (bad, (text_append no_valid_address e, rw (h, whitelist) (rw (o, whitelist_of) refl)))
  ]
