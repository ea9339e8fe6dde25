-- ===== src/Controller/CreateServers/Aliases.antt =====
-- The aliases that `createServers` gives to the servers.
use panda_k8s.Api.Backends.{Backend}
use panda_k8s.Api.Heap.{Heap}
use panda_k8s.Api.Servers.{Server}
use panda_k8s.Controller.Canary.{Upstreams, def_server_name}
use panda_k8s.Controller.CreateServers.{
  default_server, add_all_servers, configure_servers, unique_aliases, aliased, set_alias,
  set_aliases, create_servers,
}
use panda_k8s.Controller.Drafts.{Draft, Drafts, Configured, aliases_at}
use panda_k8s.Controller.CreateServers.Hosts.{IsNewServer, IsNewServerAll, add_all_servers-Grows}
use panda_k8s.Controller.CreateServers.Noted.{Noted, configure_servers-Noted}
use panda_k8s.Controller.Store.{Store, Options}
use panda_k8s.Equality.{distinct}
use panda_k8s.Externals.{Externals}
use panda_k8s.Prelude.{
  ℕ, String, true, false, ◌==◌, ==_iff, ◌≡◌, ◌⊎◌, refl, sym, subst, ap, ◌∙◌, List, [], ◌∷◌, none,
  some, some_eq, some_of_bind, lookup, lookup-All, lookup-store, In, HasKey, Grows-All, inl, inr,
  Bool-cases, Option-cases,
}
use panda_k8s.Sets.Slices.{elems}
use panda_k8s.StringSets.{StringSets}

-- No alias is there twice, and none is the host of a server.
abbrev pub IsAliased : Drafts → Server → Type 0
IsAliased u s =
    (distinct ◌==◌ (elems s.aliases) ≡ true)
    × ((a : String) → In a (elems s.aliases) → lookup a u ≡ none)

module _ (ext : Externals) (heap : Heap) (store : Store) (cfg : Options) where
  module _ (sets : StringSets) where
    unique_aliases-apart :
        (host : String) (u : Drafts) (aliases : List String) (seen : sets.Set) (y : String)
        → sets.has (unique_aliases ext heap store cfg sets host u aliases seen) y ≡ true
        → (sets.has seen y ≡ true) ⊎ (lookup y u ≡ none)
    unfolding unique_aliases
    unique_aliases-apart host u [] seen y h = inl h
    unique_aliases-apart host u (a ∷ as') seen y h = elim (Bool-cases (a == host)) [
      | inl same ↦ unique_aliases-apart host u as' seen y (rw same at h)
      | inr other ↦ elim (Option-cases (lookup a u)) [
        | inr (d, found) ↦ unique_aliases-apart host u as' seen y (rw (other, found) at h)
        | inl free ↦ elim (Bool-cases (sets.has seen a)) [
          | inl old ↦ unique_aliases-apart host u as' seen y (rw (other, free, old) at h)
          | inr new ↦
              elim (unique_aliases-apart host u as' (sets.insert seen a) y
                (rw (other, free, new) at h)) [
                  | inr apart ↦ inr apart
                  | inl has_it ↦ elim (Bool-cases (a == y)) [
                    | inl it ↦ inr (subst (λ b. lookup b u ≡ none) ((==_iff a y).0 it) free)
                    | inr not_it ↦ inl (rw (sets.has-insert seen a y, not_it) at has_it)
                  ]
                ]
        ]
      ]
    ]

    new_aliases-IsAliased :
        (host : String) (u : Drafts) (aliases : List String)
        → (distinct ◌==◌
              (sets.list (unique_aliases ext heap store cfg sets host u aliases sets.empty))
            ≡ true)
          × ((a : String)
              → In a (sets.list (unique_aliases ext heap store cfg sets host u aliases sets.empty))
              → lookup a u ≡ none)
    new_aliases-IsAliased host u aliases = (
      sets.list-distinct found,
      λ a i. elim (unique_aliases-apart host u aliases sets.empty a ((sets.in-list found a).0 i)) [
        | inl in_empty ↦ let clash = sym (sets.has-empty a) ∙ in_empty in cc
        | inr apart ↦ apart
      ],
    )
      where
        found : sets.Set
        found = unique_aliases ext heap store cfg sets host u aliases sets.empty

    -- The hosts of the servers stay the same.
    set_alias-missing :
        (host : String) (aliases : List String) (u : Drafts) (a : String)
        → lookup a u ≡ none
        → lookup a (set_alias ext heap store cfg sets host aliases u) ≡ none
    unfolding set_alias
    set_alias-missing host aliases u a h = elim (Option-cases (lookup host u)) [
      | inl missing ↦ rw (missing, set_alias) h
      | inr (d, found) ↦ elim (Bool-cases (host == a)) [
        | inl same ↦ let clash = sym found ∙ ap (λ b. lookup b u) ((==_iff host a).0 same) ∙ h in cc
        | inr other ↦
            rw (found, set_alias)
              (rw (lookup-store host a (aliased ext heap store cfg sets host aliases u d) u, other)
                h)
      ]
    ]

    -- a server whose aliases are settled, or that the rest of the loop comes to
    abbrev Settled : List (String × List String) → Drafts → Type 0
    Settled rest u =
        (host : String) (d : Draft)
        → lookup host u ≡ some d
        → IsAliased u d.server ⊎ HasKey host rest

    later_key :
        (host j : String) (aliases : List String) (rest : List (String × List String))
        → (host == j) ≡ false
        → HasKey j ((host, aliases) ∷ rest)
        → HasKey j rest
    unfolding lookup
    later_key host j aliases rest other (v, h) = (v, rw other at h)

    set_alias-IsAliased :
        (host : String) (aliases : List String) (u : Drafts) (s : Server)
        → IsAliased u s
        → IsAliased (set_alias ext heap store cfg sets host aliases u) s
    set_alias-IsAliased host aliases u s (d, a) =
        (d, λ x i. set_alias-missing host aliases u x (a x i))

    set_alias-Settled :
        (host : String) (aliases : List String) (rest : List (String × List String)) (u : Drafts)
        → Settled ((host, aliases) ∷ rest) u
        → Settled rest (set_alias ext heap store cfg sets host aliases u)
    unfolding set_alias
    set_alias-Settled host aliases rest u h j d k = elim (Bool-cases (host == j)) [
      | inr other ↦ elim (h j d (unset other)) [
        | inl good ↦ inl (set_alias-IsAliased host aliases u d.server good)
        | inr there ↦ inr (later_key host j aliases rest other there)
      ]
      | inl same ↦ inl (
          set_alias-IsAliased host aliases u d.server (elim (Option-cases (lookup host u)) [
            | inl missing ↦
                let clash =
                  sym missing
                  ∙ ap (λ b. lookup b u) ((==_iff host j).0 same)
                  ∙ (rw (missing, set_alias) at k) in
                cc
            | inr (e, found) ↦
                let l : aliased ext heap store cfg sets host aliases u e ≡ d = some_eq (
                  rw
                    (lookup-store host j (aliased ext heap store cfg sets host aliases u e) u, same)
                    at (rw (found, set_alias) at k)) in
                subst (λ (x : Draft). IsAliased u x.server) l (new_aliases-IsAliased host u aliases)
          ]))
    ]
      where
        unset : (host == j) ≡ false → lookup j u ≡ some d
        unset other = elim (Option-cases (lookup host u)) [
          | inl missing ↦ rw (missing, set_alias) at k
          | inr (e, found) ↦
              rw (lookup-store host j (aliased ext heap store cfg sets host aliases u e) u, other)
                at (rw (found, set_alias) at k)
        ]

    set_aliases-IsAliased :
        (all : List (String × List String)) (u : Drafts)
        → Settled all u
        → (host : String) (d : Draft)
        → lookup host (set_aliases ext heap store cfg sets all u) ≡ some d
        → IsAliased (set_aliases ext heap store cfg sets all u) d.server
    unfolding set_aliases lookup
    set_aliases-IsAliased [] u h host d k = elim (h host d k) [
      | inl good ↦ good
      | inr (v, none_left) ↦ absurd (let clash = none_left in cc)
    ]
    set_aliases-IsAliased ((j, aliases) ∷ rest) u h host d k =
        set_aliases-IsAliased rest (set_alias ext heap store cfg sets j aliases u)
          (set_alias-Settled j aliases rest u h) host d k

    -- Whatever the Ingresses ask for: of the servers that createServers returns, if it does not
    -- panic, none has an alias twice, and none has an alias that is the host of a server.
    pub create_servers-IsAliased :
        (ns : List ℕ) (upstreams : Upstreams) (du : Backend) (w : Drafts)
        → create_servers ext heap store cfg sets ns upstreams du ≡ some w
        → (host : String) (d : Draft) → lookup host w ≡ some d
        → IsAliased w d.server
    unfolding create_servers default_server lookup
    create_servers-IsAliased ns upstreams du w h =
        let first : Drafts = (def_server_name, default_server ext heap store cfg du) ∷ [] in
        let start : IsNewServerAll first = ((refl, refl, (refl, refl)), tt) in
        let (u, i, j) =
          some_of_bind (add_all_servers ext heap store cfg ns upstreams du first) (λ u. _) w h in
        let (c, k, l) =
          some_of_bind
            (configure_servers ext heap store cfg ns (record { servers = u; all_aliases = [] }))
            (λ c. _) w j in
        let built =
          Grows-All (add_all_servers-Grows ext heap store cfg ns upstreams du first u start i).0
            start in
        let noted : Noted ext heap store cfg c =
          configure_servers-Noted ext heap store cfg ns (record { servers = u; all_aliases = [] }) c
            (λ host d m. ap elems (lookup-All IsNewServer host d u built m).1) k in
        subst (λ w. (host : String) (d : Draft) → lookup host w ≡ some d → IsAliased w d.server)
          (some_eq l) (set_aliases-IsAliased c.all_aliases c.servers (settled c noted))
      where
        settled : (c : Configured) → Noted ext heap store cfg c → Settled c.all_aliases c.servers
        settled c noted host d m = elim (Option-cases (lookup host c.all_aliases)) [
          | inr found ↦ inr found
          | inl missing ↦ inl (
              subst
                (λ xs.
                  (distinct ◌==◌ xs ≡ true) × ((a : String) → In a xs → lookup a c.servers ≡ none))
                (sym (rw (missing, aliases_at) at (noted host d m))) (refl, λ a i. absurd i))
        ]
