-- ===== src/Controller/CreateServers/Noted.antt =====
-- While `createServers` configures the servers, each has the aliases that `allAliases` has for it.
use panda_k8s.Annotations.Parsed.{ParsedAnnotations}
use panda_k8s.Api.Heap.{Heap}
use panda_k8s.Api.Ingresses.{Ingress, IngressRule}
use panda_k8s.Api.Servers.{Server}
use panda_k8s.Controller.CreateServers.{configure_server, configure_hosts, configure_servers}
use panda_k8s.Controller.Drafts.{
  Draft, annotations_of, host_of, Configured, aliases_at, note_aliases,
}
use panda_k8s.Controller.CreateUpstreams.{is_no_list}
use panda_k8s.Controller.Store.{Store, Options}
use panda_k8s.Externals.{Externals}
use panda_k8s.Prelude.{
  ℕ, String, true, false, ◌&&◌, ◌==◌, ==_iff, ◌≡◌, refl, sym, subst, ap, ◌∙◌, List, [], ◌∷◌, some,
  some_eq, some_of_bind, lookup, lookup-store, store as put, inl, inr, Bool-cases, if◌then◌else◌,
}
use panda_k8s.Sets.Slices.{Slice, elems}

module _ (ext : Externals) (heap : Heap) (store : Store) (cfg : Options) where
  -- The servers have the aliases that `allAliases` has for them.
  abbrev pub Noted : Configured → Type 0
  Noted c =
      (host : String) (d : Draft)
      → lookup host c.servers ≡ some d
      → elems d.server.aliases ≡ aliases_at host c.all_aliases

  same_aliases :
      (new old : Slice String) (host : String) (all : List (String × List String))
      → elems old ≡ aliases_at host all
      → elems (if is_no_list (elems old) then new else old)
        ≡ aliases_at host (
            if is_no_list (elems old) && is_no_list (aliases_at host all)
            then put host (elems new) all
            else all)
  same_aliases new old host all h = elim (Bool-cases (is_no_list (elems old))) [
    | inr something ↦ rw something h
    | inl nothing ↦
        let k : is_no_list (aliases_at host all) ≡ true = rw (← h) nothing in
        rw (nothing, k, aliases_at)
          (rw (lookup-store host host (elems new) all, (==_iff host host).1 refl) refl)
  ]

  other_aliases :
      (anns : ParsedAnnotations) (host j : String) (s : Server) (all : List (String × List String))
      → (host == j) ≡ false
      → aliases_at j (note_aliases anns host s all) ≡ aliases_at j all
  unfolding note_aliases
  other_aliases anns host j s all h =
      elim (Bool-cases (is_no_list (elems s.aliases) && is_no_list (aliases_at host all))) [
        | inr kept ↦ rw kept refl
        | inl new ↦ rw (new, aliases_at) (rw (lookup-store host j (elems anns.aliases) all, h) refl)
      ]

  configure_hosts-Noted :
      (ing : Ingress) (anns : ParsedAnnotations) (rules : List IngressRule) (c d : Configured)
      → Noted c
      → configure_hosts ext heap store cfg ing anns rules c ≡ some d
      → Noted d
  unfolding configure_hosts configure_server note_aliases
  configure_hosts-Noted ing anns [] c d h e = subst Noted (some_eq e) h
  configure_hosts-Noted ing anns (r ∷ rs) c d h e =
      let (s, i, j) = some_of_bind (lookup (host_of r) c.servers) (λ s. _) d e in
      let t : Draft = record s {
        server = configure_server ext heap store cfg ing anns (host_of r) s.server;
      } in
      configure_hosts-Noted ing anns rs
        (record {
          servers = put (host_of r) t c.servers;
          all_aliases = note_aliases anns (host_of r) s.server c.all_aliases;
        })
        d (noted s t i refl) j
    where
      noted :
          (s t : Draft)
          → lookup (host_of r) c.servers ≡ some s
          → t.server ≡ configure_server ext heap store cfg ing anns (host_of r) s.server
          → Noted (record {
            servers = put (host_of r) t c.servers;
            all_aliases = note_aliases anns (host_of r) s.server c.all_aliases;
          })
      noted s t i same host x k = elim (Bool-cases (host_of r == host)) [
        | inl here ↦
            let e : t ≡ x = some_eq (rw (lookup-store (host_of r) host t c.servers, here) at k) in
            subst
              (λ j.
                elems x.server.aliases
                ≡ aliases_at j (note_aliases anns (host_of r) s.server c.all_aliases))
              ((==_iff (host_of r) host).0 here)
              (ap (λ (y : Draft). elems y.server.aliases) (sym e)
                ∙ ap (λ (v : Server). elems v.aliases) same
                ∙ same_aliases anns.aliases s.server.aliases (host_of r) c.all_aliases
                    (h (host_of r) s i))
        | inr there ↦
            h host x (rw (lookup-store (host_of r) host t c.servers, there) at k)
            ∙ sym (other_aliases anns (host_of r) host s.server c.all_aliases there)
      ]

  pub configure_servers-Noted :
      (ns : List ℕ) (c d : Configured)
      → Noted c
      → configure_servers ext heap store cfg ns c ≡ some d
      → Noted d
  unfolding configure_servers
  configure_servers-Noted [] c d h e = subst Noted (some_eq e) h
  configure_servers-Noted (n ∷ ns) c d h e =
      let (anns, i, j) = some_of_bind (annotations_of store (heap.ingress n)) (λ anns. _) d e in
      elim (Bool-cases anns.canary.enabled) [
        | inl on ↦ configure_servers-Noted ns c d h (rw on at j)
        | inr off ↦
            let (f, k, l) =
              some_of_bind
                (configure_hosts ext heap store cfg (heap.ingress n) anns (heap.ingress n).rules c)
                (configure_servers ext heap store cfg ns) d (rw off at j) in
            configure_servers-Noted ns f d
              (configure_hosts-Noted (heap.ingress n) anns (heap.ingress n).rules c f h k) l
      ]
