-- ===== src/Controller/BackendServers/Covered.antt =====
-- What the loops of `getBackendServers` over the Ingresses keep, and that every path gets a location.
use panda_k8s.Annotations.Parsed.{ParsedAnnotations}
use panda_k8s.Annotations.SessionAffinity
use panda_k8s.Api.Backends.{Backend, CookieSessionAffinity, SessionAffinityConfig}
use panda_k8s.Api.Ingresses.{Ingress, HttpIngressPath, ServiceBackend}
use panda_k8s.Api.Servers.{Location}
use panda_k8s.Controller.BackendServers.{
  with_path, with_cookie, with_affinity, with_upstream, Built, add_path, add_paths, server_key,
}
use panda_k8s.Controller.Places.{nginx_path}
use panda_k8s.Controller.BackendServers.Paths.{HasPath, KeepsPaths, place_path-HasPath}
use panda_k8s.Controller.Canary.{Upstreams}
use panda_k8s.Controller.CreateUpstreams.Cookies.{HasLocations}
use panda_k8s.Controller.Drafts.{Draft, Drafts}
use panda_k8s.Controller.Upstreams.{upstream_name}
use panda_k8s.Sets.Slices.{elems}
use panda_k8s.Prelude.{
  if◌then◌else◌, ℕ, String, Bool, true, false, ◌==◌, ==_iff, ◌≡◌, refl, sym, subst, ap, ◌∙◌, List,
  [], ◌∷◌, none, some, some_eq, some_of_bind, lookup, lookup-store, store as put, All, All_map, inl,
  inr, Bool-cases, Option-cases,
}

-- Every upstream stays, one with or without a server, and with the map of cookies that it has.
abbrev pub KeepsUpstreams : Upstreams → Upstreams → Type 0
KeepsUpstreams u w =
    (k : String) (b : Backend)
    → lookup k u ≡ some b
    → (c : Backend) × (lookup k w ≡ some c)
      × (c.no_server ≡ b.no_server)
      × (HasLocations b → HasLocations c)

-- the path has a location, unless its upstream has no server
abbrev pub Placed : String → Upstreams → List Location → HttpIngressPath → Type 0
Placed namespace u ls path =
    (service : ServiceBackend) (ups : Backend)
    → path.service ≡ some service
    → lookup (upstream_name namespace (some service)) u ≡ some ups
    → ups.no_server ≡ false
    → HasPath (nginx_path path) path.path_type ls

-- A path leaves the map of cookies there.
with_affinity_keeps :
    (a : SessionAffinity.Config) (path : String) (hosts : List String) (s t : SessionAffinityConfig)
    → with_affinity a path hosts s ≡ some t
    → ((locs : List (String × List String)) × (s.cookie_session_affinity.locations ≡ some locs))
    → (locs : List (String × List String)) × (t.cookie_session_affinity.locations ≡ some locs)
unfolding with_affinity with_cookie
with_affinity_keeps a path hosts s t h (locs, there) =
    let (c, i, j) =
      some_of_bind (with_cookie a path hosts s.cookie_session_affinity) (λ c. _) t h in
    let (found, e) = kept c i in
    (
      found,
      sym (ap (λ (x : SessionAffinityConfig). x.cookie_session_affinity.locations) (some_eq j)) ∙ e,
    )
  where
    kept :
        (c : CookieSessionAffinity)
        → with_cookie a path hosts s.cookie_session_affinity ≡ some c
        → (found : List (String × List String)) × (c.locations ≡ some found)
    kept c i = elim (Bool-cases (a.type == "cookie")) [
      | inl cookie ↦
          let (l, _, k) =
            some_of_bind s.cookie_session_affinity.locations (λ l. _) c (rw cookie at i) in
          (_, sym (ap (λ (x : CookieSessionAffinity). x.locations) (some_eq k)))
      | inr other ↦ (
        locs,
        sym (ap (λ (x : CookieSessionAffinity). x.locations) (some_eq (rw other at i))) ∙ there,
      )
    ]

-- a test that fails
pub else_of : {A : Type 0} (b : Bool) (x y z : A) → b ≡ false → (if b then x else y) ≡ z → y ≡ z
else_of true x y z fails h = cc
else_of false x y z fails h = h

module _ (n : ℕ) (ing : Ingress) (anns : ParsedAnnotations) (host : String) where
  put-KeepsUpstreams :
      (k : String) (b c : Backend) (u : Upstreams)
      → lookup k u ≡ some b
      → c.no_server ≡ b.no_server
      → (HasLocations b → HasLocations c)
      → KeepsUpstreams u (put k c u)
  put-KeepsUpstreams k b c u h same still j d i = elim (Bool-cases (k == j)) [
    | inr other ↦ (d, rw (lookup-store k j c u, other) i, refl, λ l. l)
    | inl here ↦ (
      c,
      rw (lookup-store k j c u, here) refl,
      same ∙ ap (λ (x : Backend). x.no_server) (found_again here i),
      λ l. still (subst HasLocations (sym (found_again here i)) l),
    )
  ]
    where
      found_again : (k == j) ≡ true → lookup j u ≡ some d → b ≡ d
      found_again here i = some_eq (sym h ∙ ap (λ x. lookup x u) ((==_iff k j).0 here) ∙ i)

  -- what a path does to the server and the upstreams
  abbrev Adds : HttpIngressPath → Built → Built → Type 0
  Adds path b c =
      KeepsUpstreams b.upstreams c.upstreams
      × KeepsPaths b.draft.locations c.draft.locations
      × Placed ing.namespace b.upstreams c.draft.locations path

  with_upstream-Adds :
      (path : HttpIngressPath) (s : ServiceBackend) (ups : Backend) (b c : Built)
      → path.service ≡ some s
      → lookup (upstream_name ing.namespace (some s)) b.upstreams ≡ some ups
      → with_upstream n anns host path (upstream_name ing.namespace (some s)) ups b ≡ some c
      → Adds path b c
  unfolding with_upstream with_path
  with_upstream-Adds path s ups b c named found h = elim (Bool-cases ups.no_server) [
    | inl serverless ↦ subst (Adds path b) (some_eq (rw serverless at h)) (
      λ k u e. (u, e, refl, λ l. l),
      λ p t e. e,
      λ t v e f g.
          let same : ups ≡ v = some_eq (
            sym found
            ∙ ap (λ (r : ServiceBackend). lookup (upstream_name ing.namespace (some r)) b.upstreams)
                (some_eq (sym named ∙ e))
            ∙ f) in
          let clash = sym serverless ∙ ap (λ (x : Backend). x.no_server) same ∙ g in cc,
    )
    | inr served ↦
        let (affinity, i, j) =
          some_of_bind
            (with_affinity anns.session_affinity path.path (host ∷ elems b.draft.server.aliases)
              ups.session_affinity)
            (λ affinity. _) c (else_of ups.no_server _ _ _ served h) in
        let (has_it, kept) = place_path-HasPath n anns ups path b.draft.locations in
        subst (Adds path b) (some_eq j) (
          put-KeepsUpstreams (upstream_name ing.namespace (some s)) ups
              (record ups { session_affinity = affinity }) b.upstreams found refl
              (with_affinity_keeps anns.session_affinity path.path
                (host ∷ elems b.draft.server.aliases) ups.session_affinity affinity i),
          kept,
          λ t v e f g. has_it,
        )
  ]

  pub add_path-Adds :
      (path : HttpIngressPath) (b c : Built)
      → add_path n ing anns host path b ≡ some c
      → Adds path b c
  unfolding add_path
  add_path-Adds path b c h = elim (Option-cases path.service) [
    | inl nothing ↦
        subst (Adds path b) (some_eq (rw (nothing, add_path) at h)) (
          λ k u e. (u, e, refl, λ l. l),
          λ p t e. e,
          λ s u e _ _. let clash = sym nothing ∙ e in cc,
        )
    | inr (s, named) ↦
        let (ups, i, j) =
          some_of_bind (lookup (upstream_name ing.namespace (some s)) b.upstreams) (λ ups. _) c
            (rw (named, add_path) at h) in
        with_upstream-Adds path s ups b c named i j
  ]

  -- what the paths do
  abbrev AddsAll : List HttpIngressPath → Built → Built → Type 0
  AddsAll paths b c =
      KeepsUpstreams b.upstreams c.upstreams
      × KeepsPaths b.draft.locations c.draft.locations
      × All (Placed ing.namespace b.upstreams c.draft.locations) paths

  pub add_paths-AddsAll :
      (paths : List HttpIngressPath) (b c : Built)
      → add_paths n ing anns host paths b ≡ some c
      → AddsAll paths b c
  unfolding add_paths
  add_paths-AddsAll [] b c h =
      subst (AddsAll [] b) (some_eq h) (λ k u e. (u, e, refl, λ l. l), λ p t e. e, tt)
  add_paths-AddsAll (p ∷ ps) b c h =
      let (m, i, j) =
        some_of_bind (add_path n ing anns host p b) (add_paths n ing anns host ps) c h in
      let (k, l, o) = add_path-Adds p b m i in
      let (q, r, a) = add_paths-AddsAll ps m c j in
      (
        λ key u e.
            let (v, f, g, l) = k key u e in
            let (w, x, y, m) = q key v f in (w, x, y ∙ g, λ held. m (l held)),
        λ path t e. r path t (l path t e),
        (
          λ s u e f g. r (nginx_path p) p.path_type (o s u e f g),
          All_map
              (λ path x s u e f g.
                let (v, y, z, _) = k (upstream_name ing.namespace (some s)) u f in
                x s v e y (z ∙ g))
              ps a,
        ),
      )

-- Every server stays, with a location for every path that had one.
pub record KeepsServers (u w : Drafts) : Type 0 where
  pub missing : (k : String) → lookup k u ≡ none → lookup k w ≡ none
  pub kept :
      (k : String) (d : Draft)
      → lookup k u ≡ some d
      → (e : Draft) × (lookup k w ≡ some e) × KeepsPaths d.locations e.locations

pub KeepsServers-refl : (u : Drafts) → KeepsServers u u
KeepsServers-refl u = record { missing = λ k h. h; kept = λ k d h. (d, h, λ p t e. e) }

pub KeepsServers-trans : (u v w : Drafts) → KeepsServers u v → KeepsServers v w → KeepsServers u w
KeepsServers-trans u v w a b = record {
  missing = λ k h. b.missing k (a.missing k h);
  kept = λ k d h.
      let (e, i, j) = a.kept k d h in
      let (f, x, y) = b.kept k e i in (f, x, λ p t z. y p t (j p t z));
}

pub put-KeepsServers :
    (key : String) (d e : Draft) (u : Drafts)
    → lookup key u ≡ some d
    → KeepsPaths d.locations e.locations
    → KeepsServers u (put key e u)
put-KeepsServers key d e u h k = record {
  missing = λ j i. elim (Bool-cases (key == j)) [
    | inr other ↦ rw (lookup-store key j e u, other) i
    | inl here ↦ let clash = sym h ∙ ap (λ x. lookup x u) ((==_iff key j).0 here) ∙ i in cc
  ];
  kept = λ j c i. elim (Bool-cases (key == j)) [
    | inr other ↦ (c, rw (lookup-store key j e u, other) i, λ p t z. z)
    | inl here ↦ (
      e,
      rw (lookup-store key j e u, here) refl,
      subst (λ (x : Draft). KeepsPaths x.locations e.locations)
          (some_eq (sym h ∙ ap (λ x. lookup x u) ((==_iff key j).0 here) ∙ i)) k,
    )
  ];
}

-- The server of a host stays the same one.
pub server_key_kept :
    (host : String) (u w : Drafts) → KeepsServers u w → server_key host w ≡ server_key host u
server_key_kept host u w k = elim (Option-cases (lookup host u)) [
  | inl missing ↦ rw (missing, k.missing host missing, server_key) refl
  | inr (d, found) ↦ let (e, i, _) = k.kept host d found in rw (found, i, server_key) refl
]
