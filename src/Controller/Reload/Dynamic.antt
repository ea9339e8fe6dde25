-- ===== src/Controller/Reload/Dynamic.antt =====
-- Changes that need no reload.
use panda_k8s.Api.Backends.{Backend, Endpoint, L4Service}
use panda_k8s.Api.Configurations.{Configuration}
use panda_k8s.Api.Equal.Configurations.{same_configuration, same_configuration-Laws}
use panda_k8s.Api.Equal.Servers.{server_equal, same_server, same_server-Laws}
use panda_k8s.Api.Heap.{Heap}
use panda_k8s.Api.Servers.{Server}
use panda_k8s.Controller.Reload.{
  points_nowhere, clear_certificate, copies, clear_certificates, clear_l4_service,
  clear_l4service_endpoints, is_dynamic_configuration_enough,
}
use panda_k8s.Equality.{same_order}
use panda_k8s.Kube.{Service, IntOrString}
use panda_k8s.Pointers.{Ptr, nil, at, pointees_equal-at}
use panda_k8s.Prelude.{
  ℕ, String, true, false, ◌≡◌, refl, sym, ap, ◌∙◌, List, [], ◌∷◌, some, any, map, arith,
}
use panda_k8s.Sets.Slices.{appended, Slice, made, elems}

elems-appended : {A : Type 0} (xs : List A) → elems (appended xs) ≡ xs
elems-appended [] = refl
elems-appended (x ∷ xs) = refl

-- the same pointer after its target has moved
abbrev pub move : {A : Type 0} → (ℕ → ℕ) → Ptr A → Ptr A
move f nil = nil
move f (at n) = at (f n)

abbrev pub change : (L4Service → Slice Endpoint) → (L4Service → Ptr Service) → L4Service → L4Service
change e p s = record s { endpoints = e s; service = p s }

clear-change :
    (e : L4Service → Slice Endpoint) (p : L4Service → Ptr Service) (xs : List L4Service)
    → map clear_l4_service (map (change e p) xs) ≡ map clear_l4_service xs
clear-change e p [] = refl
clear-change e p (x ∷ xs) = ap (◌∷◌ (clear_l4_service x)) (clear-change e p xs)

any-move :
    (f : ℕ → ℕ) (xs : List (Ptr Server))
    → any points_nowhere (map (move f) xs) ≡ any points_nowhere xs
any-move f [] = refl
any-move f (nil ∷ xs) = refl
any-move f (at n ∷ xs) = any-move f xs

module _ (heap : Heap) (port_string : IntOrString → String) (f : ℕ → ℕ)
    (h : (n : ℕ) → clear_certificate (heap.server n) ≡ clear_certificate (heap.server (f n))) where
  server_equal-move : (p : Ptr Server) → server_equal (copies heap) port_string p (move f p) ≡ true
  unfolding server_equal
  server_equal-move nil = refl
  server_equal-move (at n) =
      pointees_equal-at (copies heap).server (same_server-Laws (copies heap) port_string) n (f n)
      ∙ ap (same_server (copies heap) port_string (clear_certificate (heap.server n))) (sym (h n))
      ∙ (same_server-Laws (copies heap) port_string).reflexive (clear_certificate (heap.server n))

  same_order-move :
      (ps : List (Ptr Server))
      → same_order (server_equal (copies heap) port_string) ps (map (move f) ps) ≡ true
  same_order-move [] = refl
  same_order-move (p ∷ ps) = ground (arith, server_equal-move p, same_order-move ps)

  other_servers :
      (c : Configuration) (ss : Slice (Ptr Server)) (checksum : String)
      → same_order (server_equal (copies heap) port_string) (elems c.servers) (elems ss) ≡ true
      → same_configuration
          (copies heap)
          port_string
          c
          (record c { servers = ss; configuration_checksum = checksum })
        ≡ true
  unfolding same_configuration
  other_servers c ss checksum k =
      ground (arith, k, (same_configuration-Laws (copies heap) port_string).reflexive c)

  -- No reload is needed for a configuration that has other backends, other endpoints and Services
  -- of its stream services, another checksum, and servers that differ in their certificates at most,
  -- if none of its pointers to servers is nil.
  pub is_dynamic_configuration_enough-change :
      (c : Configuration) (bs : Slice (Ptr Backend)) (e : L4Service → Slice Endpoint)
      (p : L4Service → Ptr Service) (checksum : String)
      → any points_nowhere (elems c.servers) ≡ false
      → is_dynamic_configuration_enough heap port_string c (record c {
        backends = bs;
        tcp_endpoints = made (map (change e p) (elems c.tcp_endpoints));
        udp_endpoints = made (map (change e p) (elems c.udp_endpoints));
        servers = made (map (move f) (elems c.servers));
        configuration_checksum = checksum;
      })
        ≡ some true
  unfolding is_dynamic_configuration_enough clear_certificates clear_l4service_endpoints
      same_configuration
  is_dynamic_configuration_enough-change c bs e p checksum k = rw k (
      rw (any-move f (elems c.servers)) (
        rw k (
          ap some (
            rw (clear-change e p (elems c.tcp_endpoints)) (
              rw (clear-change e p (elems c.udp_endpoints)) (
                other_servers
                  (record c {
                    backends = made [];
                    servers = appended (elems c.servers);
                    tcp_endpoints = appended (map clear_l4_service (elems c.tcp_endpoints));
                    udp_endpoints = appended (map clear_l4_service (elems c.udp_endpoints));
                  })
                  (appended (map (move f) (elems c.servers))) checksum
                  (rw (elems-appended (elems c.servers)) (
                    rw (elems-appended (map (move f) (elems c.servers)))
                      (same_order-move (elems c.servers))))))))))
