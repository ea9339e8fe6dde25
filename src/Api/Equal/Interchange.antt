-- ===== src/Api/Equal/Interchange.antt =====
-- The `Equal` methods compare like an equality: values that they find equal compare alike with all
-- others, so that it does not matter which of them the controller keeps.
use panda_k8s.Api.Backends.{Backend}
use panda_k8s.Api.Configurations.{Configuration}
use panda_k8s.Api.Equal.Backends.{backend_equal, backend_equal-IsEquiv}
use panda_k8s.Api.Equal.Configurations.{
  IsWellFormed, configuration_equal, configuration_equal-Laws, same_configuration,
  same_configuration-Laws,
}
use panda_k8s.Api.Equal.Locations.{location_equal, location_equal-IsEquiv}
use panda_k8s.Api.Equal.Servers.{DistinctAliases, server_equal, server_equal-Laws}
use panda_k8s.Api.Heap.{Heap}
use panda_k8s.Api.Servers.{Location, Server}
use panda_k8s.Equality.{interchange}
use panda_k8s.Kube.{IntOrString}
use panda_k8s.Pointers.{Ptr, at, Pointee, pointees_equal-at}
use panda_k8s.Prelude.{ℕ, String, true, ◌≡◌}

module _ (heap : Heap) where
  -- If `Equal` finds two backends equal, it does so in both orders, and each compares with any third
  -- backend as the other does.
  pub backend_equal_interchange :
      (a b c : Ptr Backend)
      → backend_equal heap a b ≡ true
      → (backend_equal heap b a ≡ true) × (backend_equal heap a c ≡ backend_equal heap b c)
  backend_equal_interchange a b c h = interchange (backend_equal-IsEquiv heap) a b c tt tt h

  module _ (port_string : IntOrString → String) where
    -- The same of two locations, for any text of their ports.
    pub location_equal_interchange :
        (a b c : Ptr Location)
        → location_equal heap port_string a b ≡ true
        → (location_equal heap port_string b a ≡ true)
          × (location_equal heap port_string a c ≡ location_equal heap port_string b c)
    location_equal_interchange a b c h =
        interchange (location_equal-IsEquiv heap port_string) a b c tt tt h

    -- The same of two servers neither of which has an alias twice.
    pub server_equal_interchange :
        (a b c : Ptr Server)
        → Pointee heap.server DistinctAliases a
        → Pointee heap.server DistinctAliases b
        → server_equal heap port_string a b ≡ true
        → (server_equal heap port_string b a ≡ true)
          × (server_equal heap port_string a c ≡ server_equal heap port_string b c)
    server_equal_interchange a b c p q h =
        interchange (server_equal-Laws heap port_string) a b c p q h

    -- The same of two configurations in which no server has an alias twice and no passthrough backend
    -- is listed twice.
    pub configuration_equal_interchange :
        (a b c : Ptr Configuration)
        → Pointee heap.configuration (IsWellFormed heap) a
        → Pointee heap.configuration (IsWellFormed heap) b
        → configuration_equal heap port_string a b ≡ true
        → (configuration_equal heap port_string b a ≡ true)
          × (configuration_equal heap port_string a c ≡ configuration_equal heap port_string b c)
    configuration_equal_interchange a b c p q h =
        interchange (configuration_equal-Laws heap port_string) a b c p q h

    -- The comparison of the addresses is a shortcut and nothing else: for two configurations in
    -- memory `Equal` answers what the comparison of their fields answers.
    pub configuration_equal-at :
        (m n : ℕ)
        → configuration_equal heap port_string (at m) (at n)
          ≡ same_configuration heap port_string (heap.configuration m) (heap.configuration n)
    unfolding configuration_equal
    configuration_equal-at m n =
        pointees_equal-at heap.configuration (same_configuration-Laws heap port_string) m n
