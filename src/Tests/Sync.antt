-- ===== src/Tests/Sync.antt =====
-- `syncIngress` with a configuration that needs a reload, and with one that does not.
use panda_k8s.Api.Configurations.{Configuration}
use panda_k8s.Api.Equal.Backends.{compare_backends, compare_l4_service}
use panda_k8s.Api.Equal.Configurations.{same_configuration}
use panda_k8s.Api.Equal.Servers.{ssl_cert_equal}
use panda_k8s.Controller.Reload.{is_dynamic_configuration_enough}
use panda_k8s.Controller.Reload.Dynamic.{is_dynamic_configuration_enough-change}
use panda_k8s.Controller.Sync.Metrics.{AreRemovedMetrics, sync_ingress-AreRemoved}
use panda_k8s.Controller.Sync.{
  Call, DeepEquals, Answers, RemovedMetrics, Sync, configure_dynamically, sync_ingress,
}
use panda_k8s.Controller.Sync.Calls.{is_reload, sync_ingress_reloads}
use panda_k8s.Controller.Sync.Converges.{sync_ingress-converges, sync_ingress-failed}
use panda_k8s.Kube.{IntOrString}
use panda_k8s.Pointers.{at}
use panda_k8s.Prelude.{
  ℕ, String, true, false, not, ◌&&◌, ◌≡◌, refl, [], ◌∷◌, none, some, any, nat_eq,
}
use panda_k8s.StringSets.{list_sets}
use panda_k8s.Tests.Endpoints.{two_addresses}
use panda_k8s.Sets.{compare, claim_all}
use panda_k8s.Sets.Slices.{made, len}
use panda_k8s.Api.Zero.{no_configuration, no_heap}

abbrev by_list_length : DeepEquals
by_list_length = record {
  same_backends = λ a b. nat_eq (len a.backends) (len b.backends);
  same_streams = λ a b. nat_eq (len a.tcp_endpoints) (len b.tcp_endpoints);
  same_servers = λ a b. nat_eq (len a.servers) (len b.servers);
}

abbrev text_of_port : IntOrString → String
text_of_port p = p.str_val

abbrev one_hash : Configuration → String
one_hash c = "hash"

-- nginx is not ready at the first attempt
abbrev answers : ℕ → Answers
answers i = record { backends_ok = not (nat_eq i 0); streams_ok = true; certificates_ok = true }

abbrev more_backends : Configuration
more_backends = record no_configuration { backends = made (at 1 ∷ []) }

abbrev other_checksum : Configuration
other_checksum = record more_backends { backend_config_checksum = "1" }

backends_enough :
    is_dynamic_configuration_enough no_heap text_of_port no_configuration more_backends ≡ some true
unfolding is_dynamic_configuration_enough same_configuration ssl_cert_equal compare_backends
    compare_l4_service compare claim_all
backends_enough = refl

checksum_not_enough :
    is_dynamic_configuration_enough no_heap text_of_port no_configuration other_checksum
    ≡ some false
unfolding is_dynamic_configuration_enough same_configuration ssl_cert_equal compare_backends
    compare_l4_service compare claim_all
checksum_not_enough = refl

abbrev synced : Sync
synced = record {
  running = record other_checksum { configuration_checksum = "hash" };
  outcome = record { calls = Call.reload ∷ Call.backends ∷ Call.backends ∷ []; is_ok = true };
  removed = some (record { ingresses = []; hosts = []; certificates = [] });
}

-- a reload, a failed attempt to send the backends, and a good one
sync_run :
    sync_ingress by_list_length no_heap text_of_port one_hash two_addresses list_sets false 2
      no_configuration other_checksum true answers
    ≡ some synced
unfolding sync_ingress is_dynamic_configuration_enough same_configuration ssl_cert_equal
    compare_backends compare_l4_service compare claim_all
sync_run = refl

abbrev not_reloaded : Sync
not_reloaded = record {
  running = no_configuration;
  outcome = record { calls = Call.reload ∷ []; is_ok = false };
  removed = none;
}

failed_run :
    sync_ingress by_list_length no_heap text_of_port one_hash two_addresses list_sets false 2
      no_configuration other_checksum false answers
    ≡ some not_reloaded
unfolding sync_ingress is_dynamic_configuration_enough same_configuration ssl_cert_equal
    compare_backends compare_l4_service compare claim_all
failed_run = refl

sync_ingress-converges_example :
    same_configuration no_heap text_of_port synced.running other_checksum ≡ true
sync_ingress-converges_example =
    sync_ingress-converges by_list_length no_heap text_of_port one_hash two_addresses list_sets 2
      no_configuration other_checksum true answers synced sync_run refl

sync_ingress-failed_example : not_reloaded.running ≡ no_configuration
sync_ingress-failed_example =
    sync_ingress-failed by_list_length no_heap text_of_port one_hash two_addresses list_sets 2
      no_configuration other_checksum false answers not_reloaded false failed_run refl

sync_ingress_reloads_example :
    any is_reload synced.outcome.calls
    ≡ (not (same_configuration no_heap text_of_port no_configuration other_checksum) && not false)
sync_ingress_reloads_example =
    sync_ingress_reloads by_list_length no_heap text_of_port one_hash two_addresses list_sets 2
      no_configuration other_checksum true answers false synced checksum_not_enough sync_run

sync_ingress-AreRemoved_example :
    (metrics : RemovedMetrics) × (synced.removed ≡ some metrics)
    × AreRemovedMetrics by_list_length no_heap text_of_port one_hash two_addresses list_sets
        no_configuration other_checksum metrics
unfolding same_configuration ssl_cert_equal compare_backends compare_l4_service compare claim_all
sync_ingress-AreRemoved_example =
    sync_ingress-AreRemoved by_list_length no_heap text_of_port one_hash two_addresses list_sets 2
      no_configuration other_checksum true answers synced sync_run refl refl

second_succeeds :
    (configure_dynamically by_list_length no_configuration more_backends (answers 1)).is_ok ≡ true
unfolding configure_dynamically
second_succeeds = refl

is_dynamic_configuration_enough-change_example :
    is_dynamic_configuration_enough no_heap text_of_port
      (record no_configuration { servers = made (at 1 ∷ []) })
      (record no_configuration {
        backends = made (at 1 ∷ []);
        tcp_endpoints = made [];
        udp_endpoints = made [];
        servers = made (at 7 ∷ []);
        configuration_checksum = "2";
      })
    ≡ some true
is_dynamic_configuration_enough-change_example =
    is_dynamic_configuration_enough-change no_heap text_of_port (λ n. 7) (λ n. refl)
      (record no_configuration { servers = made (at 1 ∷ []) }) (made (at 1 ∷ [])) (λ s. s.endpoints)
      (λ s. s.service) "2" refl
