-- ===== src/Controller/Sync.antt =====
-- internal/ingress/controller/controller.go and nginx.go: one run of `syncIngress`, from the
-- configuration that was built to the one that runs. The answers of nginx (to a reload, and to the
-- requests of each attempt to configure it dynamically) are the input, and the calls are the
-- output, as are the names whose metrics are removed. `reflect.DeepEqual` of backends, streams and
-- servers, and the hash of a configuration, are parameters. Other metrics, events and waiting times are
-- left out. `none` is a panic.
pub mod Converges
pub mod Calls
pub mod Metrics
use panda_k8s.Api.Configurations.{Configuration}
use panda_k8s.Api.Equal.Configurations.{same_configuration}
use panda_k8s.Api.Heap.{Heap}
use panda_k8s.Controller.Reload.{is_dynamic_configuration_enough}
use panda_k8s.Controller.Removed.{
  get_removed_hosts, get_removed_certificate_serial_numbers, get_removed_ingresses,
}
use panda_k8s.Externals.{Externals}
use panda_k8s.Kube.{IntOrString}
use panda_k8s.Prelude.{
  ℕ, zero, suc, ◌+◌, String, Bool, true, false, not, ◌||◌, ◌&&◌, List, [], ◌∷◌, ◌++◌, Option, none,
  some, ◌>>=◌, if◌then◌else◌,
}
use panda_k8s.StringSets.{StringSets}

pub data Call : Type 0 where
  reload backends streams certificates : Call

-- whether nginx accepts the requests of one attempt
pub record Answers : Type 0 where
  pub backends_ok : Bool
  pub streams_ok : Bool
  pub certificates_ok : Bool

pub record DeepEquals : Type 0 where
  pub same_backends : Configuration → Configuration → Bool
  pub same_streams : Configuration → Configuration → Bool
  pub same_servers : Configuration → Configuration → Bool

-- the calls that were made, and whether there was no error
pub record Outcome : Type 0 where
  pub calls : List Call
  pub is_ok : Bool

-- `if changed { err := call(); if err != nil { return err } }`, and then the rest
abbrev pub request : Bool → Call → Bool → Outcome → Outcome
request changed call accepted rest =
    if not changed
    then rest
    else if accepted
    then record { calls = call ∷ rest.calls; is_ok = rest.is_ok }
    else record { calls = call ∷ []; is_ok = false }

-- what `RemoveMetrics` is called with
pub record RemovedMetrics : Type 0 where
  pub ingresses : List String
  pub hosts : List String
  pub certificates : List String

-- the running configuration after a sync, and what it did
pub record Sync : Type 0 where
  pub running : Configuration
  pub outcome : Outcome
  pub removed : Option RemovedMetrics

module _ (deep : DeepEquals) where
  -- `configureDynamically`
  unfoldable pub configure_dynamically : Configuration → Configuration → Answers → Outcome
  configure_dynamically running pcfg a =
      request (not (deep.same_backends running pcfg)) Call.backends a.backends_ok (
        request (not (deep.same_streams running pcfg)) Call.streams a.streams_ok (
          request (not (deep.same_servers running pcfg)) Call.certificates a.certificates_ok
            (record { calls = []; is_ok = true })))

  -- `wait.ExponentialBackoff` with this many steps, from the attempt of this number on
  unfoldable pub retry_dynamically : ℕ → ℕ → Configuration → Configuration → (ℕ → Answers) → Outcome
  unfolding configure_dynamically
  retry_dynamically zero i running pcfg answers = record { calls = []; is_ok = false }
  retry_dynamically (suc steps) i running pcfg answers =
      let first = configure_dynamically running pcfg (answers i) in
      let rest = retry_dynamically steps (suc i) running pcfg answers in
      if first.is_ok
      then first
      else record { calls = first.calls ++ rest.calls; is_ok = rest.is_ok }

  module _ (heap : Heap) (port_string : IntOrString → String) (hash : Configuration → String) where
    -- from the decision on a reload to the end
    unfoldable pub apply_configuration :
        Bool → ℕ → Configuration → Configuration → Bool → (ℕ → Answers) → Sync
    unfolding retry_dynamically
    apply_configuration enough retries running pcfg reloaded answers =
        let target = if enough then pcfg else record pcfg { configuration_checksum = hash pcfg } in
        let dynamic = retry_dynamically (1 + retries) 0 running target answers in
        let before = if enough then [] else Call.reload ∷ [] in
        if not enough && not reloaded
        then record {
          running = running;
          outcome = record { calls = before; is_ok = false };
          removed = none;
        }
        else record {
          running = if dynamic.is_ok then target else running;
          outcome = record { calls = before ++ dynamic.calls; is_ok = dynamic.is_ok };
          removed = none;
        }

    module _ (ext : Externals) (sets : StringSets) where
      -- the arguments of `RemoveMetrics`
      unfoldable pub removed_metrics : Configuration → Configuration → Option RemovedMetrics
      unfolding get_removed_ingresses get_removed_hosts get_removed_certificate_serial_numbers
      removed_metrics running pcfg = do
        ri ← get_removed_ingresses ext heap sets running pcfg
        re ← get_removed_hosts ext heap sets running pcfg
        rc ← get_removed_certificate_serial_numbers ext heap sets running pcfg
        some (record { ingresses = ri; hosts = re; certificates = rc })

      -- before the configuration is replaced
      unfoldable pub remove_metrics : Configuration → Configuration → Sync → Option Sync
      unfolding removed_metrics
      remove_metrics running pcfg s =
          if not s.outcome.is_ok
          then some s
          else do metrics ← removed_metrics running pcfg; some (record s { removed = some metrics })

      -- `syncIngress`, once the configuration is built
      unfoldable pub sync_ingress :
          Bool → ℕ → Configuration → Configuration → Bool → (ℕ → Answers) → Option Sync
      unfolding apply_configuration remove_metrics
      sync_ingress shutting_down retries running pcfg reloaded answers =
          if shutting_down || same_configuration heap port_string running pcfg
          then some (record {
            running = running;
            outcome = record { calls = []; is_ok = true };
            removed = none;
          })
          else do
            enough ← is_dynamic_configuration_enough heap port_string running pcfg
            remove_metrics running pcfg
                (apply_configuration enough retries running pcfg reloaded answers)
