-- ===== src/Controller/Sync/Calls.antt =====
-- What `syncIngress` asks of nginx.
use panda_k8s.Api.Configurations.{Configuration}
use panda_k8s.Api.Equal.Configurations.{same_configuration}
use panda_k8s.Api.Heap.{Heap}
use panda_k8s.Controller.Reload.{is_dynamic_configuration_enough}
use panda_k8s.Controller.Sync.{
  Call, DeepEquals, Answers, Outcome, Sync, configure_dynamically, retry_dynamically,
  apply_configuration, sync_ingress,
}
use panda_k8s.Controller.Sync.Metrics.{remove_metrics_same}
use panda_k8s.Externals.{Externals}
use panda_k8s.StringSets.{StringSets}
use panda_k8s.Kube.{IntOrString}
use panda_k8s.Prelude.{
  ℕ, zero, suc, ◌+◌, ◌<◌, String, Bool, true, false, not, ◌&&◌, ◌≡◌, ◌∙◌, ap, refl, inl, inr, some,
  some_eq, any, any-append, Bool-cases, arith,
}

abbrev pub is_reload : Call → Bool
is_reload Call.reload = true
is_reload _ = false

module _ (deep : DeepEquals) where
  configure_dynamically-calls :
      (running pcfg : Configuration) (a : Answers)
      → any is_reload (configure_dynamically deep running pcfg a).calls ≡ false
  unfolding configure_dynamically
  configure_dynamically-calls running pcfg a = ground arith

  retry_dynamically-calls :
      (steps i : ℕ) (running pcfg : Configuration) (answers : ℕ → Answers)
      → any is_reload (retry_dynamically deep steps i running pcfg answers).calls ≡ false
  unfolding retry_dynamically
  retry_dynamically-calls zero i running pcfg answers = refl
  retry_dynamically-calls (suc steps) i running pcfg answers =
      let first = configure_dynamically deep running pcfg (answers i) in
      let rest = retry_dynamically deep steps (suc i) running pcfg answers in
      let c = configure_dynamically-calls running pcfg (answers i) in
      elim (Bool-cases first.is_ok) [
        | inl well ↦ rw well c
        | inr wrong ↦ rw wrong (
            ground (
              arith,
              any-append is_reload first.calls rest.calls,
              c,
              retry_dynamically-calls steps (suc i) running pcfg answers,
            ))
      ]

  -- The dynamic configuration succeeds as soon as one of the attempts does.
  pub retry_dynamically_succeeds :
      (steps i k : ℕ) (running pcfg : Configuration) (answers : ℕ → Answers)
      → k < steps
      → (configure_dynamically deep running pcfg (answers (i + k))).is_ok ≡ true
      → (retry_dynamically deep steps i running pcfg answers).is_ok ≡ true
  unfolding retry_dynamically
  retry_dynamically_succeeds zero i k running pcfg answers h ok = absurd (omega arith)
  retry_dynamically_succeeds (suc steps) i zero running pcfg answers h ok =
      let e : (i + 0) ≡ i = omega arith in rw (rw e at ok) (rw e at ok)
  retry_dynamically_succeeds (suc steps) i (suc k) running pcfg answers h ok =
      let e : (i + suc k) ≡ (suc i + k) = omega arith in
      let rest =
        retry_dynamically_succeeds steps (suc i) k running pcfg answers (omega arith)
          (rw e at ok) in
      elim (Bool-cases (configure_dynamically deep running pcfg (answers i)).is_ok) [
        | inl well ↦ rw well well
        | inr wrong ↦ rw wrong rest
      ]

  module _ (heap : Heap) (port_string : IntOrString → String) (hash : Configuration → String) where
    apply_configuration-calls :
        (enough : Bool) (retries : ℕ) (running pcfg : Configuration) (reloaded : Bool)
        (answers : ℕ → Answers)
        → any is_reload
            (apply_configuration deep heap port_string hash enough retries running pcfg reloaded
              answers).outcome.calls
          ≡ not enough
    unfolding apply_configuration
    apply_configuration-calls true retries running pcfg reloaded answers =
        retry_dynamically-calls (1 + retries) 0 running pcfg answers
    apply_configuration-calls false retries running pcfg true answers = refl
    apply_configuration-calls false retries running pcfg false answers = refl

    -- If the controller is not shutting down, `syncIngress` reloads nginx exactly if the built
    -- configuration is not equal to the running one and a dynamic configuration is not enough.
    pub sync_ingress_reloads :
        (ext : Externals) (sets : StringSets) (retries : ℕ) (running pcfg : Configuration)
        (reloaded : Bool) (answers : ℕ → Answers) (enough : Bool) (s : Sync)
        → is_dynamic_configuration_enough heap port_string running pcfg ≡ some enough
        → sync_ingress deep heap port_string hash ext sets false retries running pcfg reloaded
            answers
          ≡ some s
        → any is_reload s.outcome.calls
          ≡ (not (same_configuration heap port_string running pcfg) && not enough)
    unfolding sync_ingress
    sync_ingress_reloads ext sets retries running pcfg reloaded answers enough s d h =
        elim (Bool-cases (same_configuration heap port_string running pcfg)) [
          | inl same ↦ rw (← some_eq (rw (same, sync_ingress) at h)) (rw same refl)
          | inr other ↦
              let t =
                apply_configuration deep heap port_string hash enough retries running pcfg reloaded
                  answers in
              let (_, outcome) =
                remove_metrics_same deep heap port_string hash ext sets running pcfg t s
                  (rw (other, d, sync_ingress) at h) in
              rw other (
                ap (λ (o : Outcome). any is_reload o.calls) outcome
                ∙ apply_configuration-calls enough retries running pcfg reloaded answers)
        ]
