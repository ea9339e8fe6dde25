-- ===== src/Controller/Sync/Converges.antt =====
-- Which configuration runs after `syncIngress`.
use panda_k8s.Api.Configurations.{Configuration}
use panda_k8s.Api.Equal.Configurations.{same_configuration, same_configuration-Laws}
use panda_k8s.Api.Heap.{Heap}
use panda_k8s.Controller.Reload.{is_dynamic_configuration_enough}
use panda_k8s.Controller.Sync.Metrics.{remove_metrics_same}
use panda_k8s.Externals.{Externals}
use panda_k8s.StringSets.{StringSets}
use panda_k8s.Controller.Sync.{
  DeepEquals, Answers, Outcome, Sync, apply_configuration, sync_ingress,
}
use panda_k8s.Kube.{IntOrString}
use panda_k8s.Prelude.{
  ℕ, String, Bool, true, false, ◌||◌, ◌≡◌, ◌∙◌, refl, sym, subst, ap, inl, inr, some, some_eq,
  some_of_bind, Bool-cases,
}

module _ (deep : DeepEquals) (heap : Heap) (port_string : IntOrString → String)
    (hash : Configuration → String) where
  checksum_unseen :
      (c : Configuration) (h : String)
      → same_configuration heap port_string (record c { configuration_checksum = h }) c ≡ true
  unfolding same_configuration
  checksum_unseen c h = (same_configuration-Laws heap port_string).reflexive c

  apply_configuration-converges :
      (enough : Bool) (retries : ℕ) (running pcfg : Configuration) (reloaded : Bool)
      (answers : ℕ → Answers)
      → (apply_configuration deep heap port_string hash enough retries running pcfg reloaded
          answers).outcome.is_ok
        ≡ true
      → same_configuration heap port_string
          (apply_configuration deep heap port_string hash enough retries running pcfg reloaded
            answers).running
          pcfg
        ≡ true
  unfolding apply_configuration
  apply_configuration-converges true retries running pcfg reloaded answers h =
      rw h ((same_configuration-Laws heap port_string).reflexive pcfg)
  apply_configuration-converges false retries running pcfg true answers h =
      rw h (checksum_unseen pcfg (hash pcfg))
  apply_configuration-converges false retries running pcfg false answers h = cc

  apply_configuration-failed :
      (enough : Bool) (retries : ℕ) (running pcfg : Configuration) (reloaded : Bool)
      (answers : ℕ → Answers)
      → (apply_configuration deep heap port_string hash enough retries running pcfg reloaded
          answers).outcome.is_ok
        ≡ false
      → (apply_configuration deep heap port_string hash enough retries running pcfg reloaded
          answers).running
        ≡ running
  unfolding apply_configuration
  apply_configuration-failed true retries running pcfg reloaded answers h = rw h refl
  apply_configuration-failed false retries running pcfg true answers h = rw h refl
  apply_configuration-failed false retries running pcfg false answers h = refl

  module _ (ext : Externals) (sets : StringSets) (retries : ℕ) (running pcfg : Configuration)
      (reloaded : Bool) (answers : ℕ → Answers) (s : Sync) where
    -- If `syncIngress` ends without an error, and the controller is not shutting down, `Equal` finds
    -- the configuration that runs then equal to the one that was built.
    pub sync_ingress-converges :
        sync_ingress deep heap port_string hash ext sets false retries running pcfg reloaded answers
          ≡ some s
        → s.outcome.is_ok ≡ true
        → same_configuration heap port_string s.running pcfg ≡ true
    unfolding sync_ingress
    sync_ingress-converges h k =
        elim (Bool-cases (same_configuration heap port_string running pcfg)) [
          | inl same ↦ rw (← some_eq (rw (same, sync_ingress) at h)) same
          | inr other ↦
              let (enough, i, e) =
                some_of_bind (is_dynamic_configuration_enough heap port_string running pcfg)
                  (λ enough. _) s (rw (other, sync_ingress) at h) in
              let t =
                apply_configuration deep heap port_string hash enough retries running pcfg reloaded
                  answers in
              let (same, outcome) =
                remove_metrics_same deep heap port_string hash ext sets running pcfg t s e in
              subst (λ c. same_configuration heap port_string c pcfg ≡ true) (sym same)
                (apply_configuration-converges enough retries running pcfg reloaded answers
                  (ap (λ (o : Outcome). o.is_ok) (sym outcome) ∙ k))
        ]

    -- If `syncIngress` ends with an error, the running configuration stays what it was, so that the
    -- next sync compares with it again.
    pub sync_ingress-failed :
        (shutting_down : Bool)
        → sync_ingress deep heap port_string hash ext sets shutting_down retries running pcfg
            reloaded answers
          ≡ some s
        → s.outcome.is_ok ≡ false
        → s.running ≡ running
    unfolding sync_ingress
    sync_ingress-failed shutting_down h k =
        elim (Bool-cases (shutting_down || same_configuration heap port_string running pcfg)) [
          | inl same ↦ rw (← some_eq (rw (same, sync_ingress) at h)) refl
          | inr other ↦
              let (enough, i, e) =
                some_of_bind (is_dynamic_configuration_enough heap port_string running pcfg)
                  (λ enough. _) s (rw (other, sync_ingress) at h) in
              let t =
                apply_configuration deep heap port_string hash enough retries running pcfg reloaded
                  answers in
              let (same, outcome) =
                remove_metrics_same deep heap port_string hash ext sets running pcfg t s e in
              same
              ∙ apply_configuration-failed enough retries running pcfg reloaded answers
                  (ap (λ (o : Outcome). o.is_ok) (sym outcome) ∙ k)
        ]
