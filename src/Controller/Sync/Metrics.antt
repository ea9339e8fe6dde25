-- ===== src/Controller/Sync/Metrics.antt =====
-- Which metrics `syncIngress` removes.
use panda_k8s.Api.Configurations.{Configuration}
use panda_k8s.Api.Heap.{Heap}
use panda_k8s.Controller.Reload.{is_dynamic_configuration_enough}
use panda_k8s.Api.Equal.Configurations.{same_configuration}
use panda_k8s.Controller.Removed.{
  get_removed_hosts, get_removed_certificate_serial_numbers, get_removed_ingresses,
}
use panda_k8s.Controller.Removed.Exact.{
  AreRemoved, has_hostname, has_identifier, has_ingress_of, get_removed-AreRemoved,
}
use panda_k8s.Controller.Sync.{
  DeepEquals, Answers, Sync, Outcome, RemovedMetrics, apply_configuration, removed_metrics,
  remove_metrics, sync_ingress,
}
use panda_k8s.Externals.{Externals}
use panda_k8s.Kube.{IntOrString}
use panda_k8s.Prelude.{
  ℕ, String, Bool, true, false, ◌≡◌, not, ◌∙◌, ◌>>=◌, if◌then◌else◌, sym, subst, ap, inl, inr, some,
  some_eq, some_of_bind, Bool-cases,
}
use panda_k8s.StringSets.{StringSets}

module _ (deep : DeepEquals) (heap : Heap) (port_string : IntOrString → String)
    (hash : Configuration → String) (ext : Externals) (sets : StringSets) where
  -- what a sync that is well gets
  remove_metrics-some :
      (running pcfg : Configuration) (s t : Sync)
      → remove_metrics deep heap port_string hash ext sets running pcfg s ≡ some t
      → s.outcome.is_ok ≡ true
      → (metrics : RemovedMetrics) × (removed_metrics deep heap port_string hash ext sets running
            pcfg
          ≡ some metrics)
        × (record s { removed = some metrics } ≡ t)
  unfolding remove_metrics
  remove_metrics-some running pcfg s t h succeeded =
      let (metrics, i, j) =
        some_of_bind (removed_metrics deep heap port_string hash ext sets running pcfg)
          (λ metrics. some (record s { removed = some metrics })) t
          (subst
            (λ b.
              (if not b
                then some s
                else removed_metrics deep heap port_string hash ext sets running pcfg
                  >>= (λ metrics. some (record s { removed = some metrics })))
              ≡ some t)
            succeeded h) in
      (metrics, i, some_eq j)

  -- Removing metrics changes nothing else.
  pub remove_metrics_same :
      (running pcfg : Configuration) (s t : Sync)
      → remove_metrics deep heap port_string hash ext sets running pcfg s ≡ some t
      → (t.running ≡ s.running) × (t.outcome ≡ s.outcome)
  unfolding remove_metrics
  remove_metrics_same running pcfg s t h = elim (Bool-cases s.outcome.is_ok) [
    | inr failed ↦
        let same : s ≡ t = some_eq (
          subst
            (λ b.
              (if not b
                then some s
                else removed_metrics deep heap port_string hash ext sets running pcfg
                  >>= (λ metrics. some (record s { removed = some metrics })))
              ≡ some t)
            failed h) in
        (ap (λ (x : Sync). x.running) (sym same), ap (λ (x : Sync). x.outcome) (sym same))
    | inl succeeded ↦
        let (metrics, _, same) = remove_metrics-some running pcfg s t h succeeded in
        (ap (λ (x : Sync). x.running) (sym same), ap (λ (x : Sync). x.outcome) (sym same))
  ]

  -- The metrics are exactly those of what the first configuration has and the second has not.
  abbrev pub AreRemovedMetrics : Configuration → Configuration → RemovedMetrics → Type 0
  AreRemovedMetrics running pcfg metrics =
      AreRemoved ext heap sets (has_hostname ext heap sets) running pcfg metrics.hosts
      × AreRemoved ext heap sets (has_identifier ext heap sets) running pcfg metrics.certificates
      × AreRemoved ext heap sets (has_ingress_of ext heap sets) running pcfg metrics.ingresses

  removed_metrics-AreRemoved :
      (running pcfg : Configuration) (metrics : RemovedMetrics)
      → removed_metrics deep heap port_string hash ext sets running pcfg ≡ some metrics
      → AreRemovedMetrics running pcfg metrics
  unfolding removed_metrics
  removed_metrics-AreRemoved running pcfg metrics h =
      let (ri, i, j) =
        some_of_bind (get_removed_ingresses ext heap sets running pcfg) (λ ri. _) metrics h in
      let (re, k, l) =
        some_of_bind (get_removed_hosts ext heap sets running pcfg) (λ re. _) metrics j in
      let (rc, m, n) =
        some_of_bind (get_removed_certificate_serial_numbers ext heap sets running pcfg) (λ rc. _)
          metrics l in
      subst (AreRemovedMetrics running pcfg) (some_eq n)
        (get_removed-AreRemoved ext heap sets running pcfg re rc ri k m i)

  -- If syncIngress ends without an error, the controller is not shutting down and the built
  -- configuration is not equal to the running one, metrics are removed: exactly those of the hosts of
  -- the servers, of the identifiers of their certificates and of the keys of the Ingresses of their
  -- locations that the running configuration has and the built one has not, each of them once.
  pub sync_ingress-AreRemoved :
      (retries : ℕ) (running pcfg : Configuration) (reloaded : Bool) (answers : ℕ → Answers)
      (s : Sync)
      → sync_ingress deep heap port_string hash ext sets false retries running pcfg reloaded answers
        ≡ some s
      → s.outcome.is_ok ≡ true
      → same_configuration heap port_string running pcfg ≡ false
      → (metrics : RemovedMetrics) × (s.removed ≡ some metrics)
        × AreRemovedMetrics running pcfg metrics
  unfolding sync_ingress
  sync_ingress-AreRemoved retries running pcfg reloaded answers s h ok other =
      let (enough, _, i) =
        some_of_bind (is_dynamic_configuration_enough heap port_string running pcfg) (λ enough. _) s
          (rw (other, sync_ingress) at h) in
      let t =
        apply_configuration deep heap port_string hash enough retries running pcfg reloaded
          answers in
      let (_, outcome) = remove_metrics_same running pcfg t s i in
      let (metrics, j, same) =
        remove_metrics-some running pcfg t s i (ap (λ (o : Outcome). o.is_ok) (sym outcome) ∙ ok) in
      (
        metrics,
        ap (λ (x : Sync). x.removed) (sym same),
        removed_metrics-AreRemoved running pcfg metrics j,
      )
