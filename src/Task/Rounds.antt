-- ===== src/Task/Rounds.antt =====
-- What becomes of the elements that the worker takes from the queue.
use panda_k8s.Prelude.{◌≡◌, refl, ap, inl, inr, List, [], ◌∷◌, map, true, false, Bool-cases}
use panda_k8s.Task.{Element, Call, Queue, Round, is_stale, retry_of, worker_round, worker}

module _ {Key : Type 0} where
  -- the elements of the calls of `Done`
  unfoldable pub finished : List (Call Key) → List (Element Key)
  finished [] = []
  finished (Call.done e ∷ cs) = e ∷ finished cs
  finished (Call.sync e t f ∷ cs) = finished cs
  finished (Call.forget e ∷ cs) = finished cs
  finished (Call.add_rate_limited e ∷ cs) = finished cs
  finished (Call.close_worker_done ∷ cs) = finished cs

  -- the elements that go back to the queue
  unfoldable pub retried : List (Call Key) → List (Element Key)
  retried [] = []
  retried (Call.add_rate_limited e ∷ cs) = e ∷ retried cs
  retried (Call.sync e t f ∷ cs) = retried cs
  retried (Call.forget e ∷ cs) = retried cs
  retried (Call.done e ∷ cs) = retried cs
  retried (Call.close_worker_done ∷ cs) = retried cs

  -- the elements whose sync failed, as they have to come back
  unfoldable pub failed : List (Call Key) → List (Element Key)
  failed [] = []
  failed (Call.sync e t true ∷ cs) =
      record { key = e.key; timestamp = 0; is_skippable = false } ∷ failed cs
  failed (Call.sync e t false ∷ cs) = failed cs
  failed (Call.add_rate_limited e ∷ cs) = failed cs
  failed (Call.forget e ∷ cs) = failed cs
  failed (Call.done e ∷ cs) = failed cs
  failed (Call.close_worker_done ∷ cs) = failed cs

  -- Every element that the worker takes is reported as done, once and in order, whether it is
  -- skipped, synced, or synced with an error.
  pub finished-worker :
      (rs : List (Round Key)) (q : Queue Key) → finished (worker rs q).calls ≡ map (λ r. r.item) rs
  unfolding worker worker_round finished
  finished-worker [] q = elim (Bool-cases q.is_worker_done) [
    | inl closed ↦ rw closed refl
    | inr running ↦ rw running refl
  ]
  finished-worker (r ∷ rs) q = elim (Bool-cases (is_stale q r.item)) [
    | inl stale ↦ rw stale (ap (◌∷◌ r.item) (finished-worker rs q))
    | inr fresh ↦ rw fresh (elim (Bool-cases r.fails) [
      | inl wrong ↦ rw wrong (ap (◌∷◌ r.item) (finished-worker rs q))
      | inr well ↦ rw well (ap (◌∷◌ r.item) (finished-worker rs (record q { last_sync = r.now })))
    ])
  ]

  -- The elements that go back to the queue are those whose sync failed, in order, each with the key
  -- alone: the timestamp is 0 and the element is not skippable; no other goes back.
  pub retried-worker :
      (rs : List (Round Key)) (q : Queue Key)
      → retried (worker rs q).calls ≡ failed (worker rs q).calls
  unfolding worker worker_round retried failed
  retried-worker [] q = elim (Bool-cases q.is_worker_done) [
    | inl closed ↦ rw closed refl
    | inr running ↦ rw running refl
  ]
  retried-worker (r ∷ rs) q = elim (Bool-cases (is_stale q r.item)) [
    | inl stale ↦ rw stale (retried-worker rs q)
    | inr fresh ↦ rw fresh (elim (Bool-cases r.fails) [
      | inl wrong ↦ rw wrong (ap (◌∷◌ (retry_of r.item)) (retried-worker rs q))
      | inr well ↦ rw well (retried-worker rs (record q { last_sync = r.now }))
    ])
  ]
