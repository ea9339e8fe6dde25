-- ===== src/Task/Skips.antt =====
-- Which elements the worker skips: only those that a later sync has covered.
use panda_k8s.Prelude.{
  ℕ, ◌+◌, ◌≤◌, ◌<◌, Bool, true, false, ◌≡◌, refl, ap, inl, inr, ◌⊎◌, List, [], ◌∷◌, In, All, Option,
  some, some_eq, arith, Bool-cases, Option-cases,
}
use panda_k8s.Task.{Element, Call, Queue, Round, day, enqueue, is_stale, worker_round, worker}

module _ {Key : Type 0} where
  -- The worker has synced an element without an error, starting at this time.
  abbrev pub SyncedAt : List (Call Key) → ℕ → Type 0
  SyncedAt cs t = (e : Element Key) × In (Call.sync e t false) cs

  worker-last_sync :
      (rs : List (Round Key)) (q : Queue Key)
      → ((worker rs q).queue.last_sync ≡ q.last_sync)
        ⊎ SyncedAt (worker rs q).calls (worker rs q).queue.last_sync
  unfolding worker worker_round
  worker-last_sync [] q = inl refl
  worker-last_sync (r ∷ rs) q = elim (Bool-cases (is_stale q r.item)) [
    | inl stale ↦
        rw stale
          (elim (worker-last_sync rs q) [ inl same ↦ inl same | inr (e, m) ↦ inr (e, inr (inr m)) ])
    | inr fresh ↦ rw fresh (elim (Bool-cases r.fails) [
      | inl wrong ↦ rw wrong (elim (worker-last_sync rs q) [
        | inl same ↦ inl same
        | inr (e, m) ↦ inr (e, inr (inr (inr m)))
      ])
      | inr well ↦ rw well (elim (worker-last_sync rs (record q { last_sync = r.now })) [
        | inl same ↦ inr (r.item, inl (ap (λ (t : ℕ). Call.sync r.item t false) same))
        | inr (e, m) ↦ inr (e, inr (inr (inr m)))
      ])
    ])
  ]

  -- An element that is skipped after some rounds has been covered: a sync that started after its
  -- timestamp has ended without an error, in these rounds or before them.
  pub worker-covers :
      (rs : List (Round Key)) (q : Queue Key) (item : Element Key)
      → is_stale (worker rs q).queue item ≡ true
      → (item.timestamp < q.last_sync)
        ⊎ ((t : ℕ) × (item.timestamp < t) × SyncedAt (worker rs q).calls t)
  unfolding is_stale
  worker-covers rs q item h = elim (worker-last_sync rs q) [
    | inl same ↦ inl (ground (arith, same))
    | inr synced ↦ inr ((worker rs q).queue.last_sync, ground arith, synced)
  ]

  worker-bound :
      (rs : List (Round Key)) (q : Queue Key) (limit : ℕ)
      → q.last_sync ≤ limit
      → All (λ r. r.now ≤ limit) rs
      → (worker rs q).queue.last_sync ≤ limit
  unfolding worker worker_round
  worker-bound [] q limit h a = h
  worker-bound (r ∷ rs) q limit h a = elim (Bool-cases (is_stale q r.item)) [
    | inl stale ↦ rw stale (worker-bound rs q limit h a.1)
    | inr fresh ↦ rw fresh (elim (Bool-cases r.fails) [
      | inl wrong ↦ rw wrong (worker-bound rs q limit h a.1)
      | inr well ↦ rw well (worker-bound rs (record q { last_sync = r.now }) limit a.0 a.1)
    ])
  ]

  -- An element that `EnqueueTask` has added is not skipped after rounds that started within 24 hours
  -- of its time, or before it, if the last sync before them did so too.
  pub worker-keeps :
      {Obj : Type 0} (fn : Obj → Option Key) (shutting_down : Bool) (now later : ℕ) (obj : Obj)
      (item : Element Key) (rs : List (Round Key)) (q : Queue Key)
      → enqueue fn shutting_down now later obj false ≡ some item
      → q.last_sync ≤ later + day
      → All (λ r. r.now ≤ later + day) rs
      → is_stale (worker rs q).queue item ≡ false
  unfolding enqueue is_stale
  worker-keeps fn shutting_down now later obj item rs q h b a =
      let bound = worker-bound rs q (later + day) b a in
      elim (Option-cases (fn obj)) [
        | inl unnamed ↦ absurd (ground arith)
        | inr (key, named) ↦ elim (Bool-cases shutting_down) [
          | inl closing ↦ absurd (ground arith)
          | inr running ↦
              let e : (later + day) ≡ item.timestamp =
                ap (λ (i : Element Key). i.timestamp)
                  (some_eq (rw (running, named, enqueue) at h)) in
              ground (arith, bound, e)
        ]
      ]
