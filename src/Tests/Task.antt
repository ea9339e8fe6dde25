-- ===== src/Tests/Task.antt =====
-- The worker on three elements: a failed sync, a good one, and one that is skipped.
use panda_k8s.Prelude.{
  ℕ, String, true, false, ◌≡◌, ◌<◌, ◌⊎◌, refl, List, [], ◌∷◌, map, Option, some, none, arith,
}
use panda_k8s.Task.{Element, Call, Queue, Round, enqueue, is_stale, worker_round, worker}
use panda_k8s.Task.Rounds.{finished, retried, failed, finished-worker, retried-worker}
use panda_k8s.Task.Skips.{SyncedAt, worker-covers, worker-keeps}

abbrev start : Queue String
start = record { last_sync = 0; is_worker_done = false }

abbrev element : String → ℕ → Element String
element key t = record { key = key; timestamp = t; is_skippable = false }

abbrev rounds : List (Round String)
rounds =
    record { item = element "a" 5; now = 10; fails = true }
    ∷ record { item = element "b" 6; now = 20; fails = false }
    ∷ record { item = element "c" 15; now = 30; fails = false }
    ∷ []

abbrev calls : List (Call String)
calls =
    Call.sync (element "a" 5) 10 true
    ∷ Call.add_rate_limited (element "a" 0)
    ∷ Call.done (element "a" 5)
    ∷ Call.sync (element "b" 6) 20 false
    ∷ Call.forget (element "b" 6)
    ∷ Call.done (element "b" 6)
    ∷ Call.forget (element "c" 15)
    ∷ Call.done (element "c" 15)
    ∷ Call.close_worker_done
    ∷ []

rounds_run :
    worker rounds start
    ≡ record { queue = record { last_sync = 20; is_worker_done = true }; calls = calls }
unfolding worker worker_round is_stale
rounds_run = refl

finished-worker_example : finished (worker rounds start).calls ≡ map (λ r. r.item) rounds
finished-worker_example = finished-worker rounds start

retried-worker_example : retried (worker rounds start).calls ≡ failed (worker rounds start).calls
retried-worker_example = retried-worker rounds start

third_stale : is_stale (worker rounds start).queue (element "c" 15) ≡ true
unfolding worker worker_round is_stale
third_stale = refl

worker-covers_example : (15 < 0) ⊎ ((t : ℕ) × (15 < t) × SyncedAt (worker rounds start).calls t)
worker-covers_example = worker-covers rounds start (element "c" 15) third_stale

abbrev any_name : String → Option String
any_name s = some s

abbrev added : Element String
added = element "d" 86400000000025

added_run : enqueue any_name false 24 25 "d" false ≡ some added
unfolding enqueue
added_run = refl

-- an element that may be skipped has the time of the first reading
skippable_run : enqueue any_name false 24 25 "d" true ≡ some (element "d" 24)
unfolding enqueue
skippable_run = refl

closing_run : enqueue any_name true 24 25 "d" false ≡ none
unfolding enqueue
closing_run = refl

worker-keeps_example : is_stale (worker rounds start).queue added ≡ false
worker-keeps_example =
    worker-keeps any_name false 24 25 "d" added rounds start added_run (omega arith)
      (omega arith, (omega arith, (omega arith, tt)))
