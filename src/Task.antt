-- ===== src/Task.antt =====
-- internal/task/queue.go: the work queue between the event handlers and the sync function. The
-- rate-limiting queue of client-go, the clock, the key function and the sync function are the
-- environment: what they answer is the input, and the calls that the code makes are the output.
-- Times are nanoseconds since 1970, below the bound of int64.
pub mod Rounds
pub mod Skips
use panda_k8s.Prelude.{
  ℕ, ◌+◌, Bool, true, false, not, ◌&&◌, List, [], ◌∷◌, ◌++◌, Option, none, some, ltb, nat_eq,
  if◌then◌else◌,
}

module _ (Key : Type 0) where
  -- `Element`
  pub record Element : Type 0 where
    pub key : Key
    pub timestamp : ℕ
    pub is_skippable : Bool

  -- the calls of the worker: of the sync function, at a time and with or without an error, and of
  -- the work queue
  pub data Call : Type 0 where
    sync : Element → ℕ → Bool → Call
    forget : Element → Call
    add_rate_limited : Element → Call
    done : Element → Call
    close_worker_done : Call

  -- `Queue`: the time of the last sync, and whether the worker has ended
  pub record Queue : Type 0 where
    pub last_sync : ℕ
    pub is_worker_done : Bool

  -- What `Get`, the clock and the sync function (has it an error?) answer in one round.
  pub record Round : Type 0 where
    pub item : Element
    pub now : ℕ
    pub fails : Bool

  -- the worker's state, and the calls so far
  pub record Run : Type 0 where
    pub queue : Queue
    pub calls : List Call

-- 24 hours
abbrev pub day : ℕ
day = 86400000000000

module _ {Key Obj : Type 0} (fn : Obj → Option Key) where
  -- `enqueue`: the element that is added, at the times of the two readings of the clock
  unfoldable pub enqueue : Bool → ℕ → ℕ → Obj → Bool → Option (Element Key)
  enqueue shutting_down now later obj skippable = if shutting_down then none else elim (fn obj) [
    | none ↦ none
    | some key ↦ some (record {
      key = key;
      timestamp = if not skippable then later + day else now;
      is_skippable = false;
    })
  ]

module _ {Key : Type 0} where
  -- the test for an element that is older than the last sync
  unfoldable pub is_stale : Queue Key → Element Key → Bool
  is_stale q item = not (nat_eq item.timestamp 0) && ltb item.timestamp q.last_sync

  -- the element that comes back after an error
  abbrev pub retry_of : Element Key → Element Key
  retry_of item = record { key = item.key; timestamp = 0; is_skippable = false }

  -- one round of `worker`
  unfoldable pub worker_round : Round Key → Queue Key → Run Key
  unfolding is_stale
  worker_round r q =
      if is_stale q r.item
      then record { queue = q; calls = Call.forget r.item ∷ Call.done r.item ∷ [] }
      else if r.fails
      then record {
        queue = q;
        calls =
            Call.sync r.item r.now true
            ∷ Call.add_rate_limited (retry_of r.item)
            ∷ Call.done r.item
            ∷ [];
      }
      else record {
        queue = record q { last_sync = r.now };
        calls = Call.sync r.item r.now false ∷ Call.forget r.item ∷ Call.done r.item ∷ [];
      }

  -- `worker`, until `Get` answers that the queue has ended
  unfoldable pub worker : List (Round Key) → Queue Key → Run Key
  unfolding worker_round
  worker [] q = record {
    queue = record q { is_worker_done = true };
    calls = if not q.is_worker_done then Call.close_worker_done ∷ [] else [];
  }
  worker (r ∷ rs) q =
      let first = worker_round r q in
      let rest = worker rs first.queue in
      record { queue = rest.queue; calls = first.calls ++ rest.calls }
