-- ===== src/JobQueue.antt =====
-- The in-memory priority and delay queue of affiliate-reconciliation-backend/app/jobs/queue.py.
-- Times are in microseconds. Each method runs under the lock of the queue, so it is one step on the
-- queue, except that `dequeue` gives the lock up while it waits: there the other threads' calls
-- come between two rounds of its loop. The depth warning is a log line and is not modelled.
mod Heap
mod Laws
pub mod Invariant
pub mod Ordering
pub mod Conservation
pub mod Blocking
mod Examples
unfoldable pub use Heap.*
use affiliate_platform.Config.{priorities, max_in_memory}
use affiliate_platform.Prelude.{
  ℕ, ◌+◌, ◌-◌, ◌*◌, min, String, Bool, true, false, not, ◌&&◌, ◌||◌, Option, none, some, List, [],
  ◌∷◌, ltb, leb, ◌==◌, if◌then◌else◌, length, Dict, lookup, ℤ, pos, pos_part, max_ℤ,
}

pub record QueueItem (J : Type 0) : Type 0 where
  pub job : J
  pub priority_label : String
  pub priority_value : ℕ
  pub enqueued_at : ℕ
  pub ready_at : ℕ
  pub seq : ℕ

-- The tuples of the two heaps, compared as Python compares them. `seq` differs between any two
-- items, so the comparison never reaches the items themselves.
unfoldable pub ready_before : {J : Type 0} → QueueItem J → QueueItem J → Bool
ready_before a b =
    ltb a.priority_value b.priority_value
    || (a.priority_value == b.priority_value && leb a.seq b.seq)

unfoldable pub scheduled_before : {J : Type 0} → QueueItem J → QueueItem J → Bool
unfolding ready_before
scheduled_before a b = ltb a.ready_at b.ready_at || (a.ready_at == b.ready_at && ready_before a b)

pub record PriorityDelayQueue (J : Type 0) : Type 0 where
  pub priority_map : Dict ℕ
  pub max_in_memory : ℕ
  pub ready_heap : List (QueueItem J)
  pub scheduled_heap : List (QueueItem J)
  pub seq_counter : ℕ
  pub is_shutdown : Bool

-- The exceptions of `enqueue`: RuntimeError, OverflowError and ValueError.
pub data EnqueueError : Type 0 where
  queue_shutdown capacity_exceeded unknown_priority : EnqueueError

pub data EnqueueResult (J : Type 0) : Type 0 where
  enqueued : PriorityDelayQueue J → QueueItem J → EnqueueResult J
  refused : EnqueueError → EnqueueResult J

-- How one round of the loop of `dequeue` ends: it returns a job or None, or it waits, for so long at
-- most (None: until it is notified), and goes round again.
pub data Round (J : Type 0) : Type 0 where
  returned : Option J → Round J
  waiting : Option ℕ → Round J

module _ {J : Type 0} where
  -- `__init__` with QUEUE_SETTINGS.
  abbrev pub new_queue : PriorityDelayQueue J
  new_queue = record {
    priority_map = priorities;
    max_in_memory = max_in_memory;
    ready_heap = [];
    scheduled_heap = [];
    seq_counter = 0;
    is_shutdown = false;
  }

  unfoldable pub depth : PriorityDelayQueue J → ℕ
  depth q = length q.ready_heap + length q.scheduled_heap

  -- The loop of `_promote_scheduled` on the scheduled and the ready heap.
  unfoldable pub promote_items :
      ℕ → List (QueueItem J) → List (QueueItem J) → List (QueueItem J) × List (QueueItem J)
  promote_items now [] ready = ([], ready)
  promote_items now (item ∷ rest) ready =
      let next = promote_items now rest (heappush ready_before item ready) in
      if leb item.ready_at now then next else (item ∷ rest, ready)

  unfoldable pub promote_scheduled : ℕ → PriorityDelayQueue J → PriorityDelayQueue J
  unfolding promote_items
  promote_scheduled now q =
      let (scheduled, ready) = promote_items now q.scheduled_heap q.ready_heap in
      record q { ready_heap = ready; scheduled_heap = scheduled }

  -- The item that `enqueue` makes. A negative delay counts as none.
  unfoldable pub make_item : PriorityDelayQueue J → ℕ → J → String → ℕ → ℤ → QueueItem J
  make_item q now job priority value delay = record {
    job = job;
    priority_label = priority;
    priority_value = value;
    enqueued_at = now;
    ready_at = now + pos_part (max_ℤ (pos 0) delay);
    seq = q.seq_counter + 1;
  }

  -- The push at the end of `enqueue`.
  unfoldable pub push_item : PriorityDelayQueue J → ℕ → QueueItem J → PriorityDelayQueue J
  push_item q now item =
      let q' = record q { seq_counter = q.seq_counter + 1 } in
      if leb item.ready_at now
      then record q' { ready_heap = heappush ready_before item q.ready_heap }
      else record q' { scheduled_heap = heappush scheduled_before item q.scheduled_heap }

  unfoldable pub enqueue : PriorityDelayQueue J → ℕ → J → String → ℤ → EnqueueResult J
  unfolding depth make_item push_item
  enqueue q now job priority delay =
      if q.is_shutdown
      then refused queue_shutdown
      else if leb q.max_in_memory (depth q)
      then refused capacity_exceeded
      else elim (lookup priority q.priority_map) [
        | none ↦ refused unknown_priority
        | some value ↦
            let item = make_item q now job priority value delay in
            enqueued (push_item q now item) item
      ]

  -- The wait of `_await_next_ready`, for an empty ready heap, at a time and with what is left of the
  -- timeout.
  unfoldable pub await_next_ready : PriorityDelayQueue J → ℕ → Option ℕ → Option ℕ
  await_next_ready q now timeout = elim q.scheduled_heap [
    | [] ↦ timeout
    | item ∷ _ ↦
        some
          (elim timeout [ none ↦ item.ready_at - now | some left ↦ min (item.ready_at - now) left ])
  ]

  -- The part of a round below the promotion, when the ready heap is empty.
  unfoldable pub nothing_ready : PriorityDelayQueue J → Bool → Option ℕ → ℕ → ℕ → Round J
  unfolding await_next_ready
  nothing_ready q block end_time check_time wait_time =
      if not block then returned none else elim end_time [
        | none ↦ waiting (await_next_ready q wait_time none)
        | some e ↦
            if e - check_time == 0
            then returned none
            else waiting (await_next_ready q wait_time (some (e - check_time)))
      ]

  -- `heappop` of the ready heap, and `return item.job`; or what is done when there is none.
  unfoldable pub take_first :
      PriorityDelayQueue J → List (QueueItem J) → Round J → PriorityDelayQueue J × Round J
  take_first q [] otherwise = (q, otherwise)
  take_first q (item ∷ rest) otherwise = (record q { ready_heap = rest }, returned (some item.job))

  -- One round of the loop of `dequeue`. The clock is read up to three times: for the promotion, for
  -- what is left of the timeout, and for the wait.
  unfoldable pub dequeue_round :
      PriorityDelayQueue J → Bool → Option ℕ → ℕ → ℕ → ℕ → PriorityDelayQueue J × Round J
  dequeue_round q block end_time now check_time wait_time =
      let q' = promote_scheduled now q in
      if q.is_shutdown && (depth q == 0)
      then (q, returned none)
      else take_first q' q'.ready_heap (nothing_ready q' block end_time check_time wait_time)

  unfoldable pub shutdown : PriorityDelayQueue J → PriorityDelayQueue J
  shutdown q = record q { is_shutdown = true }

  unfoldable pub purge : PriorityDelayQueue J → PriorityDelayQueue J
  purge q = record q { ready_heap = []; scheduled_heap = [] }
