-- ===== src/JobQueue/Examples.antt =====
-- The queue at work on small inputs.
use mathlib.Core.List.Perm
use affiliate_platform.Config.{second}
use affiliate_platform.Prelude.{
  ℕ, ◌*◌, ◌≡◌, refl, true, false, none, some, List, [], ◌∷◌, ◌++◌, arith, is_some, lookup, pos,
  max_ℤ,
}
use affiliate_platform.JobQueue.{
  QueueItem, PriorityDelayQueue, returned, new_queue, depth, enqueue, promote_scheduled, take_first,
  dequeue_round, heappush, ready_before,
}
use affiliate_platform.JobQueue.Invariant.{Inv}
use affiliate_platform.JobQueue.Ordering.{HandsOut, dequeue_round-HandsOut}
use affiliate_platform.JobQueue.Blocking.{dequeue}
use affiliate_platform.JobQueue.Blocking.Returns.{turn_at, two_turns, dequeue-returns}
use affiliate_platform.JobQueue.Conservation.{
  Op, enqueue_op, dequeue_op, shutdown_op, purge_op, History, Conserved, calls, call, after_enqueue,
  calls-Conserved,
}

-- Job 7, enqueued with normal priority at second 1.
abbrev first : QueueItem ℕ
first = record {
  job = 7;
  priority_label = "normal";
  priority_value = 5;
  enqueued_at = 1 * second;
  ready_at = 1 * second;
  seq = 1;
}

-- Job 8, enqueued with high priority at second 2 and with a delay of ten seconds.
abbrev second_item : QueueItem ℕ
second_item = record {
  job = 8;
  priority_label = "high";
  priority_value = 0;
  enqueued_at = 2 * second;
  ready_at = 12 * second;
  seq = 2;
}

abbrev busy : PriorityDelayQueue ℕ
busy = record new_queue {
  ready_heap = first ∷ [];
  scheduled_heap = second_item ∷ [];
  seq_counter = 2;
}

busy_is_reached :
    (calls
      (record { queue = new_queue; accepted = []; delivered = []; purged = [] })
      (enqueue_op (1 * second) 7 "normal" (pos 0)
        ∷ enqueue_op (2 * second) 8 "high" (pos (10 * second))
        ∷ [])).queue
    ≡ busy
unfolding calls call enqueue heappush after_enqueue lookup max_ℤ
busy_is_reached = refl

-- At second 12 the delayed job comes first.
high_first : (dequeue_round busy true none (12 * second) 0 0).1 ≡ returned (some 8)
unfolding dequeue_round promote_scheduled take_first heappush ready_before
high_first = refl

busy-Inv : Inv busy
unfolding depth lookup
busy-Inv = record {
  ready_sorted = (tt, tt);
  scheduled_sorted = (tt, tt);
  within_capacity = omega arith;
  ready_numbered = ((refl, omega arith), tt);
  scheduled_numbered = ((refl, omega arith), tt);
}

delayed-Inv : Inv (record busy { ready_heap = [] })
unfolding depth lookup
delayed-Inv = record {
  ready_sorted = tt;
  scheduled_sorted = (tt, tt);
  within_capacity = omega arith;
  ready_numbered = tt;
  scheduled_numbered = ((refl, omega arith), tt);
}

dequeue_round-HandsOut_example :
    (item : QueueItem ℕ) × (item.job ≡ 8)
    × HandsOut busy (12 * second) (dequeue_round busy true none (12 * second) 0 0).0 item
dequeue_round-HandsOut_example =
    dequeue_round-HandsOut busy true none (12 * second) 0 0 busy-Inv high_first

-- Only the scheduled job.
abbrev waiting_queue : PriorityDelayQueue ℕ
waiting_queue = record new_queue { scheduled_heap = second_item ∷ [] }

-- A caller that waits for the scheduled job, at most until second 20.
dequeue-returns_example :
    (is_some (
        dequeue waiting_queue true
          (some (20 * second))
          (two_turns waiting_queue true (20 * second) (3 * second)))
      ≡ true)
    × (is_some (
          dequeue waiting_queue true
            (some (20 * second))
            ((turn_at (3 * second) ∷ []) ++ turn_at (20 * second) ∷ []))
        ≡ true)
dequeue-returns_example =
    dequeue-returns waiting_queue true (20 * second) (3 * second) (turn_at (3 * second) ∷ [])
      (turn_at (20 * second)) [] (omega arith)

-- It gets the job at second 12, when it becomes ready.
alone_gets_job :
    dequeue waiting_queue true
      (some (20 * second))
      (two_turns waiting_queue true (20 * second) (3 * second))
    ≡ some (new_queue, some 8)
unfolding dequeue dequeue_round take_first promote_scheduled
    affiliate_platform.JobQueue.nothing_ready heappush
alone_gets_job = refl

abbrev started : History ℕ
started = record { queue = busy; accepted = 8 ∷ 7 ∷ []; delivered = []; purged = [] }

started-Conserved : Conserved started
started-Conserved = Perm.swap 8 7 []

abbrev some_calls : List (Op ℕ)
some_calls =
    dequeue_op true none (12 * second) 0 0
    ∷ enqueue_op (13 * second) 9 "urgent" (pos 0)
    ∷ shutdown_op
    ∷ dequeue_op false none (14 * second) 0 0
    ∷ purge_op
    ∷ []

calls-Conserved_example : Conserved (calls started some_calls)
calls-Conserved_example = calls-Conserved started some_calls started-Conserved
