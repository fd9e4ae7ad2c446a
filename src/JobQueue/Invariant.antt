-- ===== src/JobQueue/Invariant.antt =====
-- What holds of the queue between two calls, and what `enqueue` answers
-- (affiliate-reconciliation-backend/app/jobs/queue.py).
use mathlib.Core.Path.{subst}
use affiliate_platform.Prelude.{
  ℕ, ◌+◌, ◌≤◌, ◌<◌, String, ◌≡◌, refl, ap, inl, inr, Bool, true, false, ◌&&◌, Option, none, some,
  List, [], ◌∷◌, arith, leb, ◌==◌, leb→le, not_leb, Bool-cases, Option-cases, length, All,
  All-weaken, lookup, ℤ,
}
use affiliate_platform.JobQueue.{
  take_first, Round, QueueItem, PriorityDelayQueue, enqueued, refused, queue_shutdown,
  capacity_exceeded, unknown_priority, EnqueueResult, new_queue, depth, make_item, push_item,
  enqueue, promote_scheduled, dequeue_round, shutdown, purge, ready_before, scheduled_before,
  IsSorted, All-heappush, heappush-IsSorted, length-heappush,
}
use affiliate_platform.JobQueue.Laws.{
  ready_order, scheduled_order, promote-length, promote-All, promote-IsSorted,
}

module _ {J : Type 0} where
  -- An item has a label that the queue knows, with its number, and a sequence number already drawn.
  abbrev pub IsNumbered : PriorityDelayQueue J → QueueItem J → Type 0
  IsNumbered q i =
      (lookup i.priority_label q.priority_map ≡ some i.priority_value) × (i.seq ≤ q.seq_counter)

  -- Both heaps are in order, the queue is within its capacity, and every item is numbered.
  pub record Inv (q : PriorityDelayQueue J) : Type 0 where
    pub ready_sorted : IsSorted ready_before q.ready_heap
    pub scheduled_sorted : IsSorted scheduled_before q.scheduled_heap
    pub within_capacity : depth q ≤ q.max_in_memory
    pub ready_numbered : All (IsNumbered q) q.ready_heap
    pub scheduled_numbered : All (IsNumbered q) q.scheduled_heap

  pub new_queue-Inv : Inv new_queue
  unfolding depth
  new_queue-Inv = record {
    ready_sorted = tt;
    scheduled_sorted = tt;
    within_capacity = omega arith;
    ready_numbered = tt;
    scheduled_numbered = tt;
  }

  IsNumbered-later :
      (q : PriorityDelayQueue J) (l : List (QueueItem J))
      → All (IsNumbered q) l
      → All (IsNumbered (record q { seq_counter = q.seq_counter + 1 })) l
  IsNumbered-later q l h = All-weaken _ _ l (λ i n. (n.0, omega arith)) h

  push_item-Inv :
      (q : PriorityDelayQueue J) (now : ℕ) (i : QueueItem J)
      → Inv q
      → depth q < q.max_in_memory
      → IsNumbered (record q { seq_counter = q.seq_counter + 1 }) i
      → Inv (push_item q now i)
  unfolding push_item depth
  push_item-Inv q now i h room n = elim (Bool-cases (leb i.ready_at now)) [
    | inl e ↦ rw e (record {
      ready_sorted = heappush-IsSorted ready_before i q.ready_heap ready_order h.ready_sorted;
      scheduled_sorted = h.scheduled_sorted;
      within_capacity = omega (arith, length-heappush ready_before i q.ready_heap);
      ready_numbered =
          All-heappush ready_before _ i q.ready_heap n
            (IsNumbered-later q q.ready_heap h.ready_numbered);
      scheduled_numbered = IsNumbered-later q q.scheduled_heap h.scheduled_numbered;
    })
    | inr e ↦ rw e (record {
      ready_sorted = h.ready_sorted;
      scheduled_sorted =
          heappush-IsSorted scheduled_before i q.scheduled_heap scheduled_order h.scheduled_sorted;
      within_capacity = omega (arith, length-heappush scheduled_before i q.scheduled_heap);
      ready_numbered = IsNumbered-later q q.ready_heap h.ready_numbered;
      scheduled_numbered =
          All-heappush scheduled_before _ i q.scheduled_heap n
            (IsNumbered-later q q.scheduled_heap h.scheduled_numbered);
    })
  ]

  -- What a call of `enqueue` may answer: an accepted job makes the queue one deeper and keeps the
  -- invariant, under the item that is returned; a refusal names the first condition that fails.
  abbrev pub EnqueueMeans : PriorityDelayQueue J → ℕ → J → String → ℤ → EnqueueResult J → Type 0
  EnqueueMeans q now job priority delay (enqueued q' item) =
      (q.is_shutdown ≡ false)
      × (depth q < q.max_in_memory)
      × (lookup priority q.priority_map ≡ some item.priority_value)
      × (item ≡ make_item q now job priority item.priority_value delay)
      × (depth q' ≡ depth q + 1)
      × Inv q'
  EnqueueMeans q now job priority delay (refused queue_shutdown) = q.is_shutdown ≡ true
  EnqueueMeans q now job priority delay (refused capacity_exceeded) =
      (q.is_shutdown ≡ false) × (q.max_in_memory ≤ depth q)
  EnqueueMeans q now job priority delay (refused unknown_priority) =
      (q.is_shutdown ≡ false)
      × (depth q < q.max_in_memory)
      × (lookup priority q.priority_map ≡ none)

  push_item-depth :
      (q : PriorityDelayQueue J) (now : ℕ) (i : QueueItem J)
      → depth (push_item q now i) ≡ depth q + 1
  unfolding push_item depth
  push_item-depth q now i = ground (
    arith,
    length-heappush ready_before i q.ready_heap,
    length-heappush scheduled_before i q.scheduled_heap,
  )

  -- On a well-formed queue a call of `enqueue` that is accepted found the queue running, below its
  -- capacity and with the priority known; it returns the item that the call describes, and leaves
  -- a well-formed queue that is one deeper. A refusal is for a queue that is shut down, else for
  -- one at its capacity, else for an unknown priority.
  pub enqueue_outcome :
      (q : PriorityDelayQueue J) (now : ℕ) (job : J) (priority : String) (delay : ℤ)
      → Inv q
      → EnqueueMeans q now job priority delay (enqueue q now job priority delay)
  unfolding enqueue
  enqueue_outcome q now job priority delay h = elim (Bool-cases q.is_shutdown) [
    | inl e ↦ simp e refl
    | inr e ↦ simp e (elim (Bool-cases (leb q.max_in_memory (depth q))) [
      | inl f ↦ rw f (e, leb→le _ _ f)
      | inr f ↦ rw f (elim (Option-cases (lookup priority q.priority_map)) [
        | inl g ↦ rw g (e, not_leb _ _ f, g)
        | inr (value, g) ↦
            let item = make_item q now job priority value delay in
            rw g (
              e,
              not_leb _ _ f,
              g,
              refl,
              push_item-depth q now item,
              push_item-Inv q now item h (not_leb _ _ f) (g, omega arith),
            )
      ])
    ])
  ]

  pub promote-Inv : (q : PriorityDelayQueue J) (now : ℕ) → Inv q → Inv (promote_scheduled now q)
  unfolding promote_scheduled depth
  promote-Inv q now h =
      let sorted =
        promote-IsSorted now q.scheduled_heap q.ready_heap h.scheduled_sorted h.ready_sorted in
      let numbered =
        promote-All (IsNumbered q) now q.scheduled_heap q.ready_heap h.scheduled_numbered
          h.ready_numbered in
      record {
        ready_sorted = sorted.1;
        scheduled_sorted = sorted.0;
        within_capacity = omega (arith, promote-length now q.scheduled_heap q.ready_heap);
        ready_numbered = numbered.1;
        scheduled_numbered = numbered.0;
      }

  -- A round takes the first ready item off, or leaves the promoted queue.
  take_first-Inv :
      (q : PriorityDelayQueue J) (ready : List (QueueItem J)) (r : Round J)
      → q.ready_heap ≡ ready
      → Inv q
      → Inv (take_first q ready r).0
  unfolding take_first depth
  take_first-Inv q [] r e h = h
  take_first-Inv q (item ∷ rest) r e h =
      let sorted : IsSorted ready_before (item ∷ rest) =
        subst (λ l. IsSorted ready_before l) e h.ready_sorted in
      let numbered : All (IsNumbered q) (item ∷ rest) =
        subst (λ l. All (IsNumbered q) l) e h.ready_numbered in
      record {
        ready_sorted = sorted.1;
        scheduled_sorted = h.scheduled_sorted;
        within_capacity = omega (arith, h.within_capacity, ap length e);
        ready_numbered = numbered.1;
        scheduled_numbered = h.scheduled_numbered;
      }

  -- A round of `dequeue`, a shutdown and a purge keep the queue well-formed, whatever the clock
  -- and the mode: both heaps in order, within the capacity, and every item with the number of its
  -- label and a sequence number already drawn.
  pub dequeue_round-Inv :
      (q : PriorityDelayQueue J) (block : Bool) (end_time : Option ℕ) (now check_time wait_time : ℕ)
      → Inv q
      → Inv (dequeue_round q block end_time now check_time wait_time).0
        × Inv (shutdown q)
        × Inv (purge q)
  unfolding dequeue_round shutdown purge depth
  dequeue_round-Inv q block end_time now check_time wait_time h =
      let q' = promote_scheduled now q in
      (
        elim (Bool-cases (q.is_shutdown && (depth q == 0))) [
          | inl e ↦ simp e h
          | inr e ↦ simp e (take_first-Inv q' q'.ready_heap _ refl (promote-Inv q now h))
        ],
        record {
          ready_sorted = h.ready_sorted;
          scheduled_sorted = h.scheduled_sorted;
          within_capacity = h.within_capacity;
          ready_numbered = h.ready_numbered;
          scheduled_numbered = h.scheduled_numbered;
        },
        record {
          ready_sorted = tt;
          scheduled_sorted = tt;
          within_capacity = omega arith;
          ready_numbered = tt;
          scheduled_numbered = tt;
        },
      )
