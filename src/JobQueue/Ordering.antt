-- ===== src/JobQueue/Ordering.antt =====
-- Which job a call of `dequeue` hands out, and when it hands out none
-- (affiliate-reconciliation-backend/app/jobs/queue.py).
use mathlib.Core.List.{Perm}
use mathlib.Core.Path.{subst}
use affiliate_platform.Prelude.{
  ℕ, ◌≤◌, ◌<◌, ◌≡◌, refl, sym, ◌≢◌, ◌↔◌, ◌⊎◌, inl, inr, Bool, true, false, ◌&&◌, Option, none, some,
  List, [], ◌∷◌, ◌++◌, arith, ◌==◌, Bool-cases, length, All, All-weaken,
}
use affiliate_platform.JobQueue.{
  QueueItem, PriorityDelayQueue, Round, returned, depth, promote_scheduled, nothing_ready,
  take_first, dequeue_round, ready_before, IsSorted,
}
use affiliate_platform.JobQueue.Invariant.{Inv, promote-Inv}
use affiliate_platform.JobQueue.Laws.{promote_nothing, promote-nil, promote-later, promote-perm}

nil_of_length {ℓ} : {A : Type ℓ} → (l : List A) → length l ≡ 0 → l ≡ []
nil_of_length [] e = refl
nil_of_length (x ∷ l) e = absurd (omega arith)

module _ {J : Type 0} where
  -- All the items of a queue.
  abbrev pub items : PriorityDelayQueue J → List (QueueItem J)
  items q = q.ready_heap ++ q.scheduled_heap

  -- An item goes before another: by its priority, and by its age among equals.
  abbrev pub Precedes : QueueItem J → QueueItem J → Type 0
  Precedes a b =
      (a.priority_value < b.priority_value)
      ⊎ ((a.priority_value ≡ b.priority_value) × (a.seq ≤ b.seq))

  Precedes-of : (a b : QueueItem J) → ready_before a b ≡ true → Precedes a b
  unfolding ready_before
  Precedes-of a b h = ground arith

  -- What a round does: it hands out the first item of those that are due, or leaves the promoted
  -- queue when none is.
  abbrev pub HandsOut : PriorityDelayQueue J → ℕ → PriorityDelayQueue J → QueueItem J → Type 0
  HandsOut q now q' item =
      All (Precedes item) q'.ready_heap
      × All (λ i. now < i.ready_at) q'.scheduled_heap
      × Perm (item ∷ items q') (items q)

  promoted-later :
      (q : PriorityDelayQueue J) (now : ℕ)
      → Inv q
      → All (λ i. now < i.ready_at) (promote_scheduled now q).scheduled_heap
  unfolding promote_scheduled
  promoted-later q now h = promote-later now q.scheduled_heap q.ready_heap h.scheduled_sorted

  pub promoted-perm :
      (q : PriorityDelayQueue J) (now : ℕ) → Perm (items (promote_scheduled now q)) (items q)
  unfolding promote_scheduled
  promoted-perm q now = promote-perm now q.scheduled_heap q.ready_heap

  take_first-HandsOut :
      (q q' : PriorityDelayQueue J) (now : ℕ) (ready : List (QueueItem J)) (r : Round J) {job : J}
      → q'.ready_heap ≡ ready
      → Inv q'
      → All (λ i. now < i.ready_at) q'.scheduled_heap
      → Perm (items q') (items q)
      → r ≢ returned (some job)
      → (take_first q' ready r).1 ≡ returned (some job)
      → (item : QueueItem J) × (item.job ≡ job) × HandsOut q now (take_first q' ready r).0 item
  unfolding take_first
  take_first-HandsOut q q' now [] r e h later perm ne got = absurd (ne got)
  take_first-HandsOut q q' now (item ∷ rest) r e h later perm ne got =
      let sorted : IsSorted ready_before (item ∷ rest) =
        subst (λ l. IsSorted ready_before l) e h.ready_sorted in
      (
        item,
        cc,
        (
          All-weaken _ _ rest (Precedes-of item) sorted.0,
          later,
          subst (λ l. Perm (l ++ q'.scheduled_heap) (items q)) e perm,
        ),
      )

  pub nothing_ready-none :
      (q : PriorityDelayQueue J) (block : Bool) (end_time : Option ℕ) (check_time wait_time : ℕ)
      {job : J}
      → nothing_ready q block end_time check_time wait_time ≢ returned (some job)
  unfolding nothing_ready
  nothing_ready-none q block end_time check_time wait_time e = ground arith

  -- On a well-formed queue the job handed out is that of an item which precedes every other item
  -- that is due at the time of the promotion, by priority and among equals by age; the items that
  -- stay scheduled are not due yet; and exactly that item is gone.
  pub dequeue_round-HandsOut :
      (q : PriorityDelayQueue J) (block : Bool) (end_time : Option ℕ) (now check_time wait_time : ℕ)
      {job : J}
      → Inv q
      → (dequeue_round q block end_time now check_time wait_time).1 ≡ returned (some job)
      → (item : QueueItem J) × (item.job ≡ job)
        × HandsOut q now (dequeue_round q block end_time now check_time wait_time).0 item
  unfolding dequeue_round
  dequeue_round-HandsOut q block end_time now check_time wait_time h got =
      elim (Bool-cases (q.is_shutdown && (depth q == 0))) [
        | inl e ↦ absurd (ground (arith, e, got))
        | inr e ↦
            let q' = promote_scheduled now q in
            simp e (
              take_first-HandsOut q q' now q'.ready_heap
                (nothing_ready q' block end_time check_time wait_time) refl (promote-Inv q now h)
                (promoted-later q now h) (promoted-perm q now)
                (nothing_ready-none q' block end_time check_time wait_time) (simp e at got))
      ]

  take_first-nil :
      (q : PriorityDelayQueue J) (ready : List (QueueItem J)) (r : Round J)
      → (take_first q ready r).1 ≡ returned none
      → ready ≡ []
  unfolding take_first
  take_first-nil q [] r e = refl
  take_first-nil q (item ∷ rest) r e = cc

  idle_round :
      (q : PriorityDelayQueue J)
      → q.ready_heap ≡ []
      → (take_first q q.ready_heap (returned none)).1 ≡ returned none
  unfolding take_first
  idle_round q e = rw e

  -- On a well-formed queue a call that does not block returns None exactly when no item is due.
  pub dequeue_round-none_iff :
      (q : PriorityDelayQueue J) (end_time : Option ℕ) (now check_time wait_time : ℕ)
      → Inv q
      → ((dequeue_round q false end_time now check_time wait_time).1 ≡ returned none)
        ↔ ((q.ready_heap ≡ []) × All (λ i. now < i.ready_at) q.scheduled_heap)
  unfolding dequeue_round depth nothing_ready promote_scheduled
  dequeue_round-none_iff q end_time now check_time wait_time h =
      elim (Bool-cases (q.is_shutdown && (depth q == 0))) [
        | inl e ↦
            let none_ready = nil_of_length q.ready_heap (ground (arith, e)) in
            let none_scheduled = nil_of_length q.scheduled_heap (ground (arith, e)) in
            simp e (
              λ _. (none_ready, subst (λ l. All (λ i. now < i.ready_at) l) (sym none_scheduled) tt),
              λ _. refl,
            )
        | inr e ↦ simp e (
          λ got.
              promote-nil now q.scheduled_heap q.ready_heap h.scheduled_sorted
                (take_first-nil (promote_scheduled now q) _ _ got),
          λ idle.
              rw (promote_nothing now q.scheduled_heap q.ready_heap idle.1) (idle_round q idle.0),
        )
      ]
