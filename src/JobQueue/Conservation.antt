-- ===== src/JobQueue/Conservation.antt =====
-- What becomes of the jobs over any sequence of calls
-- (affiliate-reconciliation-backend/app/jobs/queue.py).
use mathlib.Core.List.{Perm, perm_middle}
use mathlib.Core.List.Perm
use affiliate_platform.Prelude.{
  ℕ, String, refl, ◌≢◌, inl, inr, Bool, ◌&&◌, Option, none, some, List, [], ◌∷◌, ◌++◌, map, leb,
  ◌==◌, Bool-cases, Option-cases, lookup, ℤ,
}
use affiliate_platform.JobQueue.{
  QueueItem, PriorityDelayQueue, EnqueueResult, enqueued, refused, Round, returned, waiting,
  promote_scheduled, enqueue, make_item, push_item, depth, take_first, dequeue_round, shutdown,
  purge, heappush-perm, ready_before, scheduled_before,
}
use affiliate_platform.JobQueue.Ordering.{items, promoted-perm, nothing_ready-none}

-- A call of the queue, with the time of the call and what else it reads.
pub data Op (J : Type 0) : Type 0 where
  enqueue_op : ℕ → J → String → ℤ → Op J
  dequeue_op : Bool → Option ℕ → ℕ → ℕ → ℕ → Op J
  shutdown_op : Op J
  purge_op : Op J

-- The queue with the jobs that it has accepted, handed out and purged so far.
pub record History (J : Type 0) : Type 0 where
  pub queue : PriorityDelayQueue J
  pub accepted : List J
  pub delivered : List J
  pub purged : List J

module _ {J : Type 0} where
  abbrev pub jobs : List (QueueItem J) → List J
  jobs l = map (λ i. i.job) l

  unfoldable pub after_enqueue : History J → J → EnqueueResult J → History J
  after_enqueue s job (enqueued q item) = record s { queue = q; accepted = job ∷ s.accepted }
  after_enqueue s job (refused reason) = s

  unfoldable pub after_round : History J → PriorityDelayQueue J → Round J → History J
  after_round s q (returned (some job)) = record s { queue = q; delivered = job ∷ s.delivered }
  after_round s q (returned none) = record s { queue = q }
  after_round s q (waiting wait) = record s { queue = q }

  unfoldable pub call : History J → Op J → History J
  unfolding after_enqueue after_round
  call s (enqueue_op now job priority delay) =
      after_enqueue s job (enqueue s.queue now job priority delay)
  call s (dequeue_op block end_time now check_time wait_time) =
      let (q, round) = dequeue_round s.queue block end_time now check_time wait_time in
      after_round s q round
  call s shutdown_op = record s { queue = shutdown s.queue }
  call s purge_op = record s { queue = purge s.queue; purged = jobs (items s.queue) ++ s.purged }

  unfoldable pub calls : History J → List (Op J) → History J
  unfolding call
  calls s [] = s
  calls s (op ∷ ops) = calls (call s op) ops

  -- Every accepted job was handed out, or is queued, or was purged.
  abbrev pub Conserved : History J → Type 0
  Conserved s = Perm (s.delivered ++ (jobs (items s.queue) ++ s.purged)) s.accepted

  jobs-perm : {l l' : List (QueueItem J)} → Perm l l' → Perm (jobs l) (jobs l')
  jobs-perm p = Perm.map (λ i. i.job) p

  push_item-perm :
      (q : PriorityDelayQueue J) (now : ℕ) (item : QueueItem J)
      → Perm (items (push_item q now item)) (item ∷ items q)
  unfolding push_item
  push_item-perm q now item = elim (Bool-cases (leb item.ready_at now)) [
    | inl e ↦
        rw e (Perm.append_right q.scheduled_heap (heappush-perm ready_before item q.ready_heap))
    | inr e ↦ rw e (
        Perm.trans
          (Perm.append_left q.ready_heap (heappush-perm scheduled_before item q.scheduled_heap))
          (perm_middle q.ready_heap q.scheduled_heap))
  ]

  -- What an enqueue adds to the jobs of a queue, if it is not refused.
  abbrev pub Adds : PriorityDelayQueue J → J → EnqueueResult J → Type 0
  Adds q job (enqueued q' item) = Perm (jobs (items q')) (job ∷ jobs (items q))
  Adds q job (refused reason) = Unit

  pub enqueue-Adds :
      (q : PriorityDelayQueue J) (now : ℕ) (job : J) (priority : String) (delay : ℤ)
      → Adds q job (enqueue q now job priority delay)
  unfolding enqueue make_item
  enqueue-Adds q now job priority delay = elim (Bool-cases q.is_shutdown) [
    | inl e ↦ simp e tt
    | inr e ↦ simp e (elim (Bool-cases (leb q.max_in_memory (depth q))) [
      | inl f ↦ rw f tt
      | inr f ↦ rw f (elim (Option-cases (lookup priority q.priority_map)) [
        | inl g ↦ rw g tt
        | inr (value, g) ↦
            rw g (jobs-perm (push_item-perm q now (make_item q now job priority value delay)))
      ])
    ])
  ]

  -- A job that is accepted is added to those that are delivered, waiting or purged.
  after_enqueue-Conserved :
      (s : History J) (job : J) (r : EnqueueResult J)
      → Adds s.queue job r
      → Conserved s
      → Conserved (after_enqueue s job r)
  unfolding after_enqueue
  after_enqueue-Conserved s job (enqueued q item) a h =
      Perm.trans (Perm.append_left s.delivered (Perm.append_right s.purged a))
        (Perm.trans (perm_middle s.delivered (jobs (items s.queue) ++ s.purged)) (Perm.cons job h))
  after_enqueue-Conserved s job (refused reason) a h = h

  take_first-Conserved :
      (s : History J) (q : PriorityDelayQueue J) (ready : List (QueueItem J)) (r : Round J)
      → Perm (s.delivered ++ (jobs (ready ++ q.scheduled_heap) ++ s.purged)) s.accepted
      → ((job : J) → r ≢ returned (some job))
      → Conserved (
          after_round s
            (take_first (record q { ready_heap = ready }) ready r).0
            (take_first (record q { ready_heap = ready }) ready r).1)
  unfolding take_first after_round
  take_first-Conserved s q [] (returned none) h ne = h
  take_first-Conserved s q [] (returned (some job)) h ne = absurd (ne job refl)
  take_first-Conserved s q [] (waiting wait) h ne = h
  take_first-Conserved s q (item ∷ rest) r h ne =
      Perm.trans (Perm.symm (perm_middle s.delivered (jobs (rest ++ q.scheduled_heap) ++ s.purged)))
        h

  round-Conserved :
      (s : History J) (block : Bool) (end_time : Option ℕ) (now check_time wait_time : ℕ)
      → Conserved s
      → let (q, round) = dequeue_round s.queue block end_time now check_time wait_time in
        Conserved (after_round s q round)
  unfolding dequeue_round after_round
  round-Conserved s block end_time now check_time wait_time h =
      let q = s.queue in
      let q' = promote_scheduled now q in
      elim (Bool-cases (q.is_shutdown && (depth q == 0))) [
        | inl e ↦ simp e h
        | inr e ↦ simp e (
            take_first-Conserved s q' q'.ready_heap _
              (Perm.trans
                (Perm.append_left s.delivered
                  (Perm.append_right s.purged (jobs-perm (promoted-perm q now))))
                h)
              (λ job. nothing_ready-none q' block end_time check_time wait_time))
      ]

  call-Conserved : (s : History J) (op : Op J) → Conserved s → Conserved (call s op)
  unfolding call shutdown purge
  call-Conserved s (enqueue_op now job priority delay) h =
      after_enqueue-Conserved s job _ (enqueue-Adds s.queue now job priority delay) h
  call-Conserved s (dequeue_op block end_time now check_time wait_time) h =
      round-Conserved s block end_time now check_time wait_time h
  call-Conserved s shutdown_op h = h
  call-Conserved s purge_op h = h

  -- Over any sequence of enqueues, rounds of `dequeue`, shutdowns and purges, from a state where this
  -- holds, the jobs handed out, those still queued and those that a purge has removed are, together,
  -- the jobs accepted, each as often as it was: but for the purged ones none is lost, and none is
  -- made up or handed out twice.
  pub calls-Conserved : (s : History J) (ops : List (Op J)) → Conserved s → Conserved (calls s ops)
  unfolding calls
  calls-Conserved s [] h = h
  calls-Conserved s (op ∷ ops) h = calls-Conserved (call s op) ops (call-Conserved s op h)
