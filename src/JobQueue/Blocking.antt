-- ===== src/JobQueue/Blocking.antt =====
-- The loop of `dequeue` over the rounds that it goes through
-- (affiliate-reconciliation-backend/app/jobs/queue.py).
pub mod Returns
use affiliate_platform.Prelude.{
  ℕ, ◌+◌, ◌-◌, ◌≤◌, min, ◌≡◌, refl, inl, inr, Bool, true, false, ◌&&◌, Option, none, some, List, [],
  ◌∷◌, ◌++◌, arith, ◌==◌, Bool-cases, is_some, All, All-weaken,
}
use affiliate_platform.JobQueue.{
  QueueItem, PriorityDelayQueue, Round, returned, waiting, promote_scheduled, depth,
  await_next_ready, nothing_ready, take_first, dequeue_round, scheduled_before, IsSorted,
}
use affiliate_platform.JobQueue.Invariant.{Inv, promote-Inv}
use affiliate_platform.JobQueue.Laws.{scheduled_before-ready_at}

-- What the rest of the program supplies to a round: the clock at its three readings, and what the
-- other threads do to the queue while it waits.
pub record Turn (J : Type 0) : Type 0 where
  pub now : ℕ
  pub check_time : ℕ
  pub wait_time : ℕ
  pub meanwhile : PriorityDelayQueue J → PriorityDelayQueue J

-- A wait from a time on is over by the end time, if there is one.
abbrev pub EndsBy : ℕ → ℕ → Option ℕ → Type 0
EndsBy check_time wait none = Unit
EndsBy check_time wait (some e) = check_time + wait ≤ e

module _ {J : Type 0} where
  -- What a round's end means for the loop, given what the further rounds come to.
  unfoldable pub go_on :
      PriorityDelayQueue J
      → Round J
      → Option (PriorityDelayQueue J × Option J)
      → Option (PriorityDelayQueue J × Option J)
  go_on q (returned job) rest = some (q, job)
  go_on q (waiting _) rest = rest

  -- The loop of `dequeue`: a round that waits is followed by another. None: it still waits when the
  -- turns run out.
  unfoldable pub dequeue :
      PriorityDelayQueue J
      → Bool
      → Option ℕ
      → List (Turn J)
      → Option (PriorityDelayQueue J × Option J)
  unfolding go_on
  dequeue q block end_time [] = none
  dequeue q block end_time (t ∷ turns) =
      let (q', round) = dequeue_round q block end_time t.now t.check_time t.wait_time in
      go_on q' round (dequeue (t.meanwhile q') block end_time turns)

  abbrev pub ends : Round J → Bool
  ends (returned job) = true
  ends (waiting wait) = false

  pub take_first-ends :
      (q : PriorityDelayQueue J) (ready : List (QueueItem J)) (r : Round J)
      → ends r ≡ true
      → ends (take_first q ready r).1 ≡ true
  unfolding take_first
  take_first-ends q [] r h = h
  take_first-ends q (item ∷ rest) r h = refl

  pub nothing_ready-ends :
      (q : PriorityDelayQueue J) (block : Bool) (e check_time wait_time : ℕ)
      → e ≤ check_time
      → ends (nothing_ready q block (some e) check_time wait_time) ≡ true
  unfolding nothing_ready
  nothing_ready-ends q block e check_time wait_time h = ground arith

  nothing_ready-ends_unblocked :
      (q : PriorityDelayQueue J) (end_time : Option ℕ) (check_time wait_time : ℕ)
      → ends (nothing_ready q false end_time check_time wait_time) ≡ true
  unfolding nothing_ready
  nothing_ready-ends_unblocked q end_time check_time wait_time = refl

  pub dequeue_round-ends :
      (q : PriorityDelayQueue J) (block : Bool) (end_time : Option ℕ) (now check_time wait_time : ℕ)
      → ends (nothing_ready (promote_scheduled now q) block end_time check_time wait_time) ≡ true
      → ends (dequeue_round q block end_time now check_time wait_time).1 ≡ true
  unfolding dequeue_round
  dequeue_round-ends q block end_time now check_time wait_time h =
      let q' = promote_scheduled now q in
      elim (Bool-cases (q.is_shutdown && (depth q == 0))) [
        | inl e ↦ simp e refl
        | inr e ↦ simp e (take_first-ends q' q'.ready_heap _ h)
      ]

  pub go_on-ends :
      (q : PriorityDelayQueue J) (r : Round J) (rest : Option (PriorityDelayQueue J × Option J))
      → ends r ≡ true
      → is_some (go_on q r rest) ≡ true
  unfolding go_on
  go_on-ends q (returned job) rest h = refl
  go_on-ends q (waiting wait) rest h = cc

  go_on-later :
      (q : PriorityDelayQueue J) (r : Round J) (rest : Option (PriorityDelayQueue J × Option J))
      → is_some rest ≡ true
      → is_some (go_on q r rest) ≡ true
  unfolding go_on
  go_on-later q (returned job) rest h = refl
  go_on-later q (waiting wait) rest h = h

  pub dequeue-over :
      (q : PriorityDelayQueue J) (block : Bool) (e : ℕ) (before : List (Turn J)) (t : Turn J)
      (after : List (Turn J))
      → e ≤ t.check_time
      → is_some (dequeue q block (some e) (before ++ t ∷ after)) ≡ true
  unfolding dequeue
  dequeue-over q block e [] t after h = go_on-ends _ _ _ (
      dequeue_round-ends q block (some e) t.now t.check_time t.wait_time
        (nothing_ready-ends (promote_scheduled t.now q) block e t.check_time t.wait_time h))
  dequeue-over q block e (u ∷ before) t after h =
      let q' = (dequeue_round q block (some e) u.now u.check_time u.wait_time).0 in
      go_on-later _ _ _ (dequeue-over (u.meanwhile q') block e before t after h)

  -- A call that does not block returns in its first round.
  pub dequeue-returns_unblocked :
      (q : PriorityDelayQueue J) (end_time : Option ℕ) (t : Turn J) (after : List (Turn J))
      → is_some (dequeue q false end_time (t ∷ after)) ≡ true
  unfolding dequeue
  dequeue-returns_unblocked q end_time t after = go_on-ends _ _ _ (
      dequeue_round-ends q false end_time t.now t.check_time t.wait_time (
        nothing_ready-ends_unblocked (promote_scheduled t.now q) end_time t.check_time t.wait_time))

  -- How long a round may wait: not past the time at which a scheduled item becomes ready, and not
  -- past the end time. Without bound it waits only when there is no end time and nothing scheduled.
  abbrev pub WaitMeans : PriorityDelayQueue J → Option ℕ → ℕ → ℕ → Round J → Type 0
  WaitMeans q end_time check_time wait_time (returned job) = Unit
  WaitMeans q end_time check_time wait_time (waiting none) =
      (end_time ≡ none) × (q.scheduled_heap ≡ [])
  WaitMeans q end_time check_time wait_time (waiting (some wait)) =
      All (λ i. wait ≤ i.ready_at - wait_time) q.scheduled_heap × EndsBy check_time wait end_time

  waits-until :
      (i : QueueItem J) (rest : List (QueueItem J)) (wait wait_time : ℕ)
      → IsSorted scheduled_before (i ∷ rest)
      → wait ≤ i.ready_at - wait_time
      → All (λ j. wait ≤ j.ready_at - wait_time) (i ∷ rest)
  waits-until i rest wait wait_time h le = (
    le,
    All-weaken _ _ rest (λ j before. omega (arith, scheduled_before-ready_at i j before)) h.0,
  )

  nothing_ready-WaitMeans :
      (q : PriorityDelayQueue J) (scheduled : List (QueueItem J)) (block : Bool)
      (end_time : Option ℕ) (check_time wait_time : ℕ)
      → IsSorted scheduled_before scheduled
      → let q' = record q { scheduled_heap = scheduled } in
        WaitMeans q' end_time check_time wait_time
          (nothing_ready q' block end_time check_time wait_time)
  unfolding nothing_ready await_next_ready
  nothing_ready-WaitMeans q scheduled false end_time check_time wait_time h = tt
  nothing_ready-WaitMeans q [] true none check_time wait_time h = (refl, refl)
  nothing_ready-WaitMeans q [] true (some e) check_time wait_time h =
      elim (Bool-cases (e - check_time == 0)) [
        | inl over ↦ rw over tt
        | inr left ↦ rw left (tt, ground (arith, left))
      ]
  nothing_ready-WaitMeans q (i ∷ rest) true none check_time wait_time h =
      (waits-until i rest (i.ready_at - wait_time) wait_time h (omega arith), tt)
  nothing_ready-WaitMeans q (i ∷ rest) true (some e) check_time wait_time h =
      elim (Bool-cases (e - check_time == 0)) [
        | inl over ↦ rw over tt
        | inr left ↦ rw left (
          waits-until i rest (min (i.ready_at - wait_time) (e - check_time)) wait_time h
              (omega arith),
          ground (arith, left),
        )
      ]

  take_first-WaitMeans :
      (q : PriorityDelayQueue J) (ready : List (QueueItem J)) (r : Round J) (end_time : Option ℕ)
      (check_time wait_time : ℕ)
      → WaitMeans q end_time check_time wait_time r
      → WaitMeans (take_first q ready r).0 end_time check_time wait_time (take_first q ready r).1
  unfolding take_first
  take_first-WaitMeans q [] r end_time check_time wait_time h = h
  take_first-WaitMeans q (item ∷ rest) r end_time check_time wait_time h = tt

  -- On a well-formed queue a round that waits does so neither past the time at which any scheduled
  -- item becomes ready nor past the end time; it waits without bound only if there is no end time
  -- and nothing is scheduled.
  pub dequeue_round-WaitMeans :
      (q : PriorityDelayQueue J) (block : Bool) (end_time : Option ℕ) (now check_time wait_time : ℕ)
      → Inv q
      → let (q', round) = dequeue_round q block end_time now check_time wait_time in
        WaitMeans q' end_time check_time wait_time round
  unfolding dequeue_round
  dequeue_round-WaitMeans q block end_time now check_time wait_time h =
      let q' = promote_scheduled now q in
      elim (Bool-cases (q.is_shutdown && (depth q == 0))) [
        | inl e ↦ simp e tt
        | inr e ↦ simp e (
            take_first-WaitMeans q' q'.ready_heap _ end_time check_time wait_time (
              nothing_ready-WaitMeans q' q'.scheduled_heap block end_time check_time wait_time
                (promote-Inv q now h).scheduled_sorted))
      ]
