-- ===== src/JobQueue/Blocking/Returns.antt =====
-- When a call of `dequeue` with a timeout returns
-- (affiliate-reconciliation-backend/app/jobs/queue.py).
use affiliate_platform.Prelude.{
  ℕ, ◌+◌, ◌-◌, ◌≤◌, ◌<◌, min, ◌≡◌, refl, inl, inr, Bool, true, false, ◌&&◌, none, some, List, [],
  ◌∷◌, ◌++◌, arith, ◌==◌, leb, length, Bool-cases, is_some,
}
use affiliate_platform.JobQueue.{
  QueueItem, PriorityDelayQueue, Round, returned, waiting, promote_scheduled, promote_items, depth,
  await_next_ready, nothing_ready, take_first, dequeue_round, heappush, ready_before,
  length-heappush,
}
use affiliate_platform.JobQueue.Blocking.{
  Turn, dequeue, go_on, go_on-ends, ends, dequeue_round-ends, nothing_ready-ends, dequeue-over,
}

module _ {J : Type 0} where
  -- A turn at a time, in which no other thread does anything.
  abbrev pub turn_at : ℕ → Turn J
  turn_at now = record { now = now; check_time = now; wait_time = now; meanwhile = λ q. q }

  -- The turn that follows a round of a caller whom no other thread wakes: at the end of its wait. After
  -- a wait without a bound there is none.
  abbrev pub next_turn : Round J → ℕ → List (Turn J)
  next_turn (returned job) now = []
  next_turn (waiting none) now = []
  next_turn (waiting (some wait)) now = turn_at (now + wait) ∷ []

  -- The round at a time, and the one that follows it.
  abbrev pub two_turns : PriorityDelayQueue J → Bool → ℕ → ℕ → List (Turn J)
  two_turns q block e now =
      turn_at now ∷ next_turn (dequeue_round q block (some e) now now now).1 now

  -- After a round: it has returned, or its wait has an end, and the round at that end returns.
  abbrev NextEnds : Bool → ℕ → ℕ → PriorityDelayQueue J × Round J → Type 0
  NextEnds block e now (q, returned job) = Unit
  NextEnds block e now (q, waiting none) = ⊥
  NextEnds block e now (q, waiting (some wait)) =
      ends (dequeue_round q block (some e) (now + wait) (now + wait) (now + wait)).1 ≡ true

  -- A promotion takes nothing from the ready heap.
  promote-le :
      (now : ℕ) (scheduled ready : List (QueueItem J))
      → length ready ≤ length (promote_items now scheduled ready).1
  unfolding promote_items
  promote-le now [] ready = omega arith
  promote-le now (i ∷ rest) ready = ground (
    arith,
    length-heappush ready_before i ready,
    promote-le now rest (heappush ready_before i ready),
  )

  take_first-ready :
      (q : PriorityDelayQueue J) (ready : List (QueueItem J)) (r : Round J)
      → 0 < length ready
      → ends (take_first q ready r).1 ≡ true
  unfolding take_first
  take_first-ready q [] r h = absurd (omega (arith, h))
  take_first-ready q (i ∷ ready) r h = refl

  -- A round at or after the time of the first scheduled item returns.
  due-ends :
      (q : PriorityDelayQueue J) (i : QueueItem J) (rest : List (QueueItem J)) (block : Bool)
      (e now : ℕ)
      → leb i.ready_at now ≡ true
      → ends (dequeue_round (record q { scheduled_heap = i ∷ rest }) block (some e) now now now).1
        ≡ true
  unfolding dequeue_round promote_scheduled promote_items
  due-ends q i rest block e now h =
      let q0 : PriorityDelayQueue J = record q { scheduled_heap = i ∷ rest } in
      let pushed = heappush ready_before i q.ready_heap in
      let some_ready : 0 < length (promote_items now rest pushed).1 =
        omega (arith, length-heappush ready_before i q.ready_heap, promote-le now rest pushed) in
      elim (Bool-cases (q.is_shutdown && (depth q0 == 0))) [
        | inl f ↦ rw f refl
        | inr f ↦ rw (f, h) (take_first-ready _ _ _ some_ready)
      ]

  over-ends :
      (q : PriorityDelayQueue J) (block : Bool) (e now : ℕ)
      → e ≤ now
      → ends (dequeue_round q block (some e) now now now).1 ≡ true
  over-ends q block e now h =
      dequeue_round-ends q block (some e) now now now
        (nothing_ready-ends (promote_scheduled now q) block e now now h)

  nothing_ready-NextEnds :
      (q : PriorityDelayQueue J) (scheduled : List (QueueItem J)) (block : Bool) (e now : ℕ)
      → let q' = record q { scheduled_heap = scheduled } in
        NextEnds block e now (q', nothing_ready q' block (some e) now now)
  unfolding nothing_ready await_next_ready
  nothing_ready-NextEnds q scheduled false e now = tt
  nothing_ready-NextEnds q [] true e now = elim (Bool-cases (e - now == 0)) [
    | inl over ↦ rw over tt
    | inr left ↦ rw left (over-ends _ true e (now + (e - now)) (omega arith))
  ]
  nothing_ready-NextEnds q (i ∷ rest) true e now =
      let wait = min (i.ready_at - now) (e - now) in
      elim (Bool-cases (e - now == 0)) [
        | inl over ↦ rw over tt
        | inr left ↦ rw left (elim (Bool-cases (leb i.ready_at (now + wait))) [
          | inl due ↦ due-ends q i rest true e (now + wait) due
          | inr later ↦ over-ends _ true e (now + wait) (ground (arith, later))
        ])
      ]

  take_first-NextEnds :
      (q : PriorityDelayQueue J) (ready : List (QueueItem J)) (r : Round J) (block : Bool)
      (e now : ℕ)
      → NextEnds block e now (q, r)
      → NextEnds block e now (take_first q ready r)
  unfolding take_first
  take_first-NextEnds q [] r block e now h = h
  take_first-NextEnds q (i ∷ ready) r block e now h = tt

  round-NextEnds :
      (q : PriorityDelayQueue J) (block : Bool) (e now : ℕ)
      → NextEnds block e now (dequeue_round q block (some e) now now now)
  unfolding dequeue_round
  round-NextEnds q block e now =
      let q' = promote_scheduled now q in
      elim (Bool-cases (q.is_shutdown && (depth q == 0))) [
        | inl f ↦ simp f tt
        | inr f ↦ simp f (
            take_first-NextEnds q' q'.ready_heap _ block e now
              (nothing_ready-NextEnds q' q'.scheduled_heap block e now))
      ]

  two_rounds :
      (q : PriorityDelayQueue J) (r : Round J) (block : Bool) (e now : ℕ)
      → NextEnds block e now (q, r)
      → is_some (go_on q r (dequeue q block (some e) (next_turn r now))) ≡ true
  unfolding go_on dequeue
  two_rounds q (returned job) block e now h = refl
  two_rounds q (waiting none) block e now h = absurd h
  two_rounds q (waiting (some wait)) block e now h = go_on-ends _ _ _ h

  -- A call with a timeout returns. If no other thread wakes it, it needs at most two rounds: the first
  -- returns, or waits for a time that has an end, and the round at that end returns. Whatever the other
  -- threads do, it returns at the latest in the first round that reads the clock at or after the end
  -- time.
  pub dequeue-returns :
      (q : PriorityDelayQueue J) (block : Bool) (e now : ℕ) (before : List (Turn J)) (t : Turn J)
      (after : List (Turn J))
      → e ≤ t.check_time
      → (is_some (dequeue q block (some e) (two_turns q block e now)) ≡ true)
        × (is_some (dequeue q block (some e) (before ++ t ∷ after)) ≡ true)
  unfolding dequeue
  dequeue-returns q block e now before t after h = (
    two_rounds _ _ block e now (round-NextEnds q block e now),
    dequeue-over q block e before t after h,
  )
