-- ===== src/RedisQueue/Status.antt =====
-- `snapshot` of the queue on Redis (affiliate-reconciliation-backend/app/jobs/redis_queue.py), without
-- the address of the server.
use affiliate_platform.Prelude.{
  ◌≡◌, refl, ℕ, ◌+◌, Bool, true, false, Option, none, some, length, Bool-cases, inl, inr,
  if◌then◌else◌,
}
use affiliate_platform.JobQueue
use affiliate_platform.JobQueue.{PriorityDelayQueue}
use affiliate_platform.RedisQueue.{
  RedisClient, RedisQueue, health_check, lost, depth, depth_of, sum_of,
}

pub record RedisSnapshot : Type 0 where
  pub depth : ℕ
  pub ready : ℕ
  pub scheduled : ℕ
  pub shutdown : Bool
  pub redis_active : Bool

-- The snapshot of the in-memory queue, marked as not active.
abbrev pub fallback_snapshot : {J : Type 0} → PriorityDelayQueue J → RedisSnapshot
fallback_snapshot q = record {
  depth = JobQueue.depth q;
  ready = length q.ready_heap;
  scheduled = length q.scheduled_heap;
  shutdown = q.is_shutdown;
  redis_active = false;
}

module _ {S J : Type 0} (client : RedisClient S J) where
  -- The snapshot of the counts of both structures, of which none is an error.
  abbrev pub counted_both : RedisQueue S J → Option ℕ → Option ℕ → RedisQueue S J × RedisSnapshot
  counted_both q (some ready) (some scheduled) = (
    q,
    record {
      depth = ready + scheduled;
      ready = ready;
      scheduled = scheduled;
      shutdown = q.is_shutdown;
      redis_active = true;
    },
  )
  counted_both q _ _ = (lost client q, fallback_snapshot q.fallback_queue)

  unfoldable pub snapshot : RedisQueue S J → RedisQueue S J × RedisSnapshot
  unfolding health_check
  snapshot q =
      let (checked, alive) = health_check client q in
      if alive
      then counted_both checked (client.llen checked.server) (client.zcard checked.server)
      else (checked, fallback_snapshot q.fallback_queue)

  -- What a snapshot adds to the depth: its parts add up to it.
  abbrev pub AddsUp : RedisQueue S J × RedisSnapshot → RedisQueue S J × ℕ → Type 0
  AddsUp (q, s) (q', n) = (q ≡ q') × (s.depth ≡ n) × (s.depth ≡ s.ready + s.scheduled)

  counted_both-AddsUp :
      (q : RedisQueue S J) (m n : Option ℕ)
      → AddsUp (counted_both q m n) (depth_of client q (sum_of client m n))
  unfolding JobQueue.depth
  counted_both-AddsUp q none none = (refl, refl, refl)
  counted_both-AddsUp q none (some n) = (refl, refl, refl)
  counted_both-AddsUp q (some m) none = (refl, refl, refl)
  counted_both-AddsUp q (some m) (some n) = (refl, refl, refl)

  -- A snapshot leaves the queue as `depth` leaves it and shows its depth, which is the sum of the ready
  -- and the scheduled jobs, on Redis and in the fallback, after an error, too.
  pub snapshot-AddsUp : (q : RedisQueue S J) → AddsUp (snapshot q) (depth client q)
  unfolding snapshot depth JobQueue.depth
  snapshot-AddsUp q = elim (Bool-cases (client.ping q.server)) [
    | inl e ↦ rw e (counted_both-AddsUp _ (client.llen q.server) (client.zcard q.server))
    | inr e ↦ rw e (refl, refl, refl)
  ]
