-- ===== src/RedisQueue.antt =====
-- The queue on Redis (affiliate-reconciliation-backend/app/jobs/redis_queue.py), with its in-memory
-- fallback. The Redis client is a parameter: a state S of the server and the operations that the
-- queue calls, of which any may raise an error. A payload is the item that its JSON text encodes.
pub mod Client
pub mod Taking
pub mod Wire
unfoldable pub use Client.*
use affiliate_platform.Prelude.{
  ◌/◌, pos, lookup, max_ℤ, none, leb, pos_part, some, ◌||◌, ◌+◌, if◌then◌else◌, false, Bool, ℤ,
  String, Option, ℕ,
}
use affiliate_platform.JobQueue.{
  enqueued, EnqueueError, EnqueueResult, QueueItem, queue_shutdown, unknown_priority,
}
use affiliate_platform.RedisQueue.Client.{RedisQueue, RedisClient}
use affiliate_platform.JobQueue
pub mod Stack
pub mod Custody
pub mod Status
mod Examples

module _ {S J : Type 0} (client : RedisClient S J) where
  -- `health_check`: the connection is made again if there is none, and the answer is that of `ping`.
  unfoldable pub health_check : RedisQueue S J → RedisQueue S J × Bool
  health_check q =
      let alive = client.ping q.server in
      (record q { connected = q.connected || alive; is_redis_active = alive }, alive)

  abbrev pub lost : RedisQueue S J → RedisQueue S J
  lost q = record q { is_redis_active = false }

  -- Both counts, or none after an error.
  abbrev pub sum_of : Option ℕ → Option ℕ → Option ℕ
  sum_of (some m) (some n) = some (m + n)
  sum_of _ _ = none

  abbrev pub depth_of : RedisQueue S J → Option ℕ → RedisQueue S J × ℕ
  depth_of q (some n) = (q, n)
  depth_of q none = (lost q, JobQueue.depth q.fallback_queue)

  unfoldable pub depth : RedisQueue S J → RedisQueue S J × ℕ
  unfolding health_check
  depth q =
      let checked = (health_check q).0 in
      if (health_check q).1
      then depth_of checked (sum_of (client.llen checked.server) (client.zcard checked.server))
      else (checked, JobQueue.depth q.fallback_queue)

  -- The item of a job; `seq` is the time in milliseconds.
  abbrev pub redis_item : ℕ → J → String → ℕ → ℤ → QueueItem J
  redis_item now job priority value delay = record {
    job = job;
    priority_label = priority;
    priority_value = value;
    enqueued_at = now;
    ready_at = now + pos_part (max_ℤ (pos 0) delay);
    seq = now / 1000;
  }

  abbrev pub in_fallback : RedisQueue S J → EnqueueResult J → RedisQueue S J × Option EnqueueError
  in_fallback q (enqueued f item) = (record q { fallback_queue = f }, none)
  in_fallback q (EnqueueResult.refused e) = (q, some e)

  abbrev pub fall_back : RedisQueue S J → ℕ → J → String → ℤ → RedisQueue S J × Option EnqueueError
  fall_back q now job priority delay =
      in_fallback q (JobQueue.enqueue q.fallback_queue now job priority delay)

  -- Behind the write: the depth is read for a warning.
  abbrev pub written :
      RedisQueue S J → ℕ → J → String → ℤ → Option S → RedisQueue S J × Option EnqueueError
  written q now job priority delay none = fall_back (lost q) now job priority delay
  written q now job priority delay (some server) = ((depth (record q { server = server })).0, none)

  abbrev pub enqueue_known :
      RedisQueue S J → ℕ → J → String → ℤ → Option ℕ → RedisQueue S J × Option EnqueueError
  enqueue_known q now job priority delay none = (q, some unknown_priority)
  enqueue_known q now job priority delay (some value) =
      let item = redis_item now job priority value delay in
      let checked = (health_check q).0 in
      if (health_check q).1
      then written checked now job priority delay (
          if leb item.ready_at now
          then client.lpush checked.server item
          else client.zadd checked.server item)
      else fall_back checked now job priority delay

  unfoldable pub enqueue :
      RedisQueue S J → ℕ → J → String → ℤ → RedisQueue S J × Option EnqueueError
  unfolding health_check depth
  enqueue q now job priority delay =
      if q.is_shutdown
      then (q, some queue_shutdown)
      else enqueue_known q now job priority delay (lookup priority q.priority_map)
