-- ===== src/RedisQueue/Taking.antt =====
-- `dequeue` of the queue on Redis, with the promotion of scheduled jobs
-- (affiliate-reconciliation-backend/app/jobs/redis_queue.py).
use affiliate_platform.Prelude.{
  ◌+◌, ◌/◌, [], ◌||◌, ◌==◌, ◌-◌, not, leb, none, some, if◌then◌else◌, ◌∷◌, ◌&&◌, false, Bool, true,
  Option, List, ℕ,
}
use affiliate_platform.JobQueue.{QueueItem}
use affiliate_platform.JobQueue
use affiliate_platform.RedisQueue.{RedisClient, RedisQueue, health_check, depth}

-- A job or None, or what `dequeue` of the fallback queue answers to the same arguments.
pub data Dequeued (J : Type 0) : Type 0 where
  answered : Option J → Dequeued J
  delegated : Dequeued J

-- The readings of the clock: at the start, at the check of the timeout, for the promotion, and for
-- what is left of the timeout.
pub record Clock : Type 0 where
  pub start : ℕ
  pub check : ℕ
  pub promotion : ℕ
  pub wait : ℕ

module _ {S J : Type 0} (client : RedisClient S J) where
  -- The loop of `_promote_scheduled`, up to the first error.
  unfoldable pub promote_each : S → List (QueueItem J) → S × Bool
  promote_each server [] = (server, true)
  promote_each server (x ∷ items) = elim (client.lpush server x) as (λ _. S × Bool) [
    | none ↦ (server, false)
    | some pushed ↦ elim (client.zrem pushed x) as (λ _. S × Bool) [
      | none ↦ (pushed, false)
      | some removed ↦ promote_each removed items
    ]
  ]

  abbrev pub promoted : RedisQueue S J → S × Bool → RedisQueue S J
  promoted q (server, fine) = record q {
    server = server;
    is_redis_active = q.is_redis_active && fine;
  }

  abbrev pub promote_due : RedisQueue S J → Option (List (QueueItem J)) → RedisQueue S J
  promote_due q none = record q { is_redis_active = false }
  promote_due q (some items) = promoted q (promote_each q.server items)

  unfoldable pub promote_scheduled : ℕ → RedisQueue S J → RedisQueue S J
  unfolding promote_each
  promote_scheduled now q =
      if not q.is_redis_active || not q.connected
      then q
      else promote_due q (client.zrangebyscore q.server now)

  -- What a pop gives: an error, nothing, or the job of an item.
  abbrev pub popped :
      RedisQueue S J → Option (S × Option (QueueItem J)) → RedisQueue S J × Dequeued J
  popped q none = (record q { is_redis_active = false }, delegated)
  popped q (some (server, none)) = (record q { server = server }, answered none)
  popped q (some (server, some item)) = (record q { server = server }, answered (some item.job))

  -- `int(remaining)`, from microseconds.
  abbrev pub whole_seconds : Option ℕ → Option ℕ
  whole_seconds none = none
  whole_seconds (some t) = some (t / 1000000)

  abbrev pub remaining_of : Option ℕ → ℕ → Option ℕ
  remaining_of none now = none
  remaining_of (some end_time) now = some (end_time - now)

  abbrev pub is_over : Option ℕ → Bool
  is_over none = false
  is_over (some t) = t == 0

  abbrev pub is_past : Option ℕ → ℕ → Bool
  is_past none now = false
  is_past (some end_time) now = leb end_time now

  abbrev pub end_of : ℕ → Option ℕ → Option ℕ
  end_of start none = none
  end_of start (some timeout) = some (start + timeout)

  abbrev pub pop : RedisQueue S J → Bool → Option ℕ → RedisQueue S J × Dequeued J
  pop q false remaining = popped q (client.lpop q.server)
  pop q true remaining =
      if is_over remaining
      then (q, answered none)
      else popped q (client.blpop q.server (whole_seconds remaining))

  abbrev pub take : RedisQueue S J → Bool → Option ℕ → Clock → RedisQueue S J × Dequeued J
  take q block end_time clock =
      let checked = (health_check client q).0 in
      if is_past end_time clock.check
      then (q, answered none)
      else if (health_check client q).1
      then pop (promote_scheduled clock.promotion checked) block (remaining_of end_time clock.wait)
      else (checked, delegated)

  unfoldable pub dequeue : RedisQueue S J → Bool → Option ℕ → Clock → RedisQueue S J × Dequeued J
  unfolding health_check depth promote_scheduled
  dequeue q block timeout clock =
      let counted = depth client q in
      if q.is_shutdown && counted.1 == 0
      then (counted.0, answered none)
      else take (if q.is_shutdown then counted.0 else q) block (end_of clock.start timeout) clock

  unfoldable pub shutdown : RedisQueue S J → RedisQueue S J
  shutdown q = record q { is_shutdown = true; fallback_queue = JobQueue.shutdown q.fallback_queue }

  -- `purge`: an error leaves what was not yet deleted.
  abbrev pub deleted_scheduled : RedisQueue S J → S → Option S → RedisQueue S J
  deleted_scheduled q server none = record q { server = server; is_redis_active = false }
  deleted_scheduled q server (some cleared) = record q { server = cleared }

  abbrev pub deleted : RedisQueue S J → Option S → RedisQueue S J
  deleted q none = record q { is_redis_active = false }
  deleted q (some server) = deleted_scheduled q server (client.delete_scheduled server)

  unfoldable pub purge : RedisQueue S J → RedisQueue S J
  unfolding health_check
  purge q =
      let emptied : RedisQueue S J = record q {
        fallback_queue = JobQueue.purge q.fallback_queue;
      } in
      let checked = (health_check client emptied).0 in
      if (health_check client emptied).1
      then deleted checked (client.delete_ready checked.server)
      else checked
