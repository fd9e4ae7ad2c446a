-- ===== src/RedisQueue/Client.antt =====
-- The state of the queue on Redis, and the interface to the client that it uses
-- (affiliate-reconciliation-backend/app/jobs/redis_queue.py).
use affiliate_platform.Tables.{IsIn}
use affiliate_platform.Prelude.{◌∷◌, Dict, some, Option, Bool, List, ℕ, ◌≡◌}
use affiliate_platform.JobQueue.{PriorityDelayQueue, QueueItem}

-- The calls on the ready list and the scheduled set; none stands for a RedisError. `zadd` takes the
-- ready time as the score, `zrangebyscore` the time up to which it looks, and `blpop` a timeout in
-- whole seconds.
pub record RedisClient (S J : Type 0) : Type 0 where
  pub ping : S → Bool
  pub lpush : S → QueueItem J → Option S
  pub zadd : S → QueueItem J → Option S
  pub zrangebyscore : S → ℕ → Option (List (QueueItem J))
  pub zrem : S → QueueItem J → Option S
  pub lpop : S → Option (S × Option (QueueItem J))
  pub blpop : S → Option ℕ → Option (S × Option (QueueItem J))
  pub llen : S → Option ℕ
  pub zcard : S → Option ℕ
  pub delete_ready : S → Option S
  pub delete_scheduled : S → Option S

-- `connected` says whether `_redis_client` is not None.
pub record RedisQueue (S J : Type 0) : Type 0 where
  pub server : S
  pub connected : Bool
  pub is_redis_active : Bool
  pub fallback_queue : PriorityDelayQueue J
  pub priority_map : Dict ℕ
  pub is_shutdown : Bool

-- What Redis documents of these calls, where they succeed: a ready list and a set of scheduled items
-- belong to a state, `lpush`, `lpop` and `blpop` work at the head of the list, and `zadd` adds its item.
pub record IsRedis (S J : Type 0) (client : RedisClient S J) : Type 0 where
  pub ready : S → List (QueueItem J)
  pub scheduled : S → List (QueueItem J)
  pub ready-lpush : (s t : S) (x : QueueItem J) → client.lpush s x ≡ some t → ready t ≡ x ∷ ready s
  pub scheduled-zadd : (s t : S) (x : QueueItem J) → client.zadd s x ≡ some t → IsIn x (scheduled t)
  pub ready-lpop :
      (s t : S) (x : QueueItem J) → client.lpop s ≡ some (t, some x) → ready s ≡ x ∷ ready t
  pub ready-blpop :
      (s t : S) (timeout : Option ℕ) (x : QueueItem J)
      → client.blpop s timeout ≡ some (t, some x)
      → ready s ≡ x ∷ ready t
