-- ===== src/RedisQueue/Custody.antt =====
-- Where a job is after `enqueue`, and which jobs `dequeue` cannot reach
-- (affiliate-reconciliation-backend/app/jobs/redis_queue.py).
use affiliate_platform.Prelude.{
  false, true, if◌then◌else◌, Bool, leb, lookup, ap, ◌∙◌, inr, inl, Option-cases, none, ◌⊎◌, some,
  ◌+◌, ℤ, Option, String, ℕ, ◌≡◌, refl,
}
use affiliate_platform.JobQueue.{
  queue_shutdown, enqueued, EnqueueResult, EnqueueError, QueueItem, PriorityDelayQueue,
}
use affiliate_platform.RedisQueue.Stack.{depth-server}
use affiliate_platform.JobQueue.Invariant.{enqueue_outcome, EnqueueMeans, Inv}
use affiliate_platform.Tables.{IsIn}
use affiliate_platform.RedisQueue.{
  redis_item, enqueue_known, lost, written, in_fallback, fall_back, RedisClient, RedisQueue,
  health_check, IsRedis, enqueue,
}
use affiliate_platform.JobQueue

module _ {S J : Type 0} (client : RedisClient S J) (laws : IsRedis S J client) where
  -- One more job in the fallback queue, or an item with the job on Redis.
  abbrev pub IsKept : RedisQueue S J → J → RedisQueue S J → Type 0
  IsKept q job q' =
      (JobQueue.depth q'.fallback_queue ≡ JobQueue.depth q.fallback_queue + 1)
      ⊎ ((x : QueueItem J) × (x.job ≡ job)
          × (IsIn x (laws.ready q'.server) ⊎ IsIn x (laws.scheduled q'.server)))

  -- What `enqueue` answers, with the job's place or the reason.
  abbrev pub EnqueueKeeps : RedisQueue S J → J → RedisQueue S J × Option EnqueueError → Type 0
  EnqueueKeeps q job (q', none) = IsKept q job q'
  EnqueueKeeps q job (q', some e) = q'.fallback_queue ≡ q.fallback_queue

  EnqueueKeeps-in_fallback :
      (q p : RedisQueue S J) (now : ℕ) (job : J) (priority : String) (delay : ℤ)
      (r : EnqueueResult J)
      → p.fallback_queue ≡ q.fallback_queue
      → EnqueueMeans p.fallback_queue now job priority delay r
      → EnqueueKeeps q job (in_fallback client p r)
  EnqueueKeeps-in_fallback q p now job priority delay (enqueued f item) e m =
      inl (m.4 ∙ ap (λ d. JobQueue.depth d + 1) e)
  EnqueueKeeps-in_fallback q p now job priority delay (EnqueueResult.refused reason) e m = e

  EnqueueKeeps-fall_back :
      (q p : RedisQueue S J) (now : ℕ) (job : J) (priority : String) (delay : ℤ)
      → p.fallback_queue ≡ q.fallback_queue
      → Inv p.fallback_queue
      → EnqueueKeeps q job (fall_back client p now job priority delay)
  EnqueueKeeps-fall_back q p now job priority delay e h =
      EnqueueKeeps-in_fallback q p now job priority delay _ e
        (enqueue_outcome p.fallback_queue now job priority delay h)

  -- A write that succeeded put the item into the ready list or the scheduled set.
  abbrev pub IsWritten : QueueItem J → Option S → Type 0
  IsWritten x none = Unit
  IsWritten x (some s) = IsIn x (laws.ready s) ⊎ IsIn x (laws.scheduled s)

  IsWritten-lpush : (x : QueueItem J) (s : S) → IsWritten x (client.lpush s x)
  IsWritten-lpush x s = elim (Option-cases (client.lpush s x)) [
    | inl e ↦ rw e tt
    | inr (t, e) ↦ rw e (inl (rw (laws.ready-lpush s t x e) (inl refl)))
  ]

  IsWritten-zadd : (x : QueueItem J) (s : S) → IsWritten x (client.zadd s x)
  IsWritten-zadd x s = elim (Option-cases (client.zadd s x)) [
    | inl e ↦ rw e tt
    | inr (t, e) ↦ rw e (inr (laws.scheduled-zadd s t x e))
  ]

  EnqueueKeeps-written :
      (q p : RedisQueue S J) (now : ℕ) (job : J) (priority : String) (delay : ℤ) (x : QueueItem J)
      (o : Option S)
      → p.fallback_queue ≡ q.fallback_queue
      → Inv p.fallback_queue
      → x.job ≡ job
      → IsWritten x o
      → EnqueueKeeps q job (written client p now job priority delay o)
  EnqueueKeeps-written q p now job priority delay x none e h j w =
      EnqueueKeeps-fall_back q (lost client p) now job priority delay e h
  EnqueueKeeps-written q p now job priority delay x (some s) e h j w =
      inr (x, j, rw (depth-server client laws (record p { server = s })).0 w)

  EnqueueKeeps-if :
      (q : RedisQueue S J) (job : J) (b : Bool) (r t : RedisQueue S J × Option EnqueueError)
      → EnqueueKeeps q job r
      → EnqueueKeeps q job t
      → EnqueueKeeps q job (if b then r else t)
  EnqueueKeeps-if q job true r t h k = h
  EnqueueKeeps-if q job false r t h k = k

  IsWritten-if :
      (x : QueueItem J) (b : Bool) (r t : Option S)
      → IsWritten x r
      → IsWritten x t
      → IsWritten x (if b then r else t)
  IsWritten-if x true r t h k = h
  IsWritten-if x false r t h k = k

  EnqueueKeeps-known :
      (q : RedisQueue S J) (now : ℕ) (job : J) (priority : String) (delay : ℤ) (o : Option ℕ)
      → Inv q.fallback_queue
      → EnqueueKeeps q job (enqueue_known client q now job priority delay o)
  unfolding health_check
  EnqueueKeeps-known q now job priority delay none h = refl
  EnqueueKeeps-known q now job priority delay (some value) h =
      let item = redis_item client now job priority value delay in
      let checked = (health_check client q).0 in
      EnqueueKeeps-if q job (health_check client q).1 _ _
        (EnqueueKeeps-written q checked now job priority delay item _ refl h refl (
          IsWritten-if item (leb item.ready_at now) _ _ (IsWritten-lpush item checked.server)
            (IsWritten-zadd item checked.server)))
        (EnqueueKeeps-fall_back q checked now job priority delay refl h)

  -- A job for which `enqueue` raises no exception is kept: its item is in the ready list or the
  -- scheduled set of Redis, or the fallback queue, which was well-formed, has one job more. An
  -- exception leaves the fallback queue as it was.
  pub enqueue-EnqueueKeeps :
      (q : RedisQueue S J) (now : ℕ) (job : J) (priority : String) (delay : ℤ)
      → Inv q.fallback_queue
      → EnqueueKeeps q job (enqueue client q now job priority delay)
  unfolding enqueue
  enqueue-EnqueueKeeps q now job priority delay h =
      EnqueueKeeps-if q job q.is_shutdown (q, some queue_shutdown) _ refl
        (EnqueueKeeps-known q now job priority delay (lookup priority q.priority_map) h)
