-- ===== src/Gateway/Lifecycle.antt =====
-- The start and the end of the application (`lifespan`, `enqueue_reconciliation` and the health checks
-- of affiliate-reconciliation-backend/app/main.py, `create_queue` and the thread of
-- jobs/worker_reconciliation.py). The process keeps its globals from one run of `lifespan` to the
-- next; what may raise is an input.
use affiliate_platform.Prelude.{
  inr, inl, ◌⊎◌, ℤ, none, ◌&&◌, ◌+◌, String, some, if◌then◌else◌, ◌≡◌, Option, ℕ, true, false,
  Bool-cases, Bool, refl,
}
use affiliate_platform.RedisQueue.{RedisQueue, RedisClient, health_check}
use affiliate_platform.JobQueue.{PriorityDelayQueue, new_queue, EnqueueResult, enqueued}
use affiliate_platform.JobQueue
use affiliate_platform.Submissions.{ReconciliationJob}
use affiliate_platform.RedisQueue

-- The queue that was chosen.
pub data AnyQueue (S : Type 0) : Type 0 where
  in_memory : PriorityDelayQueue ReconciliationJob → AnyQueue S
  on_redis : RedisQueue S ReconciliationJob → AnyQueue S

-- The thread of the worker: how often one was started, whether it runs, and `_stop_event`, which
-- nothing clears.
pub record WorkerThread : Type 0 where
  pub started : ℕ
  pub is_alive : Bool
  pub stop_event : Bool

pub record Process (S : Type 0) : Type 0 where
  pub queue : Option (AnyQueue S)
  pub worker : Option WorkerThread

-- What a start meets: the configuration, whether the package is there, what the constructor of
-- `RedisQueue` makes, with none for an exception, and whether the tables can be created.
pub record Environment (S : Type 0) : Type 0 where
  pub use_redis : Bool
  pub redis_available : Bool
  pub redis_queue : Option (RedisQueue S ReconciliationJob)
  pub has_tables : Bool

unfoldable pub start : WorkerThread → WorkerThread
start w = if w.is_alive then w else record w { started = w.started + 1; is_alive = true }

unfoldable pub stop : WorkerThread → WorkerThread
stop w = record w { stop_event = true }

abbrev pub new_worker : WorkerThread
new_worker = record { started = 0; is_alive = false; stop_event = false }

module _ {S : Type 0} (client : RedisClient S ReconciliationJob) where
  abbrev pub if_alive : RedisQueue S ReconciliationJob × Bool → AnyQueue S
  if_alive (q, alive) = if alive then on_redis q else in_memory new_queue

  abbrev pub connected_queue : Option (RedisQueue S ReconciliationJob) → AnyQueue S
  connected_queue none = in_memory new_queue
  connected_queue (some q) = if_alive (health_check client q)

  unfoldable pub create_queue : Environment S → AnyQueue S
  unfolding health_check
  create_queue e =
      if e.use_redis && e.redis_available
      then connected_queue e.redis_queue
      else in_memory new_queue

  -- Up to `yield`, and whether it is reached.
  unfoldable pub startup : Environment S → Process S → Process S × Bool
  unfolding create_queue start
  startup e p =
      if e.has_tables
      then (record { queue = some (create_queue e); worker = some (start new_worker) }, true)
      else (p, false)

  -- The `finally` of `lifespan`.
  unfoldable pub shutdown : Process S → Process S
  unfolding stop
  shutdown p = record p { worker = elim p.worker [ none ↦ none | some w ↦ some (stop w) ] }

  abbrev pub worked : (Option (AnyQueue S) → Option (AnyQueue S)) → Process S × Bool → Process S
  worked work (p, true) = record p { queue = work p.queue }
  worked work (p, false) = p

  -- One run, with what the application does to the queue meanwhile.
  unfoldable pub lifespan :
      Environment S → (Option (AnyQueue S) → Option (AnyQueue S)) → Process S → Process S
  unfolding startup shutdown
  lifespan e work p = shutdown (worked work (startup e p))

  abbrev pub into_memory : EnqueueResult ReconciliationJob → Option (AnyQueue S)
  into_memory (enqueued q item) = some (in_memory q)
  into_memory (EnqueueResult.refused e) = none

  abbrev pub into_redis :
      RedisQueue S ReconciliationJob × Option JobQueue.EnqueueError → Option (AnyQueue S)
  into_redis (q, none) = some (on_redis q)
  into_redis (q, some e) = none

  -- `enqueue_reconciliation`; none stands for the exception.
  unfoldable pub enqueue_reconciliation :
      Option (AnyQueue S) → ℕ → ℕ → String → ℤ → Option (AnyQueue S)
  enqueue_reconciliation none now report_id priority delay = none
  enqueue_reconciliation (some (in_memory q)) now report_id priority delay = into_memory (
      JobQueue.enqueue q now (record { affiliate_report_id = report_id; priority = priority })
        priority delay)
  enqueue_reconciliation (some (on_redis q)) now report_id priority delay = into_redis (
      RedisQueue.enqueue client q now
        (record { affiliate_report_id = report_id; priority = priority }) priority delay)

-- The worker at the end, given the one at the start of the `finally`: none if there was none, else the
-- same thread, started as often and as alive, and asked to stop.
abbrev pub IsStopped : Option WorkerThread → Option WorkerThread → Type 0
IsStopped none w' = w' ≡ none
IsStopped (some w) w' =
    w' ≡ some (record { started = w.started; is_alive = w.is_alive; stop_event = true })

-- The end of a run: of the one worker of this run, or, if the start failed, of that of an earlier run.
abbrev pub EndMeans : {S : Type 0} → Environment S → Process S → Process S → Type 0
EndMeans e p p' =
    ((e.has_tables ≡ true)
      × (p'.worker ≡ some (record { started = 1; is_alive = true; stop_event = true })))
    ⊎ ((e.has_tables ≡ false) × (p'.queue ≡ p.queue) × IsStopped p.worker p'.worker)

stopped :
    (w : Option WorkerThread)
    → IsStopped w (elim w as (λ _. Option WorkerThread) [ none ↦ none | some v ↦ some (stop v) ])
unfolding stop
stopped none = refl
stopped (some w) = refl

-- The queue that a start chooses can be reached, or is in memory.
abbrev pub Serves : {S : Type 0} → RedisClient S ReconciliationJob → AnyQueue S → Type 0
Serves client (in_memory q) = q ≡ new_queue
Serves client (on_redis q) = (client.ping q.server ≡ true) × (q.is_redis_active ≡ true)

module _ {S : Type 0} (client : RedisClient S ReconciliationJob) where
  connected-Serves :
      (q : Option (RedisQueue S ReconciliationJob)) → Serves client (connected_queue client q)
  unfolding health_check
  connected-Serves none = refl
  connected-Serves (some q) = elim (Bool-cases (client.ping q.server)) [
    | inl e ↦ rw e (e, refl)
    | inr e ↦ rw e refl
  ]

  create_queue-Serves : (e : Environment S) → Serves client (create_queue client e)
  unfolding create_queue
  create_queue-Serves e = elim (Bool-cases (e.use_redis && e.redis_available)) [
    | inl h ↦ rw h (connected-Serves e.redis_queue)
    | inr h ↦ rw h refl
  ]

-- What a start does: with the tables there is a queue that serves, and the worker runs once; without
-- them the start fails and leaves the globals as they were.
abbrev pub StartMeans :
    {S : Type 0}
    → RedisClient S ReconciliationJob
    → Environment S
    → Process S
    → Process S × Bool
    → Type 0
StartMeans {S} client e p (p', yielded) =
    ((e.has_tables ≡ true)
      × (yielded ≡ true)
      × ((q : AnyQueue S) × (p'.queue ≡ some q) × Serves client q)
      × (p'.worker ≡ some (record { started = 1; is_alive = true; stop_event = false })))
    ⊎ ((e.has_tables ≡ false) × (yielded ≡ false) × (p' ≡ p))

module _ {S : Type 0} (client : RedisClient S ReconciliationJob) where
  startup-StartMeans :
      (e : Environment S) (p : Process S) → StartMeans client e p (startup client e p)
  unfolding startup start
  startup-StartMeans e p = elim (Bool-cases e.has_tables) [
    | inl h ↦
        rw h (inl (refl, refl, (create_queue client e, refl, create_queue-Serves client e), refl))
    | inr h ↦ rw h (inr (refl, refl, refl))
  ]

  lifespan-EndMeans :
      (e : Environment S) (work : Option (AnyQueue S) → Option (AnyQueue S)) (p : Process S)
      → EndMeans e p (lifespan client e work p)
  unfolding lifespan startup start shutdown stop
  lifespan-EndMeans e work p = elim (Bool-cases e.has_tables) [
    | inl h ↦ rw h (inl (refl, refl))
    | inr h ↦ rw h (inr (refl, refl, stopped p.worker))
  ]

-- A start with the tables gives the application a queue that can be reached, on Redis or in memory, and
-- one running worker, which stays the application's worker and is asked to stop at the end of the run.
-- A failed start changes nothing, and its end keeps the queue and asks the worker of an earlier run to
-- stop, if there is one.
pub lifespan-IsStopped :
    {S : Type 0} (client : RedisClient S ReconciliationJob) (e : Environment S)
    (work : Option (AnyQueue S) → Option (AnyQueue S)) (p : Process S)
    → StartMeans client e p (startup client e p) × EndMeans e p (lifespan client e work p)
lifespan-IsStopped client e work p =
    (startup-StartMeans client e p, lifespan-EndMeans client e work p)
