-- ===== src/RedisQueue/Examples.antt =====
-- Tests and examples on the queue on Redis, with a server in memory.
use affiliate_platform.Prelude.{
  same, String, max_ℤ, false, inl, ◌&&◌, sym, ◌==◌, pos, lookup, ap, leb, if◌then◌else◌, length,
  none, [], ◌∷◌, Option, List, true, some, ℕ, ◌≡◌, refl,
}
use affiliate_platform.RedisQueue.Wire.{
  Json, null, number, text, dict, empty, field, FullJob, unknown, job_data, item_of, serialize_job,
  deserialize_job, as_any, deserialize_job-serialize_job,
}
use affiliate_platform.RedisQueue.Status.{snapshot}
use affiliate_platform.RedisQueue.Stack.{dequeue-enqueue}
use affiliate_platform.Config.{priorities}
use affiliate_platform.RedisQueue.Taking.{answered, Clock, whole_seconds, dequeue}
use affiliate_platform.JobQueue
use affiliate_platform.JobQueue.{QueueItem, new_queue}
use affiliate_platform.RedisQueue.{redis_item, IsRedis, RedisClient, RedisQueue, enqueue}

record Server : Type 0 where
  ready : List (QueueItem ℕ)
  scheduled : List (QueueItem ℕ)

-- The jobs whose time has come.
abbrev due : ℕ → List (QueueItem ℕ) → List (QueueItem ℕ)
due now [] = []
due now (x ∷ items) = if leb x.ready_at now then x ∷ due now items else due now items

abbrev without : QueueItem ℕ → List (QueueItem ℕ) → List (QueueItem ℕ)
without x [] = []
without x (y ∷ items) = if x.seq == y.seq && x.job == y.job then items else y ∷ without x items

abbrev pop_head : Server → List (QueueItem ℕ) → Option (Server × Option (QueueItem ℕ))
pop_head s [] = some (s, none)
pop_head s (x ∷ items) = some (record s { ready = items }, some x)

abbrev memory : RedisClient Server ℕ
memory = record {
  ping = λ s. true;
  lpush = λ s x. some (record s { ready = x ∷ s.ready });
  zadd = λ s x. some (record s { scheduled = x ∷ s.scheduled });
  zrangebyscore = λ s now. some (due now s.scheduled);
  zrem = λ s x. some (record s { scheduled = without x s.scheduled });
  lpop = λ s. pop_head s s.ready;
  blpop = λ s timeout. pop_head s s.ready;
  llen = λ s. some (length s.ready);
  zcard = λ s. some (length s.scheduled);
  delete_ready = λ s. some (record s { ready = [] });
  delete_scheduled = λ s. some (record s { scheduled = [] });
}

some_inj : {A : Type 0} {a b : A} → some a ≡ some b → a ≡ b
some_inj e = cc

popped_head :
    (s t : Server) (x : QueueItem ℕ) (l : List (QueueItem ℕ))
    → pop_head s l ≡ some (t, some x)
    → l ≡ x ∷ t.ready
popped_head s t x [] e =
    absurd (
      let h : (s, none) ≡ (t, some x) = some_inj e in let k : none ≡ some x = ap (λ p. p.1) h in cc)
popped_head s t x (y ∷ items) e =
    let h : (record s { ready = items }, some y) ≡ (t, some x) = some_inj e in
    let u : items ≡ t.ready = ap (λ p. p.0.ready) h in
    let v : y ≡ x = some_inj (ap (λ p. p.1) h) in rw (u, v)

memory_laws : IsRedis Server ℕ memory
memory_laws = record {
  ready = λ s. s.ready;
  scheduled = λ s. s.scheduled;
  ready-lpush = λ s t x e. sym (ap (λ v. v.ready) (some_inj e));
  scheduled-zadd = λ s t x e. rw (← (ap (λ v. v.scheduled) (some_inj e))) (inl refl);
  ready-lpop = λ s t x e. popped_head s t x s.ready e;
  ready-blpop = λ s t timeout x e. popped_head s t x s.ready e;
}

abbrev on_redis : RedisQueue Server ℕ
on_redis = record {
  server = record { ready = []; scheduled = [] };
  connected = true;
  is_redis_active = true;
  fallback_queue = new_queue;
  priority_map = priorities;
  is_shutdown = false;
}

-- The job with the highest priority is put in first, and comes out last.
abbrev after_high : RedisQueue Server ℕ
after_high = (enqueue memory on_redis 0 7 "high" (pos 0)).0

abbrev clock : Clock
clock = record { start = 5; check = 5; promotion = 5; wait = 5 }

high_waits :
    (dequeue memory (enqueue memory after_high 1 8 "low" (pos 0)).0 false none clock).1
    ≡ answered (some 8)
unfolding enqueue dequeue lookup max_ℤ
high_waits = refl

-- Less than a second is left, so that `blpop` is called with a timeout of 0, which waits for ever.
no_whole_second : whole_seconds memory (some 999999) ≡ some 0
no_whole_second = refl

dequeue-enqueue_example :
    (dequeue memory (enqueue memory on_redis 1 8 "low" (pos 0)).0 true (some 2000000) clock).1
    ≡ answered (some 8)
unfolding lookup
dequeue-enqueue_example =
    dequeue-enqueue memory memory_laws on_redis 1 8 "low" 10 true (some 2000000) clock
      (record { ready = redis_item memory 1 8 "low" 10 (pos 0) ∷ []; scheduled = [] })
      (record { ready = []; scheduled = [] }) (redis_item memory 1 8 "low" 10 (pos 0)) refl
      (refl, refl) refl refl refl (refl, refl) refl

-- A snapshot of the server, and one while it does not answer.
snapshots :
    ((snapshot memory on_redis).1
      ≡ record { depth = 0; ready = 0; scheduled = 0; shutdown = false; redis_active = true })
    × ((snapshot (record memory { ping = λ s. false }) on_redis).1
        ≡ record { depth = 0; ready = 0; scheduled = 0; shutdown = false; redis_active = false })
unfolding snapshot JobQueue.depth
snapshots = (refl, refl)

abbrev stored_job : QueueItem FullJob
stored_job = record {
  job = record {
    affiliate_report_id = 7;
    priority = "high";
    scheduled_at = none;
    correlation_id = some "c1";
  };
  priority_label = "high";
  priority_value = 0;
  enqueued_at = 5;
  ready_at = 5;
  seq = 1;
}

-- A text of the item's payload.
abbrev payload_text : Json → String
payload_text j = "{job: 7}"

abbrev payload_value : String → Option Json
payload_value s = if same s "{job: 7}" then some (job_data stored_job) else none

deserialize_job-serialize_job_example :
    deserialize_job payload_text payload_value 9
      (serialize_job payload_text payload_value stored_job)
    ≡ some (as_any stored_job)
deserialize_job-serialize_job_example =
    deserialize_job-serialize_job payload_text payload_value 9 stored_job refl

-- Fields that are missing get their defaults; a name that the class does not know is an error.
payloads_read :
    (item_of 9 (dict (field "job_type" (text "Other") empty))
      ≡ some (record {
        job = unknown empty;
        priority_label = "normal";
        priority_value = 5;
        enqueued_at = 9;
        ready_at = 9;
        seq = 0;
      }))
    × (item_of 9 (
          dict (
            field "job_type" (text "ReconciliationJob") (
              field "job"
                (dict (field "affiliate_report_id" (number 7) (field "extra" null empty)))
                empty)))
        ≡ none)
unfolding item_of
payloads_read = (refl, refl)
