-- ===== src/RedisQueue/Stack.antt =====
-- The order in which the queue on Redis serves its jobs
-- (affiliate-reconciliation-backend/app/jobs/redis_queue.py).
use mathlib.Core.Path.{subst}
use affiliate_platform.Prelude.{
  le→leb, ap, ◌∙◌, arith, sym, leb, inr, ◌||◌, inl, pos, lookup, String, Bool-cases, max_ℤ, Bool,
  Option, none, ◌∷◌, false, [], some, true, ℕ, ◌≡◌, refl,
}
use affiliate_platform.RedisQueue.Taking.{
  answered, promote_each, promote_scheduled, dequeue, Clock, is_past, is_over, remaining_of, end_of,
  whole_seconds,
}
use affiliate_platform.RedisQueue.{
  redis_item, depth_of, QueueItem, RedisClient, RedisQueue, health_check, depth, IsRedis, enqueue,
}

or_true : (b : Bool) → (b || true) ≡ true
or_true true = refl
or_true false = refl

module _ {S J : Type 0} (client : RedisClient S J) (laws : IsRedis S J client) where
  -- Redis answers, and nothing scheduled is due.
  abbrev pub IsQuiet : S → ℕ → Type 0
  IsQuiet s now = (client.ping s ≡ true) × (client.zrangebyscore s now ≡ some [])

  -- The timeout, if there is one, is not over when the clock is read.
  abbrev pub IsInTime : Option ℕ → Clock → Type 0
  IsInTime timeout clock =
      (is_past client (end_of client clock.start timeout) clock.check ≡ false)
      × (is_over client (remaining_of client (end_of client clock.start timeout) clock.wait)
          ≡ false)

  -- The pop that a call makes, blocking or not, takes an item.
  abbrev pub Pops : S → Bool → Option ℕ → Clock → S → QueueItem J → Type 0
  Pops s false timeout clock t x = client.lpop s ≡ some (t, some x)
  Pops s true timeout clock t x =
      client.blpop s
        (whole_seconds client (remaining_of client (end_of client clock.start timeout) clock.wait))
      ≡ some (t, some x)

  -- What a call takes is the head of the ready list.
  pub dequeue-head :
      (q : RedisQueue S J) (block : Bool) (timeout : Option ℕ) (clock : Clock) (t : S)
      (x : QueueItem J)
      → q.is_shutdown ≡ false
      → IsInTime timeout clock
      → IsQuiet q.server clock.promotion
      → Pops q.server block timeout clock t x
      → (laws.ready q.server ≡ x ∷ laws.ready t)
        × ((dequeue client q block timeout clock).1 ≡ answered (some x.job))
        × ((dequeue client q block timeout clock).0.server ≡ t)
  unfolding dequeue health_check promote_scheduled promote_each
  dequeue-head q false timeout clock t x up time quiet e = (
    laws.ready-lpop q.server t x e,
    rw (up, time.0, quiet.0, or_true q.connected, quiet.1, e),
    rw (up, time.0, quiet.0, or_true q.connected, quiet.1, e),
  )
  dequeue-head q true timeout clock t x up time quiet e = (
    laws.ready-blpop q.server t _ x e,
    rw (up, time.0, quiet.0, or_true q.connected, quiet.1, time.1, e),
    rw (up, time.0, quiet.0, or_true q.connected, quiet.1, time.1, e),
  )

  Pops-at :
      (s s' : S) (block : Bool) (timeout : Option ℕ) (clock : Clock) (t : S) (x : QueueItem J)
      → s ≡ s'
      → Pops s' block timeout clock t x
      → Pops s block timeout clock t x
  Pops-at s s' block timeout clock t x e p = subst (λ u. Pops u block timeout clock t x) (sym e) p

  depth_of-server :
      (q : RedisQueue S J) (o : Option ℕ)
      → ((depth_of client q o).0.server ≡ q.server)
        × ((depth_of client q o).0.is_shutdown ≡ q.is_shutdown)
  depth_of-server q none = (refl, refl)
  depth_of-server q (some n) = (refl, refl)

  pub depth-server :
      (q : RedisQueue S J)
      → ((depth client q).0.server ≡ q.server) × ((depth client q).0.is_shutdown ≡ q.is_shutdown)
  unfolding depth health_check
  depth-server q = elim (Bool-cases (client.ping q.server)) [
    | inl e ↦ rw e (depth_of-server _ _)
    | inr e ↦ rw e (refl, refl)
  ]

  -- An enqueue that Redis takes pushes the item, whatever its priority.
  enqueue-pushed :
      (q : RedisQueue S J) (now : ℕ) (job : J) (priority : String) (value : ℕ) (s : S)
      → q.is_shutdown ≡ false
      → lookup priority q.priority_map ≡ some value
      → client.ping q.server ≡ true
      → client.lpush q.server (redis_item client now job priority value (pos 0)) ≡ some s
      → ((enqueue client q now job priority (pos 0)).0.server ≡ s)
        × ((enqueue client q now job priority (pos 0)).0.is_shutdown ≡ false)
  unfolding enqueue health_check max_ℤ
  enqueue-pushed q now job priority value s up known alive e =
      let due : leb (redis_item client now job priority value (pos 0)).ready_at now ≡ true =
        le→leb _ now (omega arith) in
      rw (up, known, alive, due, e)
        (depth-server (record q {
          server = s;
          connected = q.connected || true;
          is_redis_active = true;
          is_shutdown = false;
        }))

  -- With Redis answering and nothing scheduled due, the job that was put in last and without a delay
  -- comes out first, whatever its priority and whatever jobs of higher priority were there before,
  -- for a blocking and a non-blocking call, without a timeout and with one that is not over, if its
  -- pop takes a job: Redis is used as a stack.
  pub dequeue-enqueue :
      (q : RedisQueue S J) (now : ℕ) (job : J) (priority : String) (value : ℕ) (block : Bool)
      (timeout : Option ℕ) (clock : Clock) (s t : S) (x : QueueItem J)
      → q.is_shutdown ≡ false
      → IsInTime timeout clock
      → lookup priority q.priority_map ≡ some value
      → client.ping q.server ≡ true
      → client.lpush q.server (redis_item client now job priority value (pos 0)) ≡ some s
      → IsQuiet s clock.promotion
      → Pops s block timeout clock t x
      → (dequeue client (enqueue client q now job priority (pos 0)).0 block timeout clock).1
        ≡ answered (some job)
  dequeue-enqueue q now job priority value block timeout clock s t x up time known alive e quiet p =
      let item = redis_item client now job priority value (pos 0) in
      let pushed = enqueue-pushed q now job priority value s up known alive e in
      let q' = (enqueue client q now job priority (pos 0)).0 in
      let out =
        dequeue-head q' block timeout clock t x pushed.1 time (rw pushed.0 quiet)
          (Pops-at q'.server s block timeout clock t x pushed.0 p) in
      let head : item ∷ laws.ready q.server ≡ x ∷ laws.ready t =
        sym (laws.ready-lpush q.server s item e) ∙ ap laws.ready (sym pushed.0) ∙ out.0 in
      let same_item : item ≡ x = cc in out.1 ∙ ap (λ y. answered (some y.job)) (sym same_item)
