-- ===== src/Gateway/Examples.antt =====
-- Requests at the gateway.
use affiliate_platform.Prelude.{
  false, true, arith, ◌≤◌, ◌≡◌, refl, none, some, [], ◌∷◌, codes, length,
}
use affiliate_platform.Gateway.{
  Option, ℕ, List, Incoming, Served, answered, unexpected, Gateway, Response, category_of,
  setting_of, serve, serve_all,
}
use affiliate_platform.Gateway.Lifecycle.{
  Environment, Process, AnyQueue, StartMeans, EndMeans, startup, lifespan, lifespan-IsStopped,
}
use affiliate_platform.Config.{priorities}
use affiliate_platform.RedisQueue.{RedisClient}
use affiliate_platform.JobQueue.{new_queue}
use affiliate_platform.Submissions.{ReconciliationJob}
use affiliate_platform.Gateway.Admission.{serve_all-limit, is_in_window}
use affiliate_platform.Tables.{rows}
use affiliate_platform.Access.{bearer}

abbrev submission_at : ℕ → Incoming
submission_at now = record {
  path = codes "/api/v1/submissions/";
  method = codes "post";
  authorization = bearer "aff_1";
  discord_id = none;
  request_id = some "r1";
  new_id = "u1";
  now = now;
  process_time = "1.5";
  users = some [];
}

abbrev fine : Response
fine = record {
  status_code = 200;
  message = none;
  request_id = none;
  details = none;
  rate = none;
  headers = [];
}

-- The second request meets an exception.
abbrev once : List Incoming → Incoming → Served
once [] r = answered fine
once (first ∷ seen) r = unexpected

abbrev idle : Gateway
idle = record { buckets = []; seen = [] }

categories : category_of (codes "/api/v1/reconciliation/run") (codes "post") ≡ "recon_trigger"
unfolding category_of
categories = refl

reads : category_of (codes "/api/v1/reconciliation/queue") (codes "GET") ≡ "recon_query"
unfolding category_of
reads = refl

bare_error : (serve once (serve once idle (submission_at 5)).0 (submission_at 6)).1.headers ≡ []
unfolding serve
bare_error = refl

serve_all-limit_example :
    length (
      rows
        (is_in_window "aff_1" "submission" 0)
        (serve_all once idle (submission_at 5 ∷ submission_at 9 ∷ [])).seen)
    ≤ (setting_of "submission").limit
unfolding setting_of
serve_all-limit_example =
    serve_all-limit once "aff_1" "submission" 0 (submission_at 5 ∷ submission_at 9 ∷ []) refl
      (omega arith) (omega arith)

-- A server that answers a ping and no other call.
abbrev answering : RedisClient ℕ ReconciliationJob
answering = record {
  ping = λ s. true;
  lpush = λ s x. none;
  zadd = λ s x. none;
  zrangebyscore = λ s now. none;
  zrem = λ s x. none;
  lpop = λ s. none;
  blpop = λ s timeout. none;
  llen = λ s. none;
  zcard = λ s. none;
  delete_ready = λ s. none;
  delete_scheduled = λ s. none;
}

abbrev with_redis : Environment ℕ
with_redis = record {
  use_redis = true;
  redis_available = true;
  redis_queue = some (record {
    server = 0;
    connected = false;
    is_redis_active = false;
    fallback_queue = new_queue;
    priority_map = priorities;
    is_shutdown = false;
  });
  has_tables = true;
}

abbrev before : Process ℕ
before = record { queue = none; worker = none }

unchanged : Option (AnyQueue ℕ) → Option (AnyQueue ℕ)
unchanged q = q

lifespan-IsStopped_example :
    StartMeans answering with_redis before (startup answering with_redis before)
    × EndMeans with_redis before (lifespan answering with_redis unchanged before)
lifespan-IsStopped_example = lifespan-IsStopped answering with_redis unchanged before
