-- ===== src/Lib.antt =====
-- A model of the affiliate reconciliation platform (affiliate-reconciliation-backend/app): affiliates
-- claim views, clicks and conversions for a post, the platform's own numbers are fetched, the two are
-- compared, and the user's trust score, a retry and alerts follow from the outcome.
--
-- How the parts interact. A request is counted against the limit of its key and passed to an endpoint,
-- whose answer or exception becomes the response. A submission, sent by the affiliate or by the Discord
-- bot, is authenticated, its link is cleaned and checked against the platform, its claim is checked for
-- anomalies, and the report is stored and put into the job queue with a priority that depends on the
-- user's trust and on the anomalies. A worker takes a job out and runs a
-- reconciliation: the platform is asked, unless its circuit breaker is open, with a backoff between
-- attempts; the classifier compares the claim with the answer, after an allowance for growth since the
-- submission, and names a trust event, which moves the trust score. Administrators keep the clients,
-- users and campaigns, resolve alerts, trigger reconciliations again and read their results and the
-- analytics of a campaign.
--
-- The files, and the code that they model:
--   Config        config.py, the constants that the others read; Environment is what it parses
--   Enums         models/db/enums.py
--   RateLimiter   utils/ratelimiter.py: the dict of dicts of buckets is an association list of such
--                 lists; check_and_increment and get_state take the clock as an argument
--   Breaker       utils/circuit_breaker.py: allow_call, record_success and record_failure on the dict of
--                 states; allow, succeed and fail are the same on the state of one platform
--   Trust         services/trust_scoring.py and utils/priority.py
--   Metrics       utils/metrics.py and utils/backoff.py
--   Classifier    services/discrepancy_classifier.py: classify, its blocks as functions of their own
--   JobQueue      jobs/queue.py: enqueue, dequeue, shutdown and purge on the two heaps
--   Alerting      services/alerting.py: maybe_create_alert on the table of alerts
--   Engine        services/reconciliation_engine.py: run_reconciliation on a report and the rows reached
--                 from it; schedule_retry is _schedule_retry, score_user the trust block, update_log the
--                 block that writes the log; Engine/Fetches joins the run with the fetch that it makes
--   Access        api/deps.py: the dependencies that authenticate a request and check its role; queries
--                 take the first row of a table that passes the filter
--   Fetcher       services/platform_fetcher.py: fetch on the breaker and a sequence of adapter calls; its
--                 loop has as many attempts as are configured, so that it always ends
--   Quality       services/data_quality_validators.py: the rules, and evaluate_submission for the latest
--                 report of the post
--   Tables        models/db: the rows that the endpoints read and write, and the queries on a table
--   Links         utils/link_processing.py, and normalize_reddit_link of integrations/reddit.py; its
--                 child Urls is what they use of urllib.parse, without its check of bracketed hosts
--   Submissions   api/v1/endpoints/submissions.py: Creation is submit_post, Updates is
--                 update_post_metrics, Queries are the two histories, on the tables and the queue
--   RedisQueue    jobs/redis_queue.py: the queue over a client, which is a parameter, with its fallback;
--                 Taking is dequeue with the promotion of scheduled jobs, Wire the JSON of the payloads,
--                 Status the snapshot
--   Worker        jobs/worker_reconciliation.py and jobs/reconciliation_job.py: the loop on the
--                 in-memory queue
--   Accounts      api/v1/endpoints/clients.py, users.py, campaigns.py and platforms.py, on the
--                 tables with the constraints of models/db
--   Endpoints     api/v1/endpoints/alerts.py: Resolution and Statistics; reconciliation.py: Trigger is
--                 trigger_reconciliation, Results the results and the snapshot of the queue
--   Analytics     api/v1/endpoints/analytics.py: the queries of get_campaign_analytics as joins, sums and
--                 groups of lists
--   Gateway       main.py: a request's way through the rate limit, the request id and the exception
--                 handlers, with the router as a parameter; its child Lifecycle is lifespan, with
--                 create_queue and the thread of jobs/worker_reconciliation.py, Health the checks
--   Discord       services/discord_bot.py: the two commands with the request that each sends, and in its
--                 child Lifecycle the start and the end of the bot
--   Logging       utils/logger.py and observability.py: a call of the logger as the record that it hands over, or the
--                 exception that Python raises; its child Entries has the JSON entries and the handlers
--   Integrations  integrations: the mock of each platform and the service of platforms.py, on the
--                 schemas of models/schemas/platform.py
--   Prelude       numbers, lists, association lists, integers and fractions for all of them
--
-- Each component's child modules hold what is proved of it, and its Examples apply the theorems to
-- small inputs.
--
-- Numbers. Times are microseconds, scores and percentages of the configuration hundredths, and the
-- percentages that the classifier computes are exact fractions with a natural numerator and a positive
-- denominator, where the code has floats. The metrics of a report are natural numbers.
--
-- Loops. The loop of dequeue runs over a list of turns, which stand for the readings of the clock and
-- for what the other threads do while the call waits; a call with a timeout ends at the latest in the
-- first turn that reads the clock at or after the end time, whatever the list holds besides, and after
-- two turns if nobody wakes it.
--
-- What is an input: what the adapters of the fetcher answer, what the module random draws, the clocks,
-- and the identifiers of new rows. What is a parameter: random.uniform in the backoff, with its range as
-- the hypothesis; the replies of Reddit to the resolution of a share link; the Redis client, with the
-- documented effect of its calls on the ready list and the scheduled set as hypotheses; for the worker
-- the run of the engine; for the gateway what the router does with the requests that reach it; and for
-- the Discord bot what json and Python do with parsed values, and how the backend replies. How the
-- database orders rows that compare equal is a parameter of the results, and whether it enforces foreign
-- keys a field of the tables: PostgreSQL does, SQLite, the default, does not.
--
-- Texts. Where the program walks a text it is a list of code points, and letters are those of ASCII.
--
-- Not modelled: the web framework, the database and the Redis server, whose queries are those of lists;
-- threads and locks; the second try of a failed commit; the messages of validators. The calls of the
-- logger are left out where no argument is given twice, since they answer nothing.
pub mod Prelude
pub mod Logging
pub mod Config
pub mod RateLimiter
pub mod Breaker
pub mod Trust
pub mod Metrics
pub mod Enums
pub mod Classifier
pub mod Integrations
pub mod JobQueue
pub mod Alerting
pub mod Analytics
pub mod Engine
pub mod Access
pub mod Fetcher
pub mod Gateway
pub mod Quality
pub mod Tables
pub mod Links
pub mod Submissions
pub mod Worker
pub mod RedisQueue
pub mod Accounts
pub mod Discord
pub mod Endpoints
