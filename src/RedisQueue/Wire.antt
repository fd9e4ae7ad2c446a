-- ===== src/RedisQueue/Wire.antt =====
-- The payloads of the queue on Redis, `_serialize_job` and `_deserialize_job` of
-- affiliate-reconciliation-backend/app/jobs/redis_queue.py. The texts of `json` are a parameter; the
-- values are what it parses, and one of another type than the field's, which Python would keep, is
-- none.
use affiliate_platform.Prelude.{
  ◌≡◌, refl, ℕ, Option, none, some, String, Bool, true, not, ◌&&◌, ◌||◌, same, if◌then◌else◌,
}
use affiliate_platform.JobQueue.{QueueItem}

-- Parsed JSON, as far as the payloads use it.
mutual
  pub data Json : Type 0 where
    null : Json
    number : ℕ → Json
    text : String → Json
    dict : Fields → Json

  pub data Fields : Type 0 where
    empty : Fields
    field : String → Json → Fields → Fields

-- `ReconciliationJob`, with all its fields.
pub record FullJob : Type 0 where
  pub affiliate_report_id : ℕ
  pub priority : String
  pub scheduled_at : Option ℕ
  pub correlation_id : Option String

-- The job of a payload: a reconciliation, or the dict of an unknown type.
pub data AnyJob : Type 0 where
  reconciliation : FullJob → AnyJob
  unknown : Fields → AnyJob

abbrev pub number_or_null : Option ℕ → Json
number_or_null none = null
number_or_null (some n) = number n

abbrev pub text_or_null : Option String → Json
text_or_null none = null
text_or_null (some s) = text s

abbrev pub job_fields : FullJob → Fields
job_fields job = field "affiliate_report_id" (number job.affiliate_report_id) (
    field "priority" (text job.priority) (
      field "scheduled_at" (number_or_null job.scheduled_at)
        (field "correlation_id" (text_or_null job.correlation_id) empty)))

-- `job_data` of `_serialize_job`.
unfoldable pub job_data : QueueItem FullJob → Json
job_data item = dict (
    field "job" (dict (job_fields item.job)) (
      field "job_type" (text "ReconciliationJob") (
        field "priority_label" (text item.priority_label) (
          field "priority_value" (number item.priority_value) (
            field "enqueued_at" (number item.enqueued_at)
              (field "ready_at" (number item.ready_at) (field "seq" (number item.seq) empty)))))))

unfoldable pub field_value : String → Fields → Option Json
field_value key empty = none
field_value key (field k j rest) = if same k key then some j else field_value key rest

abbrev pub as_number : Json → Option ℕ
as_number (number n) = some n
as_number _ = none

abbrev pub as_text : Json → Option String
as_text (text s) = some s
as_text _ = none

abbrev pub as_dict : Json → Option Fields
as_dict (dict f) = some f
as_dict _ = none

abbrev pub as_optional : {A : Type 0} → (Json → Option A) → Json → Option (Option A)
as_optional decode null = some none
as_optional decode j = elim (decode j) [ none ↦ none | some a ↦ some (some a) ]

-- A field, or its default.
abbrev pub value_or : {A : Type 0} → (Json → Option A) → Option A → String → Fields → Option A
value_or decode default key f = elim (field_value key f) [ none ↦ default | some j ↦ decode j ]

infixl 5 ◌>>=◌
abbrev pub ◌>>=◌ : {A B : Type 0} → Option A → (A → Option B) → Option B
none >>= f = none
some a >>= f = f a

-- The names of the parameters of `ReconciliationJob`.
unfoldable pub are_parameters : Fields → Bool
are_parameters empty = true
are_parameters (field k j rest) =
    (same k "affiliate_report_id"
      || (same k "priority" || (same k "scheduled_at" || same k "correlation_id")))
    && are_parameters rest

-- `ReconciliationJob(**job_dict)`: an unknown name and a missing report raise.
unfoldable pub job_of : Fields → Option FullJob
unfolding field_value are_parameters
job_of f = if not (are_parameters f) then none else do
  report_id ← value_or as_number none "affiliate_report_id" f
  priority ← value_or as_text (some "normal") "priority" f
  scheduled_at ← value_or (as_optional as_number) (some none) "scheduled_at" f
  correlation_id ← value_or (as_optional as_text) (some none) "correlation_id" f
  some (record {
    affiliate_report_id = report_id;
    priority = priority;
    scheduled_at = scheduled_at;
    correlation_id = correlation_id;
  })

-- The job, by the type that the payload names.
abbrev pub any_job : Option Json → Fields → Option AnyJob
any_job (some (text t)) f =
    if same t "ReconciliationJob"
    then (job_of f >>= λ job. some (reconciliation job))
    else some (unknown f)
any_job _ f = some (unknown f)

-- `_deserialize_job` of a parsed payload, at a time.
unfoldable pub item_of : ℕ → Json → Option (QueueItem AnyJob)
unfolding job_of field_value
item_of now j = do
  f ← as_dict j
  job_dict ← value_or as_dict (some empty) "job" f
  job ← any_job (field_value "job_type" f) job_dict
  label ← value_or as_text (some "normal") "priority_label" f
  value ← value_or as_number (some 5) "priority_value" f
  enqueued_at ← value_or as_number (some now) "enqueued_at" f
  ready_at ← value_or as_number (some now) "ready_at" f
  seq ← value_or as_number (some 0) "seq" f
  some (record {
    job = job;
    priority_label = label;
    priority_value = value;
    enqueued_at = enqueued_at;
    ready_at = ready_at;
    seq = seq;
  })

-- The item with its job as one of any type.
abbrev pub as_any : QueueItem FullJob → QueueItem AnyJob
as_any item = record {
  job = reconciliation item.job;
  priority_label = item.priority_label;
  priority_value = item.priority_value;
  enqueued_at = item.enqueued_at;
  ready_at = item.ready_at;
  seq = item.seq;
}

optional_number : (o : Option ℕ) → as_optional as_number (number_or_null o) ≡ some o
optional_number none = refl
optional_number (some n) = refl

optional_text : (o : Option String) → as_optional as_text (text_or_null o) ≡ some o
optional_text none = refl
optional_text (some s) = refl

job_of-job_fields : (job : FullJob) → job_of (job_fields job) ≡ some job
unfolding job_of
job_of-job_fields job =
    rw (optional_number job.scheduled_at) (rw (optional_text job.correlation_id) refl)

module _ (dumps : Json → String) (loads : String → Option Json) where
  unfoldable pub serialize_job : QueueItem FullJob → String
  unfolding job_data
  serialize_job item = dumps (job_data item)

  unfoldable pub deserialize_job : ℕ → String → Option (QueueItem AnyJob)
  unfolding item_of
  deserialize_job now payload = loads payload >>= item_of now

  -- If parsing the text of an item's payload gives back what was written, the item is read as it was,
  -- whenever it is read.
  pub deserialize_job-serialize_job :
      (now : ℕ) (item : QueueItem FullJob)
      → loads (dumps (job_data item)) ≡ some (job_data item)
      → deserialize_job now (serialize_job item) ≡ some (as_any item)
  unfolding deserialize_job serialize_job
  deserialize_job-serialize_job now item parses = rw parses (rw (job_of-job_fields item.job) refl)
