-- ===== src/Logging.antt =====
-- The structured logger of affiliate-reconciliation-backend/app/utils/logger.py. The logging package
-- and json are left out: a call answers the record that it hands over, with none for the TypeError
-- that Python raises when one argument is given twice.
pub mod Entries
mod Examples
use affiliate_platform.Prelude.{
  lookup, Bool, true, false, not, ◌&&◌, ◌||◌, Option, none, some, List, [], ◌∷◌, ◌++◌, String, same,
  followed_by, Dict, insert, if◌then◌else◌, ℕ,
}

-- A value of a keyword argument, as far as the callers use them; others are shown as texts.
pub data LogValue : Type 0 where
  text : String → LogValue
  number : ℕ → LogValue
  flag : Bool → LogValue

pub data LogLevel : Type 0 where
  debug info warning error : LogLevel

-- What is handed to the logging package.
pub record LogCall (V : Type 0) : Type 0 where
  pub logger : String
  pub level : LogLevel
  pub message : String
  pub extra_data : Dict V

abbrev pub is_member : String → List String → Bool
is_member name [] = false
is_member name (n ∷ names) = same n name || is_member name names

abbrev pub are_distinct : List String → Bool
are_distinct [] = true
are_distinct (n ∷ names) = not (is_member n names) && are_distinct names

module _ {V : Type 0} where
  abbrev pub names_of : Dict V → List String
  names_of [] = []
  names_of ((name, v) ∷ d) = name ∷ names_of d

  -- `d.update(e)`.
  unfoldable pub update : Dict V → Dict V → Dict V
  update d [] = d
  update d ((name, v) ∷ e) = update (insert name v d) e

  -- The arguments that are not None.
  unfoldable pub given_values : Dict (Option V) → Dict V
  given_values [] = []
  given_values ((name, none) ∷ d) = given_values d
  given_values ((name, some v) ∷ d) = (name, v) ∷ given_values d

-- The parameters of `info` and of `_log_with_extra`, to which the keyword arguments go on.
abbrev pub parameters : List String
parameters = "self" ∷ "message" ∷ "level" ∷ []

module _ {V : Type 0} where
  -- `info`, `warning`, `error` and `debug` of the logger that `get_logger` makes.
  unfoldable pub log_with_extra : String → LogLevel → String → Dict (Option V) → Option (LogCall V)
  unfolding given_values
  log_with_extra name level message arguments =
      if are_distinct (parameters ++ names_of arguments)
      then some (record {
        logger = followed_by "app." name;
        level = level;
        message = message;
        extra_data = given_values arguments;
      })
      else none

  -- `log_business_event`, with the values of its event type, user and request.
  unfoldable pub log_business_event :
      String → V → Option V → Option V → Dict (Option V) → Option (LogCall V)
  unfolding log_with_extra
  log_business_event event_type event user_id request_id details =
      log_with_extra "audit" info (followed_by "Business event: " event_type)
        (("event_type", some event) ∷ ("user_id", user_id) ∷ ("request_id", request_id) ∷ details)

  -- `log_performance`.
  unfoldable pub log_performance : String → V → V → Dict (Option V) → Option (LogCall V)
  unfolding log_with_extra update
  log_performance operation operation_value duration additional =
      log_with_extra "performance" info (followed_by "Performance: " operation) (
        ("operation", some operation_value)
        ∷ update (("duration_ms", some duration) ∷ []) additional)

-- `ensure_request_id` of utils/observability.py, with the UUID that it would generate.
unfoldable pub ensure_request_id : String → Dict String → String
unfolding lookup
ensure_request_id generated headers = elim (lookup "X-Request-ID" headers) [
  | none ↦ generated
  | some id ↦ if same id "" then generated else id
]
