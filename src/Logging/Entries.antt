-- ===== src/Logging/Entries.antt =====
-- The JSON entries of the log, the handlers of the loggers, and the calls that raise
-- (affiliate-reconciliation-backend/app/utils/logger.py).
use affiliate_platform.Prelude.{
  ◌≡◌, ◌≢◌, refl, ◌∙◌, inl, inr, Bool, true, false, Bool-cases, Option, none, some, List, [], ◌∷◌,
  ◌++◌, String, same, same_iff, ne_of_same, Dict, lookup, insert, lookup-insert_self,
  lookup-insert_ne, arith, if◌then◌else◌,
}
use affiliate_platform.Logging.{
  update, names_of, is_member, are_distinct, parameters, log_business_event, log_with_extra,
}

-- The fields of a `LogRecord` that an entry shows; `exception` is the formatted one.
pub record Source (V : Type 0) : Type 0 where
  pub timestamp : V
  pub levelname : V
  pub name : V
  pub message : V
  pub module_name : V
  pub func_name : V
  pub lineno : V
  pub exception : Option V
  pub process : V
  pub thread : V

module _ {V : Type 0} where
  abbrev pub first_fields : Source V → Dict V
  first_fields s =
      ("timestamp", s.timestamp)
      ∷ ("level", s.levelname)
      ∷ ("logger", s.name)
      ∷ ("message", s.message)
      ∷ ("module", s.module_name)
      ∷ ("function", s.func_name)
      ∷ ("line", s.lineno)
      ∷ []

  abbrev pub with_exception : Option V → Dict V → Dict V
  with_exception none entry = entry
  with_exception (some e) entry = insert "exception" e entry

  -- `JSONFormatter.format`, before the text is made.
  unfoldable pub format : Source V → Dict V → Dict V
  unfolding update
  format s extra_data =
      update (update (with_exception s.exception (first_fields s)) extra_data)
        (("process_id", s.process) ∷ ("thread_id", s.thread) ∷ [])

  -- The process and the thread of an entry are the record's, whatever the caller gives besides.
  pub format-process :
      (s : Source V) (extra_data : Dict V)
      → (lookup "process_id" (format s extra_data) ≡ some s.process)
        × (lookup "thread_id" (format s extra_data) ≡ some s.thread)
  unfolding format update
  format-process s extra_data =
      let entry = update (with_exception s.exception (first_fields s)) extra_data in
      let ne : "thread_id" ≢ "process_id" = ne_of_same "thread_id" "process_id" refl in
      (
        lookup-insert_ne "thread_id" "process_id" s.thread (insert "process_id" s.process entry) ne
            ∙ lookup-insert_self "process_id" s.process entry,
        lookup-insert_self "thread_id" s.thread (insert "process_id" s.process entry),
      )

-- Where an entry goes.
pub data Handler : Type 0 where
  console : Handler
  file : String → Handler

pub record LoggerConfig : Type 0 where
  pub level : String
  pub handlers : List Handler

abbrev pub console_handler : Bool → List Handler
console_handler enable_console = if enable_console then console ∷ [] else []

abbrev pub file_handler : Option String → List Handler
file_handler none = []
file_handler (some path) = if same path "" then [] else file path ∷ []

-- `setup_logging`: the loggers, and "root" for the root.
unfoldable pub setup_logging : String → Option String → Bool → Dict LoggerConfig
setup_logging log_level log_file enable_console =
    let handlers = console_handler enable_console ++ file_handler log_file in
    ("app", record { level = log_level; handlers = handlers })
    ∷ ("uvicorn", record { level = "INFO"; handlers = handlers })
    ∷ ("sqlalchemy.engine", record { level = "WARNING"; handlers = handlers })
    ∷ ("root", record { level = log_level; handlers = handlers })
    ∷ []

is_member-append :
    (name : String) (l m : List String) → is_member name m ≡ true → is_member name (l ++ m) ≡ true
is_member-append name [] m k = k
is_member-append name (n ∷ l) m k = ground (arith, is_member-append name l m k)

member_twice :
    (name : String) (l m : List String)
    → is_member name l ≡ true
    → is_member name m ≡ true
    → are_distinct (l ++ m) ≡ false
member_twice name [] m h k = absurd (cc)
member_twice name (n ∷ l) m h k = elim (Bool-cases (same n name)) [
  | inl e ↦
      let found : is_member n (l ++ m) ≡ true =
        rw ((same_iff n name).0 e) (is_member-append name l m k) in
      rw found refl
  | inr e ↦
      let later : is_member name l ≡ true = rw e at h in
      ground (arith, member_twice name l m later k)
]

-- An event whose details repeat a name that the call gives already is not logged: the call raises.
pub log_business_event-raises :
    {V : Type 0} (event_type name : String) (event : V) (user_id request_id : Option V)
    (details : Dict (Option V))
    → is_member name (parameters ++ ("event_type" ∷ "user_id" ∷ "request_id" ∷ [])) ≡ true
    → is_member name (names_of details) ≡ true
    → log_business_event event_type event user_id request_id details ≡ none
unfolding log_business_event log_with_extra
log_business_event-raises event_type name event user_id request_id details h k =
    let e =
      member_twice name (parameters ++ ("event_type" ∷ "user_id" ∷ "request_id" ∷ []))
        (names_of details) h k in
    rw e refl
