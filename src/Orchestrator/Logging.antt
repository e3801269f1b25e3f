-- ===== src/Orchestrator/Logging.antt =====
-- orchestrator/logging.py and orchestrator/trace.py: structured log records, the formatter of a
-- line, and the correlation id. The standard library's `logging` gives a record the items of
-- `extra` as attributes; the time stamp and the exception text are left out of the line.
pub mod Lines
use routing.Prelude.{
  ◌≡◌, refl, none, ℕ, String, ◌==◌, Bool, false, ◌||◌, Option, some, List, [], ◌∷◌, if◌then◌else◌,
}
use routing.Prelude.Result.{Result, ok, err}
use routing.Matrix.Model.{PyError, key_error}
use routing.Prelude.Dict.{Dict, lookup, insert}
pub use routing.Matrix.Logging.{
  Json, null, text, flag, num, int, object, Items, end, item, LogRecord, extra_items,
}
unfoldable pub use routing.Matrix.Logging.{of_dict, update}

-- The attributes that a record of `logging` has itself.
abbrev pub own_attributes : List String
own_attributes =
    "message" ∷ "asctime" ∷ "name" ∷ "msg" ∷ "args" ∷ "levelname" ∷ "levelno" ∷ "pathname"
    ∷ "filename" ∷ "module" ∷ "exc_info" ∷ "exc_text" ∷ "stack_info" ∷ "lineno" ∷ "funcName"
    ∷ "created" ∷ "msecs" ∷ "relativeCreated" ∷ "thread" ∷ "threadName" ∷ "processName" ∷ "process"
    ∷ "taskName" ∷ []

abbrev pub among : String → List String → Bool
among k [] = false
among k (j ∷ js) = k == j || among k js

module _ {F : Type 0} where
  -- The first item that has the name of an attribute.
  unfoldable pub clash : Dict (Json F) → Option String
  clash [] = none
  clash ((k, v) ∷ extra) = let rest = clash extra in if among k own_attributes then some k else rest

  -- `JsonFormatter.format`
  unfoldable pub format : LogRecord F → Dict (Json F)
  unfolding update
  format r =
      update (("logger", text r.logger) ∷ ("level", text r.level) ∷ ("event", text r.event) ∷ [])
        (extra_items (lookup "extra_fields" r.attributes))

  -- The record that `logging` makes, where no item of `extra` has the name of an attribute.
  unfoldable pub make_record : String → Dict (Json F) → LogRecord F
  make_record event extra = record {
    logger = "orchestrator";
    level = "INFO";
    event = event;
    attributes = extra;
  }

  -- `LOGGER.info(event, extra=extra)`: an item that has the name of an attribute raises `KeyError`.
  unfoldable pub info : String → Dict (Json F) → Result PyError (LogRecord F)
  unfolding make_record clash
  info event extra = elim (clash extra) [
    | none ↦ ok (make_record event extra)
    | some key ↦ err (key_error key)
  ]

  -- `DecisionLogger.log_decision`
  unfoldable pub log_decision : Dict (Json F) → LogRecord F
  unfolding make_record of_dict
  log_decision payload =
      make_record "orchestration_decision" (("extra_fields", object (of_dict payload)) ∷ [])

  -- `with_correlation_fields`
  unfoldable pub with_correlation_fields : String → Dict (Json F) → Dict (Json F)
  with_correlation_fields correlation_id extra =
      if correlation_id == "" then extra else insert "correlation_id" (text correlation_id) extra

-- The thread's context: what was set last, if anything was.
abbrev pub Context : Type 0
Context = Option (Option String)

unfoldable pub set_current_correlation_id : Option String → Context → Context
set_current_correlation_id correlation_id context = some correlation_id

unfoldable pub current_correlation_id : Context → Option String
current_correlation_id none = none
current_correlation_id (some correlation_id) = correlation_id

current-set_current :
    (id : Option String) (c : Context)
    → current_correlation_id (set_current_correlation_id id c) ≡ id
unfolding set_current_correlation_id current_correlation_id
current-set_current id c = refl
