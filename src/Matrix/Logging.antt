-- ===== src/Matrix/Logging.antt =====
-- routing_matrix/logging.py: structured log records, the formatter of a line, and the payload that
-- `route` of routing_matrix/core.py logs. The standard library's `logging` gives a record the items of
-- `extra` as attributes; the time stamp and the exception text are left out of the line.
pub mod Lines
use routing.Prelude.{ℕ, String, Bool, Option, none, some, [], ◌∷◌}
use routing.Prelude.Dict.{Dict, lookup, insert}
use routing.Matrix.Model.{Task, Rationale, tier_name}
use routing.Matrix.Route.{RouteEntry}

-- What a payload holds. An object's items are a list of their own.
mutual
  pub data Json (F : Type 0) : Type 0 where
    null : Json F
    text : String → Json F
    flag : Bool → Json F
    num : F → Json F
    int : ℕ → Json F
    object : Items F → Json F

  pub data Items (F : Type 0) : Type 0 where
    end : Items F
    item : String → Json F → Items F → Items F

pub record LogRecord (F : Type 0) : Type 0 where
  pub logger : String
  pub level : String
  pub event : String
  pub attributes : Dict (Json F)

module _ {F : Type 0} where
  unfoldable pub of_dict : Dict (Json F) → Items F
  of_dict [] = end
  of_dict ((k, v) ∷ d) = item k v (of_dict d)

  -- `payload.update(extras)`
  unfoldable pub update : Dict (Json F) → Items F → Dict (Json F)
  unfolding insert
  update d end = d
  update d (item k v more) = update (insert k v d) more

  abbrev pub extra_items : Option (Json F) → Items F
  extra_items (some (object items)) = items
  extra_items _ = end

  -- `JsonFormatter.format`
  unfoldable pub format : LogRecord F → Dict (Json F)
  unfolding update
  format r =
      update (("logger", text r.logger) ∷ ("level", text r.level) ∷ ("event", text r.event) ∷ [])
        (extra_items (lookup "extra_fields" r.attributes))

  -- `LOGGER.info(event, extra=extra)`
  unfoldable pub info : String → Dict (Json F) → LogRecord F
  info event extra = record {
    logger = "routing_matrix";
    level = "INFO";
    event = event;
    attributes = extra;
  }

  -- `DecisionLogger.log_decision`
  unfoldable pub log_decision : Dict (Json F) → LogRecord F
  unfolding info of_dict
  log_decision payload = info "routing_decision" (("extra_fields", object (of_dict payload)) ∷ [])

  abbrev pub maybe_text : Option String → Json F
  maybe_text none = null
  maybe_text (some s) = text s

  -- The payload that `route` logs; `say` is the text of a rationale.
  unfoldable pub route_payload : (Rationale → String) → RouteEntry F → Dict (Json F)
  route_payload say e =
      let task = e.task in
      let decision = e.decision in
      (
        "task",
        object (
            item "prompt" (text task.prompt) (
              item "task_type" (maybe_text task.task_type) (
                item "escalate" (flag task.escalate)
                  (item "failure_context" (maybe_text task.failure_context) end)))),
      )
      ∷ ("tier", text (tier_name decision.tier))
      ∷ ("model_pointer", text decision.model_pointer)
      ∷ ("rationale", text (say decision.rationale))
      ∷ ("degraded", flag decision.degraded)
      ∷ ("estimated_cost", num decision.estimated_cost)
      ∷ []
