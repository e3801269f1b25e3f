-- ===== src/Orchestrator/Logging/Lines.antt =====
-- Which fields of orchestrator/logging.py and orchestrator/trace.py reach a line of the log.
use routing.Prelude.{◌≡◌, refl, ◌∙◌, ap, String, none, some, [], ◌∷◌}
use routing.Prelude.Dict.{Dict, lookup}
use routing.Matrix.Logging.Lines.{IsDict, or_else, lookup-update}
use routing.Orchestrator.Logging.{Json, text, update, format, make_record, log_decision}

module _ {F : Type 0} where
  abbrev standing : Dict (Json F)
  standing =
      ("logger", text "orchestrator")
      ∷ ("level", text "INFO")
      ∷ ("event", text "orchestration_decision")
      ∷ []

  -- Every field of the payload of `DecisionLogger.log_decision` is in the line, with its value.
  pub format-log_decision :
      (payload : Dict (Json F)) (k : String) (v : Json F)
      → IsDict payload
      → lookup k payload ≡ some v
      → lookup k (format (log_decision payload)) ≡ some v
  unfolding log_decision make_record format lookup
  format-log_decision payload k v h e =
      lookup-update k standing payload h ∙ ap (λ o. or_else o (lookup k standing)) e

  -- What is given to the logger directly is not in the line, but for a field `extra_fields`; so the
  -- correlation id, which is given that way, is in no line.
  pub format-make_record :
      (event : String) (extra : Dict (Json F))
      → lookup "extra_fields" extra ≡ none
      → format (make_record event extra)
        ≡ ("logger", text "orchestrator") ∷ ("level", text "INFO") ∷ ("event", text event) ∷ []
  unfolding make_record format update
  format-make_record event extra h = rw h refl
