-- ===== src/Model/Tests.antt =====
-- Runs of the validation of model selections, and the theorems at concrete inputs.
use open_kritt.Prelude.{◌≡◌, refl, [], ◌∷◌}
use open_kritt.Value.{Value, string, null, object, end, field, ok, invalid, error}
use open_kritt.Model.{Selection, validate_model_selection, selecting}

abbrev grok : Value
grok = object (
    field "model" (string " grok-4 ") (
      field "model_provider" (string "XAI")
        (field "harness" (string "grok") (field "thinking_effort" null end))))

abbrev with_cursor : Value
with_cursor = object (field "model" (string "m") (field "harness" (string "cursor-cli") end))

abbrev grok_selection : Selection
grok_selection = record {
  model = "grok-4";
  model_provider = "xai";
  harness = "grok-build";
  thinking_effort = "medium";
}

runs :
    (validate_model_selection grok ≡ ok grok_selection)
    × (validate_model_selection (object (field "model" (string "m") end))
        ≡ invalid (error "harness" "A harness is required." ∷ []))
unfolding selecting
runs = (refl, refl)
