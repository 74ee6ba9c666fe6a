-- ===== src/Settings/Asked.antt =====
-- What the body of a change of settings asks for: the first constants of
-- `validateProspectiveScanRuntimeSettings` (backend/src/lib/validation.js).
use open_kritt.Prelude.{String, Bool, ◌||◌, if◌then◌else◌}
use open_kritt.Value.{Value, Fields, get, has_own}

-- What a body asks to change.
abbrev pub has_either : Fields → String → String → Bool
has_either fs snake camel = has_own fs snake || has_own fs camel

abbrev pub has_provider : Fields → Bool
has_provider fs = has_either fs "model_provider" "modelProvider"

abbrev pub has_effort : Fields → Bool
has_effort fs = has_either fs "thinking_effort" "thinkingEffort"

abbrev pub has_selection : Fields → Bool
has_selection fs = has_own fs "model" || has_provider fs || has_own fs "harness" || has_effort fs

abbrev pub has_post_model : Fields → Bool
has_post_model fs = has_either fs "post_processing_model" "postProcessingModel"

abbrev pub has_post_provider : Fields → Bool
has_post_provider fs = has_either fs "post_processing_model_provider" "postProcessingModelProvider"

abbrev pub has_post_harness : Fields → Bool
has_post_harness fs = has_either fs "post_processing_harness" "postProcessingHarness"

abbrev pub has_post_effort : Fields → Bool
has_post_effort fs = has_either fs "post_processing_thinking_effort" "postProcessingThinkingEffort"

abbrev pub has_post_runtime : Fields → Bool
has_post_runtime fs =
    has_post_model fs || has_post_provider fs || has_post_harness fs || has_post_effort fs

abbrev pub has_overrides : Fields → Bool
has_overrides fs = has_either fs "model_overrides" "modelOverrides"

-- `bodyValue(snakeKey, camelKey)`
abbrev pub body_value : Fields → String → String → Value
body_value fs snake camel = if has_own fs snake then get snake fs else get camel fs
