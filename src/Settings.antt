-- ===== src/Settings.antt =====
-- The settings of a scan that may be changed while it runs: `validateScanRuntimeSettings` and
-- `validateProspectiveScanRuntimeSettings` of backend/src/lib/validation.js. The current settings are a
-- row of the database, with the names that it has in the source.
pub mod Overrides
pub mod Asked
pub mod Laws
pub mod Depths
mod Tests
use open_kritt.Prelude.{
  ℕ, String, Bool, true, false, not, ◌&&◌, ◌||◌, Option, none, some, List, [], ◌∷◌, ◌==◌,
  if◌then◌else◌,
}
use open_kritt.Value.{
  Value, undefined, null, string, object, Fields, end, field, get, has_own, prop, coalesce,
  object_or_empty, Checked, ok, invalid,
}
use open_kritt.Model.{Selection, validate_model_selection}
use open_kritt.Settings.Asked.{
  has_provider, has_effort, has_selection, has_post_model, has_post_provider, has_post_harness,
  has_post_effort, has_post_runtime, has_overrides, body_value,
}
use open_kritt.Settings.Overrides.{
  four, post_processing_input, validate_post_processing, validate_model_overrides,
}

-- The changes that are written, `data` of the source; `null` clears a column.
pub record Changes : Type 0 where
  pub model : Option String
  pub model_provider : Option String
  pub harness : Option String
  pub thinking_effort : Option String
  pub post_model : Option (Option String)
  pub post_provider : Option (Option String)
  pub post_harness : Option (Option String)
  pub post_effort : Option String
  pub overrides : Option (List (String × Selection))

pub record Prospective : Type 0 where
  pub changes : Changes
  pub selection : Option Selection
  pub post_processing : Option Selection
  pub model_overrides : Option (List (String × Selection))

abbrev pub nothing_changed : Changes
nothing_changed = record {
  model = none;
  model_provider = none;
  harness = none;
  thinking_effort = none;
  post_model = none;
  post_provider = none;
  post_harness = none;
  post_effort = none;
  overrides = none;
}

abbrev pub nothing_asked : Prospective
nothing_asked = record {
  changes = nothing_changed;
  selection = none;
  post_processing = none;
  model_overrides = none;
}

-- A request for a selection, in the body's words.
abbrev pub request_of : (model model_provider harness thinking_effort : Value) → Value
request_of model model_provider harness thinking_effort = object (
    field "model" model (
      field "model_provider" model_provider
        (field "harness" harness (field "thinking_effort" thinking_effort end))))

-- The body's selection over the current one.
abbrev pub asked_request : Fields → Value → Value
asked_request fs current =
    request_of (if has_own fs "model" then get "model" fs else prop "model" current)
      (if has_provider fs
        then coalesce (get "model_provider" fs) (get "modelProvider" fs)
        else prop "modelProvider" current)
      (if has_own fs "harness" then get "harness" fs else prop "harness" current)
      (if has_effort fs
        then coalesce (get "thinking_effort" fs) (get "thinkingEffort" fs)
        else prop "thinkingEffort" current)

abbrev pub current_request : Value → Value
current_request current =
    request_of (prop "model" current) (prop "modelProvider" current) (prop "harness" current)
      (prop "thinkingEffort" current)

-- What follows a check, unless it throws.
abbrev pub then_check {ℓ κ} : {A : Type ℓ} {B : Type κ} → Checked A → (A → Checked B) → Checked B
then_check (ok a) f = f a
then_check (invalid es) f = invalid es

abbrev pub some_checked {ℓ} : {A : Type ℓ} → Checked A → Checked (Option A)
some_checked (ok a) = ok (some a)
some_checked (invalid es) = invalid es

abbrev pub asked_selection : Bool → Fields → Value → Checked (Option Selection)
asked_selection false fs current = ok none
asked_selection true fs current = some_checked (validate_model_selection (asked_request fs current))

abbrev pub prospective_selection : Option Selection → Value → Checked Selection
prospective_selection (some s) current = ok s
prospective_selection none current = validate_model_selection (current_request current)

-- `value === null || value === ''`
abbrev pub is_cleared : Value → Bool
is_cleared null = true
is_cleared (string s) = s == ""
is_cleared _ = false

-- `clearPostProcessingModelOverride`
abbrev pub clears_post_processing : Fields → Bool
clears_post_processing fs =
    has_post_model fs
    && has_post_provider fs
    && has_post_harness fs
    && is_cleared (body_value fs "post_processing_model" "postProcessingModel")
    && is_cleared (body_value fs "post_processing_model_provider" "postProcessingModelProvider")
    && is_cleared (body_value fs "post_processing_harness" "postProcessingHarness")

-- `nextPostProcessingInput`
abbrev pub next_post_processing : Fields → Value → Value
next_post_processing fs current =
    let before = post_processing_input undefined (prop "configuration" current) in
    let effort =
      if has_post_effort fs
      then body_value fs "post_processing_thinking_effort" "postProcessingThinkingEffort"
      else prop "thinkingEffort" before in
    if clears_post_processing fs
    then four undefined undefined undefined effort
    else four
        (if has_post_model fs
          then body_value fs "post_processing_model" "postProcessingModel"
          else prop "model" before)
        (if has_post_provider fs
          then body_value fs "post_processing_model_provider" "postProcessingModelProvider"
          else prop "modelProvider" before)
        (if has_post_harness fs
          then body_value fs "post_processing_harness" "postProcessingHarness"
          else prop "harness" before)
        effort

-- A selection as an object with the names of the source.
abbrev pub selection_value : Selection → Value
selection_value s =
    four (string s.model) (string s.model_provider) (string s.harness) (string s.thinking_effort)

abbrev pub asked_overrides :
    Bool → Option (List ℕ) → Fields → Checked (Option (List (String × Selection)))
asked_overrides false allowed fs = ok none
asked_overrides true allowed fs = some_checked (
    validate_model_overrides allowed "model_overrides"
      (coalesce (get "model_overrides" fs) (get "modelOverrides" fs)))

abbrev pub part_if : Bool → (Selection → String) → Option Selection → Option String
part_if true f (some s) = some (f s)
part_if _ f _ = none

abbrev pub when {ℓ} : {A : Type ℓ} → Bool → A → Option A
when true a = some a
when false a = none

abbrev pub unless_cleared : Bool → String → Option String
unless_cleared true s = none
unless_cleared false s = some s

abbrev pub changes_of :
    Fields → Option Selection → Selection → Option (List (String × Selection)) → Changes
changes_of fs selection post overrides =
    let touched = has_post_model fs || has_post_provider fs || has_post_harness fs in
    let cleared = clears_post_processing fs in
    record {
      model = part_if (has_own fs "model") Selection.model selection;
      model_provider = part_if (has_provider fs) Selection.model_provider selection;
      harness = part_if (has_own fs "harness") Selection.harness selection;
      thinking_effort = part_if (has_effort fs) Selection.thinking_effort selection;
      post_model = when touched (unless_cleared cleared post.model);
      post_provider = when touched (unless_cleared cleared post.model_provider);
      post_harness = when touched (unless_cleared cleared post.harness);
      post_effort = when (has_post_effort fs) post.thinking_effort;
      overrides = overrides;
    }

abbrev is_some {ℓ} : {A : Type ℓ} → Option A → Bool
is_some none = false
is_some (some _) = true

abbrev pub prospective_of :
    Fields → Option Selection → Selection → Option (List (String × Selection)) → Prospective
prospective_of fs selection post overrides = record {
  changes = changes_of fs selection post overrides;
  selection = selection;
  post_processing = when (is_some selection || has_post_runtime fs) post;
  model_overrides = overrides;
}

-- The checks in their order, once something is asked for.
unfoldable pub validate_asked : Option (List ℕ) → Fields → Value → Checked Prospective
validate_asked allowed fs current =
    then_check (asked_selection (has_selection fs) fs current) (λ selection.
      then_check (prospective_selection selection current) (λ prospective.
        then_check
          (validate_post_processing (next_post_processing fs current) (selection_value prospective))
          (λ post.
            then_check (asked_overrides (has_overrides fs) allowed fs)
              (λ overrides. ok (prospective_of fs selection post overrides)))))

-- `validateProspectiveScanRuntimeSettings(body, current, { allowedDepths })`
unfoldable pub validate_prospective : Option (List ℕ) → Value → Value → Checked Prospective
validate_prospective allowed body current =
    let fs = object_or_empty body in
    if not (has_selection fs) && not (has_post_runtime fs) && not (has_overrides fs)
    then ok nothing_asked
    else validate_asked allowed fs current

abbrev data_of : Checked Prospective → Checked Changes
data_of (ok p) = ok p.changes
data_of (invalid es) = invalid es

-- `validateScanRuntimeSettings`
unfoldable pub validate_runtime_settings : Option (List ℕ) → Value → Value → Checked Changes
validate_runtime_settings allowed body current = data_of (validate_prospective allowed body current)
