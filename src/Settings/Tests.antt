-- ===== src/Settings/Tests.antt =====
-- Changes of settings, and the theorems at concrete inputs.
use mathlib.Core.List.{Perm}
use open_kritt.Prelude.{◌≡◌, refl, String, none, some, List, [], ◌∷◌, All}
use open_kritt.Text.{is_positive_digits}
use open_kritt.Value.{Value, undefined, string, object, Fields, end, field, ok}
use open_kritt.Scan.{digits_value}
use open_kritt.Model.{Selection, selecting}
use open_kritt.Model.Laws.{IsSupported, validate_model_selection_iff}
use open_kritt.Settings.Overrides.{
  validate_post_processing, validate_model_overrides, entries_errors, entries_selected,
}
use open_kritt.Settings.{
  Prospective, current_request, prospective_of, validate_asked, validate_prospective,
}
use open_kritt.Settings.Laws.{row, IsStored, written, validate_prospective-IsSupported}
use open_kritt.Settings.Depths.{
  IsOverride, overrides_of, IsOrdered, validate_model_overrides-IsOrdered,
}

abbrev codex : Selection
codex = record {
  model = "gpt-5";
  model_provider = "codex";
  harness = "codex";
  thinking_effort = "high";
}

codex-IsStored : IsStored codex undefined
unfolding selecting
codex-IsStored =
    (refl, ((validate_model_selection_iff (current_request (row codex undefined)) codex).0 refl).1)

-- Only the effort is asked for, under its other name.
abbrev more_effort : Fields
more_effort = field "thinkingEffort" (string "max") end

abbrev codex_max : Selection
codex_max = record codex { thinking_effort = "max" }

abbrev changed : Prospective
changed = prospective_of more_effort (some codex_max) codex_max none

changed_run : validate_prospective none (object more_effort) (row codex undefined) ≡ ok changed
unfolding selecting validate_prospective validate_asked validate_post_processing
changed_run = refl

validate_prospective-IsSupported_example : IsSupported (written changed.changes codex)
validate_prospective-IsSupported_example =
    validate_prospective-IsSupported none (object more_effort) codex undefined changed
      codex-IsStored changed_run

abbrev codex_value : Value
codex_value = object (
    field "model" (string "gpt-5") (
      field "model_provider" (string "codex")
        (field "harness" (string "codex") (field "thinking_effort" (string "high") end))))

abbrev two_depths : Fields
two_depths = field "10" codex_value (field "2" codex_value end)

abbrev in_order : List (String × Selection)
in_order = ("2", codex) ∷ ("10", codex) ∷ []

overrides_run :
    validate_model_overrides (some (2 ∷ 10 ∷ [])) "model_overrides" (object two_depths)
    ≡ ok in_order
unfolding selecting validate_model_overrides entries_errors entries_selected digits_value
    is_positive_digits
overrides_run = refl

validate_model_overrides-IsOrdered_example :
    All (IsOverride (some (2 ∷ 10 ∷ []))) in_order
    × IsOrdered 0 in_order
    × Perm in_order (overrides_of two_depths)
validate_model_overrides-IsOrdered_example =
    validate_model_overrides-IsOrdered (some (2 ∷ 10 ∷ [])) "model_overrides" two_depths in_order
      overrides_run
