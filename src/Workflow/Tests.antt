-- ===== src/Workflow/Tests.antt =====
-- A workflow of two depths that is accepted, and the theorems at it.
use open_kritt.Prelude.{
  true, false, ℕ, suc, String, ◌≡◌, refl, Option, none, some, List, [], ◌∷◌, All,
}
use open_kritt.Value.{Value, string, number, array, object, nil, cons, end, field, ok, prop}
use open_kritt.Workflow.Types.{Level, level_at, depths}
use open_kritt.Workflow.Normal.{normal_level, normal_levels, identifier, bound_id_of, whole_number}
use open_kritt.Text.{is_valid_key}
use open_kritt.Workflow.Content.{is_repeated, all_keys}
use open_kritt.Workflow.Depths.{range_from}
use open_kritt.Workflow.Uniqueness.{AreApart}
use open_kritt.Workflow.Formats.{IsTerminal}
use open_kritt.Workflow.Laws.{
  depths-validate_workflow, IsReferring, IsBoundTo, validate_workflow-IsReferring,
  validate_workflow-IsBoundTo, validate_workflow-AreApart, validate_workflow-IsTerminal,
}
use open_kritt.Text.{strip_prefix, is_digits, trim, decimal}
use open_kritt.Value.Texts.{to_text}
use open_kritt.Descriptor.{walking}
use open_kritt.Template.{
  parse_refs, has_malformed_template_refs, is_extra_ref, extra_sub_key, extract_extra_keys,
  is_template_ref,
}
use open_kritt.Format.{normalize_definition, from_entries, duplicates_in}
use open_kritt.Workflow.Types.{is_multi_output_depth_key, multi_output_depth_key, at_depth, at_step}
use open_kritt.Workflow.Available.{available_at}
use open_kritt.Workflow.Routing.{
  missing_errors, depth_errors, client_id_errors, destination_errors, source_errors,
  previous_errors, bind_errors, all_bind_errors,
}
use open_kritt.Workflow.Content.{
  output_errors, keys_errors, key_errors, output_field_errors, content_errors, prompt_errors,
  level_prompt_errors, terminal_type_errors, terminal_types_errors, terminal_errors,
}
use open_kritt.Workflow.{
  Workflow, workflow_of, level_values, validate_workflow, validate_given, validate_levels,
  structure_errors,
}

abbrev no_json : String → Option Value
no_json _ = none

abbrev no_number : String → Option ℕ
no_number _ = none

abbrev finding_format : Value
finding_format = object (
    field "explanation" (string "string") (
      field "file_path" (string "string") (
        field "line" (string "number") (
          field "malicious_input_example" (string "string") (
            field "summary" (string "string") (
              field "trigger_flow"
                (object (field "type" (string "array") (field "items" (string "string") end)))
                (field "vulnerability_type" (string "string")
                  (field "malicious_actor" (string "string") end))))))))

abbrev bound_step : String → String → Value
bound_step id to = object (
    field "clientId" (string id) (
      field "boundSourceStepId" (string to)
        (field "content" (string "Judge {{note}} of {{repo_full}} for {{extra.team}}.") end)))

abbrev last_level : Value
last_level = object (
    field "depth" (number 1) (
      field "outputFormat" finding_format
        (field "steps" (array (cons (bound_step "c" "b") (cons (bound_step "d" "a") nil))) end)))

abbrev first_step : String → Value
first_step id =
    object (field "clientId" (string id) (field "content" (string "Read {{repo_full}}.") end))

abbrev first_level : Value
first_level = object (
    field "depth" (number 0) (
      field "outputFormat" (object (field "note" (string "string") end))
        (field "steps" (array (cons (first_step "a") (cons (first_step "b") nil))) end)))

-- The levels stand in the other order.
abbrev body : Value
body = object (
    field "name" (string "Audit")
      (field "levels" (array (cons last_level (cons first_level nil))) end))

abbrev two_levels : List Level
two_levels =
    normal_level no_json no_number 0 last_level 1
    ∷ normal_level no_json no_number 1 first_level 0
    ∷ []

abbrev audit : Workflow
audit = workflow_of body two_levels

validating : Unit {0}
unfolding validate_workflow validate_given validate_levels structure_errors identifier bound_id_of
    whole_number missing_errors depth_errors client_id_errors destination_errors source_errors
    previous_errors bind_errors all_bind_errors output_errors keys_errors key_errors
    output_field_errors content_errors prompt_errors level_prompt_errors terminal_type_errors
    terminal_types_errors terminal_errors available_at normalize_definition from_entries
    duplicates_in is_multi_output_depth_key multi_output_depth_key at_depth at_step strip_prefix
    is_digits trim walking parse_refs has_malformed_template_refs is_extra_ref extra_sub_key
    extract_extra_keys to_text decimal is_template_ref
validating = tt

accepted_run : validate_workflow no_json no_number body ≡ ok audit
unfolding validating
accepted_run = refl

normal_run : normal_levels no_json no_number 0 (level_values (prop "levels" body)) ≡ some two_levels
unfolding validating
normal_run = refl

depths-validate_workflow_example : depths audit.levels ≡ range_from 0 (suc audit.max_depth)
depths-validate_workflow_example =
    depths-validate_workflow no_json no_number body audit accepted_run

validate_workflow-IsReferring_example :
    All (λ l. All (IsReferring two_levels l.depth) l.steps) two_levels
validate_workflow-IsReferring_example =
    validate_workflow-IsReferring no_json no_number body audit accepted_run two_levels normal_run

validate_workflow-IsBoundTo_example : All (IsBoundTo two_levels) two_levels
validate_workflow-IsBoundTo_example =
    validate_workflow-IsBoundTo no_json no_number body audit accepted_run two_levels normal_run

validate_workflow-AreApart_example : AreApart two_levels
validate_workflow-AreApart_example =
    validate_workflow-AreApart no_json no_number body audit accepted_run two_levels normal_run

validate_workflow-IsTerminal_example :
    (l : Level) × (level_at audit.max_depth two_levels ≡ some l) × IsTerminal l.output_format
validate_workflow-IsTerminal_example =
    validate_workflow-IsTerminal no_json no_number body audit accepted_run two_levels normal_run

-- The same key at two depths is reported, unless every object inherits its name.
abbrev level_with : String → ℕ → Value
level_with k d = object (
    field "depth" (number d) (
      field "outputFormat" (object (field k (string "string") end))
        (field "steps" (array (cons (first_step "a") nil)) end)))

abbrev both_with : String → List Level
both_with k =
    normal_level no_json no_number 0 (level_with k 0) 0
    ∷ normal_level no_json no_number 1 (level_with k 1) 1
    ∷ []

repeated_keys_run :
    (is_repeated (all_keys (both_with "note")) "note" ≡ true)
    × (is_repeated (all_keys (both_with "toString")) "toString" ≡ false)
    × (is_valid_key "toString" ≡ true)
unfolding validating
repeated_keys_run = (refl, refl, refl)
