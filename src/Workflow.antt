-- ===== src/Workflow.antt =====
-- Validation of workflows: `validateWorkflow` of backend/src/lib/validation.js, lines 271 to 574. The
-- children hold its parts in the order of the code: the normalized levels, the keys that are
-- available at a depth, depths and routing, formats and prompts. Where some depth is not a whole
-- number from 0 on, the request is refused whatever else it has; the errors after that one are then
-- left out.
pub mod Types
pub mod Normal
mod Available
pub mod Routing
pub mod Content
pub mod Depths
mod Reach
pub mod Keys
pub mod Prompts
pub mod Formats
pub mod Binding
pub mod Accepted
mod Uniqueness
pub mod Laws
mod Tests
use open_kritt.Prelude.{ℕ, String, Bool, true, false, Option, none, some, List, [], ◌∷◌, ◌++◌, ◌==◌}
use open_kritt.Value.{Value, array, items, prop, FieldError, error, Checked, ok, invalid, checked}
use open_kritt.Model.{trimmed, refuse}
use open_kritt.Template.{extract_extra_keys}
use open_kritt.Workflow.Types.{
  Step, Level, content_of, level_at, depths, effective_consumes, sort_levels,
}
use open_kritt.Workflow.Normal.{normal_levels, levels_errors}
use open_kritt.Workflow.Routing.{max_of, depth_errors, client_id_errors, all_bind_errors}
use open_kritt.Workflow.Content.{
  all_keys, output_errors, level_prompt_errors, terminal_errors, set_from,
}

pub record Workflow : Type 0 where
  pub name : String
  pub description : Option String
  pub max_depth : ℕ
  pub levels : List Level
  pub extra_keys : List String

-- What is wrong with levels whose depths are whole numbers.
unfoldable pub structure_errors : List Level → List FieldError
structure_errors ls =
    let top = max_of (depths ls) in
    depth_errors (depths ls)
    ++ (client_id_errors ls []
        ++ (all_bind_errors ls ls
            ++ (output_errors (all_keys ls) ls
                ++ (level_prompt_errors ls ls ++ terminal_errors top (level_at top ls)))))

-- `{ ...l, consumesAll: effectiveConsumes(l) }` of each.
abbrev pub with_effective : List Level → List Level
with_effective [] = []
with_effective (l ∷ ls) = record l { consumes_all = effective_consumes l } ∷ with_effective ls

abbrev pub step_extra_keys : List Step → List String
step_extra_keys [] = []
step_extra_keys (s ∷ ss) = extract_extra_keys (content_of s) ++ step_extra_keys ss

abbrev pub level_extra_keys : List Level → List String
level_extra_keys [] = []
level_extra_keys (l ∷ ls) = step_extra_keys l.steps ++ level_extra_keys ls

-- `typeof value === 'string' ? value : null`
abbrev pub string_or_null : Value → Option String
string_or_null (Value.string s) = some s
string_or_null _ = none

abbrev pub workflow_of : Value → List Level → Workflow
workflow_of body ls = record {
  name = trimmed (prop "name" body);
  description = string_or_null (prop "description" body);
  max_depth = max_of (depths ls);
  levels = with_effective (sort_levels ls);
  extra_keys = set_from [] (level_extra_keys ls);
}

abbrev pub name_errors : Value → List FieldError
name_errors body = refuse (trimmed (prop "name" body) == "") "name" "Workflow name is required."

-- The rest of the validation, after `earlier`, once the levels are normal. A depth that is no
-- non-negative integer, such as the infinite `1e999`, ends it here, where the source goes on to its loop
-- over the depths.
unfoldable pub validate_levels : Value → List FieldError → Option (List Level) → Checked Workflow
validate_levels body earlier none =
    invalid (earlier ++ error "levels" "Every level needs a non-negative integer depth." ∷ [])
validate_levels body earlier (some ls) =
    checked (earlier ++ structure_errors ls) (workflow_of body ls)

-- `Array.isArray(value) ? value : []`
abbrev pub level_values : Value → List Value
level_values (array vs) = items vs
level_values _ = []

module _ (parse_json : String → Option Value) (number_of_text : String → Option ℕ) where
  unfoldable pub validate_given : Value → List Value → Checked Workflow
  validate_given body [] =
      invalid (name_errors body ++ error "levels" "At least one step (depth 0) is required." ∷ [])
  validate_given body (v ∷ vs) =
      validate_levels body (name_errors body ++ levels_errors parse_json number_of_text 0 (v ∷ vs))
        (normal_levels parse_json number_of_text 0 (v ∷ vs))

  -- `validateWorkflow`
  unfoldable pub validate_workflow : Value → Checked Workflow
  validate_workflow body = validate_given body (level_values (prop "levels" body))
