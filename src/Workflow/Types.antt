-- ===== src/Workflow/Types.antt =====
-- The normalized steps and levels of a workflow (`normLevels` of `validateWorkflow`,
-- backend/src/lib/validation.js), lookups among them, and the names that the checks share.
use open_kritt.Prelude.{
  ℕ, String, Bool, false, ◌&&◌, Option, none, some, List, [], ◌∷◌, ltb, leb, nat_eq, if◌then◌else◌,
}
use open_kritt.Text.{concat, decimal, strip_prefix, is_digits}
use open_kritt.Value.{Value, Fields, string_or, prop}

-- A step, with the content that the rest of the code reads of it.
pub record Step : Type 0 where
  pub source : Value
  pub client_id : String
  pub has_client_id : Bool
  pub bound_source_step_id : Option String

-- `typeof s?.content === 'string' ? s.content : ''`
abbrev pub content_of : Step → String
content_of s = string_or "" (prop "content" s.source)

pub record Level : Type 0 where
  pub depth : ℕ
  pub multi_output : Bool
  pub consumes_all : Bool
  pub bind_previous : Bool
  pub output_format : Fields
  pub steps : List Step

-- `normLevels.find((l) => l.depth === d)`
abbrev pub level_at : ℕ → List Level → Option Level
level_at d [] = none
level_at d (l ∷ ls) = if nat_eq l.depth d then some l else level_at d ls

abbrev pub depths : List Level → List ℕ
depths [] = []
depths (l ∷ ls) = l.depth ∷ depths ls

-- `effectiveConsumes`
abbrev pub effective_consumes : Level → Bool
effective_consumes l = l.consumes_all && ltb 0 l.depth

-- `.sort((a, b) => a.depth - b.depth)`, which is stable.
abbrev pub insert_level : Level → List Level → List Level
insert_level l [] = l ∷ []
insert_level l (m ∷ ms) = if leb l.depth m.depth then l ∷ m ∷ ms else m ∷ insert_level l ms

abbrev pub sort_levels : List Level → List Level
sort_levels [] = []
sort_levels (l ∷ ls) = insert_level l (sort_levels ls)

-- `levels[depth=d].name`
unfoldable pub at_depth : ℕ → String → String
at_depth d name = concat ("levels[depth=" ∷ decimal d ∷ "]." ∷ name ∷ [])

-- `levels[depth=d].steps[i].name`
unfoldable pub at_step : ℕ → ℕ → String → String
at_step d i name = concat ("levels[depth=" ∷ decimal d ∷ "].steps[" ∷ decimal i ∷ "]." ∷ name ∷ [])

abbrev pub builtin_keys : List String
builtin_keys =
    "repo_full" ∷ "commit_sha" ∷ "repo_scope" ∷ "dependencies" ∷ "configuration" ∷ "workspace_root"
    ∷ "workspace_layout" ∷ "workspace_manifest_json" ∷ []

abbrev pub required_vuln_keys : List String
required_vuln_keys =
    "explanation" ∷ "file_path" ∷ "line" ∷ "malicious_input_example" ∷ "summary" ∷ "trigger_flow"
    ∷ "vulnerability_type" ∷ "malicious_actor" ∷ []

abbrev pub required_key_types : List (String × String)
required_key_types =
    ("explanation", "string")
    ∷ ("file_path", "string")
    ∷ ("line", "number")
    ∷ ("malicious_input_example", "string")
    ∷ ("summary", "string")
    ∷ ("trigger_flow", "array")
    ∷ ("vulnerability_type", "string")
    ∷ ("exploitable", "boolean")
    ∷ ("malicious_actor", "string")
    ∷ []

-- `multiOutputDepthKey`
unfoldable pub multi_output_depth_key : ℕ → String
multi_output_depth_key d = concat ("multi_output_depth_" ∷ decimal d ∷ [])

abbrev pub digits_left : Option String → Bool
digits_left none = false
digits_left (some s) = is_digits s

-- `isMultiOutputDepthKey`
unfoldable pub is_multi_output_depth_key : String → Bool
is_multi_output_depth_key k = digits_left (strip_prefix k "multi_output_depth_")
