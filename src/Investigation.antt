-- ===== src/Investigation.antt =====
-- The investigation kind of a gated scan: backend/src/lib/investigationKind.js and
-- backend/src/lib/v27Pipeline.js. `resolveV27Pipeline` takes the two database rows that it reads
-- as arguments: the workflow's name, and the post-scripts in the order of the query.
pub mod Laws
mod Tests
use open_kritt.Prelude.{
  ℕ, String, ◌≡◌, Bool, true, false, not, ◌&&◌, ◌||◌, Option, none, some, List, [], ◌∷◌, ◌++◌, ◌==◌,
  if◌then◌else◌, includes,
}
use open_kritt.Text.{concat, join_comma, decimal}
use open_kritt.Value.Texts.{to_text}
use open_kritt.Value.{
  Value, undefined, null, string, object, Fields, own, get, assign, object_or_empty, is_nullish,
  text_among, coalesce, strict_equal, FieldError, error, Checked, ok, invalid,
}

abbrev pub investigation_kinds : List String
investigation_kinds =
    "public_bounty" ∷ "audit_competition" ∷ "private_audit" ∷ "threat_model_validation"
    ∷ "internal_research" ∷ []

abbrev pub investigation_configuration_keys : List String
investigation_configuration_keys =
    "investigation_kind" ∷ "investigation_kind_source" ∷ "readiness_policy_version" ∷ []

abbrev pub v27_workflow_name : String
v27_workflow_name = "Recall-First External Flow Review v2.7"

abbrev pub current_policy_version : String
current_policy_version = "v2.7-impact-gate-1"

-- `V27_POST_SCRIPT_NAMES`
abbrev pub d3_name : String
d3_name = "v2.7 D3 Hostile Canonical Verification"

abbrev pub d4_name : String
d4_name = "v2.7 D4 Local PoC and Negative Control"

abbrev pub d5_name : String
d5_name = "v2.7 D5 Scope Severity and Report Readiness"

-- What `resolveV27Pipeline` returns; the version may be missing in another caller's object.
pub record Pipeline : Type 0 where
  pub d3 : String
  pub d4 : String
  pub d5 : String
  pub policy_version : Value

pub record PostScriptRow : Type 0 where
  pub id : ℕ
  pub name : String

-- `scripts.find((candidate) => candidate.name === name)`
abbrev pub find_script : String → List PostScriptRow → Option PostScriptRow
find_script name [] = none
find_script name (r ∷ rs) = if r.name == name then some r else find_script name rs

abbrev missing_script : String → List FieldError
missing_script name =
    error "workflowId"
      (concat ("v2.7 requires post-script \"" ∷ name ∷ "\" before a scan can start." ∷ []))
    ∷ []

-- One round of the loop over the stages, which throws for the first script that is missing.
abbrev require_script {ℓ} :
    {A : Type ℓ} → String → List PostScriptRow → (String → Checked A) → Checked A
require_script name rows next = elim (find_script name rows) [
  | none ↦ invalid (missing_script name)
  | some r ↦ next (decimal r.id)
]

pub resolve_v27_pipeline : Option String → List PostScriptRow → Checked (Option Pipeline)
resolve_v27_pipeline none rows = ok none
resolve_v27_pipeline (some name) rows =
    if name == v27_workflow_name
    then (require_script d3_name rows λ d3. require_script d4_name rows λ d4.
        require_script d5_name rows λ d5. ok (
          some
            (record { d3 = d3; d4 = d4; d5 = d5; policy_version = string current_policy_version })))
    else ok none

abbrev pub policy_version_of : Pipeline → Value
policy_version_of p = coalesce p.policy_version (string current_policy_version)

abbrev pub kind_errors : Value → List FieldError
kind_errors kind =
    if text_among investigation_kinds kind
    then []
    else error "configuration.investigation_kind" (
        concat (
          "This workflow enforces a readiness gate; choose an investigation kind: "
          ∷ join_comma investigation_kinds
          ∷ "."
          ∷ []))
      ∷ []

abbrev pub version_errors : Value → String → Value → List FieldError
version_errors version version_text submitted =
    if is_nullish submitted || strict_equal submitted version
    then []
    else error "configuration.readiness_policy_version"
        (concat ("The selected workflow uses readiness policy \"" ∷ version_text ∷ "\"." ∷ []))
      ∷ []

-- The configuration with the three keys set.
abbrev pub with_investigation : Value → Value → Fields → Fields
with_investigation kind version input =
    assign "readiness_policy_version" version
      (assign "investigation_kind_source" (string "user") (assign "investigation_kind" kind input))

-- `if (errors.length) return { configuration: input, errors };` before the last return.
abbrev pub settle : List FieldError → Fields → Fields → Fields × List FieldError
settle [] chosen input = (chosen, [])
settle (e ∷ es) chosen input = (input, e ∷ es)

-- `investigationKindForScan`: the configuration, and the errors.
unfoldable pub investigation_kind_for_scan : Value → Option Pipeline → Fields × List FieldError
investigation_kind_for_scan configuration none = (object_or_empty configuration, [])
investigation_kind_for_scan configuration (some p) =
    let input = object_or_empty configuration in
    let kind = get "investigation_kind" input in
    let version = policy_version_of p in
    let errors =
      kind_errors kind
      ++ version_errors version (to_text version) (get "readiness_policy_version" input) in
    settle errors (with_investigation kind version input) input

-- `currentValue !== undefined && currentValue !== null`
abbrev pub is_present : Option Value → Bool
is_present none = false
is_present (some c) = not (is_nullish c)

-- `value === currentValue`
abbrev pub is_unchanged : Value → Option Value → Bool
is_unchanged v none = false
is_unchanged v (some c) = strict_equal v c

-- What the loop of `assertImmutableInvestigationKeys` pushes for one key, from the current value and
-- the one that is sent.
pub immutable_key_errors : String → Option Value → Option Value → List FieldError
immutable_key_errors key current none = []
immutable_key_errors key current (some value) =
    let name = concat ("configuration." ∷ key ∷ []) in
    if is_nullish value
    then (if is_present current
        then error name
            (concat ("\"" ∷ key ∷ "\" cannot be removed after the scan is created." ∷ []))
          ∷ []
        else [])
    else if not (is_present current)
    then error name
        (concat ("\"" ∷ key ∷ "\" is set when the scan is created and cannot be added later." ∷ []))
      ∷ []
    else if not (is_unchanged value current)
    then error name (concat ("\"" ∷ key ∷ "\" cannot be changed after the scan is created." ∷ []))
      ∷ []
    else []

pub immutable_errors : Fields → Fields → List String → List FieldError
immutable_errors current next [] = []
immutable_errors current next (k ∷ ks) =
    immutable_key_errors k (own k current) (own k next) ++ immutable_errors current next ks

-- `assertImmutableInvestigationKeys`: the errors that it throws, none where it returns.
pub assert_immutable_investigation_keys : Value → Value → List FieldError
assert_immutable_investigation_keys existing incoming =
    immutable_errors (object_or_empty existing) (object_or_empty incoming)
      investigation_configuration_keys
