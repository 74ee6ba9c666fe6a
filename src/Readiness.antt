-- ===== src/Readiness.antt =====
-- The readiness settings and stages of a gated scan, and the blocks that are made up for results
-- that predate the gate: backend/src/lib/impactReadiness.js, up to `withEngineBlocks`.
pub mod Blocks
mod Laws
mod Ready
mod Kept
mod Tests
use open_kritt.Prelude.{
  String, Bool, true, false, not, ◌&&◌, ◌||◌, Option, none, some, List, [], ◌∷◌, ◌==◌,
  if◌then◌else◌, includes, all_distinct,
}
use open_kritt.Text.{trim, starts_with, is_positive_digits}
use open_kritt.Value.Texts.{id_string, stringify}
use open_kritt.Value.{
  Value, undefined, null, bool, number, real, string, array, object, Items, nil, cons, Fields, end,
  field, get, prop, as_object, is_string, is_true, string_or, text_among, strict_equal,
}
use open_kritt.Investigation.{investigation_kinds, current_policy_version}

abbrev pub legacy_policy_version : String
legacy_policy_version = "legacy-unverified"

abbrev legacy_kind_reason : String
legacy_kind_reason =
    "Investigation kind and readiness policy were not explicitly selected when this legacy scan was created."

abbrev legacy_result_reason : String
legacy_result_reason = "Legacy result without structured impact evidence."

pub record Settings : Type 0 where
  pub investigation_kind : String
  pub investigation_kind_source : String
  pub readiness_policy_version : String

abbrev pub legacy_settings : Settings
legacy_settings = record {
  investigation_kind = "internal_research";
  investigation_kind_source = "legacy_default";
  readiness_policy_version = legacy_policy_version;
}

-- `typeof version === 'string' && version ? version : READINESS_POLICY_VERSION`
abbrev pub version_or_current : Value → String
version_or_current (string v) = if v == "" then current_policy_version else v
version_or_current _ = current_policy_version

-- The settings from the three values of the configuration.
abbrev pub settings_of : Value → Value → Value → Settings
settings_of (string kind) source version =
    if includes investigation_kinds kind && strict_equal source (string "user")
    then record {
      investigation_kind = kind;
      investigation_kind_source = "user";
      readiness_policy_version = version_or_current version;
    }
    else legacy_settings
settings_of kind source version = legacy_settings

-- `investigationSettings(scan)`
pub investigation_settings : Value → Settings
investigation_settings scan =
    let configuration = prop "configuration" scan in
    settings_of (prop "investigation_kind" configuration)
      (prop "investigation_kind_source" configuration)
      (prop "readiness_policy_version" configuration)

abbrev pub readiness_label_for_kind : String → String
readiness_label_for_kind kind =
    if includes ("public_bounty" ∷ "audit_competition" ∷ []) kind
    then "submission_ready"
    else "report_ready"

pub data Stage : Type 0 where
  d3 d4 d5 : Stage

-- The three ids that `pipelineStages` returns.
pub record Stages : Type 0 where
  pub d3_id : String
  pub d4_id : String
  pub d5_id : String

abbrev pub stage_id : Value → Option String
stage_id raw = let t = id_string raw in if is_positive_digits t then some t else none

abbrev pub stages_of : Option String → Option String → Option String → Option Stages
stages_of (some a) (some b) (some c) =
    if all_distinct (a ∷ b ∷ c ∷ [])
    then some (record { d3_id = a; d4_id = b; d5_id = c })
    else none
stages_of _ _ _ = none

abbrev pub raw_stages : Value → Option Stages
raw_stages (object raw) =
    stages_of (stage_id (get "d3" raw)) (stage_id (get "d4" raw)) (stage_id (get "d5" raw))
raw_stages _ = none

-- `pipelineStages(scan)`
unfoldable pub pipeline_stages : Value → Option Stages
pipeline_stages scan = raw_stages (prop "v27_pipeline" (prop "configuration" scan))

abbrev pub find_stage : Option Stages → String → Option Stage
find_stage none id = none
find_stage (some st) id =
    if st.d3_id == id
    then some d3
    else if st.d4_id == id
    then some d4
    else if st.d5_id == id
    then some d5
    else none

-- `stageForEnrichment(enrichment, scan)`
unfoldable pub stage_for_enrichment : Value → Value → Option Stage
stage_for_enrichment enrichment scan =
    find_stage (pipeline_stages scan) (id_string (prop "postScriptId" enrichment))

abbrev pub all_strings : Items → Bool
all_strings nil = true
all_strings (cons v vs) = is_string v && all_strings vs

-- `normalizeMissingRequirements`, which throws for the values without a result.
abbrev pub normalize_missing_requirements : Value → Option Items
normalize_missing_requirements undefined = some nil
normalize_missing_requirements null = some nil
normalize_missing_requirements (string s) = some (if trim s == "" then nil else cons (string s) nil)
normalize_missing_requirements (array vs) = if all_strings vs then some vs else none
normalize_missing_requirements _ = none

-- `typeof entry === 'string' ? entry : JSON.stringify(entry)`
abbrev pub entry_text : Value → Value
entry_text undefined = undefined
entry_text (string s) = string s
entry_text v = string (stringify v)

abbrev pub entry_texts : Items → Items
entry_texts nil = nil
entry_texts (cons v vs) = cons (entry_text v) (entry_texts vs)

abbrev pub coerced : Value → Items
coerced (array vs) = entry_texts vs
coerced v = cons (entry_text v) nil

-- `lenientMissingRequirements`
pub lenient_missing_requirements : Value → Items
lenient_missing_requirements value = elim (normalize_missing_requirements value) [
  | some vs ↦ vs
  | none ↦ coerced value
]

abbrev pub legacy_lifecycle : Fields → Fields
legacy_lifecycle result =
    let verdict = get "verdict" result in
    field "lifecycle_status"
      (string (
        if text_among ("confirmed" ∷ "plausible_needs_poc" ∷ []) verdict
        then "code_confirmed"
        else if strict_equal verdict (string "false_positive")
        then "false_positive"
        else "not_advanced"))
      (field "policy_version" (string legacy_policy_version) (field "legacy" (bool true) end))

abbrev pub poc_bug_status : String → String
poc_bug_status status =
    if status == "reproduced"
    then "reproduced"
    else if includes ("not_reproduced" ∷ "invalidated_by_test" ∷ []) status
    then "not_reproduced"
    else if starts_with status "blocked_"
        || includes ("unsafe_external_dependency" ∷ "non_deterministic" ∷ []) status
    then "blocked"
    else "not_reproduced"

abbrev pub bug_status_or : Value → String → String
bug_status_or (string b) status =
    if includes ("reproduced" ∷ "not_reproduced" ∷ "blocked" ∷ "falsified" ∷ []) b
    then b
    else poc_bug_status status
bug_status_or _ status = poc_bug_status status

pub legacy_bug_status : Fields → String
legacy_bug_status result =
    bug_status_or (get "bug_status" result) (string_or "" (get "poc_status" result))

-- `BUG_LIFECYCLE[bugStatus]`
abbrev pub bug_lifecycle : String → Value
bug_lifecycle s =
    if s == "reproduced"
    then string "legacy_bug_reproduced_impact_unverified"
    else if s == "not_reproduced"
    then string "bug_not_reproduced"
    else if s == "blocked"
    then string "bug_blocked"
    else if s == "falsified"
    then string "bug_falsified"
    else undefined

abbrev pub legacy_evidence : Fields → Fields
legacy_evidence result =
    let status = legacy_bug_status result in
    field "bug_status" (string status) (
      field "impact_status" (string "unverified") (
        field "capture_complete" (bool false) (
          field "artifact_dir" (string (string_or "" (get "poc_artifact_dir" result))) (
            field "captured_paths" (array nil) (
              field "unresolved_paths" (array nil) (
                field "lifecycle_status" (bug_lifecycle status) (
                  field "policy_version" (string legacy_policy_version)
                    (field "legacy" (bool true) end))))))))

-- `legacyReadiness(scan, prior)`, from the prior result of D4.
abbrev pub legacy_readiness : Value → Value → Fields
legacy_readiness scan prior_d4 =
    let settings = investigation_settings scan in
    let status = prop "lifecycle_status" (prop "_engine_evidence" prior_d4) in
    field "ready" (bool false) (
      field "label" (string (readiness_label_for_kind settings.investigation_kind)) (
        field "lifecycle_status" (string (string_or "code_confirmed" status)) (
          field "blocking_reasons"
            (array (
              cons
                (string (
                  if settings.investigation_kind_source == "user"
                  then legacy_result_reason
                  else legacy_kind_reason))
                nil))
            (field "checks" (object end) (
              field "policy" (string settings.investigation_kind) (
                field "policy_version" (string legacy_policy_version)
                  (field "evaluated_at" null (field "legacy" (bool true) end))))))))
