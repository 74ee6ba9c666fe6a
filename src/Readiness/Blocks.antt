-- ===== src/Readiness/Blocks.antt =====
-- The results of a finding's stages, and its readiness: backend/src/lib/impactReadiness.js, from
-- `withEngineBlocks` on. A result of a stage that is absent is `undefined`.
use open_kritt.Prelude.{
  String, Bool, true, false, not, ◌||◌, Option, none, some, List, [], ◌∷◌, ◌==◌, nat_eq,
  if◌then◌else◌,
}
use open_kritt.Text.{concat}
use open_kritt.Value.Texts.{to_text}
use open_kritt.Value.{
  Value, undefined, null, bool, number, real, string, array, object, Items, nil, cons, Fields, get,
  prop, is_true, string_or, coalesce, assign,
}
use open_kritt.Readiness.{
  investigation_settings, readiness_label_for_kind, Stage, d3, d4, d5, Stages, pipeline_stages,
  stage_for_enrichment, lenient_missing_requirements, legacy_lifecycle, legacy_evidence,
  legacy_readiness,
}

-- A value as a condition.
abbrev pub truthy : Value → Bool
truthy undefined = false
truthy null = false
truthy (bool b) = b
truthy (number n) = not (nat_eq n 0)
truthy (real s) = not (s == "NaN")
truthy (string s) = not (s == "")
truthy (array _) = true
truthy (object _) = true

-- One value for each stage.
pub record PerStage : Type 0 where
  pub at_d3 : Value
  pub at_d4 : Value
  pub at_d5 : Value

abbrev pub no_stages : PerStage
no_stages = record { at_d3 = undefined; at_d4 = undefined; at_d5 = undefined }

abbrev pub at : Stage → PerStage → Value
at d3 p = p.at_d3
at d4 p = p.at_d4
at d5 p = p.at_d5

abbrev pub set_stage : Stage → Value → PerStage → PerStage
set_stage d3 v p = record { at_d3 = v; at_d4 = p.at_d4; at_d5 = p.at_d5 }
set_stage d4 v p = record { at_d3 = p.at_d3; at_d4 = v; at_d5 = p.at_d5 }
set_stage d5 v p = record { at_d3 = p.at_d3; at_d4 = p.at_d4; at_d5 = v }

-- `record(stored) ? result : { ...result, [key]: block }`
abbrev pub with_block : String → Value → Fields → Fields → Fields
with_block key (object _) block result = result
with_block key _ block result = assign key (object block) result

-- The two assignments of the D5 branch, where no block is stored.
abbrev pub with_readiness : Value → Bool → Fields → Fields → Fields
with_readiness (object _) claim block output = output
with_readiness _ claim block output =
    assign "model_readiness_claim" (bool claim) (assign "_engine_readiness" (object block) output)

abbrev pub stage_blocks : Option Stage → Value → PerStage → Fields → Fields
stage_blocks none scan prior result = result
stage_blocks (some d3) scan prior result =
    with_block "_engine_lifecycle" (get "_engine_lifecycle" result) (legacy_lifecycle result) result
stage_blocks (some d4) scan prior result =
    with_block "_engine_evidence" (get "_engine_evidence" result) (legacy_evidence result) result
stage_blocks (some d5) scan prior result =
    with_readiness (get "_engine_readiness" result) (is_true (get "submission_ready" result))
      (legacy_readiness scan prior.at_d4)
      (assign "missing_requirements"
        (array (lenient_missing_requirements (get "missing_requirements" result))) result)

-- `stage ?? stageForEnrichment(enrichment, scan)`
abbrev pub resolved_stage : Option Stage → Value → Value → Option Stage
resolved_stage none enrichment scan = stage_for_enrichment enrichment scan
resolved_stage (some s) enrichment scan = some s

abbrev pub result_blocks : Value → Bool → Option Stage → Value → PerStage → Value
result_blocks (object result) true stage scan prior = object result
result_blocks (object result) false stage scan prior = object (stage_blocks stage scan prior result)
result_blocks v stub stage scan prior = v

-- `withEngineBlocks(enrichment, { stage, scan, prior })`
unfoldable pub with_engine_blocks : Value → Option Stage → Value → PerStage → Value
with_engine_blocks enrichment stage scan prior =
    result_blocks (prop "result" enrichment) (truthy (prop "stub" enrichment))
      (resolved_stage stage enrichment scan) scan prior

abbrev pub is_record : Value → Bool
is_record (object _) = true
is_record _ = false

-- `enrichment?.stub || !record(enrichment?.result)`
abbrev pub is_skipped : Value → Bool
is_skipped enrichment =
    truthy (prop "stub" enrichment) || not (is_record (prop "result" enrichment))

abbrev pub set_latest : Option Stage → Value → PerStage → PerStage
set_latest none enrichment latest = latest
set_latest (some s) enrichment latest = set_stage s enrichment latest

-- The loop over the enrichments.
unfoldable pub latest_of : Value → List Value → PerStage → PerStage
latest_of scan [] latest = latest
latest_of scan (e ∷ es) latest =
    latest_of scan es
      (if is_skipped e then latest else set_latest (stage_for_enrichment e scan) e latest)

-- One round of the loop over the stages.
abbrev pub add_stage : Stage → Value → PerStage → PerStage → PerStage
add_stage s scan latest stages =
    if truthy (at s latest)
    then set_stage s (with_engine_blocks (at s latest) (some s) scan stages) stages
    else stages

abbrev pub stage_results : Value → PerStage → PerStage
stage_results scan latest =
    add_stage d5 scan latest (add_stage d4 scan latest (add_stage d3 scan latest no_stages))

-- `if (!pipelineStages(scan)) return stages;`
abbrev pub results_of : Option Stages → PerStage → PerStage
results_of none p = no_stages
results_of (some _) p = p

-- `findingStageResults`, from the list `vulnerability?.enrichments || []`.
unfoldable pub finding_stage_results : List Value → Value → PerStage
finding_stage_results enrichments scan =
    results_of (pipeline_stages scan) (stage_results scan (latest_of scan enrichments no_stages))

pub record Summary : Type 0 where
  pub stage : Stage
  pub ready : Bool
  pub label : String
  pub lifecycle_status : Value
  pub policy_version : Value
  pub legacy : Bool
  pub blocking_reasons : Items
  pub evidence : Value
  pub lifecycle : Value
  pub readiness : Value

-- `record(value)`
abbrev pub record_or_null : Value → Value
record_or_null (object fs) = object fs
record_or_null _ = null

abbrev pub reasons_of : Value → Items
reasons_of (array vs) = vs
reasons_of _ = nil

-- `[...PIPELINE_STAGES].reverse().find((candidate) => stages[candidate])`
abbrev pub last_stage : PerStage → Option Stage
last_stage p =
    if truthy p.at_d5
    then some d5
    else if truthy p.at_d4
    then some d4
    else if truthy p.at_d3
    then some d3
    else none

-- `STAGE_LABEL[stage]`
abbrev pub stage_label : Stage → String
stage_label d3 = "D3"
stage_label d4 = "D4"
stage_label d5 = "undefined"

abbrev pub unfinished_reason : Stage → Value → String
unfinished_reason s status = concat (
    "Readiness was not evaluated: the pipeline ended at "
    ∷ stage_label s
    ∷ " with lifecycle \""
    ∷ to_text (coalesce status (string "unknown"))
    ∷ "\"."
    ∷ [])

-- The second return, for a pipeline that ended before D5.
abbrev pub unfinished : Stage → Value → PerStage → String → Summary
unfinished s block stages label =
    let status = coalesce (prop "lifecycle_status" block) null in
    record {
      stage = s;
      ready = false;
      label = label;
      lifecycle_status = status;
      policy_version = coalesce (prop "policy_version" block) null;
      legacy = is_true (prop "legacy" block);
      blocking_reasons = cons (string (unfinished_reason s status)) nil;
      evidence = record_or_null (prop "_engine_evidence" stages.at_d4);
      lifecycle = record_or_null (prop "_engine_lifecycle" stages.at_d3);
      readiness = null;
    }

-- The first return, for a D5 result with its block.
abbrev pub finished : Fields → PerStage → String → Summary
finished block stages label = record {
  stage = d5;
  ready = is_true (get "ready" block);
  label = string_or label (get "label" block);
  lifecycle_status = coalesce (get "lifecycle_status" block) null;
  policy_version = coalesce (get "policy_version" block) null;
  legacy = is_true (get "legacy" block);
  blocking_reasons = reasons_of (get "blocking_reasons" block);
  evidence = record_or_null (prop "_engine_evidence" stages.at_d4);
  lifecycle = record_or_null (prop "_engine_lifecycle" stages.at_d3);
  readiness = object block;
}

abbrev pub summary_of : Option Stage → Value → PerStage → String → Option Summary
summary_of none block stages label = none
summary_of (some d3) block stages label =
    some (unfinished d3 (prop "_engine_lifecycle" stages.at_d3) stages label)
summary_of (some d4) block stages label =
    some (unfinished d4 (prop "_engine_evidence" stages.at_d4) stages label)
summary_of (some d5) (object block) stages label = some (finished block stages label)
summary_of (some d5) _ stages label =
    some (unfinished d5 (prop "_engine_lifecycle" stages.at_d3) stages label)

-- `findingReadiness(vulnerability, scan)`
unfoldable pub finding_readiness : List Value → Value → Option Summary
finding_readiness enrichments scan =
    let stages = finding_stage_results enrichments scan in
    summary_of (last_stage stages) (prop "_engine_readiness" stages.at_d5) stages
      (readiness_label_for_kind (investigation_settings scan).investigation_kind)
