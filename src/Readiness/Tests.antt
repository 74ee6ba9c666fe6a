-- ===== src/Readiness/Tests.antt =====
-- Runs of the readiness of findings, and the theorems at concrete inputs.
use open_kritt.Prelude.{◌≡◌, refl, String, true, false, some, [], ◌∷◌}
use open_kritt.Text.{decimal, is_positive_digits, all_chars}
use open_kritt.Value.Texts.{id_string, to_text}
use open_kritt.Value.{Value, string, bool, number, object, end, field, get, assign, object_or_empty}
use open_kritt.Investigation.{Pipeline, investigation_kind_for_scan, current_policy_version}
use open_kritt.Readiness.{investigation_settings, d5, Stages, pipeline_stages, stage_for_enrichment}
use open_kritt.Readiness.Blocks.{
  with_engine_blocks, latest_of, finding_stage_results, finding_readiness,
}
use open_kritt.Readiness.Laws.{is_ready, last_stored_ready}
use open_kritt.Readiness.Ready.{finding_readiness_lem}
use open_kritt.Readiness.Kept.{created_settings}

abbrev scan : Value
scan = object (
    field "configuration"
      (object (
        field "v27_pipeline"
          (object
            (field "d3" (string "31") (field "d4" (number 32) (field "d5" (string "33") end))))
          end))
      end)

abbrev stages : Stages
stages = record { d3_id = "31"; d4_id = "32"; d5_id = "33" }

-- A result of D5 whose stored block says that it is ready.
abbrev judged : Value
judged = object (
    field "postScriptId" (number 33) (
      field "result"
        (object (
          field "_engine_readiness"
            (object (field "ready" (bool true) (field "label" (string "report_ready") end))) end))
        end))

-- A result of D5 without a block, where the model claims that it is ready.
abbrev claimed : Value
claimed = object (
    field "postScriptId" (number 33)
      (field "result" (object (field "submission_ready" (bool true) end)) end))

readings : Unit {0}
unfolding finding_readiness finding_stage_results latest_of with_engine_blocks stage_for_enrichment
    pipeline_stages is_positive_digits id_string assign all_chars to_text decimal
readings = tt

runs :
    (pipeline_stages scan ≡ some stages)
    × (stage_for_enrichment judged scan ≡ some d5)
    × (is_ready (finding_readiness (judged ∷ []) scan) ≡ true)
    × (is_ready (finding_readiness (judged ∷ claimed ∷ []) scan) ≡ false)
    × (is_ready (finding_readiness (claimed ∷ judged ∷ []) scan) ≡ true)
unfolding readings
runs = (refl, refl, refl, refl, refl)

finding_readiness_lem_example :
    is_ready (finding_readiness (claimed ∷ judged ∷ []) scan)
    ≡ last_stored_ready scan (claimed ∷ judged ∷ []) false
finding_readiness_lem_example = finding_readiness_lem (claimed ∷ judged ∷ []) scan

abbrev pipeline : Pipeline
pipeline = record {
  d3 = "31";
  d4 = "32";
  d5 = "33";
  policy_version = string current_policy_version;
}

abbrev submitted : Value
submitted = object (field "investigation_kind" (string "private_audit") end)

created_settings_example :
    (kind : String) × (get "investigation_kind" (object_or_empty submitted) ≡ string kind)
    × (investigation_settings (
          object (
            field "configuration"
              (object (investigation_kind_for_scan submitted (some pipeline)).0)
              end))
        ≡ record {
          investigation_kind = kind;
          investigation_kind_source = "user";
          readiness_policy_version = current_policy_version;
        })
unfolding investigation_kind_for_scan
created_settings_example =
    created_settings submitted pipeline current_policy_version end refl refl refl
