-- ===== src/Investigation/Tests.antt =====
-- Runs of the checks of the investigation keys, and the theorems at concrete inputs.
use open_kritt.Prelude.{◌≡◌, ◌↔◌, refl, String, some, List, [], ◌∷◌, All}
use open_kritt.Text.{decimal}
use open_kritt.Value.{
  Value, string, object, end, field, own, assign, object_or_empty, FieldError, ok,
}
use open_kritt.Investigation.{
  Pipeline, resolve_v27_pipeline, v27_workflow_name, d3_name, d4_name, d5_name,
  investigation_kind_for_scan, immutable_errors, immutable_key_errors,
  assert_immutable_investigation_keys, investigation_configuration_keys, current_policy_version,
}
use open_kritt.Investigation.Laws.{Agrees, assert_immutable_iff, resubmission_accepted}

abbrev pipeline : Pipeline
pipeline = record {
  d3 = "31";
  d4 = "32";
  d5 = "33";
  policy_version = string current_policy_version;
}

abbrev submitted : Value
submitted =
    object (field "threads" (string "4") (field "investigation_kind" (string "private_audit") end))

abbrev changed : Value
changed = object (field "investigation_kind" (string "public_bounty") end)

checks : Unit {0}
unfolding investigation_kind_for_scan assert_immutable_investigation_keys immutable_errors
    immutable_key_errors resolve_v27_pipeline assign decimal
checks = tt

abbrev named_in : List FieldError → List String
named_in [] = []
named_in (e ∷ es) = e.field_name ∷ named_in es

runs :
    ((investigation_kind_for_scan submitted (some pipeline)).1 ≡ [])
    × (named_in (investigation_kind_for_scan (object end) (some pipeline)).1
        ≡ "configuration.investigation_kind" ∷ [])
    × (named_in (assert_immutable_investigation_keys submitted changed)
        ≡ "configuration.investigation_kind" ∷ [])
    × (resolve_v27_pipeline (some v27_workflow_name) (
          record { id = 31; name = d3_name }
          ∷ record { id = 32; name = d4_name }
          ∷ record { id = 33; name = d5_name }
          ∷ [])
        ≡ ok (some pipeline))
unfolding checks
runs = (refl, refl, refl, refl)

assert_immutable_iff_example :
    (assert_immutable_investigation_keys submitted changed ≡ [])
    ↔ All
        (λ k. Agrees (own k (object_or_empty submitted)) (own k (object_or_empty changed)))
        investigation_configuration_keys
assert_immutable_iff_example = assert_immutable_iff submitted changed

resubmission_accepted_example :
    let r = object (investigation_kind_for_scan submitted (some pipeline)).0 in
    assert_immutable_investigation_keys r r ≡ []
unfolding investigation_kind_for_scan assign
resubmission_accepted_example =
    resubmission_accepted submitted pipeline current_policy_version refl refl
