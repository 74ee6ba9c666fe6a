-- ===== src/Readiness/Kept.antt =====
-- What the engine blocks leave alone, and the settings that a created scan reads back.
use open_kritt.Prelude.{
  String, ◌≡◌, refl, sym, ap, ◌∙◌, Bool, true, false, Option, none, some, List, [], ◌∷◌, ◌==◌,
  arith, if◌then◌else◌, includes,
}
use open_kritt.Value.Objects.{get-assign}
use open_kritt.Value.{
  Value, undefined, null, bool, number, real, string, array, object, Fields, field, own, get, prop,
  assign, is_true, object_or_empty, text_among,
}
use open_kritt.Investigation.{
  Pipeline, policy_version_of, investigation_kind_for_scan, investigation_kinds,
}
use open_kritt.Investigation.Laws.{
  investigation_kind_for_scan-accepts_iff, investigation_kind_for_scan-own, text_of-text_among,
}
use open_kritt.Readiness.{
  settings_of, investigation_settings, Stage, d3, d4, d5, legacy_lifecycle, legacy_evidence,
  legacy_readiness,
}
use open_kritt.Readiness.Blocks.{
  truthy, PerStage, with_block, with_readiness, stage_blocks, result_blocks, resolved_stage,
  with_engine_blocks,
}

-- The keys that the blocks of a stage are written to.
abbrev pub written_keys : Option Stage → List String
written_keys none = []
written_keys (some d3) = "_engine_lifecycle" ∷ []
written_keys (some d4) = "_engine_evidence" ∷ []
written_keys (some d5) = "missing_requirements" ∷ "_engine_readiness" ∷ "model_readiness_claim" ∷ []

get-assign_other :
    (k j : String) (v : Value) (fs : Fields) → (k == j) ≡ false → get j (assign k v fs) ≡ get j fs
get-assign_other k j v fs h = get-assign k j v fs ∙ ap (λ b. if b then v else get j fs) h

with_block-get :
    (k j : String) (stored : Value) (block result : Fields)
    → (k == j) ≡ false
    → get j (with_block k stored block result) ≡ get j result
with_block-get k j (object _) block result h = refl
with_block-get k j undefined block result h = get-assign_other k j _ result h
with_block-get k j null block result h = get-assign_other k j _ result h
with_block-get k j (bool _) block result h = get-assign_other k j _ result h
with_block-get k j (number _) block result h = get-assign_other k j _ result h
with_block-get k j (real _) block result h = get-assign_other k j _ result h
with_block-get k j (string _) block result h = get-assign_other k j _ result h
with_block-get k j (array _) block result h = get-assign_other k j _ result h

readiness-get :
    (j : String) (stored : Value) (claim : Bool) (block output : Fields)
    → ("_engine_readiness" == j) ≡ false
    → ("model_readiness_claim" == j) ≡ false
    → get j (with_readiness stored claim block output) ≡ get j output
readiness-get j stored claim block output h k =
    let both =
      get-assign_other "model_readiness_claim" j (bool claim)
        (assign "_engine_readiness" (object block) output) k
      ∙ get-assign_other "_engine_readiness" j (object block) output h in
    elim stored as (λ w. get j (with_readiness w claim block output) ≡ get j output) [
      | object _ ↦ refl
      | undefined ↦ both
      | null ↦ both
      | bool _ ↦ both
      | number _ ↦ both
      | real _ ↦ both
      | string _ ↦ both
      | array _ ↦ both
    ]

stage_blocks-get :
    (stage : Option Stage) (scan : Value) (prior : PerStage) (r : Fields) (j : String)
    → includes (written_keys stage) j ≡ false
    → get j (stage_blocks stage scan prior r) ≡ get j r
stage_blocks-get none scan prior r j h = refl
stage_blocks-get (some d3) scan prior r j h =
    with_block-get "_engine_lifecycle" j _ (legacy_lifecycle r) r ground (arith, h)
stage_blocks-get (some d4) scan prior r j h =
    with_block-get "_engine_evidence" j _ (legacy_evidence r) r ground (arith, h)
stage_blocks-get (some d5) scan prior r j h =
    readiness-get j (get "_engine_readiness" r) (is_true (get "submission_ready" r))
      (legacy_readiness scan prior.at_d4) _ ground (arith, h) ground (arith, h)
    ∙ get-assign_other "missing_requirements" j _ r ground (arith, h)

result_blocks-prop :
    (v : Value) (stub : Bool) (stage : Option Stage) (scan : Value) (prior : PerStage) (j : String)
    → includes (written_keys stage) j ≡ false
    → prop j (result_blocks v stub stage scan prior) ≡ prop j v
result_blocks-prop (object r) true stage scan prior j h = refl
result_blocks-prop (object r) false stage scan prior j h = stage_blocks-get stage scan prior r j h
result_blocks-prop undefined stub stage scan prior j h = refl
result_blocks-prop null stub stage scan prior j h = refl
result_blocks-prop (bool _) stub stage scan prior j h = refl
result_blocks-prop (number _) stub stage scan prior j h = refl
result_blocks-prop (real _) stub stage scan prior j h = refl
result_blocks-prop (string _) stub stage scan prior j h = refl
result_blocks-prop (array _) stub stage scan prior j h = refl

-- The engine blocks leave every property of an enrichment's result as it was, but those that are
-- written for its stage.
pub with_engine_blocks-prop :
    (enrichment : Value) (stage : Option Stage) (scan : Value) (prior : PerStage) (j : String)
    → includes (written_keys (resolved_stage stage enrichment scan)) j ≡ false
    → prop j (with_engine_blocks enrichment stage scan prior) ≡ prop j (prop "result" enrichment)
unfolding with_engine_blocks
with_engine_blocks-prop enrichment stage scan prior j h =
    result_blocks-prop (prop "result" enrichment) (truthy (prop "stub" enrichment))
      (resolved_stage stage enrichment scan) scan prior j h

get_of_own : (k : String) (v : Value) (fs : Fields) → own k fs ≡ some v → get k fs ≡ v
get_of_own k v fs h = ap (λ o. elim o [ none ↦ undefined | some w ↦ w ]) h

settings_of_user :
    (a b c : Value) (kind version : String)
    → a ≡ string kind
    → b ≡ string "user"
    → c ≡ string version
    → includes investigation_kinds kind ≡ true
    → (version == "") ≡ false
    → settings_of a b c ≡ record {
      investigation_kind = kind;
      investigation_kind_source = "user";
      readiness_policy_version = version;
    }
settings_of_user a b c kind version ha hb hc h k =
    ap (λ v. settings_of v b c) ha
    ∙ ap (λ v. settings_of (string kind) v c) hb
    ∙ ap (settings_of (string kind) (string "user")) hc
    ∙ ground (arith, h, k)

-- A gated scan that is created without an error, with a policy version that is a text and not
-- empty, reads back the kind that was submitted, the source "user" and that version.
pub created_settings :
    (c : Value) (p : Pipeline) (version : String) (rest : Fields)
    → policy_version_of p ≡ string version
    → (version == "") ≡ false
    → (investigation_kind_for_scan c (some p)).1 ≡ []
    → (kind : String) × (get "investigation_kind" (object_or_empty c) ≡ string kind)
      × (investigation_settings (
            object (field "configuration" (object (investigation_kind_for_scan c (some p)).0) rest))
          ≡ record {
            investigation_kind = kind;
            investigation_kind_source = "user";
            readiness_policy_version = version;
          })
unfolding investigation_settings
created_settings c p version rest e n h =
    let r = (investigation_kind_for_scan c (some p)).0 in
    let (known, _) = (investigation_kind_for_scan-accepts_iff c p).0 h in
    let (kind, is_kind) = text_of-text_among investigation_kinds _ known in
    (
      kind,
      is_kind,
      settings_of_user (get "investigation_kind" r) (get "investigation_kind_source" r)
          (get "readiness_policy_version" r) kind version
          (get_of_own "investigation_kind" _ r
              (investigation_kind_for_scan-own c p "investigation_kind" h)
            ∙ is_kind)
          (get_of_own "investigation_kind_source" _ r
            (investigation_kind_for_scan-own c p "investigation_kind_source" h))
          (get_of_own "readiness_policy_version" _ r
              (investigation_kind_for_scan-own c p "readiness_policy_version" h)
            ∙ e)
          (sym (ap (text_among investigation_kinds) is_kind) ∙ known) n,
    )
