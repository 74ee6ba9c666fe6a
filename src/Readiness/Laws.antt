-- ===== src/Readiness/Laws.antt =====
-- When a finding is ready, which stage an enrichment belongs to, and what the blocks leave alone.
use open_kritt.Prelude.{
  String, ◌≡◌, sym, subst, ◌↔◌, Bool, true, false, not, ◌&&◌, Option, none, some, List, [], ◌∷◌,
  arith, eq_iff, if◌then◌else◌, all_distinct,
}
use open_kritt.Value.Texts.{id_string}
use open_kritt.Value.{
  Value, undefined, null, bool, number, real, string, array, object, get, prop, is_true,
}
use open_kritt.Readiness.{
  Stage, d3, d4, d5, Stages, stages_of, raw_stages, stage_id, pipeline_stages, find_stage,
  stage_for_enrichment,
}
use open_kritt.Readiness.Blocks.{is_skipped, Summary}

abbrev pub id_of : Stage → Stages → String
id_of d3 st = st.d3_id
id_of d4 st = st.d4_id
id_of d5 st = st.d5_id

stages_of-distinct :
    (a b c : Option String) (st : Stages)
    → stages_of a b c ≡ some st
    → all_distinct (st.d3_id ∷ st.d4_id ∷ st.d5_id ∷ []) ≡ true
stages_of-distinct (some a) (some b) (some c) st h = ground (arith, h)
stages_of-distinct none b c st h = cc h
stages_of-distinct (some a) none c st h = cc h
stages_of-distinct (some a) (some b) none st h = cc h

raw_stages-distinct :
    (v : Value) (st : Stages)
    → raw_stages v ≡ some st
    → all_distinct (st.d3_id ∷ st.d4_id ∷ st.d5_id ∷ []) ≡ true
raw_stages-distinct (object raw) st h =
    stages_of-distinct (stage_id (get "d3" raw)) (stage_id (get "d4" raw)) (stage_id (get "d5" raw))
      st h
raw_stages-distinct undefined st h = cc h
raw_stages-distinct null st h = cc h
raw_stages-distinct (bool _) st h = cc h
raw_stages-distinct (number _) st h = cc h
raw_stages-distinct (real _) st h = cc h
raw_stages-distinct (string _) st h = cc h
raw_stages-distinct (array _) st h = cc h

pipeline_stages-distinct :
    (scan : Value) (st : Stages)
    → pipeline_stages scan ≡ some st
    → all_distinct (st.d3_id ∷ st.d4_id ∷ st.d5_id ∷ []) ≡ true
unfolding pipeline_stages
pipeline_stages-distinct scan st h =
    raw_stages-distinct (prop "v27_pipeline" (prop "configuration" scan)) st h

find_stage_iff :
    (st : Stages) (id : String) (s : Stage)
    → all_distinct (st.d3_id ∷ st.d4_id ∷ st.d5_id ∷ []) ≡ true
    → (find_stage (some st) id ≡ some s) ↔ (id_of s st ≡ id)
find_stage_iff st id d3 h = ground (arith, h, eq_iff st.d3_id id)
find_stage_iff st id d4 h =
    ground (arith, h, eq_iff st.d3_id id, eq_iff st.d4_id id, eq_iff st.d4_id st.d3_id)
find_stage_iff st id d5 h = ground (
  arith,
  h,
  eq_iff st.d3_id id,
  eq_iff st.d4_id id,
  eq_iff st.d5_id id,
  eq_iff st.d5_id st.d3_id,
  eq_iff st.d5_id st.d4_id,
)

-- In a scan with a pipeline, an enrichment belongs to a stage exactly when its post-script is the
-- one of that stage.
pub stage_for_enrichment_iff :
    (enrichment scan : Value) (st : Stages) (s : Stage)
    → pipeline_stages scan ≡ some st
    → (stage_for_enrichment enrichment scan ≡ some s)
      ↔ (id_of s st ≡ id_string (prop "postScriptId" enrichment))
unfolding stage_for_enrichment
stage_for_enrichment_iff e scan st s h =
    subst
      (λ o.
        (find_stage o (id_string (prop "postScriptId" e)) ≡ some s)
        ↔ (id_of s st ≡ id_string (prop "postScriptId" e)))
      (sym h)
      (find_stage_iff st (id_string (prop "postScriptId" e)) s (pipeline_stages-distinct scan st h))

abbrev pub is_d5 : Option Stage → Bool
is_d5 (some d5) = true
is_d5 _ = false

-- Whether an enrichment counts as a result of D5.
abbrev pub counts_for_d5 : Value → Value → Bool
counts_for_d5 scan e = not (is_skipped e) && is_d5 (stage_for_enrichment e scan)

-- What an enrichment's own result says: the block that is stored in it has `ready` true.
abbrev pub stored_ready : Value → Bool
stored_ready e = is_true (prop "ready" (prop "_engine_readiness" (prop "result" e)))

-- What the last enrichment that counts as a result of D5 says, or the start value.
abbrev pub last_stored_ready : Value → List Value → Bool → Bool
last_stored_ready scan [] b = b
last_stored_ready scan (e ∷ es) b =
    last_stored_ready scan es (if counts_for_d5 scan e then stored_ready e else b)

abbrev pub is_ready : Option Summary → Bool
is_ready none = false
is_ready (some s) = s.ready
