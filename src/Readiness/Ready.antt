-- ===== src/Readiness/Ready.antt =====
-- A finding is ready exactly when the result of D5 that counts says so.
use open_kritt.Prelude.{
  String, ◌≡◌, refl, sym, ap, ◌∙◌, ◌⊎◌, inl, inr, Bool, true, false, not, ◌&&◌, Option, none, some,
  List, [], ◌∷◌, arith, if◌then◌else◌,
}
use open_kritt.Value.Texts.{id_string}
use open_kritt.Value.Objects.{get-assign}
use open_kritt.Value.{
  Value, undefined, null, bool, number, real, string, array, object, Fields, get, prop, assign,
  is_true,
}
use open_kritt.Readiness.{
  Stage, d3, d4, d5, Stages, pipeline_stages, find_stage, stage_for_enrichment,
  readiness_label_for_kind, investigation_settings,
}
use open_kritt.Readiness.Blocks.{
  truthy, PerStage, no_stages, with_readiness, stage_blocks, result_blocks, with_engine_blocks,
  is_skipped, is_record, set_latest, latest_of, add_stage, stage_results, finding_stage_results,
  results_of, summary_of, last_stage, finding_readiness,
}
use open_kritt.Readiness.Laws.{is_d5, counts_for_d5, stored_ready, last_stored_ready, is_ready}

latest_step :
    (o : Option Stage) (skip : Bool) (e : Value) (p : PerStage)
    → stored_ready (if skip then p else set_latest o e p).at_d5
      ≡ (if not skip && is_d5 o then stored_ready e else stored_ready p.at_d5)
latest_step o true e p = refl
latest_step none false e p = refl
latest_step (some d3) false e p = refl
latest_step (some d4) false e p = refl
latest_step (some d5) false e p = refl

latest_of-ready :
    (scan : Value) (es : List Value) (p : PerStage)
    → stored_ready (latest_of scan es p).at_d5 ≡ last_stored_ready scan es (stored_ready p.at_d5)
unfolding latest_of
latest_of-ready scan [] p = refl
latest_of-ready scan (e ∷ es) p =
    latest_of-ready scan es
      (if is_skipped e then p else set_latest (stage_for_enrichment e scan) e p)
    ∙ ap (last_stored_ready scan es) (latest_step (stage_for_enrichment e scan) (is_skipped e) e p)

-- An enrichment that counted, or none.
abbrev IsFresh : Value → Type 0
IsFresh v = (v ≡ undefined) ⊎ (is_skipped v ≡ false)

IsFresh-step :
    (o : Option Stage) (skip : Bool) (e : Value) (p : PerStage)
    → is_skipped e ≡ skip
    → IsFresh p.at_d5
    → IsFresh (if skip then p else set_latest o e p).at_d5
IsFresh-step o true e p h f = f
IsFresh-step none false e p h f = f
IsFresh-step (some d3) false e p h f = f
IsFresh-step (some d4) false e p h f = f
IsFresh-step (some d5) false e p h f = inr h

latest_of-IsFresh :
    (scan : Value) (es : List Value) (p : PerStage)
    → IsFresh p.at_d5
    → IsFresh (latest_of scan es p).at_d5
unfolding latest_of
latest_of-IsFresh scan [] p f = f
latest_of-IsFresh scan (e ∷ es) p f =
    latest_of-IsFresh scan es
      (if is_skipped e then p else set_latest (stage_for_enrichment e scan) e p)
      (IsFresh-step (stage_for_enrichment e scan) (is_skipped e) e p refl f)

-- The block that the D5 branch leaves in the result.
HasBlock : Value → Fields → Type 0
HasBlock v output =
    (b : Fields) × (get "_engine_readiness" output ≡ object b)
    × (is_true (get "ready" b) ≡ is_true (prop "ready" v))

made_up :
    (claim : Bool) (block output : Fields)
    → get "_engine_readiness" (
        assign "model_readiness_claim"
          (bool claim)
          (assign "_engine_readiness" (object block) output))
      ≡ object block
made_up claim block output =
    get-assign "model_readiness_claim" "_engine_readiness" (bool claim)
      (assign "_engine_readiness" (object block) output)
    ∙ get-assign "_engine_readiness" "_engine_readiness" (object block) output

with_readiness-block :
    (v : Value) (claim : Bool) (block output : Fields)
    → get "_engine_readiness" output ≡ v
    → is_true (get "ready" block) ≡ false
    → HasBlock v (with_readiness v claim block output)
unfolding HasBlock
with_readiness-block (object b) claim block output h k = (b, h, refl)
with_readiness-block undefined claim block output h k = (block, made_up claim block output, k)
with_readiness-block null claim block output h k = (block, made_up claim block output, k)
with_readiness-block (bool _) claim block output h k = (block, made_up claim block output, k)
with_readiness-block (number _) claim block output h k = (block, made_up claim block output, k)
with_readiness-block (real _) claim block output h k = (block, made_up claim block output, k)
with_readiness-block (string _) claim block output h k = (block, made_up claim block output, k)
with_readiness-block (array _) claim block output h k = (block, made_up claim block output, k)

d5_block :
    (scan : Value) (prior : PerStage) (r : Fields)
    → HasBlock (get "_engine_readiness" r) (stage_blocks (some d5) scan prior r)
d5_block scan prior r =
    with_readiness-block (get "_engine_readiness" r) _ _ _
      (get-assign "missing_requirements" "_engine_readiness" _ r) refl

record_of : (w : Value) → is_record w ≡ true → (r : Fields) × (w ≡ object r)
record_of (object r) h = (r, refl)
record_of undefined h = cc h
record_of null h = cc h
record_of (bool _) h = cc h
record_of (number _) h = cc h
record_of (real _) h = cc h
record_of (string _) h = cc h
record_of (array _) h = cc h

-- The result of an enrichment that counts.
counted :
    (v : Value)
    → is_skipped v ≡ false
    → (is_record (prop "result" v) ≡ true) × (truthy (prop "stub" v) ≡ false) × (truthy v ≡ true)
counted (object fs) h = (ground (arith, h), ground (arith, h), refl)
counted undefined h = cc h
counted null h = cc h
counted (bool _) h = cc h
counted (number _) h = cc h
counted (real _) h = cc h
counted (string _) h = cc h
counted (array _) h = cc h

unready :
    (p : PerStage) (block : Value) (label : String)
    → p.at_d5 ≡ undefined
    → is_ready (summary_of (last_stage p) block p label) ≡ false
unready p block label h = ground (arith, ap truthy h)

last_of : (p : PerStage) (output : Fields) → p.at_d5 ≡ object output → last_stage p ≡ some d5
last_of p output h = ground (arith, ap truthy h)

finished_ready :
    (p : PerStage) (label : String) (output b : Fields)
    → p.at_d5 ≡ object output
    → get "_engine_readiness" output ≡ object b
    → is_ready (summary_of (last_stage p) (prop "_engine_readiness" p.at_d5) p label)
      ≡ is_true (get "ready" b)
finished_ready p label output b h k =
    ap (λ o. is_ready (summary_of o (prop "_engine_readiness" p.at_d5) p label))
      (last_of p output h)
    ∙ ap (λ w. is_ready (summary_of (some d5) w p label)) (ap (prop "_engine_readiness") h ∙ k)

-- The D5 result after the loop over the stages.
unstaged :
    (scan : Value) (latest p : PerStage)
    → (add_stage d4 scan latest (add_stage d3 scan latest p)).at_d5 ≡ p.at_d5
unstaged scan latest p = ground arith

d5_absent :
    (scan : Value) (latest q : PerStage)
    → truthy latest.at_d5 ≡ false
    → (add_stage d5 scan latest q).at_d5 ≡ q.at_d5
d5_absent scan latest q h = ground (arith, h)

d5_present :
    (scan : Value) (latest q : PerStage)
    → truthy latest.at_d5 ≡ true
    → (add_stage d5 scan latest q).at_d5 ≡ with_engine_blocks latest.at_d5 (some d5) scan q
d5_present scan latest q h = ground (arith, h)

blocks_of_record :
    (v scan : Value) (q : PerStage) (r : Fields)
    → prop "result" v ≡ object r
    → truthy (prop "stub" v) ≡ false
    → with_engine_blocks v (some d5) scan q ≡ object (stage_blocks (some d5) scan q r)
unfolding with_engine_blocks
blocks_of_record v scan q r h k =
    ap (λ w. result_blocks w (truthy (prop "stub" v)) (some d5) scan q) h
    ∙ ap (λ b. result_blocks (object r) b (some d5) scan q) k

ready_of_latest :
    (scan : Value) (latest : PerStage) (label : String)
    → IsFresh latest.at_d5
    → let p = stage_results scan latest in
      is_ready (summary_of (last_stage p) (prop "_engine_readiness" p.at_d5) p label)
      ≡ stored_ready latest.at_d5
unfolding HasBlock
ready_of_latest scan latest label (inl e) =
    let q = add_stage d4 scan latest (add_stage d3 scan latest no_stages) in
    let p = add_stage d5 scan latest q in
    unready p (prop "_engine_readiness" p.at_d5) label
      (d5_absent scan latest q (ap truthy e) ∙ unstaged scan latest no_stages)
    ∙ sym (ap stored_ready e)
ready_of_latest scan latest label (inr f) =
    let q = add_stage d4 scan latest (add_stage d3 scan latest no_stages) in
    let p = add_stage d5 scan latest q in
    let v = latest.at_d5 in
    let (is_rec, no_stub, here) = counted v f in
    let (r, er) = record_of (prop "result" v) is_rec in
    let (b, eb, rb) = d5_block scan q r in
    finished_ready p label (stage_blocks (some d5) scan q r) b
      (d5_present scan latest q here ∙ blocks_of_record v scan q r er no_stub) eb
    ∙ rb
    ∙ sym (ap (λ w. is_true (prop "ready" (prop "_engine_readiness" w))) er)

no_stage : (e scan : Value) → pipeline_stages scan ≡ none → stage_for_enrichment e scan ≡ none
unfolding stage_for_enrichment
no_stage e scan h = ap (λ o. find_stage o (id_string (prop "postScriptId" e))) h

no_count :
    (o : Option Stage) (skip x b : Bool) → o ≡ none → (if not skip && is_d5 o then x else b) ≡ b
no_count o skip x b h = ground (arith, ap is_d5 h)

no_pipeline :
    (scan : Value) (es : List Value) (b : Bool)
    → pipeline_stages scan ≡ none
    → last_stored_ready scan es b ≡ b
no_pipeline scan [] b h = refl
no_pipeline scan (e ∷ es) b h =
    no_pipeline scan es (if counts_for_d5 scan e then stored_ready e else b) h
    ∙ no_count (stage_for_enrichment e scan) (is_skipped e) (stored_ready e) b (no_stage e scan h)

summarized : PerStage → String → Bool
summarized p label = is_ready (summary_of (last_stage p) (prop "_engine_readiness" p.at_d5) p label)

finding_stage_results-results_of :
    (es : List Value) (scan : Value)
    → finding_stage_results es scan
      ≡ results_of (pipeline_stages scan) (stage_results scan (latest_of scan es no_stages))
unfolding finding_stage_results
finding_stage_results-results_of es scan = refl

ready_of_results :
    (o : Option Stages) (es : List Value) (scan : Value) (label : String)
    → pipeline_stages scan ≡ o
    → summarized (results_of o (stage_results scan (latest_of scan es no_stages))) label
      ≡ last_stored_ready scan es false
unfolding summarized
ready_of_results none es scan label h = sym (no_pipeline scan es false h)
ready_of_results (some st) es scan label h =
    ready_of_latest scan (latest_of scan es no_stages) label
      (latest_of-IsFresh scan es no_stages (inl refl))
    ∙ latest_of-ready scan es no_stages

-- A finding is ready exactly when the last enrichment that counts as a result of D5 has a stored
-- block whose `ready` is true; a block that is made up for an older result never makes it ready.
pub finding_readiness_lem :
    (es : List Value) (scan : Value)
    → is_ready (finding_readiness es scan) ≡ last_stored_ready scan es false
unfolding finding_readiness summarized
finding_readiness_lem es scan =
    let label = readiness_label_for_kind (investigation_settings scan).investigation_kind in
    ap (λ p. summarized p label) (finding_stage_results-results_of es scan)
    ∙ ready_of_results (pipeline_stages scan) es scan label refl
