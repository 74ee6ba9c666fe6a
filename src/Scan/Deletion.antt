-- ===== src/Scan/Deletion.antt =====
-- The deletion of a scan with all that it owns: `deleteScanIfSafe` and `deleteScanOwnedData` of
-- backend/src/routes/scans.js. A table is the list of its rows, with the columns that the
-- deletion reads and those that refer to rows of the tables that it deletes from, as schema.prisma
-- (backend/prisma) declares them. The lock that it takes first changes no row.
use open_kritt.Prelude.{
  ℕ, suc, String, Bool, false, not, ◌&&◌, ◌||◌, Option, none, some, List, [], ◌∷◌, ◌==◌, ltb,
  nat_eq, if◌then◌else◌,
}
use open_kritt.Scan.{Status, completed, stopped, failed, paused, has_status}

pub record ScanRow : Type 0 where
  pub id : ℕ
  pub status : Status

-- The tables with a `scanId`.
pub data Table : Type 0 where
  vulnerability enrichment target run step_metadatum post_process_metadatum step_result : Table

-- A column that refers to a row, such as `vulnerabilityId`, `runId`, `supplementalRunId`,
-- `dedupeCanonicalId`, `retryOfRunId`, `postProcessMetadataId`, `enrichmentId`, `scanMetadataId`, or
-- `prevId` with `prevTable`, where it is not null: the table and the id.
pub record Reference : Type 0 where
  pub table : Table
  pub id : ℕ

-- A row of a table with a `scanId`, with its references.
pub record OwnedRow : Type 0 where
  pub id : ℕ
  pub scan_id : ℕ
  pub status : String
  pub references : List Reference

pub record TriageRow : Type 0 where
  pub id : ℕ
  pub vulnerability_id : ℕ

pub record Database : Type 0 where
  pub scans : List ScanRow
  pub vulnerabilities : List OwnedRow
  pub triages : List TriageRow
  pub enrichments : List OwnedRow
  pub targets : List OwnedRow
  pub runs : List OwnedRow
  pub step_metadata : List OwnedRow
  pub post_process_metadata : List OwnedRow
  pub step_results : List OwnedRow

abbrev pub keep_if {ℓ} : {A : Type ℓ} → (A → Bool) → List A → List A
keep_if p [] = []
keep_if p (x ∷ xs) = if p x then x ∷ keep_if p xs else keep_if p xs

abbrev pub has_id : List ℕ → ℕ → Bool
has_id [] i = false
has_id (j ∷ js) i = nat_eq j i || has_id js i

-- `findMany({ where: { scanId }, select: { id: true } })`
abbrev pub owned_ids : ℕ → List OwnedRow → List ℕ
owned_ids scan_id [] = []
owned_ids scan_id (r ∷ rs) =
    if nat_eq r.scan_id scan_id then r.id ∷ owned_ids scan_id rs else owned_ids scan_id rs

-- `deleteMany({ where: { scanId } })`
abbrev pub delete_owned : ℕ → List OwnedRow → List OwnedRow
delete_owned scan_id rows = keep_if (λ r. not (nat_eq r.scan_id scan_id)) rows

-- `deleteScanOwnedData(tx, scanId)`
unfoldable pub delete_scan_owned_data : ℕ → Database → Database
delete_scan_owned_data scan_id db =
    let vulnerability_ids = owned_ids scan_id db.vulnerabilities in
    record {
      scans = keep_if (λ s. not (nat_eq s.id scan_id)) db.scans;
      vulnerabilities = delete_owned scan_id db.vulnerabilities;
      triages = keep_if (λ t. not (has_id vulnerability_ids t.vulnerability_id)) db.triages;
      enrichments = delete_owned scan_id db.enrichments;
      targets = delete_owned scan_id db.targets;
      runs = delete_owned scan_id db.runs;
      step_metadata = delete_owned scan_id db.step_metadata;
      post_process_metadata = delete_owned scan_id db.post_process_metadata;
      step_results = delete_owned scan_id db.step_results;
    }

-- `findUnique({ where: { id } })`
abbrev pub find_scan : ℕ → List ScanRow → Option ScanRow
find_scan i [] = none
find_scan i (s ∷ ss) = if nat_eq s.id i then some s else find_scan i ss

-- `count({ where: { scanId, status } })`, for a test of the status.
abbrev pub count_owned : ℕ → (String → Bool) → List OwnedRow → ℕ
count_owned scan_id p [] = 0
count_owned scan_id p (r ∷ rs) =
    if nat_eq r.scan_id scan_id && p r.status
    then suc (count_owned scan_id p rs)
    else count_owned scan_id p rs

abbrev pub is_running : String → Bool
is_running s = s == "running"

abbrev pub is_unfinished : String → Bool
is_unfinished s = s == "pending" || s == "running"

-- `DELETABLE_SCAN_STATUSES`
abbrev pub deletable_scan_statuses : List Status
deletable_scan_statuses = completed ∷ stopped ∷ failed ∷ paused ∷ []

pub data Outcome : Type 0 where
  not_found : Outcome
  not_terminal : Status → Outcome
  in_use : ℕ → ℕ → ℕ → Outcome
  deleted : Outcome

abbrev pub delete_idle : ℕ → ℕ → ℕ → ℕ → Database → Outcome × Database
delete_idle scan_id steps posts targets db =
    if ltb 0 steps || ltb 0 posts || ltb 0 targets
    then (in_use steps posts targets, db)
    else (deleted, delete_scan_owned_data scan_id db)

abbrev pub delete_found : ℕ → Option ScanRow → Database → Outcome × Database
delete_found scan_id none db = (not_found, db)
delete_found scan_id (some existing) db =
    if not (has_status deletable_scan_statuses existing.status)
    then (not_terminal existing.status, db)
    else delete_idle scan_id (count_owned scan_id is_running db.step_metadata)
        (count_owned scan_id is_running db.post_process_metadata)
        (count_owned scan_id is_unfinished db.targets) db

-- `deleteScanIfSafe(tx, scanId)`
unfoldable pub delete_scan_if_safe : ℕ → Database → Outcome × Database
delete_scan_if_safe scan_id db = delete_found scan_id (find_scan scan_id db.scans) db
