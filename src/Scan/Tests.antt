-- ===== src/Scan/Tests.antt =====
-- Runs of the operations on scans, and the theorems at concrete inputs.
use open_kritt.Prelude.{ℕ, ◌≡◌, ◌≢◌, ◌↔◌, ◌⊎◌, refl, true, false, Option, none, some, [], ◌∷◌, All}
use open_kritt.Text.{is_digits, trim, all_chars}
use open_kritt.Value.Texts.{id_string, to_text}
use open_kritt.Value.{Value, Checked, undefined, string, object, end, field, ok}
use open_kritt.Scan.{
  queued, pending, running, paused, stopped, completed, change_status, set_status, conflict,
  supplemental_in_use, digits_value, digits_from, unit_for, Pagination, scan_list_pagination,
  scan_launch_decision, choice_required, ready, validate_scan_job_limit,
}
use open_kritt.Scan.Deletion.{
  Database, Reference, run, owned_ids, delete_scan_if_safe, delete_scan_owned_data, find_scan,
  deleted,
}
use open_kritt.Scan.Laws.{IsPage, scan_list_pagination-IsPage}
use open_kritt.Scan.Moves.{UserMove, change_status_iff}
use open_kritt.Scan.Life.{step, here, later, IsUsers, Reach-IsUsers}
use open_kritt.Scan.Safety.{IsSafe, is_deleted, delete_scan_if_safe_iff}
use open_kritt.Scan.Integrity.{IsConsistent, delete_scan_if_safe-IsConsistent}
use open_kritt.Scan.Removal.{
  rows_of, owned_tables, triages_of, tables_of, delete_scan_owned_data-none,
  delete_scan_owned_data-other,
}

abbrev queue : Value
queue = object (field "launch_policy" (string "queue") end)

abbrev one_active : ℕ
one_active = 1

abbrev second_page : Pagination
second_page = record { page = 2; page_size = 50; skip = 50 }

operations : Unit {0}
unfolding change_status digits_value digits_from unit_for scan_list_pagination scan_launch_decision
    validate_scan_job_limit delete_scan_if_safe delete_scan_owned_data is_digits trim all_chars
    id_string to_text
operations = tt

abbrev page_skip : Checked (Option Pagination) → Option ℕ
page_skip (ok (some r)) = some r.skip
page_skip _ = none

runs :
    (scan_list_pagination (string "2") (string "50") ≡ ok (some second_page))
    × (page_skip (scan_list_pagination (string "9007199254740991") (string "100"))
        ≡ some 900719925474098944)
    × (scan_list_pagination undefined undefined ≡ ok none)
    × (scan_launch_decision queue 1 ≡ ok (ready queued))
    × (scan_launch_decision (object end) 1 ≡ ok choice_required)
    × (validate_scan_job_limit (string " 25 ") "jobLimit" ≡ ok (some 25))
    × (change_status paused 0 (string "pending") ≡ set_status pending true)
    × (change_status paused 3 (string "pending") ≡ supplemental_in_use 3)
    × (change_status completed 0 (string "pending") ≡ conflict completed pending)
unfolding operations
runs = (refl, refl, refl, refl, refl, refl, refl, refl, refl)

scan_list_pagination-IsPage_example : IsPage second_page
unfolding operations
scan_list_pagination-IsPage_example =
    scan_list_pagination-IsPage (string "2") (string "50") second_page refl

change_status_iff_example :
    (change_status paused 0 (string "pending") ≡ set_status pending true) ↔ (
      (string "pending" ≡ string "pending")
      × ((pending ≡ paused) ⊎ UserMove paused pending)
      × ((true ≡ true) ↔ ((pending ≡ pending) × (paused ≢ pending)))
      × ((true ≡ false) ⊎ (◌≡◌ {A = ℕ} 0 0)))
change_status_iff_example = change_status_iff paused pending 0 (string "pending") true

Reach-IsUsers_example : (pending ≡ running) ⊎ IsUsers pending
unfolding change_status
Reach-IsUsers_example =
    Reach-IsUsers running pending (
      later (later here (step 0 (string "paused") false refl))
        (step 0 (string "pending") true refl))

-- Two scans, each with a step of a run and a vulnerability that has a triage. The vulnerability of the
-- first one refers to the run.
abbrev run_5 : Reference
run_5 = record { table = run; id = 5 }

abbrev run_6 : Reference
run_6 = record { table = run; id = 6 }

abbrev two_scans : Database
two_scans = record {
  scans = record { id = 1; status = stopped } ∷ record { id = 2; status = running } ∷ [];
  vulnerabilities =
      record { id = 10; scan_id = 1; status = ""; references = run_5 ∷ [] }
      ∷ record { id = 20; scan_id = 2; status = ""; references = [] }
      ∷ [];
  triages =
      record { id = 5; vulnerability_id = 10 } ∷ record { id = 6; vulnerability_id = 20 } ∷ [];
  enrichments = [];
  targets = [];
  runs =
      record { id = 5; scan_id = 1; status = "completed"; references = [] }
      ∷ record { id = 6; scan_id = 2; status = "running"; references = [] }
      ∷ [];
  step_metadata =
      record { id = 7; scan_id = 1; status = "completed"; references = run_5 ∷ [] }
      ∷ record { id = 8; scan_id = 2; status = "running"; references = run_6 ∷ [] }
      ∷ [];
  post_process_metadata = [];
  step_results = [];
}

deletions :
    ((delete_scan_if_safe 1 two_scans).0 ≡ deleted)
    × ((delete_scan_if_safe 1 two_scans).1.triages ≡ record { id = 6; vulnerability_id = 20 } ∷ [])
    × (is_deleted (delete_scan_if_safe 2 two_scans).0 ≡ false)
unfolding delete_scan_if_safe delete_scan_owned_data
deletions = (refl, refl, refl)

delete_scan_if_safe_iff_example :
    ((delete_scan_if_safe 1 two_scans ≡ (deleted, delete_scan_owned_data 1 two_scans))
      ↔ IsSafe 1 two_scans)
    × ((delete_scan_if_safe 1 two_scans ≡ (deleted, delete_scan_owned_data 1 two_scans))
        ⊎ (((delete_scan_if_safe 1 two_scans).0 ≢ deleted)
            × ((delete_scan_if_safe 1 two_scans).1 ≡ two_scans)))
delete_scan_if_safe_iff_example = delete_scan_if_safe_iff 1 two_scans

delete_scan_if_safe-IsConsistent_example : IsConsistent (delete_scan_if_safe 1 two_scans).1
delete_scan_if_safe-IsConsistent_example = delete_scan_if_safe-IsConsistent 1 two_scans (
  ((refl, (refl, tt)), ((refl, tt), tt)),
  (refl, (refl, tt)),
  tt,
  tt,
  ((refl, tt), ((refl, tt), tt)),
  ((refl, (refl, tt)), ((refl, (refl, tt)), tt)),
  tt,
  tt,
)

delete_scan_owned_data-none_example :
    (find_scan 1 (delete_scan_owned_data 1 two_scans).scans ≡ none)
    × All (λ rows. rows_of 1 rows ≡ []) (owned_tables (delete_scan_owned_data 1 two_scans))
    × (triages_of
          (owned_ids 1 two_scans.vulnerabilities)
          (delete_scan_owned_data 1 two_scans).triages
        ≡ [])
delete_scan_owned_data-none_example = delete_scan_owned_data-none 1 two_scans

delete_scan_owned_data-other_example :
    (find_scan 2 (delete_scan_owned_data 1 two_scans).scans ≡ find_scan 2 two_scans.scans)
    × (tables_of 2 (owned_tables (delete_scan_owned_data 1 two_scans))
        ≡ tables_of 2 (owned_tables two_scans))
    × (triages_of
          (owned_ids 2 two_scans.vulnerabilities)
          (delete_scan_owned_data 1 two_scans).triages
        ≡ triages_of (owned_ids 2 two_scans.vulnerabilities) two_scans.triages)
delete_scan_owned_data-other_example = delete_scan_owned_data-other 1 2 two_scans refl refl
