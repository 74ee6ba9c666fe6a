-- ===== src/Scan/Removal.antt =====
-- What the deletion of a scan removes, and what it leaves.
use open_kritt.Prelude.{
  ℕ, ◌≡◌, refl, subst, ap₂, Bool, true, false, not, ◌&&◌, none, List, [], ◌∷◌, nat_eq, arith,
  if◌then◌else◌, All,
}
use open_kritt.Scan.Deletion.{
  ScanRow, OwnedRow, TriageRow, Database, keep_if, has_id, owned_ids, delete_owned,
  delete_scan_owned_data, find_scan,
}

-- The rows of a table that belong to a scan.
abbrev pub rows_of : ℕ → List OwnedRow → List OwnedRow
rows_of i [] = []
rows_of i (r ∷ rs) = if nat_eq r.scan_id i then r ∷ rows_of i rs else rows_of i rs

-- The tables of rows that belong to scans.
abbrev pub owned_tables : Database → List (List OwnedRow)
owned_tables db =
    db.vulnerabilities ∷ db.enrichments ∷ db.targets ∷ db.runs ∷ db.step_metadata
    ∷ db.post_process_metadata ∷ db.step_results ∷ []

abbrev pub tables_of : ℕ → List (List OwnedRow) → List (List OwnedRow)
tables_of i [] = []
tables_of i (t ∷ ts) = rows_of i t ∷ tables_of i ts

rows_of-delete_same : (i : ℕ) (rows : List OwnedRow) → rows_of i (delete_owned i rows) ≡ []
rows_of-delete_same i [] = refl
rows_of-delete_same i (r ∷ rs) = ground (arith, rows_of-delete_same i rs)

rows_of-delete_other :
    (i j : ℕ) (rows : List OwnedRow)
    → nat_eq i j ≡ false
    → rows_of j (delete_owned i rows) ≡ rows_of j rows
rows_of-delete_other i j [] h = refl
rows_of-delete_other i j (r ∷ rs) h = ground (arith, h, rows_of-delete_other i j rs h)

delete_each : ℕ → List (List OwnedRow) → List (List OwnedRow)
delete_each i [] = []
delete_each i (t ∷ ts) = delete_owned i t ∷ delete_each i ts

tables_of-delete :
    (i j : ℕ) (ts : List (List OwnedRow))
    → nat_eq i j ≡ false
    → tables_of j (delete_each i ts) ≡ tables_of j ts
unfolding delete_each
tables_of-delete i j [] h = refl
tables_of-delete i j (t ∷ ts) h =
    ap₂ (λ a b. a ∷ b) (rows_of-delete_other i j t h) (tables_of-delete i j ts h)

each_none :
    (i : ℕ) (ts : List (List OwnedRow)) → All (λ rows. rows_of i rows ≡ []) (delete_each i ts)
unfolding delete_each
each_none i [] = tt
each_none i (t ∷ ts) = (rows_of-delete_same i t, each_none i ts)

find_scan-same :
    (i : ℕ) (ss : List ScanRow) → find_scan i (keep_if (λ s. not (nat_eq s.id i)) ss) ≡ none
find_scan-same i [] = refl
find_scan-same i (s ∷ ss) = ground (arith, find_scan-same i ss)

find_scan-other :
    (i j : ℕ) (ss : List ScanRow)
    → nat_eq i j ≡ false
    → find_scan j (keep_if (λ s. not (nat_eq s.id i)) ss) ≡ find_scan j ss
find_scan-other i j [] h = refl
find_scan-other i j (s ∷ ss) h = ground (arith, h, find_scan-other i j ss h)

-- The triages of some vulnerabilities.
abbrev pub triages_of : List ℕ → List TriageRow → List TriageRow
triages_of vs [] = []
triages_of vs (t ∷ ts) =
    if has_id vs t.vulnerability_id then t ∷ triages_of vs ts else triages_of vs ts

abbrev pub row_ids : List OwnedRow → List ℕ
row_ids [] = []
row_ids (r ∷ rs) = r.id ∷ row_ids rs

-- No id stands twice.
abbrev pub is_distinct : List ℕ → Bool
is_distinct [] = true
is_distinct (i ∷ is) = not (has_id is i) && is_distinct is

triages_of-delete_same :
    (vs : List ℕ) (ts : List TriageRow)
    → triages_of vs (keep_if (λ t. not (has_id vs t.vulnerability_id)) ts) ≡ []
triages_of-delete_same vs [] = refl
triages_of-delete_same vs (t ∷ ts) = ground (arith, triages_of-delete_same vs ts)

triages_of-delete_other :
    (vs ws : List ℕ) (ts : List TriageRow)
    → ((v : ℕ) → has_id ws v ≡ true → has_id vs v ≡ false)
    → triages_of ws (keep_if (λ t. not (has_id vs t.vulnerability_id)) ts) ≡ triages_of ws ts
triages_of-delete_other vs ws [] h = refl
triages_of-delete_other vs ws (t ∷ ts) h =
    ground (arith, h t.vulnerability_id, triages_of-delete_other vs ws ts h)

owned_ids-there :
    (i v : ℕ) (rs : List OwnedRow) → has_id (owned_ids i rs) v ≡ true → has_id (row_ids rs) v ≡ true
owned_ids-there i v [] h = cc h
owned_ids-there i v (r ∷ rs) h = ground (arith, h, owned_ids-there i v rs)

same_id : (is : List ℕ) (i j : ℕ) → nat_eq i j ≡ true → has_id is j ≡ true → has_id is i ≡ true
same_id is i j e h = let same : j ≡ i = ground (arith, e) in subst (λ k. has_id is k ≡ true) same h

-- An id of one scan's vulnerability is not one of another's.
owned_ids-apart :
    (i j v : ℕ) (rs : List OwnedRow)
    → nat_eq i j ≡ false
    → is_distinct (row_ids rs) ≡ true
    → has_id (owned_ids j rs) v ≡ true
    → has_id (owned_ids i rs) v ≡ false
owned_ids-apart i j v [] n d h = refl
owned_ids-apart i j v (r ∷ rs) n d h =
    let rest = owned_ids-apart i j v rs n in
    let here = owned_ids-there i v rs in
    let there = owned_ids-there j v rs in
    let same = same_id (row_ids rs) r.id v in ground (arith, n, d, h, rest, here, there, same)

-- The deletion of a scan leaves the scan itself out, none of its rows in any table with scans, and
-- none of the triages of its vulnerabilities.
pub delete_scan_owned_data-none :
    (i : ℕ) (db : Database)
    → (find_scan i (delete_scan_owned_data i db).scans ≡ none)
      × All (λ rows. rows_of i rows ≡ []) (owned_tables (delete_scan_owned_data i db))
      × (triages_of (owned_ids i db.vulnerabilities) (delete_scan_owned_data i db).triages ≡ [])
unfolding delete_scan_owned_data delete_each
delete_scan_owned_data-none i db = (
  find_scan-same i db.scans,
  each_none i (owned_tables db),
  triages_of-delete_same (owned_ids i db.vulnerabilities) db.triages,
)

-- Where no two vulnerabilities have one id, the deletion of a scan leaves every other scan as it was,
-- with its rows in every table and the triages of its vulnerabilities.
pub delete_scan_owned_data-other :
    (i j : ℕ) (db : Database)
    → nat_eq i j ≡ false
    → is_distinct (row_ids db.vulnerabilities) ≡ true
    → (find_scan j (delete_scan_owned_data i db).scans ≡ find_scan j db.scans)
      × (tables_of j (owned_tables (delete_scan_owned_data i db)) ≡ tables_of j (owned_tables db))
      × (triages_of (owned_ids j db.vulnerabilities) (delete_scan_owned_data i db).triages
          ≡ triages_of (owned_ids j db.vulnerabilities) db.triages)
unfolding delete_scan_owned_data delete_each
delete_scan_owned_data-other i j db h d = (
  find_scan-other i j db.scans h,
  tables_of-delete i j (owned_tables db) h,
  triages_of-delete_other (owned_ids i db.vulnerabilities) (owned_ids j db.vulnerabilities)
      db.triages (λ v e. owned_ids-apart i j v db.vulnerabilities h d e),
)
