-- ===== src/Scan/Integrity.antt =====
-- The references between the rows of the tables, and a deletion that leaves none of them without its
-- row.
use open_kritt.Prelude.{
  ℕ, ◌≡◌, refl, sym, subst, inl, inr, Bool, Bool-cases, true, false, not, ◌&&◌, ◌||◌, List, [], ◌∷◌,
  nat_eq, arith, if◌then◌else◌, All,
}
use open_kritt.Scan.Deletion.{
  ScanRow, OwnedRow, Reference, Table, vulnerability, enrichment, target, run, step_metadatum,
  post_process_metadatum, step_result, Database, keep_if, has_id, owned_ids, delete_owned,
  delete_scan_owned_data, delete_scan_if_safe,
}
use open_kritt.Scan.Removal.{row_ids}
use open_kritt.Scan.Safety.{is_deleted, after, delete_scan_if_safe-after}

abbrev pub scan_ids : List ScanRow → List ℕ
scan_ids [] = []
scan_ids (s ∷ ss) = s.id ∷ scan_ids ss

-- The table with a `scanId` of a name.
abbrev pub table_of : Table → Database → List OwnedRow
table_of vulnerability db = db.vulnerabilities
table_of enrichment db = db.enrichments
table_of target db = db.targets
table_of run db = db.runs
table_of step_metadatum db = db.step_metadata
table_of post_process_metadatum db = db.post_process_metadata
table_of step_result db = db.step_results

-- A scan has a row with an id.
abbrev pub has_row : ℕ → ℕ → List OwnedRow → Bool
has_row i k [] = false
has_row i k (r ∷ rs) = (nat_eq r.scan_id i && nat_eq r.id k) || has_row i k rs

-- The scan of a row is there, and each reference of the row leads to a row of the same scan.
abbrev pub IsLinked : Database → OwnedRow → Type 0
IsLinked db r =
    (has_id (scan_ids db.scans) r.scan_id ≡ true)
    × All (λ f. has_row r.scan_id f.id (table_of f.table db) ≡ true) r.references

-- Every reference of a row leads to a row.
abbrev pub IsConsistent : Database → Type 0
IsConsistent db =
    All (IsLinked db) db.vulnerabilities
    × All (λ t. has_id (row_ids db.vulnerabilities) t.vulnerability_id ≡ true) db.triages
    × All (IsLinked db) db.enrichments
    × All (IsLinked db) db.targets
    × All (IsLinked db) db.runs
    × All (IsLinked db) db.step_metadata
    × All (IsLinked db) db.post_process_metadata
    × All (IsLinked db) db.step_results

All-keep_if {ℓ κ κ'} :
    {A : Type ℓ} (P : A → Type κ) (Q : A → Type κ') (p : A → Bool)
    → ((x : A) → P x → p x ≡ true → Q x)
    → (xs : List A) → All P xs
    → All Q (keep_if p xs)
All-keep_if P Q p f [] h = tt
All-keep_if P Q p f (x ∷ xs) (h, hs) = elim (Bool-cases (p x)) [
  | inl e ↦
      subst (λ b. All Q (if b then x ∷ keep_if p xs else keep_if p xs)) (sym e)
        (f x h e, All-keep_if P Q p f xs hs)
  | inr e ↦
      subst (λ b. All Q (if b then x ∷ keep_if p xs else keep_if p xs)) (sym e)
        (All-keep_if P Q p f xs hs)
]

-- A scan with another id is still there.
has_id-kept :
    (i j : ℕ) (ss : List ScanRow)
    → has_id (scan_ids ss) j ≡ true
    → not (nat_eq j i) ≡ true
    → has_id (scan_ids (keep_if (λ s. not (nat_eq s.id i)) ss)) j ≡ true
has_id-kept i j [] h k = cc h
has_id-kept i j (s ∷ ss) h k = ground (arith, h, k, has_id-kept i j ss)

-- A vulnerability that is not the scan's is still there.
has_id-spared :
    (i v : ℕ) (rs : List OwnedRow)
    → has_id (row_ids rs) v ≡ true
    → not (has_id (owned_ids i rs) v) ≡ true
    → has_id (row_ids (delete_owned i rs)) v ≡ true
has_id-spared i v [] h k = cc h
has_id-spared i v (r ∷ rs) h k = ground (arith, h, k, has_id-spared i v rs)

-- A row of another scan is still there.
has_row-kept :
    (i j k : ℕ) (rs : List OwnedRow)
    → has_row j k rs ≡ true
    → not (nat_eq j i) ≡ true
    → has_row j k (delete_owned i rs) ≡ true
has_row-kept i j k [] h n = cc h
has_row-kept i j k (r ∷ rs) h n = ground (arith, h, n, has_row-kept i j k rs)

table_of-delete :
    (t : Table) (i : ℕ) (db : Database)
    → table_of t (delete_scan_owned_data i db) ≡ delete_owned i (table_of t db)
unfolding delete_scan_owned_data
table_of-delete vulnerability i db = refl
table_of-delete enrichment i db = refl
table_of-delete target i db = refl
table_of-delete run i db = refl
table_of-delete step_metadatum i db = refl
table_of-delete post_process_metadatum i db = refl
table_of-delete step_result i db = refl

references-kept :
    (i j : ℕ) (db : Database) (fs : List Reference)
    → not (nat_eq j i) ≡ true
    → All (λ f. has_row j f.id (table_of f.table db) ≡ true) fs
    → All (λ f. has_row j f.id (table_of f.table (delete_scan_owned_data i db)) ≡ true) fs
references-kept i j db [] n h = tt
references-kept i j db (f ∷ fs) n (h, hs) = (
  subst (λ rows. has_row j f.id rows ≡ true) (sym (table_of-delete f.table i db))
      (has_row-kept i j f.id (table_of f.table db) h n),
  references-kept i j db fs n hs,
)

IsLinked-kept :
    (i : ℕ) (db : Database) (r : OwnedRow)
    → IsLinked db r
    → not (nat_eq r.scan_id i) ≡ true
    → IsLinked (delete_scan_owned_data i db) r
unfolding delete_scan_owned_data
IsLinked-kept i db r (h, fs) n =
    (has_id-kept i r.scan_id db.scans h n, references-kept i r.scan_id db r.references n fs)

All-IsLinked-kept :
    (i : ℕ) (db : Database) (rows : List OwnedRow)
    → All (IsLinked db) rows
    → All (IsLinked (delete_scan_owned_data i db)) (delete_owned i rows)
All-IsLinked-kept i db rows h =
    All-keep_if _ _ (λ r. not (nat_eq r.scan_id i)) (λ r a b. IsLinked-kept i db r a b) rows h

delete_scan_owned_data-IsConsistent :
    (i : ℕ) (db : Database) → IsConsistent db → IsConsistent (delete_scan_owned_data i db)
unfolding delete_scan_owned_data
delete_scan_owned_data-IsConsistent i db (vs, ts, a, b, c, d, e, f) = (
  All-IsLinked-kept i db db.vulnerabilities vs,
  All-keep_if _ _ (λ t. not (has_id (owned_ids i db.vulnerabilities) t.vulnerability_id))
      (λ t h k. has_id-spared i t.vulnerability_id db.vulnerabilities h k) db.triages ts,
  All-IsLinked-kept i db db.enrichments a,
  All-IsLinked-kept i db db.targets b,
  All-IsLinked-kept i db db.runs c,
  All-IsLinked-kept i db db.step_metadata d,
  All-IsLinked-kept i db db.post_process_metadata e,
  All-IsLinked-kept i db db.step_results f,
)

after-IsConsistent :
    (b : Bool) (i : ℕ) (db : Database) → IsConsistent db → IsConsistent (after b i db)
after-IsConsistent true i db h = delete_scan_owned_data-IsConsistent i db h
after-IsConsistent false i db h = h

-- Where the scan of each row is there, each reference of a row leads to a row of the same scan, and
-- the vulnerability of each triage is there, a request to delete a scan leaves it so.
pub delete_scan_if_safe-IsConsistent :
    (i : ℕ) (db : Database) → IsConsistent db → IsConsistent (delete_scan_if_safe i db).1
delete_scan_if_safe-IsConsistent i db h =
    subst IsConsistent (sym (delete_scan_if_safe-after i db))
      (after-IsConsistent (is_deleted (delete_scan_if_safe i db).0) i db h)
