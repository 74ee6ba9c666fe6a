-- ===== src/Scan/Safety.antt =====
-- When a request to delete a scan deletes it, and what it leaves otherwise.
use open_kritt.Prelude.{
  ℕ, String, ◌≡◌, ◌≢◌, refl, ap, ap₂, ◌∙◌, ◌↔◌, ◌⊎◌, inl, inr, Bool, Bool-cases, true, false, not,
  ◌&&◌, ◌||◌, Option, none, some, List, [], ◌∷◌, ltb, nat_eq, arith, eq_iff, if◌then◌else◌, All,
  ◌==◌, some_same,
}
use open_kritt.Scan.{
  Status, queued, pending, prewarming_cache, running, rate_limited, post_processing, paused,
  completed, stopped, failed, has_status,
}
use open_kritt.Scan.Deletion.{
  ScanRow, OwnedRow, Database, delete_scan_owned_data, find_scan, count_owned, is_running,
  is_unfinished, deletable_scan_statuses, Outcome, not_found, not_terminal, in_use, deleted,
  delete_idle, delete_found, delete_scan_if_safe,
}

-- A status in which a scan may be deleted: it has ended, or it is paused.
abbrev pub IsAtRest : Status → Type 0
IsAtRest s = (s ≡ completed) ⊎ ((s ≡ stopped) ⊎ ((s ≡ failed) ⊎ (s ≡ paused)))

-- No row of the scan has the status.
abbrev pub HasNone : ℕ → String → List OwnedRow → Type 0
HasNone i status rows = All (λ r. ¬ ((r.scan_id ≡ i) × (r.status ≡ status))) rows

-- A scan that may be deleted: it is there and at rest, no step and no post-process of it runs, and no
-- supplemental target of it is pending or runs.
abbrev pub IsSafe : ℕ → Database → Type 0
IsSafe i db =
    ((s : ScanRow) × ((find_scan i db.scans ≡ some s) × IsAtRest s.status))
    × (HasNone i "running" db.step_metadata
        × (HasNone i "running" db.post_process_metadata
            × (HasNone i "pending" db.targets × HasNone i "running" db.targets)))

abbrev pub is_deletable : Option ScanRow → Bool
is_deletable none = false
is_deletable (some s) = has_status deletable_scan_statuses s.status

abbrev pub is_deleted : Outcome → Bool
is_deleted deleted = true
is_deleted _ = false

delete_idle_iff :
    (i a b c : ℕ) (db : Database)
    → (is_deleted (delete_idle i a b c db).0 ≡ true) ↔ ((a ≡ 0) × (b ≡ 0) × (c ≡ 0))
delete_idle_iff i a b c db = ground arith

delete_found_iff :
    (i : ℕ) (o : Option ScanRow) (db : Database)
    → (is_deleted (delete_found i o db).0 ≡ true) ↔ (
        (is_deletable o ≡ true)
        × (count_owned i is_running db.step_metadata ≡ 0)
        × (count_owned i is_running db.post_process_metadata ≡ 0)
        × (count_owned i is_unfinished db.targets ≡ 0))
delete_found_iff i none db = ground arith
delete_found_iff i (some s) db = ground (
  arith,
  delete_idle_iff i (count_owned i is_running db.step_metadata)
      (count_owned i is_running db.post_process_metadata) (count_owned i is_unfinished db.targets)
      db,
)

tested_iff :
    (i : ℕ) (db : Database)
    → (is_deleted (delete_scan_if_safe i db).0 ≡ true) ↔ (
        (is_deletable (find_scan i db.scans) ≡ true)
        × (count_owned i is_running db.step_metadata ≡ 0)
        × (count_owned i is_running db.post_process_metadata ≡ 0)
        × (count_owned i is_unfinished db.targets ≡ 0))
unfolding delete_scan_if_safe
tested_iff i db = delete_found_iff i (find_scan i db.scans) db

-- The database after a request: the scan's data is gone, or nothing has changed.
abbrev pub after : Bool → ℕ → Database → Database
after true i db = delete_scan_owned_data i db
after false i db = db

-- What a branch of the request leaves.
IsAfter : ℕ → Database → Outcome × Database → Type 0
IsAfter i db r = r.1 ≡ after (is_deleted r.0) i db

branch-IsAfter :
    (t : Bool) (i : ℕ) (db : Database) (x y : Outcome × Database)
    → IsAfter i db x
    → IsAfter i db y
    → IsAfter i db (if t then x else y)
branch-IsAfter true i db x y h k = h
branch-IsAfter false i db x y h k = k

delete_idle-IsAfter : (i a b c : ℕ) (db : Database) → IsAfter i db (delete_idle i a b c db)
unfolding IsAfter
delete_idle-IsAfter i a b c db =
    branch-IsAfter (ltb 0 a || ltb 0 b || ltb 0 c) i db (in_use a b c, db)
      (deleted, delete_scan_owned_data i db) refl refl

delete_found-IsAfter :
    (i : ℕ) (o : Option ScanRow) (db : Database) → IsAfter i db (delete_found i o db)
unfolding IsAfter
delete_found-IsAfter i none db = refl
delete_found-IsAfter i (some s) db =
    branch-IsAfter (not (has_status deletable_scan_statuses s.status)) i db
      (not_terminal s.status, db) _ refl
      (delete_idle-IsAfter i (count_owned i is_running db.step_metadata)
        (count_owned i is_running db.post_process_metadata) (count_owned i is_unfinished db.targets)
        db)

-- A request to delete a scan removes what it owns, or changes nothing where it is refused.
pub delete_scan_if_safe-after :
    (i : ℕ) (db : Database)
    → (delete_scan_if_safe i db).1 ≡ after (is_deleted (delete_scan_if_safe i db).0) i db
unfolding delete_scan_if_safe IsAfter
delete_scan_if_safe-after i db = delete_found-IsAfter i (find_scan i db.scans) db

IsAtRest-iff : (s : Status) → (has_status deletable_scan_statuses s ≡ true) ↔ IsAtRest s
IsAtRest-iff completed = (λ _. inl refl, λ _. refl)
IsAtRest-iff stopped = (λ _. inr (inl refl), λ _. refl)
IsAtRest-iff failed = (λ _. inr (inr (inl refl)), λ _. refl)
IsAtRest-iff paused = (λ _. inr (inr (inr refl)), λ _. refl)
IsAtRest-iff queued = (λ h. cc h, λ h. ground (arith, h))
IsAtRest-iff pending = (λ h. cc h, λ h. ground (arith, h))
IsAtRest-iff prewarming_cache = (λ h. cc h, λ h. ground (arith, h))
IsAtRest-iff running = (λ h. cc h, λ h. ground (arith, h))
IsAtRest-iff rate_limited = (λ h. cc h, λ h. ground (arith, h))
IsAtRest-iff post_processing = (λ h. cc h, λ h. ground (arith, h))

deletable_iff :
    (o : Option ScanRow)
    → (is_deletable o ≡ true) ↔ ((s : ScanRow) × ((o ≡ some s) × IsAtRest s.status))
deletable_iff none = (λ h. cc h, λ (s, (e, _)). cc e)
deletable_iff (some r) = (
  λ h. (r, (refl, (IsAtRest-iff r.status).0 h)),
  λ (s, (e, rest)).
      ap (λ x. has_status deletable_scan_statuses x.status) (some_same e)
      ∙ (IsAtRest-iff s.status).1 rest,
)

-- One row is not counted exactly when it is not the scan's with that status.
uncounted_iff :
    (i : ℕ) (status : String) (r : OwnedRow)
    → ((nat_eq r.scan_id i && r.status == status) ≡ false)
      ↔ (¬ ((r.scan_id ≡ i) × (r.status ≡ status)))
uncounted_iff i status r = (
  λ h (e, f).
      let same = (eq_iff r.status status).1 f in
      let owned : nat_eq r.scan_id i ≡ true = ground (arith, e) in cc (h, ap₂ ◌&&◌ owned same),
  λ h. elim (Bool-cases (nat_eq r.scan_id i && r.status == status)) [
    | inr n ↦ n
    | inl y ↦
        let owned : r.scan_id ≡ i = ground (arith, y) in
        let same : (r.status == status) ≡ true = ground (arith, y) in
        elim (h (owned, (eq_iff r.status status).0 same)) [ ]
  ],
)

count_owned-running_iff :
    (i : ℕ) (rows : List OwnedRow) → (count_owned i is_running rows ≡ 0) ↔ HasNone i "running" rows
count_owned-running_iff i [] = (λ _. tt, λ _. refl)
count_owned-running_iff i (r ∷ rs) =
    let one = uncounted_iff i "running" r in
    let rest = count_owned-running_iff i rs in
    (
      λ h. (one.0 ground (arith, h), rest.0 ground (arith, h)),
      λ (f, g). let n = one.1 f in let m = rest.1 g in ground (arith, n, m),
    )

count_owned-unfinished_iff :
    (i : ℕ) (rows : List OwnedRow)
    → (count_owned i is_unfinished rows ≡ 0) ↔ (HasNone i "pending" rows × HasNone i "running" rows)
count_owned-unfinished_iff i [] = (λ _. (tt, tt), λ _. refl)
count_owned-unfinished_iff i (r ∷ rs) =
    let waits = uncounted_iff i "pending" r in
    let runs = uncounted_iff i "running" r in
    let rest = count_owned-unfinished_iff i rs in
    (
      λ h.
          let (p, q) = rest.0 ground (arith, h) in
          ((waits.0 ground (arith, h), p), (runs.0 ground (arith, h), q)),
      λ ((f, fs), (g, gs)).
          let a = waits.1 f in
          let b = runs.1 g in let m = rest.1 (fs, gs) in ground (arith, a, b, m),
    )

IsSafe-iff :
    (i : ℕ) (db : Database) → (is_deleted (delete_scan_if_safe i db).0 ≡ true) ↔ IsSafe i db
IsSafe-iff i db =
    let tests = tested_iff i db in
    let there = deletable_iff (find_scan i db.scans) in
    let steps = count_owned-running_iff i db.step_metadata in
    let posts = count_owned-running_iff i db.post_process_metadata in
    let targets = count_owned-unfinished_iff i db.targets in
    (
      λ h. let (d, a, b, c) = tests.0 h in (there.0 d, (steps.0 a, (posts.0 b, targets.0 c))),
      λ (d, (a, (b, c))). tests.1 (there.1 d, steps.1 a, posts.1 b, targets.1 c),
    )

deleted_of : (o : Outcome) → is_deleted o ≡ true → o ≡ deleted
deleted_of deleted h = refl
deleted_of not_found h = cc h
deleted_of (not_terminal s) h = cc h
deleted_of (in_use a b c) h = cc h

whole :
    (i : ℕ) (db : Database)
    → is_deleted (delete_scan_if_safe i db).0 ≡ true
    → delete_scan_if_safe i db ≡ (deleted, delete_scan_owned_data i db)
whole i db h =
    ap₂ (λ o d. (o, d)) (deleted_of (delete_scan_if_safe i db).0 h)
      (delete_scan_if_safe-after i db ∙ ap (λ b. after b i db) h)

-- A request to delete a scan answers that it is deleted and removes what it owns exactly when the scan
-- is there and is completed, stopped, failed or paused, no step and no post-process of it runs, and no
-- supplemental target of it is pending or runs. Otherwise the answer is another one, and
-- the tables are as they were.
pub delete_scan_if_safe_iff :
    (i : ℕ) (db : Database)
    → ((delete_scan_if_safe i db ≡ (deleted, delete_scan_owned_data i db)) ↔ IsSafe i db)
      × ((delete_scan_if_safe i db ≡ (deleted, delete_scan_owned_data i db))
          ⊎ (((delete_scan_if_safe i db).0 ≢ deleted) × ((delete_scan_if_safe i db).1 ≡ db)))
delete_scan_if_safe_iff i db = (
  (λ e. (IsSafe-iff i db).0 (ap (λ r. is_deleted r.0) e), λ h. whole i db ((IsSafe-iff i db).1 h)),
  elim (Bool-cases (is_deleted (delete_scan_if_safe i db).0)) [
    | inl y ↦ inl (whole i db y)
    | inr n ↦
        inr
          (λ e. cc (n, ap is_deleted e), delete_scan_if_safe-after i db ∙ ap (λ b. after b i db) n)
  ],
)
