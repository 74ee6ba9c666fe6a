-- ===== src/Scan/Laws.antt =====
-- The paging of the scan list, the job limit, the launch decision, and the life of a scan under
-- user actions.
use native.Mathlib.Nat.{suc-mul}
use open_kritt.Prelude.{
  ℕ, zero, suc, ◌+◌, ◌-◌, ◌*◌, ◌≤◌, ◌<◌, Bool-cases, inl, inr, subst, String, ◌≡◌, refl, sym, ap,
  ◌∙◌, ◌↔◌, ◌⊎◌, Bool, true, false, not, ◌&&◌, ◌||◌, Option, none, some, ◌==◌, ltb, arith, eq_iff,
  if◌then◌else◌,
}
use open_kritt.Text.{is_digits, trim}
use open_kritt.Value.Texts.{to_text, id_string}
use open_kritt.Value.{
  Value, undefined, null, bool, number, real, string, array, object, is_nullish, ok,
}
use open_kritt.Scan.Rounding.{IsNear, double_product-IsNear, double_product-exact}
use open_kritt.Scan.{
  double_product, Status, pending, user_status_transitions, is_status, has_status, parse_status,
  conflict, supplemental_in_use, set_status, change_to, change_status, digits_value, safe_positive,
  Pagination, page_or, paginated, scan_list_pagination, default_scan_page_size, ready,
  launch_policy, launch_with, scan_launch_decision, limit_text, validate_scan_job_limit,
}

safe_positive-positive : (s : String) (n : ℕ) → safe_positive s ≡ some n → 1 ≤ n
safe_positive-positive s n h = ground (arith, h)

page_or-positive : (d n : ℕ) (v : Value) → 1 ≤ d → page_or d v ≡ some n → 1 ≤ n
page_or-positive d n undefined k h = ground (arith, k, h)
page_or-positive d n null k h = cc h
page_or-positive d n (bool b) k h = safe_positive-positive (id_string (bool b)) n h
page_or-positive d n (number m) k h = safe_positive-positive (id_string (number m)) n h
page_or-positive d n (real s) k h = safe_positive-positive (id_string (real s)) n h
page_or-positive d n (string s) k h = safe_positive-positive (id_string (string s)) n h
page_or-positive d n (array vs) k h = cc h
page_or-positive d n (object fs) k h = cc h

-- What a page of the list is: a page number from 1, a size from 1 to 100, and the rows of the
-- pages before it skipped: exactly, unless there are more than a double counts, and then but for 128.
abbrev pub IsPage : Pagination → Type 0
IsPage r =
    (1 ≤ r.page)
    × (1 ≤ r.page_size)
    × (r.page_size ≤ 100)
    × ((r.skip + r.page_size ≡ r.page * r.page_size)
        ⊎ (9007199254740991 < (r.page - 1) * r.page_size))
    × IsNear 128 r.skip ((r.page - 1) * r.page_size)

the_pred : (p : ℕ) → suc p - 1 ≡ p
the_pred p = omega arith

skipped : (p s : ℕ) → 1 ≤ p → (p - 1) * s + s ≡ p * s
skipped zero s h = omega (arith, h)
skipped (suc p) s h = ap (λ q. q * s + s) (the_pred p) ∙ sym (suc-mul p s)

skip_exact :
    (p s : ℕ) → 1 ≤ p → (double_product (p - 1) s + s ≡ p * s) ⊎ (9007199254740991 < (p - 1) * s)
skip_exact p s h = elim (Bool-cases (ltb 9007199254740991 ((p - 1) * s))) [
  | inl above ↦ inr ground (arith, above)
  | inr below ↦
      let exact = double_product-exact (p - 1) s ground (arith, below) in
      inl (ap (λ n. n + s) exact ∙ skipped p s h)
]

accepted_page :
    (p s : ℕ) (r : Pagination)
    → paginated (some p) (some s) ≡ ok (some r)
    → (s ≤ 100) × (record { page = p; page_size = s; skip = double_product (p - 1) s } ≡ r)
accepted_page p s r h = elim (Bool-cases (ltb 100 s)) [
  | inl e ↦ cc (h, e)
  | inr e ↦ (ground (arith, e), cc (h, e))
]

paginated-IsPage :
    (p s : Option ℕ) (r : Pagination)
    → ((n : ℕ) → p ≡ some n → 1 ≤ n)
    → ((n : ℕ) → s ≡ some n → 1 ≤ n)
    → paginated p s ≡ ok (some r)
    → IsPage r
paginated-IsPage none none r hp hs h = cc h
paginated-IsPage none (some s) r hp hs h = cc h
paginated-IsPage (some p) none r hp hs h = cc h
paginated-IsPage (some p) (some s) r hp hs h =
    let (few, same) = accepted_page p s r h in
    subst IsPage same
      (hp p refl, hs s refl, few, skip_exact p s (hp p refl), double_product-IsNear (p - 1) s)

not_queue : (s : String) → ("immediate" == s) ≡ true → (s == "queue") ≡ false
not_queue s h = ap (λ t. t == "queue") (sym ((eq_iff "immediate" s).0 h))

launch_with_iff :
    (v : Value) (active : ℕ)
    → (launch_with v active ≡ ok (ready pending))
      ↔ ((v ≡ string "immediate") ⊎ ((v ≡ undefined) × (active ≡ 0)))
launch_with_iff undefined active = ground arith
launch_with_iff (string s) active =
    ground (arith, eq_iff s "queue", eq_iff "immediate" s, eq_iff "queue" s, not_queue s)
launch_with_iff null active = ground arith
launch_with_iff (bool _) active = ground arith
launch_with_iff (number _) active = ground arith
launch_with_iff (real _) active = ground arith
launch_with_iff (array _) active = ground arith
launch_with_iff (object _) active = ground arith

-- A page that is given for the list of scans is one: its number is from 1 and its size from 1 to 100.
-- The rows that are skipped are those of the pages before it, or there are more than 2 ^ 53 - 1 of
-- these. In any case their number is at most 128 off.
pub scan_list_pagination-IsPage :
    (page size : Value) (r : Pagination) → scan_list_pagination page size ≡ ok (some r) → IsPage r
unfolding scan_list_pagination
scan_list_pagination-IsPage page size r h =
    paginated-IsPage (page_or 1 page) (page_or default_scan_page_size size) r
      (λ n e. page_or-positive 1 n page (omega arith) e)
      (λ n e. page_or-positive default_scan_page_size n size (omega arith) e) ground (arith, h)

-- The decision is to start at once exactly when "immediate" is sent, or when no policy is sent and
-- no scan is active.
pub scan_launch_decision_iff :
    (body : Value) (active : ℕ)
    → (scan_launch_decision body active ≡ ok (ready pending)) ↔ (
        (launch_policy body ≡ string "immediate")
        ⊎ ((launch_policy body ≡ undefined) × (active ≡ 0)))
unfolding scan_launch_decision
scan_launch_decision_iff body active = launch_with_iff (launch_policy body) active

-- A job limit is accepted exactly when the value is not blank, and its text is digits that stand
-- for the limit, from 1 to 1,000,000.
pub validate_scan_job_limit_iff :
    (v : Value) (f : String) (n : ℕ)
    → (validate_scan_job_limit v f ≡ ok (some n)) ↔ (
        ((is_nullish v || trim (to_text v) == "") ≡ false)
        × (is_digits (limit_text v) ≡ true)
        × (digits_value (limit_text v) ≡ n)
        × (1 ≤ n)
        × (n ≤ 1000000))
unfolding validate_scan_job_limit
validate_scan_job_limit_iff v f n = ground arith

-- The same, from the four tests.
tested_iff :
    (s u t : Status) (n : ℕ) (x y r z b : Bool)
    → ((if not x && not y
          then conflict s u
          else if r && z
          then supplemental_in_use n
          else set_status u r)
        ≡ set_status t b)
      ↔ ((u ≡ t) × ((x || y) ≡ true) × (b ≡ r) × ((b && z) ≡ false))
tested_iff s u t n x y r z b = ground arith

change_to_iff :
    (s t : Status) (n : ℕ) (o : Option Status) (b : Bool)
    → (change_to s n o ≡ set_status t b) ↔ (
        (o ≡ some t)
        × ((is_status t s || has_status (user_status_transitions s) t) ≡ true)
        × (b ≡ (is_status t pending && not (is_status s pending)))
        × ((b && ltb 0 n) ≡ false))
change_to_iff s t n none b = ground arith
change_to_iff s t n (some u) b =
    let resumes : Status → Bool = λ w. is_status w pending && not (is_status s pending) in
    let allowed : Status → Bool = λ w. is_status w s || has_status (user_status_transitions s) w in
    let tests =
      tested_iff s u t n (is_status u s) (has_status (user_status_transitions s) u) (resumes u)
        (ltb 0 n) b in
    (
      λ h. let (e, a, r, z) = tests.0 h in (ap some e, sym (ap allowed e) ∙ a, r ∙ ap resumes e, z),
      λ (e, a, r, z).
          let e' : u ≡ t = cc e in tests.1 (e', ap allowed e' ∙ a, r ∙ sym (ap resumes e'), z),
    )

-- A user's request sets a status exactly when it names it, the status is the present one or a
-- transition leads to it, and a resumption finds no supplemental work.
pub change_status_tested_iff :
    (s t : Status) (n : ℕ) (v : Value) (b : Bool)
    → (change_status s n v ≡ set_status t b) ↔ (
        (parse_status v ≡ some t)
        × ((is_status t s || has_status (user_status_transitions s) t) ≡ true)
        × (b ≡ (is_status t pending && not (is_status s pending)))
        × ((b && ltb 0 n) ≡ false))
unfolding change_status
change_status_tested_iff s t n v b = change_to_iff s t n (parse_status v) b
