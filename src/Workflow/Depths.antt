-- ===== src/Workflow/Depths.antt =====
-- The depths of a workflow without structural errors are 0, 1, 2 and so on.
use open_kritt.Prelude.{
  ℕ, zero, suc, ◌+◌, ◌≤◌, ◌<◌, ◌≡◌, ◌↔◌, refl, ap, ap₂, ◌∙◌, sym, subst, Bool, true, false, not,
  ◌||◌, List, [], ◌∷◌, arith, nat_eq, leb, append-nil_iff, Bool-cases, inl, inr, String,
}
use open_kritt.Model.{refuse}
use open_kritt.Workflow.Types.{Level, depths, insert_level, sort_levels}
use open_kritt.Workflow.Routing.{nat_includes, nat_distinct, max_of, missing_errors, depth_errors}

-- `count` numbers from `d` on.
abbrev pub range_from : ℕ → ℕ → List ℕ
range_from d zero = []
range_from d (suc count) = d ∷ range_from (suc d) count

pub refuse-nil_iff : (b : Bool) (f m : String) → (refuse b f m ≡ []) ↔ (b ≡ false)
refuse-nil_iff true f m = (λ h. cc, λ h. cc)
refuse-nil_iff false f m = (λ _. refl, λ _. refl)

-- Every number of the range is in the list.
abbrev pub Has : List ℕ → ℕ → ℕ → Type 0
Has ds d zero = Unit
Has ds d (suc count) = (nat_includes ds d ≡ true) × Has ds (suc d) count

missing_errors_iff : (ds : List ℕ) (count d : ℕ) → (missing_errors ds count d ≡ []) ↔ Has ds d count
unfolding missing_errors
missing_errors_iff ds zero d = (λ _. tt, λ _. refl)
missing_errors_iff ds (suc count) d =
    let (to, from) =
      append-nil_iff (refuse (not (nat_includes ds d)) "levels" _)
        (missing_errors ds count (suc d)) in
    let (to', from') = missing_errors_iff ds count (suc d) in
    (
      λ h. (ground (arith, (refuse-nil_iff _ _ _).0 (to h).0), to' (to h).1),
      λ (i, r). from ((refuse-nil_iff _ _ _).1 (ap not i), from' r),
    )

pub depth_errors_iff :
    (ds : List ℕ)
    → (depth_errors ds ≡ [])
      ↔ ((nat_distinct ds ≡ true) × (nat_includes ds 0 ≡ true) × Has ds 0 (suc (max_of ds)))
unfolding depth_errors
depth_errors_iff ds =
    let (to, from) = append-nil_iff (refuse (not (nat_distinct ds)) "levels" _) _ in
    let (to', from') =
      append-nil_iff (refuse (not (nat_includes ds 0)) "levels" _)
        (missing_errors ds (suc (max_of ds)) 0) in
    let m = missing_errors_iff ds (suc (max_of ds)) 0 in
    (
      λ h. (
        ground (arith, (refuse-nil_iff _ _ _).0 (to h).0),
        ground (arith, (refuse-nil_iff _ _ _).0 (to' (to h).1).0),
        m.0 (to' (to h).1).1,
      ),
      λ (d, z, r).
          from (
            (refuse-nil_iff _ _ _).1 (ap not d),
            from' ((refuse-nil_iff _ _ _).1 (ap not z), m.1 r),
          ),
    )

-- A strictly ascending list from a bound on.
abbrev pub IsAscending : ℕ → List ℕ → Type 0
IsAscending lo [] = Unit
IsAscending lo (d ∷ ds) = (lo ≤ d) × IsAscending (suc d) ds

Ascending-weaken : (lo m : ℕ) (ds : List ℕ) → lo ≤ m → IsAscending m ds → IsAscending lo ds
Ascending-weaken lo m [] h a = tt
Ascending-weaken lo m (d ∷ ds) h (l, a) = (omega (arith, h, l), a)

Ascending-lower : (lo e : ℕ) (ds : List ℕ) → IsAscending lo ds → nat_includes ds e ≡ true → lo ≤ e
Ascending-lower lo e [] a i = cc
Ascending-lower lo e (d ∷ ds) (l, a) i = ground (arith, l, Ascending-lower (suc d) e ds a)

includes-insert_level :
    (l : Level) (ms : List Level) (e : ℕ)
    → nat_includes (depths (insert_level l ms)) e ≡ (nat_eq l.depth e || nat_includes (depths ms) e)
includes-insert_level l [] e = refl
includes-insert_level l (m ∷ ms) e = ground (arith, includes-insert_level l ms e)

pub includes-sort_levels :
    (ls : List Level) (e : ℕ)
    → nat_includes (depths (sort_levels ls)) e ≡ nat_includes (depths ls) e
includes-sort_levels [] e = refl
includes-sort_levels (l ∷ ls) e =
    includes-insert_level l (sort_levels ls) e
    ∙ ap (λ b. nat_eq l.depth e || b) (includes-sort_levels ls e)

insert_level-IsAscending :
    (l : Level) (ms : List Level) (lo : ℕ)
    → lo ≤ l.depth
    → nat_includes (depths ms) l.depth ≡ false
    → IsAscending lo (depths ms)
    → IsAscending lo (depths (insert_level l ms))
insert_level-IsAscending l [] lo h n a = (h, tt)
insert_level-IsAscending l (m ∷ ms) lo h n (k, a) = elim (Bool-cases (leb l.depth m.depth)) [
  | inl le ↦ rw le (h, (ground (arith, le, n), a))
  | inr gt ↦
      rw gt (k, insert_level-IsAscending l ms (suc m.depth) ground (arith, gt) ground (arith, n) a)
]

pub sort_levels-IsAscending :
    (ls : List Level) → nat_distinct (depths ls) ≡ true → IsAscending 0 (depths (sort_levels ls))
sort_levels-IsAscending [] h = tt
sort_levels-IsAscending (l ∷ ls) h =
    insert_level-IsAscending l (sort_levels ls) 0 (omega arith)
      (includes-sort_levels ls l.depth ∙ ground (arith, h))
      (sort_levels-IsAscending ls ground (arith, h))

pub max_of_bound : (ns : List ℕ) (e : ℕ) → nat_includes ns e ≡ true → e ≤ max_of ns
max_of_bound [] e h = cc
max_of_bound (n ∷ ns) e h = ground (arith, max_of_bound ns e)

Has-tail : (d m count : ℕ) (ds : List ℕ) → d < m → Has (d ∷ ds) m count → Has ds m count
Has-tail d m zero ds l h = tt
Has-tail d m (suc count) ds l (i, h) =
    (ground (arith, i, l), Has-tail d (suc m) count ds (omega (arith, l)) h)

eq_self : (n : ℕ) → nat_eq n n ≡ true
eq_self n = ground arith

-- The least member is where the range begins.
head_is_least :
    (lo d : ℕ) (ds : List ℕ)
    → lo ≤ d
    → IsAscending (suc d) ds
    → nat_includes (d ∷ ds) lo ≡ true
    → d ≡ lo
head_is_least lo d ds l a i = ground (arith, Ascending-lower (suc d) lo ds a)

-- An ascending list that has a range and nothing above it is the range.
ascending_range :
    (lo count : ℕ) (ds : List ℕ)
    → IsAscending lo ds
    → Has ds lo count
    → ((e : ℕ) → nat_includes ds e ≡ true → e < lo + count)
    → ds ≡ range_from lo count
ascending_range lo zero [] a h b = refl
ascending_range lo zero (d ∷ ds) (l, a) h b =
    let above = b d (ap (λ x. x || nat_includes ds d) (eq_self d)) in
    let none_left : ⊥ = omega (arith, above, l) in elim none_left [ ]
ascending_range lo (suc count) [] a (i, h) b = cc
ascending_range lo (suc count) (d ∷ ds) (l, a) (i, h) b =
    let same = head_is_least lo d ds l a i in
    ap₂ ◌∷◌ same (
      ascending_range (suc lo) count ds (subst (λ n. IsAscending (suc n) ds) same a)
        (Has-tail d (suc lo) count ds (omega (arith, same)) h)
        (λ e j. let k = b e ground (arith, j) in omega (arith, k)))

Has-of_eq :
    (ds es : List ℕ) (d count : ℕ)
    → ((e : ℕ) → nat_includes ds e ≡ nat_includes es e)
    → Has es d count
    → Has ds d count
Has-of_eq ds es d zero f h = tt
Has-of_eq ds es d (suc count) f (i, h) = (f d ∙ i, Has-of_eq ds es (suc d) count f h)

-- Levels whose depths have no error are, when they are sorted, those at the depths from 0 on.
pub sorted_depths :
    (ls : List Level)
    → depth_errors (depths ls) ≡ []
    → depths (sort_levels ls) ≡ range_from 0 (suc (max_of (depths ls)))
sorted_depths ls h =
    let (distinct, _, has) = (depth_errors_iff (depths ls)).0 h in
    ascending_range 0 (suc (max_of (depths ls))) (depths (sort_levels ls))
      (sort_levels-IsAscending ls distinct)
      (Has-of_eq _ (depths ls) 0 (suc (max_of (depths ls))) (includes-sort_levels ls) has)
      (λ e i.
        let below = max_of_bound (depths ls) e (sym (includes-sort_levels ls e) ∙ i) in
        omega (arith, below))
