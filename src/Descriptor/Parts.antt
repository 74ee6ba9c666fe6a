-- ===== src/Descriptor/Parts.antt =====
-- Each part of the walk reports nothing exactly when the part is well formed.

use open_kritt.Prelude.{
  append-nil_iff, String, ◌≡◌, refl, ap, subst, ◌≢◌, ◌↔◌, Bool, true, false, Option, none, some,
  List, [], ◌∷◌, arith, eq_iff, All, includes, all_distinct,
}
use open_kritt.Value.{Value, array, object, cons, nil, Fields, end, field, own, string, Items}
use open_kritt.Descriptor.Types.{FieldType}
use open_kritt.Descriptor.{
  Walk, check, allowed, string_items, string_array, undeclared, report_undeclared, walk_keys,
  walk_required_names, walk_enum_names, walk_required, walk_enum, walk_items, walk_each,
  walk_fields,
}
use open_kritt.Descriptor.Meaning.{Optional, IsDistinct, IsEnum, IsRequired, EachField, IsFieldMap}

pub check_iff : (b : Bool) (p m : String) → ((check b p m).errors ≡ []) ↔ (b ≡ true)
check_iff true p m = (λ _. refl, λ _. refl)
check_iff false p m = (λ h. cc, λ h. cc)

pub walk_keys_iff :
    (p : String) (t : FieldType) (ks : List String)
    → ((walk_keys p t ks).errors ≡ []) ↔ All (λ k. includes (allowed t) k ≡ true) ks
unfolding walk_keys
walk_keys_iff p t [] = (λ _. tt, λ _. refl)
walk_keys_iff p t (k ∷ ks) = ground (arith, walk_keys_iff p t ks)

includes_iff : (t : String) (ss : List String) → (includes ss t ≡ false) ↔ All (λ s. s ≢ t) ss
includes_iff t [] = (λ _. tt, λ _. refl)
includes_iff t (s ∷ ss) = ground (arith, eq_iff s t, includes_iff t ss)

pub all_distinct_iff : (ss : List String) → (all_distinct ss ≡ true) ↔ IsDistinct ss
all_distinct_iff [] = (λ _. tt, λ _. refl)
all_distinct_iff (s ∷ ss) = ground (arith, includes_iff s ss, all_distinct_iff ss)

pub undeclared_iff :
    (m : Fields) (ks : List String) → (undeclared m ks ≡ []) ↔ All (λ k. own k m ≢ none) ks
undeclared_iff m [] = (λ _. tt, λ _. refl)
undeclared_iff m (k ∷ ks) = ground (arith, undeclared_iff m ks)

report_undeclared_iff :
    (p : String) (m : Fields) (ns : List String)
    → ((report_undeclared p (undeclared m ns)).errors ≡ []) ↔ All (λ k. own k m ≢ none) ns
unfolding report_undeclared
report_undeclared_iff p m ns =
    elim (undeclared m ns)
        as (λ us.
          ((us ≡ []) ↔ All (λ k. own k m ≢ none) ns)
          → ((report_undeclared p us).errors ≡ []) ↔ All (λ k. own k m ≢ none) ns) [
            | [] ↦ λ d. (λ _. d.0 refl, λ _. refl)
            | u ∷ us ↦ λ d. (λ h. cc, λ h. cc (d.1 h))
          ]
      (undeclared_iff m ns)

walk_required_names_iff :
    (p : String) (m : Fields) (o : Option (List String))
    → ((walk_required_names p m o).errors ≡ []) ↔ (
        (names : List String) × (o ≡ some names)
        × IsDistinct names
        × All (λ k. own k m ≢ none) names)
unfolding walk_required_names
walk_required_names_iff p m none = (λ h. cc, λ h. cc (h.1))
walk_required_names_iff p m (some names) = (
  λ h.
      let (d, u) = (append-nil_iff _ _).0 h in
      (
        names,
        refl,
        (all_distinct_iff names).0 ((check_iff _ _ _).0 d),
        (report_undeclared_iff p m names).0 u,
      ),
  λ (ns, e, d, u).
      let same : ns ≡ names = cc e in
      (append-nil_iff _ _).1 (
        (check_iff _ _ _).1 ((all_distinct_iff names).1 (rw same at d)),
        (report_undeclared_iff p m names).1 (rw same at u),
      ),
)

pub walk_required_iff :
    (p : String) (m : Fields) (o : Option Value)
    → ((walk_required p m o).errors ≡ []) ↔ Optional (IsRequired m) o
unfolding walk_required
walk_required_iff p m none = (λ _. tt, λ _. refl)
walk_required_iff p m (some v) = walk_required_names_iff p m (string_array v)

string_items-cons : (v : Value) (vs : Items) → string_items (cons v vs) ≢ some []
string_items-cons (string s) vs = ground arith
string_items-cons _ vs = ground arith

walk_enum_names_iff :
    (p : String) (o : Option (List String))
    → o ≢ some []
    → ((walk_enum_names p o).errors ≡ [])
      ↔ ((names : List String) × (o ≡ some names) × (names ≢ []) × IsDistinct names)
unfolding walk_enum_names
walk_enum_names_iff p none ne = (λ h. cc, λ h. cc (h.1))
walk_enum_names_iff p (some names) ne = (
  λ h. (names, refl, λ e. ne (ap some e), (all_distinct_iff names).0 ((check_iff _ _ _).0 h)),
  λ (ns, e, n, d).
      let same : ns ≡ names = cc e in
      (check_iff _ _ _).1 ((all_distinct_iff names).1 (rw same at d)),
)

pub walk_enum_iff :
    (p : String) (o : Option Value) → ((walk_enum p o).errors ≡ []) ↔ Optional IsEnum o
unfolding walk_enum
walk_enum_iff p none = (λ _. tt, λ _. refl)
walk_enum_iff p (some (array (cons v vs))) =
    walk_enum_names_iff p (string_items (cons v vs)) (string_items-cons v vs)
walk_enum_iff p (some (array nil)) = (λ h. cc, λ (ns, e, n, d). absurd (n (cc e)))
walk_enum_iff p (some _) = (λ h. cc, λ h. cc (h.1))

module _ (walk : String → Value → Walk) (P : Value → Type 0)
    (sound : (p : String) (v : Value) → ((walk p v).errors ≡ []) ↔ P v) where
  pub walk_items_iff :
      (p : String) (o : Option Value) → ((walk_items walk p o).errors ≡ []) ↔ Optional P o
  unfolding walk_items
  walk_items_iff p none = (λ _. tt, λ _. refl)
  walk_items_iff p (some v) = sound _ v

  walk_each_iff : (p : String) (m : Fields) → ((walk_each walk p m).errors ≡ []) ↔ EachField P m
  unfolding walk_each
  walk_each_iff p end = (λ _. tt, λ _. refl)
  walk_each_iff p (field k v m) = (
    λ h.
        let (ck, rest) = (append-nil_iff _ _).0 h in
        let (cv, cm) = (append-nil_iff _ _).0 rest in
        ((check_iff _ _ _).0 ck, (sound _ v).0 cv, (walk_each_iff p m).0 cm),
    λ (ck, cv, cm). (append-nil_iff _ _).1 (
      (check_iff _ _ _).1 ck,
      (append-nil_iff _ _).1 ((sound _ v).1 cv, (walk_each_iff p m).1 cm),
    ),
  )

  pub walk_fields_iff :
      (p : String) (v : Value) (required : Option Value)
      → ((walk_fields walk p (some v) required).errors ≡ [])
        ↔ ((m : Fields) × IsFieldMap P m v × Optional (IsRequired m) required)
  unfolding walk_fields
  walk_fields_iff p (object (field k v m)) required = (
    λ h.
        let (ce, cr) = (append-nil_iff _ _).0 h in
        (
          field k v m,
          (refl, λ e. cc e, (walk_each_iff p (field k v m)).0 ce),
          (walk_required_iff p (field k v m) required).0 cr,
        ),
    λ (m', (e, n, es), r).
        let same : m' ≡ field k v m = cc e in
        (append-nil_iff _ _).1 (
          (walk_each_iff p (field k v m)).1 (subst (EachField P) same es),
          (walk_required_iff p (field k v m) required).1
              (subst (λ x. Optional (IsRequired x) required) same r),
        ),
  )
  walk_fields_iff p (object end) required = (λ h. cc, λ (m, (e, n, es), r). absurd (n (cc e)))
  walk_fields_iff p _ required = (λ h. cc, λ (m, (e, n, es), r). cc e)
