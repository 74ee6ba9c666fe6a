-- ===== src/Settings/Depths.antt =====
-- The selections of single depths that are accepted.
use mathlib.Core.List.{Perm}
use mathlib.Core.List.Perm
use open_kritt.Prelude.{
  ℕ, zero, suc, ◌≤◌, ◌≡◌, refl, ap, ◌∙◌, sym, subst, Bool, true, false, not, Option, List, [], ◌∷◌,
  ◌++◌, arith, String, if◌then◌else◌, Bool-cases, inl, inr, All, length, append-nil_iff, leb, ltb,
}
use open_kritt.Text.{concat}
use open_kritt.Value.{Value, object, Fields, end, field, keys, FieldError, ok, checked-eq-ok_iff}
use open_kritt.Scan.{digits_value, max_safe_integer}
use open_kritt.Model.{Selection, selection_of, refuse}
use open_kritt.Model.Laws.{IsSupported, selection_errors_iff}
use open_kritt.Workflow.Depths.{refuse-nil_iff}
use open_kritt.Settings.Overrides.{
  is_depth_text, is_allowed, not_in_workflow, configured, entry, entries_errors, entries_selected,
  insert_override, sort_overrides, override_limit, validate_model_overrides,
}

-- A supported selection for a depth that is a safe number without leading zeros and in the workflow.
abbrev pub IsOverride : Option (List ℕ) → String × Selection → Type 0
IsOverride allowed (depth, s) =
    (is_depth_text depth ≡ true)
    × (leb (digits_value depth) max_safe_integer ≡ true)
    × (is_allowed allowed (digits_value depth) ≡ true)
    × IsSupported s

-- The overrides that the properties of an object stand for, in their order.
abbrev pub overrides_of : Fields → List (String × Selection)
overrides_of end = []
overrides_of (field depth v fs) = (depth, selection_of v) ∷ overrides_of fs

-- One entry without errors is the override of its depth.
abbrev IsOne :
    Option (List ℕ) → String × Selection → List FieldError × List (String × Selection) → Type 0
IsOne allowed e (errors, selected) = errors ≡ [] → (selected ≡ e ∷ []) × IsOverride allowed e

IsOne-if :
    (allowed : Option (List ℕ)) (e : String × Selection) (b : Bool)
    (x y : List FieldError × List (String × Selection))
    → (b ≡ true → IsOne allowed e x)
    → (b ≡ false → IsOne allowed e y)
    → IsOne allowed e (if b then x else y)
IsOne-if allowed e true x y f g = f refl
IsOne-if allowed e false x y f g = g refl

not-not : (b : Bool) → not b ≡ false → b ≡ true
not-not b h = ground arith

configured-IsOne :
    (allowed : Option (List ℕ)) (path depth : String) (v : Value)
    → is_depth_text depth ≡ true
    → leb (digits_value depth) max_safe_integer ≡ true
    → IsOne allowed
        (depth, selection_of v)
        (
          not_in_workflow allowed path (digits_value depth) ++ (configured path depth v).0,
          (configured path depth v).1,
        )
configured-IsOne allowed path depth (object fs) text safe h =
    let (inside, clean) =
      (append-nil_iff (not_in_workflow allowed path (digits_value depth)) _).0 h in
    (
      refl,
      (
        text,
        safe,
        not-not _ ((refuse-nil_iff _ _ _).0 inside),
        ((selection_errors_iff path (object fs)).0 clean).0,
      ),
    )
configured-IsOne allowed path depth _ text safe h =
    cc ((append-nil_iff (not_in_workflow allowed path (digits_value depth)) _).0 h).1

entry-IsOne :
    (allowed : Option (List ℕ)) (path depth : String) (v : Value)
    → IsOne allowed (depth, selection_of v) (entry allowed path depth v)
entry-IsOne allowed path depth v =
    IsOne-if allowed (depth, selection_of v) (not (is_depth_text depth)) _ _ (λ _ h. cc)
      (λ text.
        IsOne-if allowed (depth, selection_of v) (not (leb (digits_value depth) max_safe_integer)) _
          _ (λ _ h. cc)
          (λ safe. configured-IsOne allowed path depth v (not-not _ text) (not-not _ safe)))

abbrev AreOverrides : Option (List ℕ) → List (String × Selection) → Type 0
AreOverrides allowed es = All (IsOverride allowed) es

entries_ok :
    (allowed : Option (List ℕ)) (name : String) (room : ℕ) (fs : Fields)
    → entries_errors allowed name room fs ≡ []
    → length (keys fs) ≤ room
    → AreOverrides allowed (entries_selected allowed name room fs)
      × (entries_selected allowed name room fs ≡ overrides_of fs)
unfolding entries_errors entries_selected
entries_ok allowed name zero end h l = (tt, refl)
entries_ok allowed name zero (field k v fs) h l =
    let none_left : ⊥ = omega (arith, l) in elim none_left [ ]
entries_ok allowed name (suc room) end h l = (tt, refl)
entries_ok allowed name (suc room) (field k v fs) h l =
    let path = concat (name ∷ "." ∷ k ∷ []) in
    let (own, rest) = (append-nil_iff (entry allowed path k v).0 _).0 h in
    let (same, fit) = entry-IsOne allowed path k v own in
    let (fits, each) = entries_ok allowed name room fs rest (omega (arith, l)) in
    let selected = entries_selected allowed name room fs in
    (
      subst (λ s. AreOverrides allowed (s ++ selected)) (sym same) (fit, fits),
      ap (λ s. s ++ selected) same ∙ ap (λ es. (k, selection_of v) ∷ es) each,
    )

-- From the least depth on.
abbrev pub IsOrdered : ℕ → List (String × Selection) → Type 0
IsOrdered lo [] = Unit
IsOrdered lo ((depth, s) ∷ es) = (lo ≤ digits_value depth) × IsOrdered (digits_value depth) es

insert_override-All :
    (allowed : Option (List ℕ)) (e : String × Selection) (es : List (String × Selection))
    → IsOverride allowed e
    → AreOverrides allowed es
    → AreOverrides allowed (insert_override e es)
insert_override-All allowed e [] p ps = (p, tt)
insert_override-All allowed e (f ∷ es) p (q, ps) =
    elim (Bool-cases (leb (digits_value e.0) (digits_value f.0))) [
      | inl le ↦ rw le (p, (q, ps))
      | inr gt ↦ rw gt (q, insert_override-All allowed e es p ps)
    ]

insert_override-Perm :
    (e : String × Selection) (es : List (String × Selection)) → Perm (insert_override e es) (e ∷ es)
insert_override-Perm e [] = Perm.refl (e ∷ [])
insert_override-Perm e (f ∷ es) = elim (Bool-cases (leb (digits_value e.0) (digits_value f.0))) [
  | inl le ↦ rw le (Perm.refl (e ∷ f ∷ es))
  | inr gt ↦ rw gt (Perm.trans (Perm.cons f (insert_override-Perm e es)) (Perm.swap e f es))
]

insert_override-IsOrdered :
    (lo : ℕ) (e : String × Selection) (es : List (String × Selection))
    → lo ≤ digits_value e.0
    → IsOrdered lo es
    → IsOrdered lo (insert_override e es)
insert_override-IsOrdered lo e [] l o = (l, tt)
insert_override-IsOrdered lo e (f ∷ es) l (k, o) =
    elim (Bool-cases (leb (digits_value e.0) (digits_value f.0))) [
      | inl le ↦ rw le (l, (ground (arith, le), o))
      | inr gt ↦ rw gt (k, insert_override-IsOrdered (digits_value f.0) e es ground (arith, gt) o)
    ]

sorted :
    (allowed : Option (List ℕ)) (es : List (String × Selection))
    → AreOverrides allowed es
    → AreOverrides allowed (sort_overrides es)
      × IsOrdered 0 (sort_overrides es)
      × Perm (sort_overrides es) es
sorted allowed [] p = (tt, tt, Perm.refl [])
sorted allowed (e ∷ es) (p, ps) =
    let (all, ordered, same) = sorted allowed es ps in
    (
      insert_override-All allowed e (sort_overrides es) p all,
      insert_override-IsOrdered 0 e (sort_overrides es) (omega arith) ordered,
      Perm.trans (insert_override-Perm e (sort_overrides es)) (Perm.cons e same),
    )

-- What is accepted of an object of overrides is, in the order of the depths, exactly what its
-- properties stand for, each as often as the object has it: its name with the selection of its value.
-- The name is a safe number without leading zeros that is a depth of the workflow, and the selection
-- is supported.
pub validate_model_overrides-IsOrdered :
    (allowed : Option (List ℕ)) (name : String) (fs : Fields) (es : List (String × Selection))
    → validate_model_overrides allowed name (object fs) ≡ ok es
    → All (IsOverride allowed) es × IsOrdered 0 es × Perm es (overrides_of fs)
unfolding validate_model_overrides
validate_model_overrides-IsOrdered allowed name fs es h =
    let selected = entries_selected allowed name override_limit fs in
    let (clean, same) = (checked-eq-ok_iff _ (sort_overrides selected) es).0 h in
    let (few, entries) =
      (append-nil_iff (refuse (ltb override_limit (length (keys fs))) name _) _).0 clean in
    let below = (refuse-nil_iff _ _ _).0 few in
    let (fits, each) = entries_ok allowed name override_limit fs entries ground (arith, below) in
    let (all, ordered, as_many) = sorted allowed selected fits in
    subst (λ s. All (IsOverride allowed) s × IsOrdered 0 s × Perm s (overrides_of fs)) same
      (all, ordered, subst (Perm (sort_overrides selected)) each as_many)
