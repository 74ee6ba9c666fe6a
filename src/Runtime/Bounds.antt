-- ===== src/Runtime/Bounds.antt =====
-- What `validateRuntimeSettingsPatch` of backend/src/lib/runtimeSettings.js accepts.
use open_kritt.Prelude.{
  ℕ, ◌≤◌, ◌↔◌, leb, arith, String, ◌≡◌, refl, sym, ap, ◌∙◌, Bool, true, false, Option, none, some,
  List, [], ◌∷◌, ◌++◌, ◌==◌, if◌then◌else◌, All, subst, map_get, append-nil_iff,
}
use open_kritt.Value.{
  Value, Fields, end, field, keys, bool, FieldError, ok, checked-eq-ok_iff, as_object,
}
use open_kritt.Model.{refuse}
use open_kritt.Scan.{limit_text, max_safe_integer}
use open_kritt.Workflow.Depths.{refuse-nil_iff}
use open_kritt.Runtime.{
  ℤ, Kind, integer, fraction, flag, Definition, Setting, Given, accepted, rejected, whole,
  real_number, enabled, Numbers, runtime_setting_definitions, is_within, magnitude, leb_int, negsuc,
  pos, integer_of, is_end,
}
use open_kritt.Runtime.Reading.{
  real_within, given_setting, given_of_kind, whole_given, real_given, flag_given, collect,
  collected, Collected, patch_of, validate_runtime_settings_patch,
}
use open_kritt.Runtime.ReadBack.{is_of_kind}

accepted_if :
    {Real : Type 0} (b : Bool) (w v : Setting Real) (e : FieldError)
    → (if b then accepted w else rejected e) ≡ accepted v
    → (b ≡ true) × (w ≡ v)
accepted_if true w v e h = (refl, cc)
accepted_if false w v e h = cc h

-- The order of the integers.
abbrev pub IsAtMost : ℤ → ℤ → Type 0
IsAtMost (pos m) (pos n) = m ≤ n
IsAtMost (pos m) (negsuc n) = ⊥
IsAtMost (negsuc m) (pos n) = Unit
IsAtMost (negsuc m) (negsuc n) = n ≤ m

-- An integer that a double stands for exactly.
abbrev pub IsSafe : ℤ → Type 0
IsSafe z = IsAtMost (negsuc 9007199254740990) z × IsAtMost z (pos 9007199254740991)

leb_int_iff : (m n : ℤ) → (leb_int m n ≡ true) ↔ IsAtMost m n
leb_int_iff (pos m) (pos n) = ground arith
leb_int_iff (pos m) (negsuc n) = (λ h. cc h, λ h. elim h [ ])
leb_int_iff (negsuc m) (pos n) = (λ _. tt, λ _. refl)
leb_int_iff (negsuc m) (negsuc n) = ground arith

IsSafe-iff : (z : ℤ) → (leb (magnitude z) max_safe_integer ≡ true) ↔ IsSafe z
IsSafe-iff (pos n) = ground arith
IsSafe-iff (negsuc n) = ground arith

is_within_iff :
    (least most z : ℤ)
    → (is_within least most z ≡ true) ↔ (IsSafe z × (IsAtMost least z × IsAtMost z most))
is_within_iff least most z = ground (arith, IsSafe-iff z, leb_int_iff least z, leb_int_iff z most)

module _ {Real : Type 0} (numbers : Numbers Real) where
  -- A value of a kind: an integer that is safe and between the bounds, a number that is neither less
  -- than the one bound nor greater than the other, or a flag.
  abbrev pub IsOfKind : Kind → Setting Real → Type 0
  IsOfKind (integer least most) (whole z) = IsSafe z × (IsAtMost least z × IsAtMost z most)
  IsOfKind (fraction least most) (real_number r) =
      (numbers.less r (numbers.of_count least) ≡ false)
      × (numbers.less (numbers.of_count most) r ≡ false)
  IsOfKind flag (enabled b) = Unit
  IsOfKind _ _ = ⊥

  pub is_of_kind_iff :
      (k : Kind) (v : Setting Real) → (is_of_kind numbers k v ≡ true) ↔ IsOfKind k v
  is_of_kind_iff (integer least most) (whole z) = is_within_iff least most z
  is_of_kind_iff (fraction least most) (real_number r) = ground arith
  is_of_kind_iff flag (enabled b) = (λ _. tt, λ _. refl)
  is_of_kind_iff (integer least most) (real_number r) = (λ h. cc h, λ h. elim h [ ])
  is_of_kind_iff (integer least most) (enabled b) = (λ h. cc h, λ h. elim h [ ])
  is_of_kind_iff (fraction least most) (whole z) = (λ h. cc h, λ h. elim h [ ])
  is_of_kind_iff (fraction least most) (enabled b) = (λ h. cc h, λ h. elim h [ ])
  is_of_kind_iff flag (whole z) = (λ h. cc h, λ h. elim h [ ])
  is_of_kind_iff flag (real_number r) = (λ h. cc h, λ h. elim h [ ])

  whole_given-ok :
      (key : String) (least most : ℤ) (o : Option ℤ) (v : Setting Real)
      → whole_given numbers key least most o ≡ accepted v
      → is_of_kind numbers (integer least most) v ≡ true
  whole_given-ok key least most none v h = cc h
  whole_given-ok key least most (some z) v h =
      let (within, same) = accepted_if (is_within least most z) (whole z) v _ h in
      ap (is_of_kind numbers (integer least most)) (sym same) ∙ within

  real_given-ok :
      (key : String) (least most : ℕ) (o : Option Real) (v : Setting Real)
      → real_given numbers key least most o ≡ accepted v
      → is_of_kind numbers (fraction least most) v ≡ true
  real_given-ok key least most none v h = cc h
  real_given-ok key least most (some r) v h =
      let (within, same) = accepted_if (real_within numbers least most r) (real_number r) v _ h in
      ap (is_of_kind numbers (fraction least most)) (sym same) ∙ within

  flag_given-ok :
      (key : String) (raw : Value) (v : Setting Real)
      → flag_given numbers key raw ≡ accepted v
      → is_of_kind numbers flag v ≡ true
  flag_given-ok key raw (enabled b) h = refl
  flag_given-ok key raw (whole z) h = not_whole raw h
    where
      not_whole :
          (raw : Value)
          → flag_given numbers key raw ≡ accepted (whole z)
          → is_of_kind numbers flag (whole z) ≡ true
      not_whole (bool b) h = cc h
      not_whole _ h = cc h
  flag_given-ok key raw (real_number r) h = not_real raw h
    where
      not_real :
          (raw : Value)
          → flag_given numbers key raw ≡ accepted (real_number r)
          → is_of_kind numbers flag (real_number r) ≡ true
      not_real (bool b) h = cc h
      not_real _ h = cc h

  given_of_kind-ok :
      (key : String) (kind : Kind) (raw : Value) (v : Setting Real)
      → given_of_kind numbers key kind raw ≡ accepted v
      → is_of_kind numbers kind v ≡ true
  given_of_kind-ok key flag raw v h = flag_given-ok key raw v h
  given_of_kind-ok key (fraction least most) raw v h =
      real_given-ok key least most
        (if limit_text raw == "" then none else numbers.read (limit_text raw)) v h
  given_of_kind-ok key (integer least most) raw v h =
      whole_given-ok key least most (integer_of (limit_text raw)) v h

  -- A setting of the table, with a value that is of its kind and within its bounds.
  pub record IsSupported (entry : String × Setting Real) : Type 0 where
    pub definition : Definition
    pub found : map_get entry.0 runtime_setting_definitions ≡ some definition
    pub of_kind : IsOfKind definition.kind entry.1

  given_setting-ok :
      (key : String) (found : Option Definition) (raw : Value) (v : Setting Real)
      → map_get key runtime_setting_definitions ≡ found
      → given_setting numbers key found raw ≡ accepted v
      → IsSupported (key, v)
  given_setting-ok key none raw v e h = cc h
  given_setting-ok key (some d) raw v e h = record {
    definition = d;
    found = e;
    of_kind = (is_of_kind_iff d.kind v).0 (given_of_kind-ok key d.kind raw v h);
  }

  abbrev pub setting_keys : List (String × Setting Real) → List String
  setting_keys [] = []
  setting_keys ((key, _) ∷ entries) = key ∷ setting_keys entries

  -- What is collected, when there are no errors.
  abbrev IsCollected : Fields → Collected numbers → Type 0
  IsCollected fs (errors, values) =
      errors ≡ [] → All IsSupported values × (setting_keys values ≡ keys fs)

  collect-IsCollected :
      (key : String) (raw : Value) (fs : Fields) (c : Collected numbers) (given : Given Real)
      → ((v : Setting Real) → given ≡ accepted v → IsSupported (key, v))
      → IsCollected fs c
      → IsCollected (field key raw fs) (collect numbers key given c)
  collect-IsCollected key raw fs c (accepted v) f g =
      λ e. ((f v refl, (g e).0), ap (λ ks. key ∷ ks) (g e).1)
  collect-IsCollected key raw fs c (rejected e) f g = λ h. cc h

  collected-IsCollected : (fs : Fields) → IsCollected fs (collected numbers fs)
  collected-IsCollected end = λ e. (tt, refl)
  collected-IsCollected (field key raw fs) =
      let found = map_get key runtime_setting_definitions in
      collect-IsCollected key raw fs (collected numbers fs) (given_setting numbers key found raw)
        (λ v h. given_setting-ok key found raw v refl h) (collected-IsCollected fs)

  patch_of-IsCollected :
      (o : Option Fields) (values : List (String × Setting Real))
      → patch_of numbers o ≡ ok values
      → (fs : Fields) × ((o ≡ some fs)
          × (All IsSupported values × ((setting_keys values ≡ keys fs) × (is_end fs ≡ false))))
  patch_of-IsCollected none values h = cc h
  patch_of-IsCollected (some fs) values h =
      let (none_refused, same) =
        (checked-eq-ok_iff
            ((collected numbers fs).0
              ++ refuse (is_end fs) "settings" "Provide at least one setting to update.")
            (collected numbers fs).1 values).0
          h in
      let (no_errors, some_key) = (append-nil_iff (collected numbers fs).0 _).0 none_refused in
      let (supported, same_keys) = collected-IsCollected fs no_errors in
      (
        fs,
        (
          refl,
          (
            subst (All IsSupported) same supported,
            (
              ap setting_keys (sym same) ∙ same_keys,
              (refuse-nil_iff (is_end fs) "settings" "Provide at least one setting to update.").0
                  some_key,
            ),
          ),
        ),
      )

  -- An update of settings that is accepted is an object with at least one property. Its keys are
  -- the keys of the values, in the order of the object, and each is a setting of the table. Its value
  -- is of the kind of the setting: an integer that is safe and from the least to the most value of the
  -- setting, a number that is neither less than the one nor greater than the other, or a flag.
  pub validate_runtime_settings_patch-IsSupported :
      (body : Value) (values : List (String × Setting Real))
      → validate_runtime_settings_patch numbers body ≡ ok values
      → (fs : Fields) × ((as_object body ≡ some fs)
          × (All IsSupported values × ((setting_keys values ≡ keys fs) × (is_end fs ≡ false))))
  unfolding validate_runtime_settings_patch
  validate_runtime_settings_patch-IsSupported body values h =
      patch_of-IsCollected (as_object body) values h
