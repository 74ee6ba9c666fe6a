-- ===== src/Runtime/Reading.antt =====
-- Reading a setting from a text, and the settings of a request: `parsedSettingValue`,
-- `resolvedSetting` and `validateRuntimeSettingsPatch` of backend/src/lib/runtimeSettings.js.
use open_kritt.Prelude.{
  ℕ, String, Bool, true, false, not, ◌&&◌, Option, none, some, List, [], ◌∷◌, ◌++◌, ◌==◌,
  if◌then◌else◌, includes, map_get,
}
use open_kritt.Text.{trim, to_lower}
use open_kritt.Scan.{limit_text}
use open_kritt.Value.{
  Value, Fields, end, field, bool, FieldError, error, Checked, invalid, checked, as_object,
}
use open_kritt.Model.{refuse}
use open_kritt.Runtime.{
  Definition, Given, Kind, Numbers, Setting, accepted, count, enabled, flag, fraction, int_text,
  integer, integer_of, is_end, is_within, off_words, on_or_off, on_words, pos, real_number,
  rejected, runtime_setting_definitions, whole, whole_message, ℤ,
}

module _ {Real : Type 0} (numbers : Numbers Real) where
  abbrev pub default_of : Definition → Setting Real
  default_of d = elim d.default_value [
    | on_or_off b ↦ enabled b
    | count n ↦ elim d.kind [
      | fraction _ _ ↦ real_number (numbers.of_count n)
      | integer _ _ ↦ whole (pos n)
      | flag ↦ whole (pos n)
    ]
  ]

  abbrev pub real_within : ℕ → ℕ → Real → Bool
  real_within least most r =
      not (numbers.less r (numbers.of_count least)) && not (numbers.less (numbers.of_count most) r)

  abbrev pub value_or_default : Definition → Option (Setting Real) → Setting Real × Bool
  value_or_default d none = (default_of d, false)
  value_or_default d (some v) = (v, true)

  abbrev pub flag_of : String → Option (Setting Real)
  flag_of text =
      if includes on_words (to_lower text)
      then some (enabled true)
      else if includes off_words (to_lower text)
      then some (enabled false)
      else none

  abbrev pub within_whole : ℤ → ℤ → Option ℤ → Option (Setting Real)
  within_whole least most none = none
  within_whole least most (some z) = if is_within least most z then some (whole z) else none

  abbrev pub within_real : ℕ → ℕ → Option Real → Option (Setting Real)
  within_real least most none = none
  within_real least most (some r) = if real_within least most r then some (real_number r) else none

  abbrev pub setting_of_kind : Kind → String → Option (Setting Real)
  setting_of_kind flag text = flag_of text
  setting_of_kind (fraction least most) text =
      if text == "" then none else within_real least most (numbers.read text)
  setting_of_kind (integer least most) text = within_whole least most (integer_of text)

  -- `parsedSettingValue` of a text that is there, and whether it is valid
  unfoldable pub parsed_setting_value : Option String → Definition → Setting Real × Bool
  parsed_setting_value none d = (default_of d, true)
  parsed_setting_value (some raw) d = value_or_default d (setting_of_kind d.kind (trim raw))

  -- The source of a setting and its value, with whether it is valid.
  pub record Resolved : Type 0 where
    pub source : String
    pub value : Setting Real
    pub valid : Bool

  abbrev pub resolved_from : Definition → String → Option String → Resolved
  resolved_from d name raw =
      let (v, fits) = parsed_setting_value raw d in
      record { source = name; value = v; valid = fits }

  abbrev pub first_source : Definition → Option String → Option String → Option String → Resolved
  first_source d (some raw) b c = resolved_from d "runtime_config" (some raw)
  first_source d none (some raw) c = resolved_from d "process_environment" (some raw)
  first_source d none none (some raw) = resolved_from d "project_environment" (some raw)
  first_source d none none none = resolved_from d "default" none

  -- `resolvedSetting`
  unfoldable pub resolved_setting :
      Definition
      → List (String × String)
      → List (String × String)
      → List (String × String)
      → Resolved
  resolved_setting d runtime project env =
      first_source d (map_get d.env_key runtime) (map_get d.env_key env) (map_get d.env_key project)

  abbrev pub refused : String → String → Given Real
  refused key message = rejected (error key message)

  abbrev pub whole_given : String → ℤ → ℤ → Option ℤ → Given Real
  whole_given key least most none = refused key "Enter a whole number."
  whole_given key least most (some z) =
      if is_within least most z then accepted (whole z) else refused key (whole_message least most)

  abbrev pub real_given : String → ℕ → ℕ → Option Real → Given Real
  real_given key least most none = refused key "Enter a number."
  real_given key least most (some r) =
      if real_within least most r
      then accepted (real_number r)
      else refused key (whole_message (pos least) (pos most))

  abbrev pub flag_given : String → Value → Given Real
  flag_given key (bool b) = accepted (enabled b)
  flag_given key _ = refused key "Choose enabled or disabled."

  abbrev pub given_of_kind : String → Kind → Value → Given Real
  given_of_kind key flag raw = flag_given key raw
  given_of_kind key (fraction least most) raw =
      let text = limit_text raw in
      real_given key least most (if text == "" then none else numbers.read text)
  given_of_kind key (integer least most) raw =
      whole_given key least most (integer_of (limit_text raw))

  -- What the loop does with a key and its value.
  abbrev pub given_setting : String → Option Definition → Value → Given Real
  given_setting key none raw = refused key "This runtime setting is not supported."
  given_setting key (some d) raw = given_of_kind key d.kind raw

  -- The errors and the values of the loop over the keys.
  abbrev pub Collected : Type 0
  Collected = List FieldError × List (String × Setting Real)

  abbrev pub collect : String → Given Real → Collected → Collected
  collect key (accepted v) (errors, values) = (errors, (key, v) ∷ values)
  collect key (rejected e) (errors, values) = (e ∷ errors, values)

  abbrev pub collected : Fields → Collected
  collected end = ([], [])
  collected (field key raw fs) =
      collect key (given_setting key (map_get key runtime_setting_definitions) raw) (collected fs)

  abbrev pub patch_of : Option Fields → Checked (List (String × Setting Real))
  patch_of none = invalid (error "settings" "Settings must be an object." ∷ [])
  patch_of (some fs) =
      let (errors, values) = collected fs in
      checked (errors ++ refuse (is_end fs) "settings" "Provide at least one setting to update.")
        values

  -- `validateRuntimeSettingsPatch`
  unfoldable pub validate_runtime_settings_patch : Value → Checked (List (String × Setting Real))
  validate_runtime_settings_patch body = patch_of (as_object body)

  -- `${value}`
  abbrev pub setting_text : Setting Real → String
  setting_text (whole z) = int_text z
  setting_text (real_number r) = numbers.print r
  setting_text (enabled true) = "true"
  setting_text (enabled false) = "false"
