-- ===== src/Runtime/Laws.antt =====
-- The whole of `updateRuntimeSettings` (backend/src/lib/runtimeSettings.js): what is read after it, and
-- what it leaves when the second file cannot be written.
use open_kritt.Prelude.{
  String, ◌≡◌, refl, ap, ◌∙◌, true, false, Option, none, some, List, [], ◌∷◌, ◌==◌, if◌then◌else◌,
  map_get, all, all_distinct,
}
use open_kritt.Value.{Value, Fields, end, field, keys, ok}
use open_kritt.Environment.{Outcome, returned, thrown, parse_environment_text}
use open_kritt.Environment.Editing.{file_lines, is_nil}
use open_kritt.Environment.Lines.{is_line}
use open_kritt.Environment.View.{overridden}
use open_kritt.Environment.Rewriting.{entries_fit}
use open_kritt.Environment.Adding.{entry_keys}
use open_kritt.Environment.Mutate.{Updates, Mutated, file_text}
use open_kritt.Runtime.{Setting, Numbers, runtime_setting_definitions, is_end}
use open_kritt.Runtime.Reading.{Resolved, validate_runtime_settings_patch}
use open_kritt.Runtime.ReadBack.{IsReadBack}
use open_kritt.Runtime.Bounds.{
  setting_keys, is_of_kind_iff, validate_runtime_settings_patch-IsSupported,
}
use open_kritt.Runtime.Update.{
  Files, Platform, failed, settings, update_project, update_both, update_checked, update_ended,
  environment_values, read_runtime_settings, environment_updates, env_key_of,
  update_runtime_settings, value_in,
}
use open_kritt.Runtime.Updating.{update_both-put_back, update_both-kept}
use open_kritt.Runtime.Lookups.{
  named_found, definitions_named, map_get-environment_updates, map_get-resolved_all,
  resolved_setting-runtime, IsSupported-of, thrown_same,
}

module _ {Real : Type 0} (numbers : Numbers Real) (p : Platform) where
  updates_not_empty :
      (values : List (String × Setting Real)) (fs : Fields)
      → setting_keys numbers values ≡ keys fs
      → is_end fs ≡ false
      → is_nil (environment_updates p numbers values) ≡ false
  updates_not_empty [] end e h = cc h
  updates_not_empty [] (field k raw fs) e h = cc e
  updates_not_empty (_ ∷ values) fs e h = refl

  module _ (renames : p.runtime_rename_error ≡ none)
      (decodes : (s : String) → p.utf8_decode (p.utf8_encode s) ≡ s)
      (has_path : (p.runtime_path == "") ≡ false) (body : Value)
      (values : List (String × Setting Real))
      (accepted : validate_runtime_settings_patch numbers body ≡ ok values) (s : Files)
      (lines : all is_line (file_lines (file_text p.utf8_decode s.runtime.target)) ≡ true)
      (distinct : all_distinct (entry_keys (environment_updates p numbers values)) ≡ true)
      (fits : entries_fit (environment_updates p numbers values) ≡ true) where
    abbrev updates : Updates
    updates = environment_updates p numbers values

    updated_as :
        update_runtime_settings p numbers body s ≡ update_ended p numbers (update_both p updates s)
    unfolding update_runtime_settings
    updated_as = ap (λ c. update_checked p numbers c s) accepted

    not_empty : is_nil updates ≡ false
    not_empty =
        let (fs, (_, (_, (same_keys, some_key)))) =
          validate_runtime_settings_patch-IsSupported numbers body values accepted in
        updates_not_empty values fs same_keys some_key

    update_ended_failed :
        (r : Files × Outcome (Unit {0})) (e : String)
        → r.1 ≡ thrown e
        → update_ended p numbers r ≡ (r.0, failed e)
    update_ended_failed (files, thrown f) e h = ap (λ x. (files, failed x)) (thrown_same f e h)
    update_ended_failed (files, returned _) e h = cc h

    update_ended_settings :
        (r : Files × Outcome (Unit {0}))
        → r.1 ≡ returned tt
        → update_ended p numbers r ≡ (r.0, settings (read_runtime_settings p numbers r.0))
    update_ended_settings (files, thrown f) h = cc h
    update_ended_settings (files, returned _) h = refl

    -- An update of settings that is accepted, when the file of the project cannot be written: the
    -- error is thrown, and every key but `__proto__` has in the file of the engine the value
    -- that it had before. The file of the engine has a path and can be renamed over, what is
    -- encoded is decoded again, no line of the file ends with a carriage return, and the
    -- names and texts of the settings are distinct and can be written.
    pub update_runtime_settings-undone :
        (k e : String)
        → (k == "__proto__") ≡ false
        → (update_project p updates s.project).1 ≡ thrown e
        → ((update_runtime_settings p numbers body s).1 ≡ failed e)
          × (value_in p (update_runtime_settings p numbers body s).0.runtime k
              ≡ value_in p s.runtime k)
    update_runtime_settings-undone k e named h =
        let (failure, same) =
          update_both-put_back p renames decodes has_path updates s lines distinct fits not_empty k
            e named h in
        let result = updated_as ∙ update_ended_failed (update_both p updates s) e failure in
        (ap (λ r. r.1) result, ap (λ r. value_in p r.0.runtime k) result ∙ same)

    -- An update of settings that is accepted, when both files can be written: the settings that
    -- are returned have for each key of the update its value, as a valid one of the file of
    -- the engine. The file of the engine has a path and can be renamed over, what is encoded
    -- is decoded again, no line of the file ends with a carriage return, the names and texts
    -- of the settings are distinct and can be written, and the language reads the text of a
    -- finite number as that number.
    pub update_runtime_settings-read_runtime_settings :
        (key : String) (v : Setting Real) (m : Option Mutated)
        → IsReadBack numbers
        → map_get key values ≡ some v
        → (update_project p updates s.project).1 ≡ returned m
        → (read : List (String × Resolved numbers)) × (((update_runtime_settings p numbers body s).1
              ≡ settings read)
            × (map_get key read
                ≡ some (record { source = "runtime_config"; value = v; valid = true })))
    unfolding read_runtime_settings
    update_runtime_settings-read_runtime_settings key v m read_back h done =
        let (fs, (_, (supported, _))) =
          validate_runtime_settings_patch-IsSupported numbers body values accepted in
        let setting = IsSupported-of numbers p values key v supported h in
        let d = setting.definition in
        let named = named_found runtime_setting_definitions key d definitions_named setting.found in
        let (ready, kept) =
          update_both-kept p renames decodes has_path updates s lines distinct fits not_empty
            d.env_key m named done in
        let text =
          map_get-environment_updates numbers p values d.env_key key v
            (ap (env_key_of p numbers) setting.found) distinct h in
        let files = (update_both p updates s).0 in
        (
          read_runtime_settings p numbers files,
          (
            ap (λ r. r.1) (updated_as ∙ update_ended_settings (update_both p updates s) ready),
            map_get-resolved_all numbers p runtime_setting_definitions key d
                  (environment_values p p.runtime_path files.runtime)
                  (environment_values p p.project_path files.project) setting.found
                ∙ ap some (
                    resolved_setting-runtime numbers p d v
                      (environment_values p p.runtime_path files.runtime)
                      (environment_values p p.project_path files.project) read_back
                      ((is_of_kind_iff numbers d.kind v).1 setting.of_kind)
                      (ap
                          (λ b. map_get d.env_key (
                            if b
                            then []
                            else parse_environment_text
                                (file_text p.utf8_decode files.runtime.target)))
                          has_path
                        ∙ kept
                        ∙ ap (λ u. overridden u (value_in p s.runtime d.env_key)) text)),
          ),
        )
