-- ===== src/Runtime/Update.antt =====
-- `updateRuntimeSettings` and `readRuntimeSettings` of backend/src/lib/runtimeSettings.js over the two
-- environment files: that of the engine and that of the project. The time of the reading is left
-- out, with the parts of the answer that never change.
use open_kritt.Prelude.{ℕ, String, Option, none, some, List, [], ◌∷◌, ◌==◌, if◌then◌else◌, map_get}
use open_kritt.Value.{Value, FieldError, Checked, ok, invalid}
use open_kritt.Environment.{Outcome, returned, thrown, parse_environment_text}
use open_kritt.Environment.Replace.{Directory}
use open_kritt.Environment.Mutate.{Values, Updates, Mutated, file_text, update_environment_file}
use open_kritt.Runtime.{Definition, Setting, Numbers, runtime_setting_definitions}
use open_kritt.Runtime.Reading.{
  Resolved, resolved_setting, setting_text, validate_runtime_settings_patch,
}

pub record Files : Type 0 where
  pub runtime : Directory
  pub project : Directory

-- The paths of the files, `process.env`, and what the file system and the codec answer.
pub record Platform : Type 0 where
  pub runtime_path : String
  pub project_path : String
  pub env : Values
  pub utf8_encode : String → List ℕ
  pub utf8_decode : List ℕ → String
  pub taken : ℕ → ℕ
  pub runtime_rename_error : Option String
  pub project_rename_error : Option String

module _ (p : Platform) where
  abbrev pub update_runtime : Updates → Directory → Directory × Outcome (Option Mutated)
  update_runtime updates d =
      update_environment_file p.utf8_encode p.utf8_decode p.taken p.runtime_rename_error
        p.runtime_path updates d

  abbrev pub update_project : Updates → Directory → Directory × Outcome (Option Mutated)
  update_project updates d =
      update_environment_file p.utf8_encode p.utf8_decode p.taken p.project_rename_error
        p.project_path updates d

  -- `if (runtimeUpdate?.changed) await updateEnvironmentFile(runtimeUpdate.previous, ...).catch(...)`
  abbrev pub roll_back : Option Mutated → Directory → Directory
  roll_back none d = d
  roll_back (some m) d = if m.changed then (update_runtime m.previous d).0 else d

  abbrev pub after_project :
      Option Mutated → Directory → Directory × Outcome (Option Mutated) → Files × Outcome (Unit {0})
  after_project m runtime (project, thrown e) =
      (record { runtime = roll_back m runtime; project = project }, thrown e)
  after_project m runtime (project, returned _) =
      (record { runtime = runtime; project = project }, returned tt)

  abbrev pub after_runtime :
      Updates → Directory → Directory × Outcome (Option Mutated) → Files × Outcome (Unit {0})
  after_runtime updates project (runtime, thrown e) =
      (record { runtime = runtime; project = project }, thrown e)
  after_runtime updates project (runtime, returned m) =
      after_project m runtime (update_project updates project)

  -- Both files, with the first put back where the second fails.
  unfoldable pub update_both : Updates → Files → Files × Outcome (Unit {0})
  update_both updates s = after_runtime updates s.project (update_runtime updates s.runtime)

  -- The value of a key in a file.
  abbrev pub value_in : Directory → String → Option String
  value_in d k = map_get k (parse_environment_text (file_text p.utf8_decode d.target))

  -- `environmentValues`
  abbrev pub environment_values : String → Directory → Values
  environment_values path d =
      if path == "" then [] else parse_environment_text (file_text p.utf8_decode d.target)

  module _ {Real : Type 0} (numbers : Numbers Real) where
    -- How an update ends: its body is refused, a file fails, or the settings are read again.
    pub data UpdateEnd : Type 0 where
      refused : List FieldError → UpdateEnd
      failed : String → UpdateEnd
      settings : List (String × Resolved numbers) → UpdateEnd

    abbrev pub resolved_all :
        List (String × Definition) → Values → Values → List (String × Resolved numbers)
    resolved_all [] runtime project = []
    resolved_all ((key, d) ∷ ds) runtime project =
        (key, resolved_setting numbers d runtime project p.env) ∷ resolved_all ds runtime project

    -- `readRuntimeSettings`
    unfoldable pub read_runtime_settings : Files → List (String × Resolved numbers)
    read_runtime_settings s =
        resolved_all runtime_setting_definitions (environment_values p.runtime_path s.runtime)
          (environment_values p.project_path s.project)

    -- `RUNTIME_SETTING_DEFINITIONS[key].envKey`, of a key that was accepted.
    abbrev pub env_key_of : Option Definition → String
    env_key_of none = "undefined"
    env_key_of (some d) = d.env_key

    -- `environmentUpdates`
    abbrev pub environment_updates : List (String × Setting Real) → Updates
    environment_updates [] = []
    environment_updates ((key, v) ∷ entries) =
        (env_key_of (map_get key runtime_setting_definitions), some (setting_text numbers v))
        ∷ environment_updates entries

    abbrev pub update_ended : Files × Outcome (Unit {0}) → Files × UpdateEnd
    update_ended (s, thrown e) = (s, failed e)
    update_ended (s, returned _) = (s, settings (read_runtime_settings s))

    abbrev pub update_checked : Checked (List (String × Setting Real)) → Files → Files × UpdateEnd
    update_checked (invalid es) s = (s, refused es)
    update_checked (ok values) s = update_ended (update_both (environment_updates values) s)

    -- `updateRuntimeSettings`
    unfoldable pub update_runtime_settings : Value → Files → Files × UpdateEnd
    update_runtime_settings body s = update_checked (validate_runtime_settings_patch numbers body) s
