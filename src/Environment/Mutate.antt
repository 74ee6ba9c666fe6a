-- ===== src/Environment/Mutate.antt =====
-- `mutateEnvironmentFile` and `updateEnvironmentFile` of backend/src/lib/environmentFile.js. The
-- operations are queued, each begins when the one before it has ended, so an operation is a function
-- of the directory. UTF-8 is a parameter.
use open_kritt.Prelude.{
  ℕ, String, Bool, false, not, Option, none, some, List, [], ◌∷◌, ◌==◌, if◌then◌else◌, map_get,
}
use open_kritt.Environment.{Outcome, returned, thrown, parse_environment_text}
use open_kritt.Environment.Editing.{update_environment_text}
use open_kritt.Environment.Replace.{File, Directory, replace_environment_file}

abbrev pub Values : Type 0
Values = List (String × String)

abbrev pub Updates : Type 0
Updates = List (String × Option String)

pub record Mutated : Type 0 where
  pub changed : Bool
  pub previous : Updates
  pub values : Values

-- The values that the keys of the update had, or null.
abbrev pub previous_of : Updates → Values → Updates
previous_of [] values = []
previous_of ((key, _) ∷ entries) values = (key, map_get key values) ∷ previous_of entries values

-- A file that is not there reads as an empty text.
abbrev pub file_text : (List ℕ → String) → Option File → String
file_text utf8_decode none = ""
file_text utf8_decode (some file) = utf8_decode file.bytes

module _ (utf8_encode : String → List ℕ) (utf8_decode : List ℕ → String) (taken : ℕ → ℕ)
    (rename_error : Option String) where
  abbrev pub reported :
      Mutated → Directory × Outcome (Unit {0}) → Directory × Outcome (Option Mutated)
  reported m (d, returned _) = (d, returned (some m))
  reported m (d, thrown e) = (d, thrown e)

  abbrev pub mutated : Updates → String → String → Mutated
  mutated updates text updated = record {
    changed = not (updated == text);
    previous = previous_of updates (parse_environment_text text);
    values = parse_environment_text updated;
  }

  -- `if (updated !== text) await replaceEnvironmentFile(...)`
  abbrev pub store_updated :
      Directory → Updates → String → Outcome String → Directory × Outcome (Option Mutated)
  store_updated d updates text (thrown e) = (d, thrown e)
  store_updated d updates text (returned updated) =
      if not (updated == text)
      then reported (mutated updates text updated)
          (replace_environment_file taken rename_error (utf8_encode updated) d)
      else (d, returned (some (mutated updates text updated)))

  abbrev pub apply_updates :
      Directory → String → Outcome Updates → Directory × Outcome (Option Mutated)
  apply_updates d text (thrown e) = (d, thrown e)
  apply_updates d text (returned []) = (
    d,
    returned
        (some (record { changed = false; previous = []; values = parse_environment_text text })),
  )
  apply_updates d text (returned (u ∷ us)) =
      store_updated d (u ∷ us) text (update_environment_text text (u ∷ us))

  -- `mutateEnvironmentFile`, with the path of the file and what is asked of its values.
  unfoldable pub mutate_environment_file :
      String → (Values → Outcome Updates) → Directory → Directory × Outcome (Option Mutated)
  mutate_environment_file path mutator d =
      let text = file_text utf8_decode d.target in
      if path == ""
      then (d, returned none)
      else apply_updates d text (mutator (parse_environment_text text))

  -- `updateEnvironmentFile`
  unfoldable pub update_environment_file :
      String → Updates → Directory → Directory × Outcome (Option Mutated)
  update_environment_file path updates d = mutate_environment_file path (λ _. returned updates) d
