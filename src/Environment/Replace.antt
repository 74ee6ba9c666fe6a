-- ===== src/Environment/Replace.antt =====
-- `replaceEnvironmentFile` of backend/src/lib/environmentFile.js: a temporary file that is renamed over
-- the file, or, where the file is mounted and cannot be renamed over, written in place. What the
-- operating system answers is a parameter: the code of the error of a rename, if there is one, and
-- how many bytes a write takes at an offset. The other calls of the file system succeed;
-- a write that throws is left out.
use open_kritt.Prelude.{
  ℕ, zero, suc, ◌+◌, String, not, Option, none, some, List, [], ◌∷◌, length, ltb, nat_eq,
  if◌then◌else◌, includes,
}
use open_kritt.Environment.{Outcome, returned, thrown}

module _ {ℓ} {A : Type ℓ} where
  abbrev pub take : ℕ → List A → List A
  take zero xs = []
  take (suc n) [] = []
  take (suc n) (x ∷ xs) = x ∷ take n xs

  abbrev pub drop : ℕ → List A → List A
  drop zero xs = xs
  drop (suc n) [] = []
  drop (suc n) (x ∷ xs) = drop n xs

-- A write of bytes at a position: what stood there is replaced, and a gap is filled with zeros.
abbrev pub overwrite : ℕ → List ℕ → List ℕ → List ℕ
overwrite at [] file = file
overwrite zero (b ∷ bytes) [] = b ∷ overwrite zero bytes []
overwrite zero (b ∷ bytes) (x ∷ file) = b ∷ overwrite zero bytes file
overwrite (suc at) (b ∷ bytes) [] = 0 ∷ overwrite at (b ∷ bytes) []
overwrite (suc at) (b ∷ bytes) (x ∷ file) = x ∷ overwrite at (b ∷ bytes) file

-- `handle.truncate(n)`
abbrev pub truncate : ℕ → List ℕ → List ℕ
truncate zero file = []
truncate (suc n) [] = 0 ∷ truncate n []
truncate (suc n) (x ∷ file) = x ∷ truncate n file

-- How the loop of writes ends, with the bytes of the file.
pub data WriteEnd : Type 0 where
  all_written : List ℕ → WriteEnd
  stalled : List ℕ → WriteEnd
  out_of_fuel : WriteEnd

pub record File : Type 0 where
  pub bytes : List ℕ
  pub mode : ℕ

-- The environment file, and the temporary file beside it.
pub record Directory : Type 0 where
  pub target : Option File
  pub temporary : Option File

-- 0o600
abbrev pub private_mode : ℕ
private_mode = 384

abbrev pub busy_codes : List String
busy_codes = "EBUSY" ∷ "EXDEV" ∷ "EPERM" ∷ []

module _ (taken : ℕ → ℕ) (buffer : List ℕ) where
  -- The `while` loop from an offset on. Every round but a last one moves the offset, so the length of
  -- the buffer and one more is enough fuel.
  unfoldable pub write_all : ℕ → ℕ → List ℕ → WriteEnd
  write_all zero offset file = out_of_fuel
  write_all (suc fuel) offset file =
      let n = taken offset in
      let now = overwrite offset (take n (drop offset buffer)) file in
      let rest = write_all fuel (offset + n) now in
      if ltb offset (length buffer)
      then (if nat_eq n 0 then stalled now else rest)
      else all_written file

abbrev pub not_persisted : String
not_persisted = "Could not persist the environment file."

-- The end of the writing in place: the temporary file is removed in any case.
abbrev pub written_in_place : List ℕ → File → WriteEnd → Directory × Outcome (Unit {0})
written_in_place buffer file (all_written bytes) = (
  record {
    target = some (record { bytes = truncate (length buffer) bytes; mode = private_mode });
    temporary = none;
  },
  returned tt,
)
written_in_place buffer file (stalled bytes) = (
  record { target = some (record { bytes = bytes; mode = file.mode }); temporary = none },
  thrown not_persisted,
)
written_in_place buffer file out_of_fuel =
    (record { target = some file; temporary = none }, thrown not_persisted)

module _ (taken : ℕ → ℕ) where
  -- `open(filePath, 'r+')` wants the file to be there.
  abbrev pub write_in_place : List ℕ → Option File → Directory × Outcome (Unit {0})
  write_in_place buffer none = (record { target = none; temporary = none }, thrown "ENOENT")
  write_in_place buffer (some file) =
      written_in_place buffer file (write_all taken buffer (suc (length buffer)) 0 file.bytes)

  -- After the rename of the temporary file.
  abbrev pub after_rename : List ℕ → Option File → Option String → Directory × Outcome (Unit {0})
  after_rename buffer target none = (
    record { target = some (record { bytes = buffer; mode = private_mode }); temporary = none },
    returned tt,
  )
  after_rename buffer target (some failure) =
      if not (includes busy_codes failure)
      then (record { target = target; temporary = none }, thrown failure)
      else write_in_place buffer target

  -- `replaceEnvironmentFile`
  unfoldable pub replace_environment_file :
      Option String → List ℕ → Directory → Directory × Outcome (Unit {0})
  replace_environment_file rename_error buffer d = after_rename buffer d.target rename_error
