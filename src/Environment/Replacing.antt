-- ===== src/Environment/Replacing.antt =====
-- The loop that writes a file in place ends, and the file has the bytes then.
use open_kritt.Prelude.{
  ℕ, zero, suc, ◌+◌, ◌-◌, ◌≤◌, ◌<◌, String, ◌≡◌, refl, sym, ap, ap₂, ◌∙◌, subst, Bool, true, false,
  not, Option, none, some, List, [], ◌∷◌, length, ltb, nat_eq, if◌then◌else◌, includes, arith,
}
use open_kritt.Environment.{returned, thrown}
use open_kritt.Environment.Replace.{
  take, drop, overwrite, truncate, WriteEnd, all_written, stalled, out_of_fuel, write_all, File,
  Directory, private_mode, busy_codes, written_in_place, write_in_place, replace_environment_file,
}

take-overwrite_start :
    (n : ℕ) (buffer file : List ℕ)
    → n ≤ length buffer
    → take n (overwrite 0 (take n buffer) file) ≡ take n buffer
take-overwrite_start zero buffer file l = refl
take-overwrite_start (suc n) [] file l = let none_left : ⊥ = omega (arith, l) in elim none_left [ ]
take-overwrite_start (suc n) (b ∷ buffer) [] l =
    ap (λ r. b ∷ r) (take-overwrite_start n buffer [] omega (arith, l))
take-overwrite_start (suc n) (b ∷ buffer) (x ∷ file) l =
    ap (λ r. b ∷ r) (take-overwrite_start n buffer file omega (arith, l))

overwrite-nil : (at : ℕ) (file : List ℕ) → overwrite at [] file ≡ file
overwrite-nil at file = refl

same_head : {x b : ℕ} {xs bs : List ℕ} → x ∷ xs ≡ b ∷ bs → x ≡ b
same_head e = cc

same_tail : {x b : ℕ} {xs bs : List ℕ} → x ∷ xs ≡ b ∷ bs → xs ≡ bs
same_tail e = cc

overwrite_onto :
    (at x : ℕ) (data_in file : List ℕ)
    → overwrite (suc at) data_in (x ∷ file) ≡ x ∷ overwrite at data_in file
overwrite_onto at x [] file = refl
overwrite_onto at x (b ∷ bytes) file = refl

-- A file that agrees with the buffer up to an offset agrees with it up to where a write ends.
take-overwrite :
    (offset n : ℕ) (buffer file : List ℕ)
    → n ≤ length buffer - offset
    → offset ≤ length buffer
    → take offset file ≡ take offset buffer
    → take (offset + n) (overwrite offset (take n (drop offset buffer)) file)
      ≡ take (offset + n) buffer
take-overwrite zero n buffer file l k h =
    let m : n ≡ 0 + n = omega arith in
    subst (λ m. take m (overwrite 0 (take n buffer) file) ≡ take m buffer) m
      (take-overwrite_start n buffer file omega (arith, l))
take-overwrite (suc offset) n [] file l k h =
    let none_left : ⊥ = omega (arith, k) in elim none_left [ ]
take-overwrite (suc offset) n (b ∷ buffer) [] l k h = cc h
take-overwrite (suc offset) n (b ∷ buffer) (x ∷ file) l k h =
    let m : suc (offset + n) ≡ suc offset + n = omega arith in
    let data_in = take n (drop offset buffer) in
    subst (λ m. take m (overwrite (suc offset) data_in (x ∷ file)) ≡ take m (b ∷ buffer)) m
      (ap (take (suc (offset + n))) (overwrite_onto offset x data_in file)
        ∙ ap₂ ◌∷◌ (same_head h)
            (take-overwrite offset n buffer file omega (arith, l) omega (arith, k) (same_tail h)))

truncate_agreeing :
    (buffer file : List ℕ)
    → take (length buffer) file ≡ take (length buffer) buffer
    → truncate (length buffer) file ≡ buffer
truncate_agreeing [] file h = refl
truncate_agreeing (b ∷ buffer) [] h = cc h
truncate_agreeing (b ∷ buffer) (x ∷ file) h =
    ap₂ ◌∷◌ (same_head h) (truncate_agreeing buffer file (same_tail h))

module _ (taken : ℕ → ℕ) (buffer : List ℕ)
    (within : (offset : ℕ) → taken offset ≤ length buffer - offset) where
  -- The loop has ended with a file that agrees with the buffer, where every write takes something.
  abbrev pub IsEnd : WriteEnd → Type 0
  IsEnd (all_written file) = take (length buffer) file ≡ take (length buffer) buffer
  IsEnd (stalled file) = (offset : ℕ) × ((offset < length buffer) × (taken offset ≡ 0))
  IsEnd out_of_fuel = ⊥

  IsEnd-if :
      (a b : Bool) (offset : ℕ) (file now : List ℕ) (rest : WriteEnd)
      → (a ≡ false → IsEnd (all_written file))
      → (a ≡ true → b ≡ true → (offset < length buffer) × (taken offset ≡ 0))
      → (a ≡ true → b ≡ false → IsEnd rest)
      → IsEnd (if a then (if b then stalled now else rest) else all_written file)
  IsEnd-if true true offset file now rest f g h = (offset, g refl refl)
  IsEnd-if true false offset file now rest f g h = h refl refl
  IsEnd-if false b offset file now rest f g h = f refl

  -- With more fuel than there are bytes left from an offset on, and a file that agrees with the buffer
  -- up to the offset, the loop of writes ends before the fuel does, when no write takes more than what
  -- is left. Either all is written, and the file agrees with the buffer up to its length, or a write
  -- took nothing.
  pub write_all-IsEnd :
      (fuel offset : ℕ) (file : List ℕ)
      → length buffer < fuel + offset
      → offset ≤ length buffer
      → take offset file ≡ take offset buffer
      → IsEnd (write_all taken buffer fuel offset file)
  unfolding write_all
  write_all-IsEnd zero offset file enough l h =
      let none_left : ⊥ = omega (arith, enough, l) in elim none_left [ ]
  write_all-IsEnd (suc fuel) offset file enough l h =
      let n = taken offset in
      let now = overwrite offset (take n (drop offset buffer)) file in
      IsEnd-if (ltb offset (length buffer)) (nat_eq n 0) offset file now
        (write_all taken buffer fuel (offset + n) now)
        (λ a.
          let same : offset ≡ length buffer = ground (arith, a, l) in
          subst (λ m. take m file ≡ take m buffer) same h)
        (λ a b. (ground (arith, a), ground (arith, b)))
        (λ a b.
          let more : 0 < n = ground (arith, b) in
          let bound = within offset in
          write_all-IsEnd fuel (offset + n) now omega (arith, enough, more) omega (arith, bound, l)
            (take-overwrite offset n buffer file bound l h))

  -- A directory with the new file, and without a temporary one.
  abbrev pub replaced_by : Directory
  replaced_by = record {
    target = some (record { bytes = buffer; mode = private_mode });
    temporary = none;
  }

  module _ (moves : (offset : ℕ) → offset < length buffer → 0 < taken offset) where
    written_in_place-replaced_by :
        (file : File) (e : WriteEnd)
        → IsEnd e
        → written_in_place buffer file e ≡ (replaced_by, returned tt)
    written_in_place-replaced_by file (all_written bytes) h =
        ap
          (λ b. (
            record { target = some (record { bytes = b; mode = private_mode }); temporary = none },
            returned tt,
          ))
          (truncate_agreeing buffer bytes h)
    written_in_place-replaced_by file (stalled bytes) (offset, (below, none_taken)) =
        let some_taken = moves offset below in
        let none_left : ⊥ = omega (arith, some_taken, none_taken) in elim none_left [ ]
    written_in_place-replaced_by file out_of_fuel h = elim h [ ]

    -- Whether a file is replaced: it is renamed over, or there is a file to write into.
    abbrev pub can_replace : Option String → Option File → Bool
    can_replace none target = true
    can_replace (some failure) none = false
    can_replace (some failure) (some file) = includes busy_codes failure

    abbrev pub failure_of : Option String → Option File → String
    failure_of none target = ""
    failure_of (some failure) target = if includes busy_codes failure then "ENOENT" else failure

    replaced_if_busy :
        (b : Bool) (failure : String) (target : Option File)
        → includes busy_codes failure ≡ b
        → (if not b
            then (record { target = target; temporary = none }, thrown failure)
            else write_in_place taken buffer target)
          ≡ (if can_replace (some failure) target then (replaced_by, returned tt) else (
            record { target = target; temporary = none },
            thrown (failure_of (some failure) target),
          ))
    replaced_if_busy false failure none e =
        ap
          (λ b.
            (record { target = none; temporary = none }, thrown (if b then "ENOENT" else failure)))
          (sym e)
    replaced_if_busy false failure (some file) e =
        ap
          (λ b. if b then (replaced_by, returned tt) else (
            record { target = some file; temporary = none },
            thrown (if b then "ENOENT" else failure),
          ))
          (sym e)
    replaced_if_busy true failure none e =
        ap
          (λ b.
            (record { target = none; temporary = none }, thrown (if b then "ENOENT" else failure)))
          (sym e)
    replaced_if_busy true failure (some file) e =
        written_in_place-replaced_by file
          (write_all taken buffer (suc (length buffer)) 0 file.bytes)
          (write_all-IsEnd (suc (length buffer)) 0 file.bytes omega arith omega arith refl)
        ∙ ap
            (λ b. if b then (replaced_by, returned tt) else (
              record { target = some file; temporary = none },
              thrown (if b then "ENOENT" else failure),
            ))
            (sym e)

    -- When writes take some but not more than what is left, `replaceEnvironmentFile` comes to its end.
    -- The file has the new bytes and is private, where the temporary file can be renamed over it or the
    -- error of the rename says that it is busy and it is there to be written in place. Otherwise the
    -- file is as it was, and the error is thrown. The temporary file is gone in each case.
    pub replace_environment_file_lem :
        (rename_error : Option String) (d : Directory)
        → replace_environment_file taken rename_error buffer d ≡ (
            if can_replace rename_error d.target then (replaced_by, returned tt) else (
              record { target = d.target; temporary = none },
              thrown (failure_of rename_error d.target),
            ))
    unfolding replace_environment_file
    replace_environment_file_lem none d = refl
    replace_environment_file_lem (some failure) d =
        replaced_if_busy (includes busy_codes failure) failure d.target refl
