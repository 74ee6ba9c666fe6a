-- ===== src/Environment/Tests.antt =====
-- Concrete environment files.
use open_kritt.Prelude.{
  ℕ, ◌-◌, ◌≤◌, ◌<◌, min, String, ◌≡◌, refl, Option, none, some, List, [], ◌∷◌, length, map_get,
  arith,
}
use open_kritt.Environment.{parse_environment_text, decode_env_value, returned}
use open_kritt.Environment.Editing.{update_environment_text, editing}
use open_kritt.Environment.Values.{decode_env_value-encode_env_value}
use open_kritt.Environment.Lines.{is_line}
use open_kritt.Environment.View.{overridden}
use open_kritt.Environment.Laws.{update_environment_text-parse_environment_text}
use open_kritt.Environment.Mutate.{previous_of}
use open_kritt.Environment.Undo.{update_environment_text-previous_of}
use open_kritt.Environment.Replace.{write_all, replace_environment_file}
use open_kritt.Environment.Replacing.{IsEnd, write_all-IsEnd, replace_environment_file_lem}

abbrev sample : String
sample = "# settings\r\nexport A = 'x\\'y' \r\nB=\"a\\\"b\\\\\"\r\nA=2"

parses_sample : parse_environment_text sample ≡ ("A", "2") ∷ ("B", "a\"b\\") ∷ []
unfolding editing
parses_sample = refl

updates_sample :
    update_environment_text sample (("A", some "it's") ∷ ("B", none) ∷ ("C", some "1") ∷ [])
    ≡ returned "# settings\r\nA='it\\'s'\r\nC=1\r\n"
unfolding editing
updates_sample = refl

decode_env_value-encode_env_value_example : decode_env_value "'it\\'s \\n'" ≡ "it's \\n"
unfolding editing
decode_env_value-encode_env_value_example =
    decode_env_value-encode_env_value "it's \\n" "'it\\'s \\n'" refl

abbrev sample_updates : List (String × Option String)
sample_updates = ("A", some "it's") ∷ ("B", none) ∷ ("C", some "1") ∷ []

update_environment_text-parse_environment_text_example :
    (new_text : String) × ((update_environment_text sample sample_updates ≡ returned new_text)
      × (map_get "A" (parse_environment_text new_text)
          ≡ overridden (some (some "it's")) (map_get "A" (parse_environment_text sample))))
unfolding editing is_line
update_environment_text-parse_environment_text_example =
    update_environment_text-parse_environment_text sample sample_updates "A" refl refl refl refl

update_environment_text-previous_of_example :
    (new_text : String) × ((update_environment_text sample sample_updates ≡ returned new_text)
      × ((last_text : String) × ((update_environment_text new_text
                (previous_of sample_updates (parse_environment_text sample))
              ≡ returned last_text)
            × (map_get "B" (parse_environment_text last_text)
                ≡ map_get "B" (parse_environment_text sample)))))
unfolding editing is_line
update_environment_text-previous_of_example =
    update_environment_text-previous_of sample sample_updates "B" refl refl refl refl

abbrev three_bytes : List ℕ
three_bytes = 104 ∷ 105 ∷ 10 ∷ []

-- A text that the file system takes two bytes of at a time.
abbrev two_left : ℕ → ℕ
two_left offset = min 2 (3 - offset)

two_left-within : (offset : ℕ) → two_left offset ≤ length three_bytes - offset
two_left-within offset = omega arith

two_left-moves : (offset : ℕ) → offset < length three_bytes → 0 < two_left offset
two_left-moves offset h = omega (arith, h)

replace_environment_file_lem_example :
    replace_environment_file two_left (some "EBUSY") three_bytes (record {
      target = some (record { bytes = 1 ∷ 2 ∷ 3 ∷ 4 ∷ 5 ∷ []; mode = 420 });
      temporary = none;
    })
    ≡ (
      record {
        target = some (record { bytes = 104 ∷ 105 ∷ 10 ∷ []; mode = 384 });
        temporary = none;
      },
      returned tt,
    )
replace_environment_file_lem_example =
    replace_environment_file_lem two_left three_bytes two_left-within two_left-moves (some "EBUSY")
      (record {
        target = some (record { bytes = 1 ∷ 2 ∷ 3 ∷ 4 ∷ 5 ∷ []; mode = 420 });
        temporary = none;
      })

write_all-IsEnd_example :
    IsEnd two_left three_bytes two_left-within (write_all two_left three_bytes 4 0 (1 ∷ 2 ∷ []))
write_all-IsEnd_example =
    write_all-IsEnd two_left three_bytes two_left-within 4 0 (1 ∷ 2 ∷ []) omega arith omega arith
      refl

-- A line separator is written and not read again.
separator_written :
    update_environment_text "" (("A", some "x\u{2028}y") ∷ []) ≡ returned "A='x\u{2028}y'\n"
unfolding editing
separator_written = refl

separator_lost : parse_environment_text "A='x\u{2028}y'\n" ≡ []
unfolding editing
separator_lost = refl
