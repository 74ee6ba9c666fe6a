-- ===== src/Runtime/Tests.antt =====
-- A platform that a program can run on: texts are encoded as the numbers of their characters.
use Prim.Native.Nat.{compare, Ordering}
use Prim.Native.Char.{Char, char, code, IsScalar, nul}
use Prim.Native.String.{[] as nil, ◌∷◌ as cons}
use text.Mathlib.TextEquality.{Char-path}
use open_kritt.Prelude.{
  ℕ, not, and-eq-true, arith, map_get, all, All, String, ◌≡◌, ◌⊎◌, inl, inr, refl, ap, ap₂, true,
  false, Option, none, some, List, [], ◌∷◌, ◌==◌, ltb,
}
use open_kritt.Text.{decimal, decimal_from, digit_text, is_digit, is_digits, all_chars}
use open_kritt.Text.Digits.{decimal-is_digits}
use open_kritt.Value.{Value, object, field, end, number, ok, as_object, keys, Fields}
use open_kritt.Value.Texts.{to_text}
use open_kritt.Scan.{digits_value, digits_from}
use open_kritt.Environment.Editing.{file_lines, editing}
use open_kritt.Environment.Lines.{is_line}
use open_kritt.Environment.Replace.{replace_environment_file}
use open_kritt.Environment.Mutate.{
  Updates, Mutated, mutated, mutate_environment_file, update_environment_file,
}
use open_kritt.Runtime.{
  ℤ, pos, negsuc, integer, Definition, count, live, Numbers, Setting, whole, integer_of,
  runtime_setting_definitions, is_end,
}
use open_kritt.Runtime.Reading.{
  Resolved, validate_runtime_settings_patch, parsed_setting_value, setting_text,
}
use open_kritt.Runtime.ReadBack.{
  IsReadBack, integer_of-int_text, trim-int_text, parsed_setting_value-setting_text,
}
use open_kritt.Runtime.Bounds.{
  IsSupported, setting_keys, validate_runtime_settings_patch-IsSupported,
}
use open_kritt.Runtime.Update.{
  Platform, Files, failed, settings, update_runtime_settings, environment_updates, value_in,
}
use open_kritt.Runtime.Laws.{
  update_runtime_settings-undone, update_runtime_settings-read_runtime_settings,
}

ordering_cases : (o : Ordering) → (o ≡ Ordering.lt) ⊎ ((o ≡ Ordering.eq) ⊎ (o ≡ Ordering.gt))
ordering_cases Ordering.lt = inl refl
ordering_cases Ordering.eq = inr (inl refl)
ordering_cases Ordering.gt = inr (inr refl)

from_surrogates : (n : ℕ) → compare n 55296 ≡ Ordering.eq → IsScalar n ⊎ ¬ (IsScalar n)
from_surrogates n e = elim (ordering_cases (compare 57343 n)) [
  | inl f ↦ elim (ordering_cases (compare n 1114112)) [
    | inl g ↦ inl (rw (e, f, g) tt)
    | inr (inl g) ↦ inr (λ h. rw (e, f, g) at h)
    | inr (inr g) ↦ inr (λ h. rw (e, f, g) at h)
  ]
  | inr (inl f) ↦ inr (λ h. rw (e, f) at h)
  | inr (inr f) ↦ inr (λ h. rw (e, f) at h)
]

above_surrogates : (n : ℕ) → compare n 55296 ≡ Ordering.gt → IsScalar n ⊎ ¬ (IsScalar n)
above_surrogates n e = elim (ordering_cases (compare 57343 n)) [
  | inl f ↦ elim (ordering_cases (compare n 1114112)) [
    | inl g ↦ inl (rw (e, f, g) tt)
    | inr (inl g) ↦ inr (λ h. rw (e, f, g) at h)
    | inr (inr g) ↦ inr (λ h. rw (e, f, g) at h)
  ]
  | inr (inl f) ↦ inr (λ h. rw (e, f) at h)
  | inr (inr f) ↦ inr (λ h. rw (e, f) at h)
]

-- Whether a number is that of a character.
is_scalar : (n : ℕ) → IsScalar n ⊎ ¬ (IsScalar n)
is_scalar n = elim (ordering_cases (compare n 55296)) [
  | inl e ↦ inl (rw e tt)
  | inr (inl e) ↦ from_surrogates n e
  | inr (inr e) ↦ above_surrogates n e
]

char_if : (n : ℕ) → IsScalar n ⊎ ¬ (IsScalar n) → Char
char_if n (inl p) = char n p
char_if n (inr _) = nul

code-char_if :
    (c : Char) (d : IsScalar (code c) ⊎ ¬ (IsScalar (code c))) → code (char_if (code c) d) ≡ code c
unfolding char_if
code-char_if c (inl p) = refl
code-char_if (char n p) (inr q) = elim (q p) [ ]

encode : String → List ℕ
encode nil = []
encode (cons c s) = code c ∷ encode s

decode : List ℕ → String
decode [] = ""
decode (n ∷ ns) = cons (char_if n (is_scalar n)) (decode ns)

decode-encode : (s : String) → decode (encode s) ≡ s
unfolding encode decode
decode-encode nil = refl
decode-encode (cons c s) =
    ap₂ cons (Char-path _ c (code-char_if c (is_scalar (code c)))) (decode-encode s)

abbrev integer_count : Option ℤ → Option ℕ
integer_count none = none
integer_count (some (pos n)) = some n
integer_count (some (negsuc n)) = none

-- Counts in place of the numbers of the language.
abbrev counts : Numbers ℕ
counts = record {
  of_count = λ n. n;
  less = ltb;
  read = λ s. integer_count (integer_of s);
  print = decimal;
}

decimal-not_empty : (n : ℕ) → (decimal n == "") ≡ false
unfolding is_digits
decimal-not_empty n =
    let h =
      (and-eq-true (not (decimal n == "")) (all_chars is_digit (decimal n))
        (decimal-is_digits n)).0 in
    ground (arith, h)

counts-IsReadBack : IsReadBack counts
counts-IsReadBack n =
    (ap integer_count (integer_of-int_text (pos n)), (trim-int_text (pos n), decimal-not_empty n))

abbrev platform : Option String → Platform
platform project_error = record {
  runtime_path = "/engine-data/engine-runtime.env";
  project_path = "/project/.env";
  env = [];
  utf8_encode = encode;
  utf8_decode = decode;
  taken = λ _. 1;
  runtime_rename_error = none;
  project_rename_error = project_error;
}

abbrev engine_text : String
engine_text = "# engine\nENGINE_WORKER_COUNT=2\n"

abbrev files : Files
files = record {
  runtime = record {
    target = some (record { bytes = encode engine_text; mode = 384 });
    temporary = none;
  };
  project = record { target = none; temporary = none };
}

abbrev body : Value
body = object (field "workerCount" (number 4) end)

abbrev values : List (String × Setting ℕ)
values = ("workerCount", whole (pos 4)) ∷ []

body_accepted : validate_runtime_settings_patch counts body ≡ ok values
unfolding validate_runtime_settings_patch runtime_setting_definitions integer_of is_digits all_chars
    digits_value digits_from editing decimal decimal_from digit_text to_text
body_accepted = refl

engine_lines : all is_line (file_lines (decode (encode engine_text))) ≡ true
unfolding editing is_line
engine_lines = ap (λ t. all is_line (file_lines t)) (decode-encode engine_text)

abbrev updates : Updates
updates = ("ENGINE_WORKER_COUNT", some "4") ∷ []

updates_of_values : environment_updates (platform (some "EACCES")) counts values ≡ updates
unfolding runtime_setting_definitions decimal decimal_from digit_text
updates_of_values = refl

abbrev project_report : Mutated
project_report = mutated encode decode (λ _. 1) none updates "" "ENGINE_WORKER_COUNT=4\n"

update_runtime_settings-undone_example :
    ((update_runtime_settings (platform (some "EACCES")) counts body files).1 ≡ failed "EACCES")
    × (value_in
          (platform (some "EACCES"))
          (update_runtime_settings (platform (some "EACCES")) counts body files).0.runtime
          "ENGINE_WORKER_COUNT"
        ≡ value_in (platform (some "EACCES")) files.runtime "ENGINE_WORKER_COUNT")
unfolding editing runtime_setting_definitions decimal decimal_from digit_text
    update_environment_file mutate_environment_file replace_environment_file
update_runtime_settings-undone_example =
    update_runtime_settings-undone counts (platform (some "EACCES")) refl decode-encode refl body
      values body_accepted files engine_lines refl refl "ENGINE_WORKER_COUNT" "EACCES" refl refl

update_runtime_settings-read_runtime_settings_example :
    (read : List (String × Resolved counts)) × (((update_runtime_settings
          (platform none)
          counts
          body
          files).1
        ≡ settings read)
      × (map_get "workerCount" read
          ≡ some (record { source = "runtime_config"; value = whole (pos 4); valid = true })))
unfolding editing runtime_setting_definitions decimal decimal_from digit_text
    update_environment_file mutate_environment_file replace_environment_file
update_runtime_settings-read_runtime_settings_example =
    update_runtime_settings-read_runtime_settings counts (platform none) refl decode-encode refl
      body values body_accepted files engine_lines refl refl "workerCount" (whole (pos 4))
      (some project_report) counts-IsReadBack refl refl

validate_runtime_settings_patch-IsSupported_example :
    (fs : Fields) × ((as_object body ≡ some fs)
      × (All (IsSupported counts) values
          × ((setting_keys counts values ≡ keys fs) × (is_end fs ≡ false))))
validate_runtime_settings_patch-IsSupported_example =
    validate_runtime_settings_patch-IsSupported counts body values body_accepted

abbrev oom_score : Definition
oom_score = record {
  env_key = "ENGINE_SCAN_RUNNER_OOM_SCORE_ADJ";
  kind = integer (negsuc 999) (pos 1000);
  default_value = count 500;
  step = none;
  recommended_max = none;
  apply = live;
}

parsed_setting_value-setting_text_example :
    parsed_setting_value counts (some (setting_text counts (whole (negsuc 499)))) oom_score
    ≡ (whole (negsuc 499), true)
parsed_setting_value-setting_text_example =
    parsed_setting_value-setting_text counts counts-IsReadBack oom_score (whole (negsuc 499)) refl
