-- ===== src/Environment.antt =====
-- Environment files: `parseEnvironmentText` and `updateEnvironmentText` of
-- backend/src/lib/environmentFile.js, with what they read of a line and write of a value. An
-- object of values is the list of its entries; a value that an update removes is `none`.
mod Tests
mod Values
pub mod Mutate
pub mod Undo
mod Decoded
pub mod Replace
mod Replacing
pub mod Editing
mod Rewritten
pub mod Adding
pub mod Laws
pub mod Rewriting
pub mod View
mod Entries
pub mod Lines
use Prim.Native.Char.{Char, char, code}
use Prim.Native.String.{[] as nil, ◌∷◌ as cons}
use Prim.Native.String
use open_kritt.Prelude.{
  ℕ, String, Bool, true, false, not, ◌&&◌, ◌||◌, Option, none, some, List, [], ◌∷◌, ◌++◌, leb,
  nat_eq, ◌==◌, if◌then◌else◌, includes, map_get, map_set,
}
use open_kritt.Text.{
  concat, trim, trim_start, trim_end, all_chars, is_name_start, is_name_char, is_space,
  is_identifier, strip_prefix,
}

-- A result, or a thrown error with its message.
pub data Outcome {ℓ} (A : Type ℓ) : Type ℓ where
  returned : A → Outcome A
  thrown : String → Outcome A

abbrev pub and_then {ℓ κ} : {A : Type ℓ} {B : Type κ} → Outcome A → (A → Outcome B) → Outcome B
and_then (returned a) f = f a
and_then (thrown e) f = thrown e

abbrev pub is_lf : Char → Bool
is_lf c = nat_eq (code c) 10

abbrev pub is_cr : Char → Bool
is_cr c = nat_eq (code c) 13

abbrev pub starts_lf : String → Bool
starts_lf nil = false
starts_lf (cons c s) = is_lf c

abbrev pub onto_first : Char → List String → List String
onto_first c [] = cons c nil ∷ []
onto_first c (l ∷ ls) = cons c l ∷ ls

-- `text.split(/\r?\n/)`
unfoldable pub split_lines : String → List String
split_lines nil = "" ∷ []
split_lines (cons c s) =
    let rest = split_lines s in
    if is_lf c then "" ∷ rest else if is_cr c && starts_lf s then rest else onto_first c rest

-- A name and what follows it.
abbrev pub onto_name : Char → String × String → String × String
onto_name c (name, rest) = (cons c name, rest)

-- The longest beginning of `[A-Za-z0-9_]*`, and the rest.
unfoldable pub name_and_rest : String → String × String
name_and_rest nil = ("", "")
name_and_rest (cons c s) =
    let more = name_and_rest s in if is_name_char c then onto_name c more else ("", cons c s)

-- `\s*=` and the rest of the text after it.
abbrev pub after_equals : String → Option String
after_equals nil = none
after_equals (cons c s) = if nat_eq (code c) b'=' then some s else none

abbrev pub with_name : String → Option String → Option (String × String)
with_name name none = none
with_name name (some rest) = some (name, rest)

-- `([A-Za-z_][A-Za-z0-9_]*)\s*=` at the start of a text: the key, and the text that is left.
unfoldable pub assignment : String → Option (String × String)
assignment nil = none
assignment (cons c s) =
    let (name, rest) = name_and_rest (cons c s) in
    if is_name_start c then with_name name (after_equals (trim_start rest)) else none

-- `\s+` and the text after it.
abbrev pub after_space : Option String → Option String
after_space none = none
after_space (some nil) = none
after_space (some (cons c s)) = if is_space c then some (trim_start s) else none

abbrev pub assignment_in : Option String → Option (String × String)
assignment_in none = none
assignment_in (some s) = assignment s

abbrev pub or_else {ℓ} : {A : Type ℓ} → Option A → Option A → Option A
or_else none b = b
or_else (some a) b = some a

-- `/^\s*(?:export\s+)?([A-Za-z_][A-Za-z0-9_]*)\s*=/`. With and without `export` the text before
-- the sign has two words and one, so at most one of the readings applies.
unfoldable pub assigned : String → Option (String × String)
assigned line =
    let text = trim_start line in
    or_else (assignment text) (assignment_in (after_space (strip_prefix text "export")))

-- What `.` of a regular expression does not match.
abbrev pub is_terminator : Char → Bool
is_terminator c = is_lf c || (is_cr c || (nat_eq (code c) 0x2028 || nat_eq (code c) 0x2029))

-- The characters before a last one `q`, if the text ends with it.
unfoldable pub strip_last : ℕ → String → Option String
strip_last q nil = none
strip_last q (cons c nil) = if nat_eq (code c) q then some "" else none
strip_last q (cons c s) = elim (strip_last q s) [ none ↦ none | some t ↦ some (cons c t) ]

-- What stands between two quotes `q`.
abbrev pub between : ℕ → String → Option String
between q nil = none
between q (cons c s) = if nat_eq (code c) q then strip_last q s else none

abbrev pub backslash : Char
backslash = char 92 tt

-- A character is read: what is written, and whether it is a backslash that waits for the next one.
abbrev pub unescape_char : (Char → Bool) → Bool → Char → (String → String) × Bool
unescape_char p true c =
    if p c
    then (cons c, false)
    else if nat_eq (code c) 92
    then (cons backslash, true)
    else ((λ (s : String). cons backslash (cons c s)), false)
unescape_char p false c =
    if nat_eq (code c) 92 then ((λ (s : String). s), true) else (cons c, false)

-- `replace(/\\([p])/g, '$1')`, where a backslash may wait.
unfoldable pub unescape : (Char → Bool) → Bool → String → String
unescape p true nil = "\\"
unescape p false nil = ""
unescape p waiting (cons c s) =
    let (write, waits) = unescape_char p waiting c in write (unescape p waits s)

abbrev pub is_single_quote : Char → Bool
is_single_quote c = nat_eq (code c) 39

-- The characters that a backslash escapes in a value between double quotes.
abbrev pub is_double_escaped : Char → Bool
is_double_escaped c =
    nat_eq (code c) 34 || (nat_eq (code c) 92 || (nat_eq (code c) 36 || nat_eq (code c) 96))

abbrev pub unquoted_double : String → Option String → String
unquoted_double value (some inner) = unescape is_double_escaped false inner
unquoted_double value none = value

abbrev pub unquoted : String → Option String → String
unquoted value (some inner) = unescape is_single_quote false inner
unquoted value none = unquoted_double value (between 34 value)

-- `decodeEnvValue`
unfoldable pub decode_env_value : String → String
decode_env_value raw = let value = trim raw in unquoted value (between 39 value)

-- `values[key] = value`, where the prototype is not replaced by a text.
unfoldable pub set_value : String → String → List (String × String) → List (String × String)
set_value key value values = if key == "__proto__" then values else map_set key value values

-- `(.*)$` after the assignment.
abbrev pub to_line_end : Option (String × String) → Option (String × String)
to_line_end none = none
to_line_end (some (key, raw)) =
    if all_chars (λ c. not (is_terminator c)) raw then some (key, raw) else none

abbrev pub set_matched : Option (String × String) → List (String × String) → List (String × String)
set_matched none values = values
set_matched (some (key, raw)) values = set_value key (decode_env_value raw) values

unfoldable pub parse_lines : List String → List (String × String) → List (String × String)
parse_lines [] values = values
parse_lines (l ∷ ls) values = parse_lines ls (set_matched (to_line_end (assigned l)) values)

-- `parseEnvironmentText`
unfoldable pub parse_environment_text : String → List (String × String)
parse_environment_text text = parse_lines (split_lines text) []
