-- ===== src/Environment/Editing.antt =====
-- Writing: `encodeEnvValue` and `updateEnvironmentText` of backend/src/lib/environmentFile.js.
use Prim.Native.Char.{Char, code}
use Prim.Native.String.{[] as nil, ◌∷◌ as cons}
use Prim.Native.String
use open_kritt.Prelude.{
  String, Bool, true, false, not, ◌&&◌, ◌||◌, Option, none, some, List, [], ◌∷◌, ◌++◌, nat_eq, ◌==◌,
  if◌then◌else◌, includes, map_get, map_set,
}
use open_kritt.Text.{
  concat, trim, trim_start, trim_end, all_chars, is_name_char, is_identifier, strip_prefix,
}
use open_kritt.Environment.{
  Outcome, and_then, assigned, assignment, backslash, decode_env_value, is_cr, is_lf,
  is_single_quote, name_and_rest, parse_environment_text, parse_lines, returned, set_value,
  split_lines, starts_lf, strip_last, thrown, unescape,
}

-- [A-Za-z0-9_./,:@+-]
abbrev pub is_plain : Char → Bool
is_plain c =
    is_name_char c
    || (nat_eq (code c) b'.'
        || (nat_eq (code c) b'/'
            || (nat_eq (code c) b','
                || (nat_eq (code c) b':'
                    || (nat_eq (code c) b'@' || (nat_eq (code c) b'+' || nat_eq (code c) b'-'))))))

-- `replace(/'/g, "\\'")`
unfoldable pub escape_quotes : String → String
escape_quotes nil = ""
escape_quotes (cons c s) =
    let rest = escape_quotes s in
    if is_single_quote c then cons backslash (cons c rest) else cons c rest

-- `encodeEnvValue` of a text
unfoldable pub encode_env_value : String → Outcome String
encode_env_value value =
    if not (all_chars (λ c. not (is_cr c || is_lf c)) value)
    then thrown "Environment values must be a single line."
    else if value == ""
    then returned ""
    else if all_chars is_plain value
    then returned value
    else returned (concat ("'" ∷ escape_quotes value ∷ "'" ∷ []))

-- `${key}=${encodeEnvValue(value)}`
abbrev pub entry_line : String → String → Outcome String
entry_line key value =
    and_then (encode_env_value value) (λ e. returned (concat (key ∷ "=" ∷ e ∷ [])))

-- The lines of an update that are written so far, and the keys that were met.
abbrev pub Written : Type 0
Written = List String × List String

abbrev pub onto_lines : String → Written → Written
onto_lines l (lines, seen) = (l ∷ lines, seen)

-- `if (!seen.has(key) && value !== null) updated.push(...)`
abbrev pub written_entry : List String → String → Option String → Outcome (List String)
written_entry seen key none = returned []
written_entry seen key (some value) =
    if includes seen key
    then returned []
    else and_then (entry_line key value) (λ l. returned (l ∷ []))

abbrev pub add_lines : List String → Outcome Written → Outcome Written
add_lines lines rest = and_then rest (λ (more, seen). returned (lines ++ more, seen))

-- What one line becomes, with the keys that are met then.
abbrev pub rewrite_match :
    List (String × Option String)
    → List String
    → String
    → Option (String × String)
    → Outcome Written
rewrite_match updates seen line none = returned (line ∷ [], seen)
rewrite_match updates seen line (some (key, _)) = elim (map_get key updates) [
  | none ↦ returned (line ∷ [], seen)
  | some value ↦ and_then (written_entry seen key value) (λ ls. returned (ls, key ∷ seen))
]

-- The loop over the lines of the file.
unfoldable pub rewrite_lines :
    List (String × Option String) → List String → List String → Outcome Written
rewrite_lines updates seen [] = returned ([], seen)
rewrite_lines updates seen (l ∷ ls) =
    and_then (rewrite_match updates seen l (assigned l))
      (λ (lines, now). add_lines lines (rewrite_lines updates now ls))

-- The loop over the entries of the update.
unfoldable pub new_lines : List String → List (String × Option String) → Outcome (List String)
new_lines seen [] = returned []
new_lines seen ((key, value) ∷ entries) =
    if not (is_identifier key)
    then thrown (concat ("Invalid environment key: " ∷ key ∷ []))
    else and_then (written_entry seen key value)
        (λ ls. and_then (new_lines seen entries) (λ more. returned (ls ++ more)))

-- `text.endsWith('\n')`
unfoldable pub ends_lf : String → Bool
ends_lf nil = false
ends_lf (cons c nil) = is_lf c
ends_lf (cons c s) = ends_lf s

-- `text.includes('\r\n')`
unfoldable pub has_crlf : String → Bool
has_crlf nil = false
has_crlf (cons c s) = is_cr c && starts_lf s || has_crlf s

-- `lines.pop()`
abbrev pub pop_last : List String → List String
pop_last [] = []
pop_last (l ∷ []) = []
pop_last (l ∷ ls) = l ∷ pop_last ls

-- The lines of a text, without the empty one after a last line feed.
unfoldable pub file_lines : String → List String
file_lines text =
    let lines = if text == "" then [] else split_lines text in
    if ends_lf text then pop_last lines else lines

-- `lines.join(newline)`
unfoldable pub join_lines : String → List String → String
join_lines newline [] = ""
join_lines newline (l ∷ []) = l
join_lines newline (l ∷ ls) = concat (l ∷ newline ∷ join_lines newline ls ∷ [])

abbrev pub is_nil {ℓ} : {A : Type ℓ} → List A → Bool
is_nil [] = true
is_nil (x ∷ xs) = false

abbrev pub newline_of : String → String
newline_of text = if has_crlf text then "\r\n" else "\n"

abbrev pub updated_text : String → List String → String
updated_text text updated =
    let newline = newline_of text in
    String.◌++◌ (join_lines newline updated)
      (if ends_lf text || not (is_nil updated) then newline else "")

abbrev pub updated_lines : List String → List (String × Option String) → Outcome (List String)
updated_lines lines updates =
    and_then (rewrite_lines updates [] lines)
      (λ (kept, seen). and_then (new_lines seen updates) (λ more. returned (kept ++ more)))

-- `updateEnvironmentText`
unfoldable pub update_environment_text : String → List (String × Option String) → Outcome String
update_environment_text text updates =
    and_then (updated_lines (file_lines text) updates) (λ lines. returned (updated_text text lines))

-- All that reads and writes the text of a file, for computing with it.
unfoldable pub editing : Unit {0}
unfolding split_lines name_and_rest assignment assigned strip_last unescape decode_env_value
    set_value parse_lines parse_environment_text escape_quotes encode_env_value rewrite_lines
    new_lines ends_lf has_crlf file_lines join_lines update_environment_text trim trim_start
    trim_end all_chars map_set strip_prefix is_identifier
editing = tt
