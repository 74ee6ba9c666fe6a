-- ===== src/Workflow/Content.antt =====
-- The output formats and the prompts of a workflow: backend/src/lib/validation.js, lines 51 to 63 and
-- 482 to 548.
use open_kritt.Prelude.{
  ℕ, suc, String, Bool, true, false, not, ◌&&◌, ◌||◌, Option, none, some, List, [], ◌∷◌, ◌++◌, ◌==◌,
  ltb, if◌then◌else◌, includes, map_get,
}
use open_kritt.Text.{concat, decimal, join_comma, trim, is_valid_key}
use open_kritt.Value.{Value, Fields, end, field, keys, has_own, get, FieldError, error}
use open_kritt.Model.{refuse}
use open_kritt.Descriptor.{is_reserved_output_key, validate_field_definition}
use open_kritt.Format.{field_type_name}
use open_kritt.Template.{add, parse_refs, has_malformed_template_refs, is_extra_ref}
use open_kritt.Workflow.Types.{
  Step, Level, content_of, builtin_keys, is_multi_output_depth_key, at_depth, at_step,
  required_vuln_keys, required_key_types,
}
use open_kritt.Workflow.Available.{available_at}

-- `outputFieldErrors(prefix, key, definition)`
unfoldable pub output_field_errors : String → String → Value → List FieldError
output_field_errors prefix key definition =
    let path = concat (prefix ∷ "." ∷ key ∷ []) in
    refuse (is_reserved_output_key key) path
      (concat ("\"" ∷ key ∷ "\" is reserved for engine-owned output and can't be declared." ∷ []))
    ++ validate_field_definition path definition

-- The names that every plain object inherits. `keyCount` is such an object, so that for these the
-- count starts from the inherited value and is never above 1.
abbrev pub inherited_names : List String
inherited_names =
    "constructor" ∷ "__defineGetter__" ∷ "__defineSetter__" ∷ "hasOwnProperty" ∷ "__lookupGetter__"
    ∷ "__lookupSetter__" ∷ "isPrototypeOf" ∷ "propertyIsEnumerable" ∷ "toString" ∷ "valueOf"
    ∷ "__proto__" ∷ "toLocaleString" ∷ []

abbrev pub occurrences : String → List String → ℕ
occurrences k [] = 0
occurrences k (j ∷ js) = if j == k then suc (occurrences k js) else occurrences k js

-- The keys of all levels in a row.
abbrev pub all_keys : List Level → List String
all_keys [] = []
all_keys (l ∷ ls) = keys l.output_format ++ all_keys ls

-- `keyCount[k] > 1`
abbrev pub is_repeated : List String → String → Bool
is_repeated ks k = not (includes inherited_names k) && ltb 1 (occurrences k ks)

-- `BUILTIN_KEYS.includes(k) || k === EXTRA_KEY || isMultiOutputDepthKey(k)`
abbrev pub is_reserved_key : String → Bool
is_reserved_key k = includes builtin_keys k || k == "extra" || is_multi_output_depth_key k

-- One key of an output format at `path`, among all the keys.
unfoldable pub key_errors : String → List String → String → Value → List FieldError
key_errors path ks k definition =
    refuse (not (is_valid_key k)) path (concat ("\"" ∷ k ∷ "\" is not a valid key name." ∷ []))
    ++ (refuse (is_reserved_key k) path (concat ("\"" ∷ k ∷ "\" is a reserved key." ∷ []))
        ++ (refuse (is_repeated ks k) path
              (concat ("\"" ∷ k ∷ "\" is used more than once across the workflow." ∷ []))
            ++ output_field_errors path k definition))

unfoldable pub keys_errors : String → List String → Fields → List FieldError
keys_errors path ks end = []
keys_errors path ks (field k v fs) = key_errors path ks k v ++ keys_errors path ks fs

abbrev pub has_no_key : Fields → Bool
has_no_key end = true
has_no_key _ = false

unfoldable pub output_errors : List String → List Level → List FieldError
output_errors ks [] = []
output_errors ks (l ∷ ls) =
    let path = at_depth l.depth "outputFormat" in
    refuse (has_no_key l.output_format) path "Output format must define at least one key."
    ++ (keys_errors path ks l.output_format ++ output_errors ks ls)

-- The members of a `Set` made of a list, in the order of insertion.
abbrev pub set_from : List String → List String → List String
set_from set [] = set
set_from set (s ∷ ss) = set_from (add set s) ss

-- `refs.filter((k) => !refResolves(k, available, true))`
abbrev pub unresolved : List String → List String → List String
unresolved available [] = []
unresolved available (k ∷ ks) =
    if includes available k || is_extra_ref k
    then unresolved available ks
    else k ∷ unresolved available ks

abbrev pub unresolved_errors : String → List String → List FieldError
unresolved_errors path [] = []
unresolved_errors path (k ∷ ks) =
    error path (
      concat (
        "References undefined key(s): "
        ∷ join_comma (k ∷ ks)
        ∷ ". Only built-in keys, {{extra.<key>}}, or keys from earlier depths are allowed."
        ∷ []))
    ∷ []

unfoldable pub content_errors : String → List String → String → List FieldError
content_errors path available content =
    refuse (trim content == "") path "Prompt content is required."
    ++ (refuse (has_malformed_template_refs content) path
          "Contains malformed template syntax. Use references such as {{key}} or {{extra.key}}."
        ++ unresolved_errors path (unresolved available (set_from [] (parse_refs content))))

unfoldable pub prompt_errors : ℕ → List String → ℕ → List Step → List FieldError
prompt_errors d available i [] = []
prompt_errors d available i (s ∷ ss) =
    content_errors (at_step d i "content") available (content_of s)
    ++ prompt_errors d available (suc i) ss

abbrev pub has_no_step : List Step → Bool
has_no_step [] = true
has_no_step _ = false

-- The prompts of the given levels, among all levels.
unfoldable pub level_prompt_errors : List Level → List Level → List FieldError
level_prompt_errors all [] = []
level_prompt_errors all (l ∷ ls) =
    refuse (has_no_step l.steps) (at_depth l.depth "steps")
      "Each depth must contain at least one step."
    ++ (prompt_errors l.depth (available_at all l.depth) 0 l.steps ++ level_prompt_errors all ls)

-- `REQUIRED_VULN_KEYS.filter((k) => !have.has(k))`
abbrev pub missing_keys : Fields → List String → List String
missing_keys fs [] = []
missing_keys fs (k ∷ ks) = if has_own fs k then missing_keys fs ks else k ∷ missing_keys fs ks

abbrev pub missing_key_errors : ℕ → List String → List FieldError
missing_key_errors d [] = []
missing_key_errors d (k ∷ ks) =
    error "terminal.outputFormat" (
      concat (
        "Terminal step (depth "
        ∷ decimal d
        ∷ ") is missing required key(s): "
        ∷ join_comma (k ∷ ks)
        ∷ "."
        ∷ []))
    ∷ []

abbrev pub text_or_undefined : Option String → String
text_or_undefined none = "undefined"
text_or_undefined (some s) = s

abbrev pub is_text : Option String → Option String → Bool
is_text none none = true
is_text (some s) (some t) = s == t
is_text _ _ = false

-- The type of one key of the terminal format, if it is there.
unfoldable pub terminal_type_errors : Fields → String → List FieldError
terminal_type_errors fs k =
    let actual = field_type_name (get k fs) in
    let expected = map_get k required_key_types in
    refuse (has_own fs k && not (is_text actual expected)) "terminal.outputFormat" (
      concat (
        "Terminal key \""
        ∷ k
        ∷ "\" must use type \""
        ∷ text_or_undefined expected
        ∷ "\", not \""
        ∷ text_or_undefined actual
        ∷ "\"."
        ∷ []))

unfoldable pub terminal_types_errors : Fields → List String → List FieldError
terminal_types_errors fs [] = []
terminal_types_errors fs (k ∷ ks) = terminal_type_errors fs k ++ terminal_types_errors fs ks

unfoldable pub terminal_errors : ℕ → Option Level → List FieldError
terminal_errors d none = []
terminal_errors d (some l) =
    missing_key_errors d (missing_keys l.output_format required_vuln_keys)
    ++ (terminal_types_errors l.output_format required_vuln_keys
        ++ terminal_type_errors l.output_format "exploitable")
