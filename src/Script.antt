-- ===== src/Script.antt =====
-- Validation of post-scripts: `validatePostScript` and `validateGeneratedPostScript` of
-- backend/src/lib/validation.js, with the checks of generated artifacts that they share with workflows.
pub mod Laws
mod Storing
mod Tests
use open_kritt.Prelude.{
  ℕ, suc, String, Bool, true, false, not, ◌&&◌, ◌||◌, Option, none, some, List, [], ◌∷◌, ◌++◌, ◌==◌,
  if◌then◌else◌, includes,
}
use open_kritt.Text.{concat, decimal, join_comma, trim, is_valid_key}
use open_kritt.Value.{
  Value, number, bool, string, array, object, items, Fields, end, field, keys, get, prop, coalesce,
  string_or, text_among, FieldError, error, Checked, ok, invalid, checked,
}
use open_kritt.Model.{trimmed, refuse}
use open_kritt.Descriptor.Types.{field_types}
use open_kritt.Format.{normalize_output_format, duplicate_output_format_keys, field_type_name}
use open_kritt.Template.{parse_refs, has_malformed_template_refs, is_extra_ref}
use open_kritt.Workflow.Types.{builtin_keys, required_vuln_keys}
use open_kritt.Workflow.Content.{output_field_errors, is_text, set_from, unresolved, has_no_key}
use open_kritt.Workflow.{Workflow, string_or_null, validate_workflow}

-- `RESERVED_POST_SCRIPT_KEYS`
abbrev pub reserved_post_script_keys : List String
reserved_post_script_keys = builtin_keys ++ "extra" ∷ required_vuln_keys ++ "exploitable" ∷ []

pub record PostScript : Type 0 where
  pub name : String
  pub content : String
  pub description : Option String
  pub output_format : Fields

-- `POST_SCRIPT_MARKDOWN_OUTPUT_KEYS.includes(k) && fieldTypeName(definition) !== 'string'`
abbrev pub is_unrendered : String → Value → Bool
is_unrendered k definition =
    includes ("_reserved_report" ∷ "_reserved_poc" ∷ []) k
    && not (is_text (field_type_name definition) (some "string"))

-- One key of the format, where `seen` has the keys before it.
unfoldable pub script_key_errors : List String → String → Value → List FieldError
script_key_errors seen k definition =
    refuse (not (is_valid_key k)) "outputFormat"
      (concat ("\"" ∷ k ∷ "\" is not a valid key name." ∷ []))
    ++ (refuse (includes reserved_post_script_keys k) "outputFormat"
          (concat ("\"" ∷ k ∷ "\" is a reserved key and can't be an output key." ∷ []))
        ++ (refuse (includes seen k) "outputFormat"
              (concat ("\"" ∷ k ∷ "\" is a duplicate output key." ∷ []))
            ++ (output_field_errors "outputFormat" k definition
                ++ (refuse (is_unrendered k definition) "outputFormat" (
                      concat (
                        "\"" ∷ k ∷ "\" must use type \"string\" so it can be rendered as Markdown."
                        ∷ []))
                    ++ refuse (k == "_chip_") "outputFormat"
                        "\"_chip_\" must include a label after the prefix."))))

unfoldable pub script_keys_errors : List String → Fields → List FieldError
script_keys_errors seen end = []
script_keys_errors seen (field k v fs) =
    script_key_errors seen k v ++ script_keys_errors (k ∷ seen) fs

abbrev pub duplicate_errors : List String → List FieldError
duplicate_errors [] = []
duplicate_errors (k ∷ ks) =
    error "outputFormat" (concat ("\"" ∷ k ∷ "\" is a duplicate output key." ∷ []))
    ∷ duplicate_errors ks

-- The errors of reading the format, and the format, which is empty where it cannot be read.
abbrev pub reading_errors : Option Fields → List String → List FieldError
reading_errors none duplicates = error "outputFormat" "Output format is not valid JSON." ∷ []
reading_errors (some fs) duplicates = duplicate_errors duplicates

abbrev pub fields_or_empty : Option Fields → Fields
fields_or_empty none = end
fields_or_empty (some fs) = fs

abbrev pub reference_errors : List String → List FieldError
reference_errors [] = []
reference_errors (k ∷ ks) =
    error "content" (
      concat (
        "References non-reserved key(s): "
        ∷ join_comma (k ∷ ks)
        ∷ ". Only reserved context/finding keys are allowed."
        ∷ []))
    ∷ []

unfoldable pub prompt_errors : String → List FieldError
prompt_errors content =
    refuse (has_malformed_template_refs content) "content"
      "Contains malformed template syntax. Use references such as {{key}} or {{extra.key}}."
    ++ reference_errors (unresolved reserved_post_script_keys (set_from [] (parse_refs content)))

abbrev pub content_value : Value → String
content_value body = string_or "" (prop "content" body)

-- All errors, from the format that was read and its duplicate keys.
unfoldable pub post_script_errors : Value → Option Fields → List String → List FieldError
post_script_errors body format duplicates =
    let fs = fields_or_empty format in
    refuse (trimmed (prop "name" body) == "") "name" "Post-script name is required."
    ++ (refuse (trim (content_value body) == "") "content" "Content is required."
        ++ (reading_errors format duplicates
            ++ (refuse (has_no_key fs) "outputFormat" "Output format must define at least one key."
                ++ (script_keys_errors [] fs ++ prompt_errors (content_value body)))))

abbrev pub post_script_of : Value → Option Fields → PostScript
post_script_of body format = record {
  name = trimmed (prop "name" body);
  content = content_value body;
  description = string_or_null (prop "description" body);
  output_format = fields_or_empty format;
}

-- `body?.outputFormat ?? {}`
abbrev pub format_value : Value → Value
format_value body = coalesce (prop "outputFormat" body) (object end)

-- `validateGeneratedText(value, field, label, push)`
abbrev pub text_errors : Value → String → String → List FieldError
text_errors (string s) path label =
    refuse (trim s == "") path (concat (label ∷ " is required." ∷ []))
text_errors _ path label = error path (concat (label ∷ " must be a string." ∷ [])) ∷ []

abbrev pub plain_type_errors : String → Fields → List FieldError
plain_type_errors path end = []
plain_type_errors path (field k v fs) =
    refuse (not (text_among field_types v)) (concat (path ∷ "." ∷ k ∷ []))
      (concat ("Output field types must be one of: " ∷ join_comma field_types ∷ "." ∷ []))
    ++ plain_type_errors path fs

-- `validateGeneratedOutputFormat(value, field, push)`
abbrev pub plain_format_errors : Value → String → List FieldError
plain_format_errors (object fs) path = plain_type_errors path fs
plain_format_errors _ path =
    error path "Output format must be an object map from field names to field types." ∷ []

module _ (parse_json : String → Option Value) where
  -- `validatePostScript`
  unfoldable pub validate_post_script : Value → Checked PostScript
  validate_post_script body =
      let format = normalize_output_format parse_json (format_value body) in
      checked
        (post_script_errors body format
          (duplicate_output_format_keys parse_json (format_value body)))
        (post_script_of body format)

  -- What follows once the shape of a generated artifact is checked.
  abbrev pub unless_errors {ℓ} : {A : Type ℓ} → List FieldError → Checked A → Checked A
  unless_errors [] result = result
  unless_errors (e ∷ es) result = invalid (e ∷ es)

  -- `validateGeneratedPostScript`
  unfoldable pub validate_generated_post_script : Value → Checked PostScript
  validate_generated_post_script (object fs) =
      unless_errors
        (text_errors (get "name" fs) "name" "Post-script name"
          ++ text_errors (get "description" fs) "description" "Post-script description"
          ++ text_errors (get "content" fs) "content" "Post-script content"
          ++ plain_format_errors (get "outputFormat" fs) "outputFormat")
        (validate_post_script (object fs))
  validate_generated_post_script _ = invalid (error "result" "Post-script must be an object." ∷ [])
