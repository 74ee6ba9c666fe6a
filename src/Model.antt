-- ===== src/Model.antt =====
-- Providers, harnesses and thinking efforts, and the validation of a model selection:
-- backend/src/lib/constants.js, lines 70 to 109, and backend/src/lib/validation.js, lines 65 to 208.
pub mod Lists
pub mod Laws
mod Tests
use open_kritt.Prelude.{
  ℕ, String, Bool, true, false, not, ◌&&◌, ◌||◌, Option, none, some, List, [], ◌∷◌, ◌++◌, ltb, ◌==◌,
  if◌then◌else◌, includes, map, any,
}
use open_kritt.Text.{concat, join_comma, trim, utf16_size, to_lower}
use open_kritt.Value.{
  Value, undefined, null, string, is_string, is_nullish, prop, coalesce, Fields, end, field,
  FieldError, Checked, checked, error,
}
use open_kritt.Model.Lists.{
  model_providers, harnesses, thinking_efforts, provider_harnesses, harness_alias, is_compatible,
  supports_effort, is_known_provider, is_known_harness, is_known_effort,
}

abbrev pub default_model_provider : String
default_model_provider = "openrouter"

abbrev pub default_thinking_effort : String
default_thinking_effort = "medium"

abbrev pub model_id_max_length : ℕ
model_id_max_length = 200

pub record Selection : Type 0 where
  pub model : String
  pub model_provider : String
  pub harness : String
  pub thinking_effort : String

-- `typeof value === 'string' ? value.trim() : ''`
abbrev pub trimmed : Value → String
trimmed (string s) = trim s
trimmed _ = ""

-- `text || fallback`
abbrev pub or_default : String → String → String
or_default s fallback = if s == "" then fallback else s

abbrev pub in_field : String → String → String
in_field prefix f = if prefix == "" then f else concat (prefix ∷ "." ∷ f ∷ [])

abbrev pub refuse : Bool → String → String → List FieldError
refuse true f message = error f message ∷ []
refuse false f message = []

abbrev pub absent_or_string : Value → Bool
absent_or_string v = is_nullish v || is_string v

model_errors : String → Value → List FieldError
model_errors prefix v =
    if trimmed v == ""
    then error (in_field prefix "model")
        (if absent_or_string v then "A model is required." else "Model must be a string.")
      ∷ []
    else refuse (ltb model_id_max_length (utf16_size (trimmed v))) (in_field prefix "model")
        "Model must be 200 characters or fewer."

pub provider_of : Value → String
provider_of (string s) = or_default (to_lower (trim s)) default_model_provider
provider_of _ = default_model_provider

provider_errors : String → Value → List FieldError
provider_errors prefix v =
    refuse (not (absent_or_string v)) (in_field prefix "model_provider")
      "Model provider must be a string."
    ++ refuse (not (is_known_provider (provider_of v))) (in_field prefix "model_provider")
        (concat ("Model provider must be one of: " ∷ join_comma model_providers ∷ "." ∷ []))

pub harness_of : Value → String
harness_of v = harness_alias (trimmed v)

-- `list.join(' or ')`
abbrev pub join_or : List String → String
join_or [] = ""
join_or (s ∷ []) = s
join_or (s ∷ ss) = concat (s ∷ " or " ∷ join_or ss ∷ [])

harness_errors : String → String → Value → List FieldError
harness_errors prefix provider v =
    let h = harness_of v in
    if h == ""
    then error (in_field prefix "harness")
        (if absent_or_string v then "A harness is required." else "Harness must be a string.")
      ∷ []
    else if not (is_known_harness h)
    then error (in_field prefix "harness")
        (concat ("Harness must be one of: " ∷ join_comma harnesses ∷ "." ∷ []))
      ∷ []
    else refuse (is_known_provider provider && not (is_compatible provider h))
        (in_field prefix "harness")
        (concat (
          "Harness \""
          ∷ h
          ∷ "\" is not compatible with model provider \""
          ∷ provider
          ∷ "\". Use "
          ∷ join_or (provider_harnesses provider)
          ∷ "."
          ∷ []))

pub effort_of : Value → String
effort_of (string s) = or_default (trim s) default_thinking_effort
effort_of _ = default_thinking_effort

effort_errors : String → String → Value → List FieldError
effort_errors prefix h v =
    refuse (not (absent_or_string v)) (in_field prefix "thinking_effort")
      "Thinking effort must be a string."
    ++ (if not (is_known_effort (effort_of v))
        then error (in_field prefix "thinking_effort")
            (concat ("Thinking effort must be one of: " ∷ join_comma thinking_efforts ∷ "." ∷ []))
          ∷ []
        else refuse (is_known_harness h && not (supports_effort h (effort_of v)))
            (in_field prefix "thinking_effort")
            (concat (
              "Thinking effort \""
              ∷ effort_of v
              ∷ "\" is not supported by harness \""
              ∷ h
              ∷ "\"."
              ∷ [])))

abbrev pub provider_value : Value → Value
provider_value body = coalesce (prop "model_provider" body) (prop "modelProvider" body)

abbrev pub effort_value : Value → Value
effort_value body = coalesce (prop "thinking_effort" body) (prop "thinkingEffort" body)

-- The `normalized` part of `modelSelectionValidation`.
unfoldable pub selection_of : Value → Selection
selection_of body = record {
  model = trimmed (prop "model" body);
  model_provider = provider_of (provider_value body);
  harness = harness_of (prop "harness" body);
  thinking_effort = effort_of (effort_value body);
}

-- The `errors` part of `modelSelectionValidation`.
pub selection_errors : String → Value → List FieldError
selection_errors prefix body =
    model_errors prefix (prop "model" body)
    ++ (provider_errors prefix (provider_value body)
        ++ (harness_errors prefix (provider_of (provider_value body)) (prop "harness" body)
            ++ effort_errors prefix (harness_of (prop "harness" body)) (effort_value body)))

-- `validateModelSelection`
pub validate_model_selection : Value → Checked Selection
validate_model_selection body = checked (selection_errors "" body) (selection_of body)

-- All that a run of the validation computes with.
unfoldable pub selecting : Unit {0}
unfolding validate_model_selection selection_errors selection_of model_errors provider_errors
    harness_errors effort_errors provider_of harness_of effort_of is_compatible supports_effort
    is_known_provider is_known_harness is_known_effort trim to_lower utf16_size
selecting = tt
