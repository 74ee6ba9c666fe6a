-- ===== src/Settings/Overrides.antt =====
-- Selections for the post-processing and for single depths of a workflow: `postProcessingRuntimeInput`,
-- `validatePostProcessingModelSelection`, `hasPostProcessingModelOverride` and `validateModelOverrides`
-- of backend/src/lib/validation.js. An argument that is an object is a value here as well.
use open_kritt.Prelude.{
  ℕ, zero, suc, String, Bool, true, not, ◌||◌, Option, none, some, List, [], ◌∷◌, ◌++◌, ◌==◌, ltb,
  leb, if◌then◌else◌, length,
}
use open_kritt.Text.{concat, decimal, is_positive_digits}
use open_kritt.Value.{
  Value, undefined, null, object, Fields, end, field, keys, prop, coalesce, object_or_empty,
  is_nullish, FieldError, error, Checked, ok, invalid, checked,
}
use open_kritt.Scan.{digits_value, max_safe_integer}
use open_kritt.Model.{Selection, selection_of, selection_errors, refuse}
use open_kritt.Workflow.Routing.{nat_includes}

-- `a[k] ?? b[k]` and so on: the first of the properties that is there.
abbrev pub first_of : List String → Value → Value
first_of [] v = undefined
first_of (k ∷ ks) v = coalesce (prop k v) (first_of ks v)

abbrev pub four : (model model_provider harness thinking_effort : Value) → Value
four model model_provider harness thinking_effort = object (
    field "model" model (
      field "modelProvider" model_provider
        (field "harness" harness (field "thinkingEffort" thinking_effort end))))

-- `postProcessingRuntimeInput(body, configuration)`
abbrev pub post_processing_input : Value → Value → Value
post_processing_input body configuration =
    let config = object (object_or_empty configuration) in
    let given = λ (snake camel : String).
      coalesce (first_of (snake ∷ camel ∷ []) body) (first_of (snake ∷ camel ∷ []) config) in
    four (given "post_processing_model" "postProcessingModel")
      (given "post_processing_model_provider" "postProcessingModelProvider")
      (given "post_processing_harness" "postProcessingHarness")
      (given "post_processing_thinking_effort" "postProcessingThinkingEffort")

-- `hasPostProcessingModelOverride`
abbrev pub has_post_processing_model_override : Value → Bool
has_post_processing_model_override v =
    not (is_nullish (prop "model" v))
    || not (is_nullish (prop "modelProvider" v))
    || not (is_nullish (prop "harness" v))

-- The request that a value makes, with a fallback for what it leaves out.
abbrev pub selection_request : Value → Value → Value
selection_request value fallback = object (
    field "model" (coalesce (prop "model" value) (prop "model" fallback)) (
      field "model_provider"
        (coalesce (first_of ("modelProvider" ∷ "model_provider" ∷ []) value)
          (first_of ("modelProvider" ∷ "model_provider" ∷ []) fallback))
        (field "harness" (coalesce (prop "harness" value) (prop "harness" fallback)) (
          field "thinking_effort"
            (coalesce (first_of ("thinkingEffort" ∷ "thinking_effort" ∷ []) value)
              (first_of ("thinkingEffort" ∷ "thinking_effort" ∷ []) fallback))
            end))))

-- The errors under the names of the post-processing, each of which is the name with a prefix.
abbrev pub renamed : List FieldError → List FieldError
renamed [] = []
renamed (e ∷ es) = error (concat ("post_processing_" ∷ e.field_name ∷ [])) e.message ∷ renamed es

-- `validatePostProcessingModelSelection(value, fallback)`
unfoldable pub validate_post_processing : Value → Value → Checked Selection
validate_post_processing value fallback =
    let request = selection_request value fallback in
    checked (renamed (selection_errors "" request)) (selection_of request)

-- /^(?:0|[1-9]\d*)$/
abbrev pub is_depth_text : String → Bool
is_depth_text s = s == "0" || is_positive_digits s

abbrev pub is_allowed : Option (List ℕ) → ℕ → Bool
is_allowed none d = true
is_allowed (some ds) d = nat_includes ds d

abbrev pub not_in_workflow : Option (List ℕ) → String → ℕ → List FieldError
not_in_workflow allowed path d =
    refuse (not (is_allowed allowed d)) path
      (concat ("Depth " ∷ decimal d ∷ " does not exist in the selected workflow." ∷ []))

-- The errors of a depth's configuration, and the selection that it stands for.
abbrev pub configured : String → String → Value → List FieldError × List (String × Selection)
configured path depth (object fs) =
    (selection_errors path (object fs), (depth, selection_of (object fs)) ∷ [])
configured path depth _ =
    (error path "A complete model configuration is required for this depth." ∷ [], [])

-- One entry, whose depth is a number.
abbrev pub entry_at :
    Option (List ℕ) → String → String → Value → List FieldError × List (String × Selection)
entry_at allowed path depth v =
    let c = configured path depth v in
    if not (leb (digits_value depth) max_safe_integer)
    then (error path "Workflow depth is too large." ∷ [], [])
    else (not_in_workflow allowed path (digits_value depth) ++ c.0, c.1)

abbrev pub entry :
    Option (List ℕ) → String → String → Value → List FieldError × List (String × Selection)
entry allowed path depth v =
    if not (is_depth_text depth)
    then (error path "Workflow depth must be a non-negative integer." ∷ [], [])
    else entry_at allowed path depth v

-- The first `room` entries.
unfoldable pub entries_errors : Option (List ℕ) → String → ℕ → Fields → List FieldError
entries_errors allowed name zero fs = []
entries_errors allowed name (suc room) end = []
entries_errors allowed name (suc room) (field k v fs) =
    (entry allowed (concat (name ∷ "." ∷ k ∷ [])) k v).0 ++ entries_errors allowed name room fs

unfoldable pub entries_selected : Option (List ℕ) → String → ℕ → Fields → List (String × Selection)
entries_selected allowed name zero fs = []
entries_selected allowed name (suc room) end = []
entries_selected allowed name (suc room) (field k v fs) =
    (entry allowed (concat (name ∷ "." ∷ k ∷ [])) k v).1 ++ entries_selected allowed name room fs

-- `.sort(([left], [right]) => Number(left) - Number(right))`
abbrev pub insert_override :
    String × Selection → List (String × Selection) → List (String × Selection)
insert_override e [] = e ∷ []
insert_override e (f ∷ fs) =
    if leb (digits_value e.0) (digits_value f.0) then e ∷ f ∷ fs else f ∷ insert_override e fs

abbrev pub sort_overrides : List (String × Selection) → List (String × Selection)
sort_overrides [] = []
sort_overrides (e ∷ es) = insert_override e (sort_overrides es)

abbrev pub override_limit : ℕ
override_limit = 1000

-- `validateModelOverrides(value, { allowedDepths, field })`
unfoldable pub validate_model_overrides :
    Option (List ℕ) → String → Value → Checked (List (String × Selection))
validate_model_overrides allowed name undefined = ok []
validate_model_overrides allowed name null = ok []
validate_model_overrides allowed name (object fs) =
    checked
      (refuse (ltb override_limit (length (keys fs))) name
          "Model overrides may contain at most 1,000 workflow depths."
        ++ entries_errors allowed name override_limit fs)
      (sort_overrides (entries_selected allowed name override_limit fs))
validate_model_overrides allowed name _ =
    invalid (error name "Model overrides must be an object keyed by workflow depth." ∷ [])
