-- ===== src/Workflow/Normal.antt =====
-- The levels of a workflow as a request has them, made normal: backend/src/lib/validation.js, lines
-- 283 to 344. `JSON.parse` and `Number` on a text are parameters; of a number only whether it is a
-- whole one from 0 on matters.
use open_kritt.Prelude.{
  ℕ, suc, String, Bool, true, false, not, Option, none, some, List, [], ◌∷◌, ◌++◌, ◌==◌,
  if◌then◌else◌, nat_eq, any,
}
use open_kritt.Text.{concat, decimal, trim}
use open_kritt.Value.{
  Value, undefined, null, bool, number, real, string, array, object, items, end, Fields, prop,
  coalesce, FieldError, error, is_nullish, is_true,
}
use open_kritt.Value.Texts.{to_text}
use open_kritt.Format.{normalize_output_format, duplicate_output_format_keys}
use open_kritt.Workflow.Types.{Step, Level}

-- `Array.isArray(value) ? value : []`
abbrev pub list_or_empty : Value → List Value
list_or_empty (array vs) = items vs
list_or_empty _ = []

-- `Boolean(value)`
abbrev pub truthy : Value → Bool
truthy undefined = false
truthy null = false
truthy (bool b) = b
truthy (number n) = not (nat_eq n 0)
truthy (real s) = not (s == "NaN")
truthy (string s) = not (s == "")
truthy _ = true

-- `['string', 'number'].includes(typeof value)`
abbrev pub is_text_or_number : Value → Bool
is_text_or_number (string s) = true
is_text_or_number (number n) = true
is_text_or_number (real s) = true
is_text_or_number _ = false

-- `levels[i].steps[j].name`
abbrev pub in_step : ℕ → ℕ → String → String
in_step i j name = concat ("levels[" ∷ decimal i ∷ "].steps[" ∷ decimal j ∷ "]." ∷ name ∷ [])

-- `levels[i].name`
abbrev pub in_level : ℕ → String → String
in_level i name = concat ("levels[" ∷ decimal i ∷ "]." ∷ name ∷ [])

-- The identifier that a step or a binding gives, and the errors of it.
pub record Identifier : Type 0 where
  pub errors : List FieldError
  pub given : Bool
  pub text : String

unfoldable pub identifier : String → String → String → Value → Identifier
unfolding to_text trim
identifier fallback path subject v =
    if is_nullish v
    then record { errors = []; given = false; text = fallback }
    else if not (is_text_or_number v)
    then record {
      errors = error path (concat (subject ∷ " must be a string or number." ∷ [])) ∷ [];
      given = true;
      text = fallback;
    }
    else record {
      errors =
          if trim (to_text v) == ""
          then error path (concat (subject ∷ " cannot be empty." ∷ [])) ∷ []
          else [];
      given = true;
      text = trim (to_text v);
    }

abbrev pub client_id_value : Value → Value
client_id_value step =
    coalesce (coalesce (prop "clientId" step) (prop "client_id" step)) (prop "id" step)

abbrev pub bound_value : Value → Value
bound_value step = coalesce (prop "boundSourceStepId" step) (prop "bound_source_step_id" step)

abbrev pub client_id_of : ℕ → ℕ → Value → Identifier
client_id_of i j step =
    identifier (concat ("legacy:" ∷ decimal i ∷ ":" ∷ decimal j ∷ [])) (in_step i j "clientId")
      "Step ID" (client_id_value step)

-- `boundSourceStepId` stays null where no text or number is given.
unfoldable pub bound_id_of : Value → Option String
unfolding to_text trim
bound_id_of v = if is_text_or_number v then some (trim (to_text v)) else none

abbrev pub normal_step : ℕ → ℕ → Value → Step
normal_step i j step =
    let id = client_id_of i j step in
    record {
      source = step;
      client_id = id.text;
      has_client_id = id.given;
      bound_source_step_id = bound_id_of (bound_value step);
    }

abbrev pub step_errors : ℕ → ℕ → Value → List FieldError
step_errors i j step =
    (client_id_of i j step).errors
    ++ (identifier "" (in_step i j "boundSourceStepId") "Bound source step ID"
        (bound_value step)).errors

abbrev pub normal_steps : ℕ → ℕ → List Value → List Step
normal_steps i j [] = []
normal_steps i j (s ∷ ss) = normal_step i j s ∷ normal_steps i (suc j) ss

abbrev pub steps_errors : ℕ → ℕ → List Value → List FieldError
steps_errors i j [] = []
steps_errors i j (s ∷ ss) = step_errors i j s ++ steps_errors i (suc j) ss

abbrev pub is_bound : Step → Bool
is_bound s = elim s.bound_source_step_id [ none ↦ false | some _ ↦ true ]

abbrev pub bind_value : Value → Value
bind_value level = coalesce (prop "bindPrevious" level) (prop "bind_previous" level)

-- `rawBindPrevious === undefined || typeof rawBindPrevious === 'boolean'`
abbrev pub is_bind_value : Value → Bool
is_bind_value undefined = true
is_bind_value (bool _) = true
is_bind_value _ = false

abbrev pub binds : Value → List Step → Bool
binds undefined steps = any is_bound steps
binds v steps = is_true v

abbrev duplicate_errors : String → List String → List FieldError
duplicate_errors path [] = []
duplicate_errors path (k ∷ ks) =
    error path (concat ("\"" ∷ k ∷ "\" is used more than once in this output format." ∷ []))
    ∷ duplicate_errors path ks

abbrev fields_or_empty : Option Fields → Fields
fields_or_empty none = end
fields_or_empty (some fs) = fs

abbrev format_errors_of : String → List String → Option Fields → List FieldError
format_errors_of path duplicates none = error path "Output format is not valid JSON." ∷ []
format_errors_of path duplicates (some fs) = duplicate_errors path duplicates

module _ (parse_json : String → Option Value) (number_of_text : String → Option ℕ) where
  -- `Number(value)`, if it is a whole number from 0 on.
  unfoldable pub whole_number : Value → Option ℕ
  unfolding to_text
  whole_number undefined = none
  whole_number null = some 0
  whole_number (bool true) = some 1
  whole_number (bool false) = some 0
  whole_number (number n) = some n
  whole_number (real s) = none
  whole_number (string s) = number_of_text s
  whole_number (array vs) = number_of_text (to_text (array vs))
  whole_number (object fs) = none

  abbrev pub format_value : Value → Value
  format_value level = coalesce (prop "outputFormat" level) (object end)

  abbrev pub format_errors : ℕ → Value → List FieldError
  format_errors i level =
      format_errors_of (in_level i "outputFormat")
        (duplicate_output_format_keys parse_json (format_value level))
        (normalize_output_format parse_json (format_value level))

  -- One element of `normLevels`, at the depth that was read.
  abbrev pub normal_level : ℕ → Value → ℕ → Level
  normal_level i level depth =
      let steps = normal_steps i 0 (list_or_empty (prop "steps" level)) in
      record {
        depth = depth;
        multi_output = truthy (prop "multiOutput" level);
        consumes_all =
            truthy (coalesce (prop "consumesAll" level) (prop "consume_all_previous" level));
        bind_previous = binds (bind_value level) steps;
        output_format = fields_or_empty (normalize_output_format parse_json (format_value level));
        steps = steps;
      }

  abbrev pub level_errors : ℕ → Value → List FieldError
  level_errors i level =
      format_errors i level
      ++ (steps_errors i 0 (list_or_empty (prop "steps" level))
          ++ (if is_bind_value (bind_value level)
              then []
              else error (in_level i "bindPrevious") "Bind routing must be a boolean." ∷ []))

  abbrev pub levels_errors : ℕ → List Value → List FieldError
  levels_errors i [] = []
  levels_errors i (l ∷ ls) = level_errors i l ++ levels_errors (suc i) ls

  abbrev with_level : Option Level → Option (List Level) → Option (List Level)
  with_level none ls = none
  with_level (some l) none = none
  with_level (some l) (some ls) = some (l ∷ ls)

  abbrev leveled : ℕ → Value → Option ℕ → Option Level
  leveled i level none = none
  leveled i level (some depth) = some (normal_level i level depth)

  -- `normLevels`, if the depths are whole numbers from 0 on.
  abbrev pub normal_levels : ℕ → List Value → Option (List Level)
  normal_levels i [] = some []
  normal_levels i (l ∷ ls) =
      with_level (leveled i l (whole_number (prop "depth" l))) (normal_levels (suc i) ls)
