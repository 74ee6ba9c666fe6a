-- ===== src/Scan.antt =====
-- A scan's status and its life under user actions, the paging of the scan list, the launch decision
-- and the job limit: backend/src/routes/scans.js, backend/src/lib/constants.js (the statuses) and
-- `validateScanJobLimit` of backend/src/lib/validation.js.
pub mod Deletion
mod Rounding
mod Laws
mod Moves
mod Life
mod Removal
mod Safety
mod Integrity
mod Tests
use Prim.Native.Char.{code}
use Prim.Native.String.{[] as nil_text, ◌∷◌ as cons_text}
use open_kritt.Prelude.{
  ℕ, zero, suc, ◌+◌, ◌-◌, ◌*◌, ◌/◌, ◌%◌, String, Bool, true, false, not, ◌&&◌, ◌||◌, Option, none,
  some, List, [], ◌∷◌, ◌++◌, ◌==◌, ltb, leb, nat_eq, if◌then◌else◌,
}
use open_kritt.Text.{concat, is_digits, trim}
use open_kritt.Value.Texts.{to_text, id_string}
use open_kritt.Value.{
  Value, undefined, null, bool, number, real, string, array, object, own, is_nullish, text_among,
  strict_equal, coalesce, prop, object_or_empty, FieldError, error, Checked, ok, invalid,
}

-- `SCAN_STATUSES`
pub data Status : Type 0 where
  queued pending prewarming_cache running rate_limited post_processing : Status
  paused completed stopped failed : Status

abbrev pub status_name : Status → String
status_name queued = "queued"
status_name pending = "pending"
status_name prewarming_cache = "prewarming_cache"
status_name running = "running"
status_name rate_limited = "rate_limited"
status_name post_processing = "post_processing"
status_name paused = "paused"
status_name completed = "completed"
status_name stopped = "stopped"
status_name failed = "failed"

abbrev pub scan_statuses : List Status
scan_statuses =
    queued ∷ pending ∷ prewarming_cache ∷ running ∷ rate_limited ∷ post_processing ∷ paused
    ∷ completed ∷ stopped ∷ failed ∷ []

-- `USER_STATUS_TRANSITIONS`
abbrev pub user_status_transitions : Status → List Status
user_status_transitions queued = stopped ∷ []
user_status_transitions pending = stopped ∷ []
user_status_transitions prewarming_cache = paused ∷ stopped ∷ []
user_status_transitions running = paused ∷ stopped ∷ []
user_status_transitions rate_limited = stopped ∷ []
user_status_transitions paused = pending ∷ stopped ∷ []
user_status_transitions post_processing = paused ∷ stopped ∷ []
user_status_transitions completed = []
user_status_transitions stopped = pending ∷ []
user_status_transitions failed = pending ∷ []

abbrev pub is_status : Status → Status → Bool
is_status s t = status_name s == status_name t

abbrev pub has_status : List Status → Status → Bool
has_status [] s = false
has_status (t ∷ ts) s = is_status t s || has_status ts s

abbrev pub find_status : List Status → String → Option Status
find_status [] s = none
find_status (t ∷ ts) s = if status_name t == s then some t else find_status ts s

-- A status that is sent: `SCAN_STATUSES.includes(status)`.
abbrev pub parse_status : Value → Option Status
parse_status (string s) = find_status scan_statuses s
parse_status _ = none

-- What the status part of `patchScanIfPresent` does: it throws, reports the supplemental work that
-- holds the scan, or sets the status; `resumes` says that the reasoning is cleared and the time of
-- the resumption is set.
pub data StatusChange : Type 0 where
  unknown_status : StatusChange
  conflict : Status → Status → StatusChange
  supplemental_in_use : ℕ → StatusChange
  set_status : Status → (resumes : Bool) → StatusChange

abbrev pub change_to : Status → ℕ → Option Status → StatusChange
change_to existing supplemental none = unknown_status
change_to existing supplemental (some status) =
    let resumes = is_status status pending && not (is_status existing pending) in
    if not (is_status status existing) && not (has_status (user_status_transitions existing) status)
    then conflict existing status
    else if resumes && ltb 0 supplemental
    then supplemental_in_use supplemental
    else set_status status resumes

-- The branch for a body with a status, from the scan's status, the number of its supplemental
-- targets that are pending or running, and the status that is sent.
unfoldable pub change_status : Status → ℕ → Value → StatusChange
change_status existing supplemental sent = change_to existing supplemental (parse_status sent)

abbrev pub max_safe_integer : ℕ
max_safe_integer = 9007199254740991

unfoldable pub digits_from : ℕ → String → ℕ
digits_from n nil_text = n
digits_from n (cons_text c s) = digits_from (n * 10 + (code c - 48)) s

-- `Number(s)` of a text of digits, without rounding; beyond `max_safe_integer` both are unsafe.
unfoldable pub digits_value : String → ℕ
unfolding digits_from
digits_value s = digits_from 0 s

-- A safe positive integer, or null.
abbrev pub safe_positive : String → Option ℕ
safe_positive s =
    let n = digits_value s in
    if is_digits s && leb n max_safe_integer && ltb 0 n then some n else none

-- `paginationInteger`
abbrev pub pagination_integer : Value → Option ℕ
pagination_integer null = none
pagination_integer (array _) = none
pagination_integer (object _) = none
pagination_integer value = safe_positive (id_string value)

abbrev pub default_scan_page_size : ℕ
default_scan_page_size = 6

abbrev pub max_scan_page_size : ℕ
max_scan_page_size = 100

pub record Pagination : Type 0 where
  pub page : ℕ
  pub page_size : ℕ
  pub skip : ℕ

-- `value === undefined ? fallback : paginationInteger(value)`
abbrev pub page_or : ℕ → Value → Option ℕ
page_or fallback undefined = some fallback
page_or fallback value = pagination_integer value

-- The double nearest to `n`, and of two as near the one with the even significand, where `unit` is the
-- distance of the doubles there.
abbrev pub round_to : ℕ → ℕ → ℕ
round_to unit n =
    let q = n / unit in
    let r = n % unit in
    if ltb (2 * r) unit || (nat_eq (2 * r) unit && nat_eq (q % 2) 0)
    then q * unit
    else (q + 1) * unit

-- The distance of the doubles at `n`, from `unit` on and doubled at most `fuel` times.
unfoldable pub unit_for : ℕ → ℕ → ℕ → ℕ
unit_for zero unit n = unit
unit_for (suc fuel) unit n =
    let rest = unit_for fuel (unit * 2) n in if ltb n (unit * 9007199254740992) then unit else rest

-- A product of two numbers as the source computes it, below 2 ^ 60, as a product of a safe integer and
-- a number up to 100 is.
abbrev pub double_product : ℕ → ℕ → ℕ
double_product a b = round_to (unit_for 7 1 (a * b)) (a * b)

abbrev page_error : List FieldError
page_error = error "page" "Page must be a positive integer." ∷ []

abbrev page_size_error : List FieldError
page_size_error = error "pageSize" "Page size must be between 1 and 100." ∷ []

abbrev pub paginated : Option ℕ → Option ℕ → Checked (Option Pagination)
paginated none none = invalid (page_error ++ page_size_error)
paginated none (some size) =
    invalid (if ltb max_scan_page_size size then page_error ++ page_size_error else page_error)
paginated (some page) none = invalid page_size_error
paginated (some page) (some size) =
    if ltb max_scan_page_size size
    then invalid page_size_error
    else ok (some (record { page = page; page_size = size; skip = double_product (page - 1) size }))

abbrev pub is_undefined : Value → Bool
is_undefined undefined = true
is_undefined _ = false

-- `scanListPagination(query)`, from the two parameters.
unfoldable pub scan_list_pagination : Value → Value → Checked (Option Pagination)
scan_list_pagination page page_size =
    if is_undefined page && is_undefined page_size
    then ok none
    else paginated (page_or 1 page) (page_or default_scan_page_size page_size)

pub data Launch : Type 0 where
  choice_required : Launch
  ready : Status → Launch

-- `hasCamelCase ? body.launchPolicy : hasSnakeCase ? body.launch_policy : undefined`
abbrev pub first_policy : Option Value → Option Value → Value
first_policy (some v) snake = v
first_policy none (some v) = v
first_policy none none = undefined

abbrev pub launch_policy : Value → Value
launch_policy body =
    first_policy (own "launchPolicy" (object_or_empty body))
      (own "launch_policy" (object_or_empty body))

abbrev policy_error : List FieldError
policy_error = error "launchPolicy" "Launch policy must be one of: immediate, queue." ∷ []

abbrev pub launch_with : Value → ℕ → Checked Launch
launch_with undefined active = ok (if ltb 0 active then choice_required else ready pending)
launch_with policy active =
    if text_among ("immediate" ∷ "queue" ∷ []) policy
    then ok (ready (if strict_equal policy (string "queue") then queued else pending))
    else invalid policy_error

-- `scanLaunchDecision(body, activeScanCount)`
unfoldable pub scan_launch_decision : Value → ℕ → Checked Launch
scan_launch_decision body active = launch_with (launch_policy body) active

-- `typeof value === 'number' || typeof value === 'string' ? \`${value}\`.trim() : ''`
abbrev pub limit_text : Value → String
limit_text (number n) = trim (to_text (number n))
limit_text (real s) = trim s
limit_text (string s) = trim s
limit_text _ = ""

abbrev pub limit_of : String → String → Checked (Option ℕ)
limit_of name text =
    if not (is_digits text)
    then invalid (error name "Maximum model jobs must be a whole number." ∷ [])
    else if ltb max_safe_integer (digits_value text)
        || ltb (digits_value text) 1
        || ltb 1000000 (digits_value text)
    then invalid (error name "Maximum model jobs must be between 1 and 1,000,000." ∷ [])
    else ok (some (digits_value text))

-- `validateScanJobLimit(value, field)`, where none is null.
unfoldable pub validate_scan_job_limit : Value → String → Checked (Option ℕ)
validate_scan_job_limit value name =
    if is_nullish value || trim (to_text value) == ""
    then ok none
    else limit_of name (limit_text value)
