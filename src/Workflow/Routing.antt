-- ===== src/Workflow/Routing.antt =====
-- The depths of a workflow and the binding of steps to steps of the depth before:
-- backend/src/lib/validation.js, lines 379 to 480.
use open_kritt.Prelude.{
  ℕ, zero, suc, ◌-◌, max, String, Bool, true, false, not, ◌&&◌, ◌||◌, Option, none, some, List, [],
  ◌∷◌, ◌++◌, ◌==◌, ltb, nat_eq, if◌then◌else◌, includes, length, any,
}
use open_kritt.Text.{concat, decimal}
use open_kritt.Value.{FieldError, error}
use open_kritt.Model.{refuse}
use open_kritt.Workflow.Types.{Step, Level, level_at, at_depth, at_step}
use open_kritt.Workflow.Normal.{is_bound}

abbrev pub nat_includes : List ℕ → ℕ → Bool
nat_includes [] n = false
nat_includes (m ∷ ms) n = nat_eq m n || nat_includes ms n

-- `depthSet.size === depths.length`
abbrev pub nat_distinct : List ℕ → Bool
nat_distinct [] = true
nat_distinct (n ∷ ns) = not (nat_includes ns n) && nat_distinct ns

-- `Math.max(...depths)` of whole numbers.
abbrev pub max_of : List ℕ → ℕ
max_of [] = 0
max_of (n ∷ ns) = max n (max_of ns)

-- `count` depths from `d` on.
unfoldable pub missing_errors : List ℕ → ℕ → ℕ → List FieldError
missing_errors ds zero d = []
missing_errors ds (suc count) d =
    refuse (not (nat_includes ds d)) "levels"
      (concat ("Depth " ∷ decimal d ∷ " is missing — depths must be contiguous from 0." ∷ []))
    ++ missing_errors ds count (suc d)

unfoldable pub depth_errors : List ℕ → List FieldError
depth_errors ds =
    refuse (not (nat_distinct ds)) "levels" "Each depth may only be defined once."
    ++ (refuse (not (nat_includes ds 0)) "levels" "A step with depth 0 is required."
        ++ missing_errors ds (suc (max_of ds)) 0)

-- A step's identifier is reported if it was seen, and seen from then on; the empty one is skipped.
abbrev pub id_errors : ℕ → ℕ → Step → List String → List FieldError
id_errors d i s seen =
    refuse (not (s.client_id == "") && includes seen s.client_id) (at_step d i "clientId")
      (concat ("Step ID \"" ∷ s.client_id ∷ "\" is used more than once." ∷ []))

abbrev pub seen_after : Step → List String → List String
seen_after s seen = if s.client_id == "" then seen else s.client_id ∷ seen

-- `clientIds`, through the steps of a level and then the levels that follow.
abbrev pub ids_in_steps :
    ℕ → ℕ → List Step → (List String → List FieldError) → List String → List FieldError
ids_in_steps d i [] next seen = next seen
ids_in_steps d i (s ∷ ss) next seen =
    id_errors d i s seen ++ ids_in_steps d (suc i) ss next (seen_after s seen)

unfoldable pub client_id_errors : List Level → List String → List FieldError
client_id_errors [] seen = []
client_id_errors (l ∷ ls) seen = ids_in_steps l.depth 0 l.steps (client_id_errors ls) seen

abbrev pub client_ids : List Step → List String
client_ids [] = []
client_ids (s ∷ ss) = s.client_id ∷ client_ids ss

-- What a destination step claims: a source step, or a message that says why it has none.
pub data Claim : Type 0 where
  no_source : String → Claim
  source : String → Claim

abbrev pub claim_text : List String → List String → String → Claim
claim_text ids used id =
    if id == ""
    then no_source "Every destination step needs a bound source step."
    else if not (includes ids id)
    then no_source "The bound source must be a step in the immediately previous depth."
    else if includes used id
    then no_source "Each source step can be bound to only one destination step."
    else source id

abbrev pub claim : List String → List String → Option String → Claim
claim ids used none = no_source "Every destination step needs a bound source step."
claim ids used (some id) = claim_text ids used id

abbrev pub claim_errors : String → Claim → List FieldError
claim_errors path (no_source message) = error path message ∷ []
claim_errors path (source id) = []

abbrev pub used_with : Claim → List String → List String
used_with (no_source message) used = used
used_with (source id) used = id ∷ used

-- `usedSourceIds` at the end, once each step has claimed.
abbrev pub used_after : List String → List String → List Step → List String
used_after ids used [] = used
used_after ids used (s ∷ ss) =
    used_after ids (used_with (claim ids used s.bound_source_step_id) used) ss

unfoldable pub destination_errors : ℕ → List String → List String → ℕ → List Step → List FieldError
destination_errors d ids used i [] = []
destination_errors d ids used i (s ∷ ss) =
    refuse (not s.has_client_id) (at_step d i "clientId")
      "A stable step ID is required for a bound destination step."
    ++ (claim_errors (at_step d i "boundSourceStepId") (claim ids used s.bound_source_step_id)
        ++ destination_errors d ids (used_with (claim ids used s.bound_source_step_id) used) (suc i)
            ss)

unfoldable pub source_errors : ℕ → ℕ → List Step → List FieldError
source_errors d i [] = []
source_errors d i (s ∷ ss) =
    refuse (not s.has_client_id) (at_step d i "clientId")
      "A stable step ID is required when the next depth uses bind routing."
    ++ source_errors d (suc i) ss

-- Some member of the first list is not in the second.
abbrev pub is_unused : List String → List String → Bool
is_unused used [] = false
is_unused used (id ∷ ids) = not (includes used id) || is_unused used ids

unfoldable pub previous_errors : Level → Option Level → List FieldError
previous_errors l none = []
previous_errors l (some p) =
    let path = at_depth l.depth "bindPrevious" in
    let ids = client_ids p.steps in
    refuse (ltb (length p.steps) 2 || ltb (length l.steps) 2) path
      "Bind routing requires at least two steps in both depths."
    ++ (refuse (not (nat_eq (length p.steps) (length l.steps))) path (
          concat (
            "Bind routing requires the previous and current depths to have the same number of steps ("
            ∷ decimal (length p.steps)
            ∷ " and "
            ∷ decimal (length l.steps)
            ∷ ")."
            ∷ []))
        ++ (source_errors p.depth 0 p.steps
            ++ (destination_errors l.depth ids [] 0 l.steps
                ++ refuse (is_unused (used_after ids [] l.steps) ids) path
                    "Every source step must be bound to exactly one destination step.")))

unfoldable pub bind_errors : List Level → Level → List FieldError
bind_errors ls l =
    let path = at_depth l.depth "bindPrevious" in
    if not l.bind_previous
    then refuse (any is_bound l.steps) path
        "Enable bind routing before assigning bound source steps."
    else if nat_eq l.depth 0
    then error path "Depth 0 cannot bind to a previous depth." ∷ []
    else refuse l.consumes_all path "Bind routing cannot be combined with batch consumption."
      ++ previous_errors l (level_at (l.depth - 1) ls)

-- The routing of each of the levels, among all of them.
unfoldable pub all_bind_errors : List Level → List Level → List FieldError
all_bind_errors ls [] = []
all_bind_errors ls (l ∷ rest) = bind_errors ls l ++ all_bind_errors ls rest
