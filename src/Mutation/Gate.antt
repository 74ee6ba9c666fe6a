-- ===== src/Mutation/Gate.antt =====
-- `createLatestFieldMutationGate` of frontend/src/lib/latestMutation.js: which fields of a request
-- no newer request has taken over.
use open_kritt.Prelude.{
  ℕ, ◌+◌, ◌≤◌, String, ◌≡◌, refl, ap, ap₂, ◌∙◌, Bool, true, false, not, ◌&&◌, ◌||◌, Option, none,
  some, List, [], ◌∷◌, arith, nat_eq, if◌then◌else◌, map_get, map_set, map_get-map_set, includes,
  eq_refl,
}
use open_kritt.Mutation.{key_for}

pub record Gate : Type 0 where
  pub sequence : ℕ
  pub latest_by_field : List (String × ℕ)

-- What `begin` returns: each field goes with its key.
pub record Request : Type 0 where
  pub id : ℕ
  pub entries : List (String × String)

abbrev pub entries_of : List String → String → List (String × String)
entries_of [] scope = []
entries_of (f ∷ fs) scope = (f, key_for scope f) ∷ entries_of fs scope

abbrev pub set_all : ℕ → List (String × String) → List (String × ℕ) → List (String × ℕ)
set_all id [] m = m
set_all id ((_, key) ∷ es) m = set_all id es (map_set key id m)

abbrev pub begin : List String → String → Gate → Request × Gate
begin fields scope g =
    let id = g.sequence + 1 in
    let entries = entries_of fields scope in
    (
      record { id = id; entries = entries },
      record { sequence = id; latest_by_field = set_all id entries g.latest_by_field },
    )

-- `latestByField.get(key) === request.id`
abbrev pub is_latest : ℕ → Option ℕ → Bool
is_latest id none = false
is_latest id (some n) = nat_eq n id

abbrev pub kept_fields : (String → Bool) → List (String × String) → List String
kept_fields p [] = []
kept_fields p ((f, key) ∷ es) = if p key then f ∷ kept_fields p es else kept_fields p es

abbrev pub current_fields : Request → Gate → List String
current_fields request g =
    kept_fields (λ key. is_latest request.id (map_get key g.latest_by_field)) request.entries

-- Further requests, from the first on.
abbrev pub begin_all : List (List String × String) → Gate → Gate
begin_all [] g = g
begin_all ((fields, scope) ∷ rs) g = begin_all rs (begin fields scope g).1

abbrev pub entry_keys : List (String × String) → List String
entry_keys [] = []
entry_keys ((_, key) ∷ es) = key ∷ entry_keys es

-- Some of the requests has the key among its fields.
abbrev pub taken_over : List (List String × String) → String → Bool
taken_over [] key = false
taken_over ((fields, scope) ∷ rs) key =
    if includes (entry_keys (entries_of fields scope)) key then true else taken_over rs key

map_get-set_all :
    (id : ℕ) (es : List (String × String)) (m : List (String × ℕ)) (k : String)
    → map_get k (set_all id es m) ≡ (if includes (entry_keys es) k then some id else map_get k m)
map_get-set_all id [] m k = refl
map_get-set_all id ((f, key) ∷ es) m k =
    ground (arith, map_get-set_all id es (map_set key id m) k, map_get-map_set key k id m)

latest_iff :
    (id : ℕ) (rs : List (List String × String)) (g : Gate) (k : String)
    → id ≤ g.sequence
    → is_latest id (map_get k (begin_all rs g).latest_by_field)
      ≡ (not (taken_over rs k) && is_latest id (map_get k g.latest_by_field))
latest_iff id [] g k h = refl
latest_iff id ((fields, scope) ∷ rs) g k h = ground (
  arith,
  latest_iff id rs (begin fields scope g).1 k (omega (arith, h)),
  map_get-set_all (g.sequence + 1) (entries_of fields scope) g.latest_by_field k,
)

is_latest_self : (n : ℕ) → is_latest n (some n) ≡ true
is_latest_self n = ground arith

kept_fields_eq :
    (p r : String → Bool) (es : List (String × String))
    → ((k : String) → includes (entry_keys es) k ≡ true → p k ≡ r k)
    → kept_fields p es ≡ kept_fields r es
kept_fields_eq p r [] h = refl
kept_fields_eq p r ((f, key) ∷ es) h =
    let e = h key (ap (λ b. b || includes (entry_keys es) key) (eq_refl key)) in
    let rest = kept_fields_eq p r es (λ k m. h k ground (arith, m)) in
    ap₂ (λ b l. if b then f ∷ l else l) e rest

-- However many requests begin after a request, its current fields are those of its fields, in their
-- order, that no later request has in the same scope.
pub current_fields_exact :
    (fields : List String) (scope : String) (g : Gate) (later : List (List String × String))
    → let r = begin fields scope g in
      current_fields r.0 (begin_all later r.1)
      ≡ kept_fields (λ key. not (taken_over later key)) (entries_of fields scope)
current_fields_exact fields scope g later =
    let id = g.sequence + 1 in
    let es = entries_of fields scope in
    kept_fields_eq _ _ es (λ k m.
      latest_iff id later (begin fields scope g).1 k (omega arith)
      ∙ ap (λ o. not (taken_over later k) && is_latest id o)
          (map_get-set_all id es g.latest_by_field k
            ∙ ap (λ b. if b then some id else map_get k g.latest_by_field) m)
      ∙ ap (λ b. not (taken_over later k) && b) (is_latest_self id)
      ∙ ground arith)
