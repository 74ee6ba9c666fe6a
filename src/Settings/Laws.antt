-- ===== src/Settings/Laws.antt =====
-- A change of settings leaves a scan with a selection that is supported.
use open_kritt.Prelude.{
  ℕ, String, ◌≡◌, refl, ap, ◌∙◌, sym, subst, Bool, true, false, not, ◌&&◌, Option, none, some, List,
  if◌then◌else◌, Bool-cases, inl, inr,
}
use open_kritt.Value.{
  Value, undefined, string, object, Fields, end, field, get, has_own, coalesce, object_or_empty,
  Checked, ok, invalid,
}
use open_kritt.Model.{
  Selection, selection_of, validate_model_selection, trimmed, provider_of, harness_of, effort_of,
}
use open_kritt.Model.Laws.{IsSupported, validate_model_selection_iff}
use open_kritt.Settings.Overrides.{validate_post_processing}
use open_kritt.Settings.Asked.{
  has_provider, has_effort, has_selection, has_post_runtime, has_overrides,
}
use open_kritt.Settings.{
  Changes, Prospective, nothing_asked, asked_request, current_request, then_check, some_checked,
  asked_selection, prospective_selection, next_post_processing, selection_value, asked_overrides,
  part_if, changes_of, validate_asked, validate_prospective,
}

-- The settings of a row that has the selection.
abbrev pub row : Selection → Value → Value
row s configuration = object (
    field "model" (string s.model) (
      field "modelProvider" (string s.model_provider) (
        field "harness" (string s.harness) (
          field "thinkingEffort" (string s.thinking_effort)
            (field "configuration" configuration end)))))

-- What a stored selection is: the one that is read from it, and supported.
abbrev pub IsStored : Selection → Value → Type 0
IsStored s configuration =
    (selection_of (current_request (row s configuration)) ≡ s) × IsSupported s

abbrev or_old : Option String → String → String
or_old none old = old
or_old (some new) old = new

-- The selection of the row once the changes are written.
abbrev pub written : Changes → Selection → Selection
written c s = record {
  model = or_old c.model s.model;
  model_provider = or_old c.model_provider s.model_provider;
  harness = or_old c.harness s.harness;
  thinking_effort = or_old c.thinking_effort s.thinking_effort;
}

then_check_ok {ℓ κ} :
    {A : Type ℓ} {B : Type κ} (c : Checked A) (f : A → Checked B) (b : B)
    → then_check c f ≡ ok b
    → (a : A) × (c ≡ ok a) × (f a ≡ ok b)
then_check_ok (ok a) f b h = (a, refl, h)
then_check_ok (invalid es) f b h = cc

some_checked_ok {ℓ} :
    {A : Type ℓ} (c : Checked A) (o : Option A)
    → some_checked c ≡ ok o
    → (a : A) × (c ≡ ok a) × (some a ≡ o)
some_checked_ok (ok a) o h = (a, refl, cc)
some_checked_ok (invalid es) o h = cc

ok_same {ℓ} : {A : Type ℓ} {a b : A} → ok a ≡ ok b → a ≡ b
ok_same e = cc

-- A part that is not asked for is what is read from the row.
part_kept :
    (b : Bool) (asked : Value) (f : Selection → String) (read : Value → String) (old : Value)
    (s new : Selection) (same : f new ≡ read (if b then asked else old))
    → read old ≡ f s
    → or_old (part_if b f (some new)) (f s) ≡ f new
part_kept true asked f read old s new same e = refl
part_kept false asked f read old s new same e = sym (same ∙ e)

same_selection :
    (a b c d : String) (s : Selection)
    → a ≡ s.model
    → b ≡ s.model_provider
    → c ≡ s.harness
    → d ≡ s.thinking_effort
    → record { model = a; model_provider = b; harness = c; thinking_effort = d } ≡ s
same_selection a b c d s ea eb ec ed = rw (ea, eb, ec, ed) refl

-- Once the changes are written, the row has the selection that was checked.
written_new :
    (fs : Fields) (s : Selection) (configuration : Value) (post : Selection)
    (overrides : Option (List (String × Selection)))
    → selection_of (current_request (row s configuration)) ≡ s
    → let new = selection_of (asked_request fs (row s configuration)) in
      written (changes_of fs (some new) post overrides) s ≡ new
unfolding selection_of
written_new fs s configuration post overrides e =
    let new = selection_of (asked_request fs (row s configuration)) in
    same_selection _ _ _ _ new
      (part_kept (has_own fs "model") (get "model" fs) Selection.model trimmed (string s.model) s
        new refl (ap Selection.model e))
      (part_kept (has_provider fs) (coalesce (get "model_provider" fs) (get "modelProvider" fs))
        Selection.model_provider (λ v. provider_of (coalesce v undefined)) (string s.model_provider)
        s new refl (ap Selection.model_provider e))
      (part_kept (has_own fs "harness") (get "harness" fs) Selection.harness harness_of
        (string s.harness) s new refl (ap Selection.harness e))
      (part_kept (has_effort fs) (coalesce (get "thinking_effort" fs) (get "thinkingEffort" fs))
        Selection.thinking_effort (λ v. effort_of (coalesce v undefined)) (string s.thinking_effort)
        s new refl (ap Selection.thinking_effort e))

no_part : (b : Bool) (f : Selection → String) → part_if b f none ≡ none
no_part true f = refl
no_part false f = refl

written-none :
    (fs : Fields) (s post : Selection) (overrides : Option (List (String × Selection)))
    → written (changes_of fs none post overrides) s ≡ s
written-none fs s post overrides =
    same_selection _ _ _ _ s
      (ap (λ o. or_old o s.model) (no_part (has_own fs "model") Selection.model))
      (ap (λ o. or_old o s.model_provider) (no_part (has_provider fs) Selection.model_provider))
      (ap (λ o. or_old o s.harness) (no_part (has_own fs "harness") Selection.harness))
      (ap (λ o. or_old o s.thinking_effort) (no_part (has_effort fs) Selection.thinking_effort))

-- The selection of the body, if it has one, and the row that results from it.
asked_written :
    (b : Bool) (fs : Fields) (s : Selection) (configuration : Value) (o : Option Selection)
    → IsStored s configuration
    → asked_selection b fs (row s configuration) ≡ ok o
    → (post : Selection) (overrides : Option (List (String × Selection)))
    → IsSupported (written (changes_of fs o post overrides) s)
asked_written false fs s configuration o (e, fit) h post overrides =
    let none_asked = ok_same h in
    subst (λ p. IsSupported (written (changes_of fs p post overrides) s)) none_asked
      (subst IsSupported (sym (written-none fs s post overrides)) fit)
asked_written true fs s configuration o (e, fit) h post overrides =
    let request = asked_request fs (row s configuration) in
    let (new, valid, same) = some_checked_ok (validate_model_selection request) o h in
    let (read, supported, texts) = (validate_model_selection_iff request new).0 valid in
    subst (λ p. IsSupported (written (changes_of fs p post overrides) s)) (ap some read ∙ same)
      (subst IsSupported (sym (written_new fs s configuration post overrides e))
        (subst IsSupported (sym read) supported))

validate_asked-IsSupported :
    (allowed : Option (List ℕ)) (fs : Fields) (s : Selection) (configuration : Value)
    (p : Prospective)
    → IsStored s configuration
    → validate_asked allowed fs (row s configuration) ≡ ok p
    → IsSupported (written p.changes s)
unfolding validate_asked
validate_asked-IsSupported allowed fs s configuration p stored h =
    let current = row s configuration in
    let (o, asked, rest) = then_check_ok (asked_selection (has_selection fs) fs current) _ p h in
    let (q, _, rest2) = then_check_ok (prospective_selection o current) _ p rest in
    let (post, _, rest3) =
      then_check_ok (validate_post_processing (next_post_processing fs current) (selection_value q))
        _ p rest2 in
    let (overrides, _, last) =
      then_check_ok (asked_overrides (has_overrides fs) allowed fs) _ p rest3 in
    subst (λ r. IsSupported (written r.changes s)) (ok_same last)
      (asked_written (has_selection fs) fs s configuration o stored asked post overrides)

-- However a request changes the settings of a scan whose selection is stored and supported, if it is
-- accepted, the selection of the scan after the changes are written is supported again: a harness of
-- its provider and an effort of its harness, although the request may name only one of them.
pub validate_prospective-IsSupported :
    (allowed : Option (List ℕ)) (body : Value) (s : Selection) (configuration : Value)
    (p : Prospective)
    → IsStored s configuration
    → validate_prospective allowed body (row s configuration) ≡ ok p
    → IsSupported (written p.changes s)
unfolding validate_prospective
validate_prospective-IsSupported allowed body s configuration p stored h =
    let fs = object_or_empty body in
    let current = row s configuration in
    elim (Bool-cases
      (not (has_selection fs) && not (has_post_runtime fs) && not (has_overrides fs))) [
        | inl quiet ↦
            let e =
              ap (λ b. if b then ok nothing_asked else validate_asked allowed fs current) quiet in
            subst (λ r. IsSupported (written r.changes s)) (ok_same (sym e ∙ h)) stored.1
        | inr busy ↦
            let e =
              ap (λ b. if b then ok nothing_asked else validate_asked allowed fs current) busy in
            validate_asked-IsSupported allowed fs s configuration p stored (sym e ∙ h)
      ]
