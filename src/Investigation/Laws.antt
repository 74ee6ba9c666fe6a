-- ===== src/Investigation/Laws.antt =====
-- The investigation keys are checked and set at creation, and never change later.
use open_kritt.Prelude.{
  ◌∙◌, String, ◌≡◌, refl, sym, ap, subst, ◌↔◌, ◌||◌, ◌⊎◌, inr, true, false, Option, none, some,
  List, [], ◌∷◌, ◌==◌, arith, eq_refl, if◌then◌else◌, append-nil_iff, All,
}
use open_kritt.Value.{
  Value, undefined, null, bool, number, real, string, array, object, Fields, own, get, assign,
  object_or_empty, is_nullish, text_among, strict_equal, FieldError,
}
use open_kritt.Value.Objects.{own-assign}
use open_kritt.Value.Texts.{to_text}
use open_kritt.Investigation.{
  settle, Pipeline, investigation_kinds, investigation_configuration_keys, policy_version_of,
  kind_errors, version_errors, investigation_kind_for_scan, immutable_key_errors, immutable_errors,
  assert_immutable_investigation_keys,
}

-- What is sent for a key agrees with what is there: it is not sent, it is nothing and nothing is
-- there, or it is the same primitive value.
abbrev pub Agrees : Option Value → Option Value → Type 0
Agrees current none = Unit
Agrees none (some value) = is_nullish value ≡ true
Agrees (some c) (some value) =
    ((is_nullish value ≡ true) × (is_nullish c ≡ true))
    ⊎ ((is_nullish value ≡ false) × (is_nullish c ≡ false) × (strict_equal value c ≡ true))

immutable_key_iff :
    (k : String) (current next : Option Value)
    → (immutable_key_errors k current next ≡ []) ↔ Agrees current next
unfolding immutable_key_errors
immutable_key_iff k current none = (λ _. tt, λ _. refl)
immutable_key_iff k none (some v) = ground arith
immutable_key_iff k (some c) (some v) = ground arith

immutable_iff :
    (current next : Fields) (ks : List String)
    → (immutable_errors current next ks ≡ []) ↔ All (λ k. Agrees (own k current) (own k next)) ks
unfolding immutable_errors
immutable_iff current next [] = (λ _. tt, λ _. refl)
immutable_iff current next (k ∷ ks) = (
  λ h.
      let (here, later) =
        (append-nil_iff (immutable_key_errors k (own k current) (own k next)) _).0 h in
      ((immutable_key_iff k _ _).0 here, (immutable_iff current next ks).0 later),
  λ (here, later).
      (append-nil_iff (immutable_key_errors k (own k current) (own k next)) _).1
        ((immutable_key_iff k _ _).1 here, (immutable_iff current next ks).1 later),
)

-- An update is let through exactly when each of the three keys that it sends agrees with the
-- configuration that is there.
pub assert_immutable_iff :
    (existing incoming : Value)
    → (assert_immutable_investigation_keys existing incoming ≡ [])
      ↔ All
          (λ k. Agrees (own k (object_or_empty existing)) (own k (object_or_empty incoming)))
          investigation_configuration_keys
unfolding assert_immutable_investigation_keys
assert_immutable_iff existing incoming = immutable_iff _ _ investigation_configuration_keys

-- What a gated scan needs: a known kind, and a policy version that is not sent or is the pipeline's.
abbrev pub IsChosen : Fields → Value → Type 0
IsChosen input version =
    (text_among investigation_kinds (get "investigation_kind" input) ≡ true)
    × ((is_nullish (get "readiness_policy_version" input)
          || strict_equal (get "readiness_policy_version" input) version)
        ≡ true)

kind_errors_iff : (k : Value) → (kind_errors k ≡ []) ↔ (text_among investigation_kinds k ≡ true)
kind_errors_iff k = ground arith

version_errors_iff :
    (v : Value) (s : String) (w : Value)
    → (version_errors v s w ≡ []) ↔ ((is_nullish w || strict_equal w v) ≡ true)
version_errors_iff v s w = ground arith

settle-errors : (es : List FieldError) (a b : Fields) → (settle es a b).1 ≡ es
settle-errors [] a b = refl
settle-errors (e ∷ es) a b = refl

settle_of_none : (es : List FieldError) (a b : Fields) → es ≡ [] → (settle es a b).0 ≡ a
settle_of_none [] a b h = refl
settle_of_none (e ∷ es) a b h = cc h

-- A gated scan is created without an error exactly when its configuration has one of the known
-- kinds and sends no policy version, or the pipeline's own.
pub investigation_kind_for_scan-accepts_iff :
    (c : Value) (p : Pipeline)
    → ((investigation_kind_for_scan c (some p)).1 ≡ [])
      ↔ IsChosen (object_or_empty c) (policy_version_of p)
unfolding investigation_kind_for_scan
investigation_kind_for_scan-accepts_iff c p =
    let input = object_or_empty c in
    let v = policy_version_of p in
    let kind = get "investigation_kind" input in
    let sent = get "readiness_policy_version" input in
    let parts = append-nil_iff (kind_errors kind) (version_errors v (to_text v) sent) in
    (
      λ h.
          let (a, b) = parts.0 (sym (settle-errors _ _ _) ∙ h) in
          ((kind_errors_iff kind).0 a, (version_errors_iff v (to_text v) sent).0 b),
      λ (a, b).
          settle-errors _ _ _
          ∙ parts.1 ((kind_errors_iff kind).1 a, (version_errors_iff v (to_text v) sent).1 b),
    )

-- The value of a key in the configuration that a gated scan starts with.
abbrev pub chosen_value : Fields → Value → String → Option Value
chosen_value input version j =
    if "readiness_policy_version" == j
    then some version
    else if "investigation_kind_source" == j
    then some (string "user")
    else if "investigation_kind" == j
    then some (get "investigation_kind" input)
    else own j input

-- A gated scan that is created without an error starts with the submitted kind, the source "user"
-- and the pipeline's policy version, and every other key as it was submitted.
pub investigation_kind_for_scan-own :
    (c : Value) (p : Pipeline) (j : String)
    → (investigation_kind_for_scan c (some p)).1 ≡ []
    → own j (investigation_kind_for_scan c (some p)).0
      ≡ chosen_value (object_or_empty c) (policy_version_of p) j
unfolding investigation_kind_for_scan
investigation_kind_for_scan-own c p j h =
    let input = object_or_empty c in
    let v = policy_version_of p in
    let a = assign "investigation_kind" (get "investigation_kind" input) input in
    let b = assign "investigation_kind_source" (string "user") a in
    ap (own j) (settle_of_none _ _ input (sym (settle-errors _ _ _) ∙ h))
    ∙ own-assign "readiness_policy_version" j v b
    ∙ ap (λ r. if "readiness_policy_version" == j then some v else r)
        (own-assign "investigation_kind_source" j (string "user") a
          ∙ ap (λ r. if "investigation_kind_source" == j then some (string "user") else r)
              (own-assign "investigation_kind" j (get "investigation_kind" input) input))

-- A text value that is sent again agrees with itself.
Agrees-of_text : (o : Option Value) (s : String) → o ≡ some (string s) → Agrees o o
Agrees-of_text o s e = subst (λ o. Agrees o o) (sym e) (inr (refl, refl, eq_refl s))

pub text_of-text_among :
    (ss : List String) (v : Value) → text_among ss v ≡ true → (s : String) × (v ≡ string s)
text_of-text_among ss (string s) h = (s, refl)
text_of-text_among ss undefined h = cc h
text_of-text_among ss null h = cc h
text_of-text_among ss (bool _) h = cc h
text_of-text_among ss (number _) h = cc h
text_of-text_among ss (real _) h = cc h
text_of-text_among ss (array _) h = cc h
text_of-text_among ss (object _) h = cc h

-- The configuration that a gated scan starts with, sent again, passes the check of an update, if
-- the pipeline's policy version is a text.
pub resubmission_accepted :
    (c : Value) (p : Pipeline) (s : String)
    → policy_version_of p ≡ string s
    → (investigation_kind_for_scan c (some p)).1 ≡ []
    → let r = object (investigation_kind_for_scan c (some p)).0 in
      assert_immutable_investigation_keys r r ≡ []
resubmission_accepted c p s e h =
    let r = object (investigation_kind_for_scan c (some p)).0 in
    let (known, _) = (investigation_kind_for_scan-accepts_iff c p).0 h in
    let (kind, is_kind) = text_of-text_among investigation_kinds _ known in
    (assert_immutable_iff r r).1 (
      Agrees-of_text _ kind
          (investigation_kind_for_scan-own c p "investigation_kind" h ∙ ap some is_kind),
      (
        Agrees-of_text _ "user" (investigation_kind_for_scan-own c p "investigation_kind_source" h),
        (
          Agrees-of_text _ s
              (investigation_kind_for_scan-own c p "readiness_policy_version" h ∙ ap some e),
          tt,
        ),
      ),
    )
