-- ===== src/Model/Laws.antt =====
-- Which model selections are accepted.
use open_kritt.Prelude.{
  append-nil_iff, ◌≤◌, String, ◌≡◌, refl, sym, ap, subst, ◌≢◌, ◌↔◌, Bool, true, false, not, ◌&&◌,
  all, List, [], ◌∷◌, arith, eq_iff, includes,
}
use open_kritt.Text.{utf16_size}
use open_kritt.Value.{Value, prop, ok, checked-eq-ok_iff}
use open_kritt.Model.Lists.{
  model_providers, harnesses, thinking_efforts, entry, supports_effort, is_known_provider,
  is_known_harness, is_known_effort, model_provider_harnesses, harness_thinking_efforts,
  is_compatible,
}
use open_kritt.Model.{
  Selection, refuse, absent_or_string, model_errors, provider_errors, harness_errors, effort_errors,
  trimmed, provider_of, harness_of, effort_of, provider_value, effort_value, selection_of,
  selection_errors, validate_model_selection, model_id_max_length,
}

-- A model name of one to 200 characters, a harness of the provider, an effort of the harness.
pub record IsSupported (s : Selection) : Type 0 where
  pub named : s.model ≢ ""
  pub short : utf16_size s.model ≤ model_id_max_length
  pub compatible : is_compatible s.model_provider s.harness ≡ true
  pub effort : supports_effort s.harness s.thinking_effort ≡ true

-- Every row's key is among `ks`, and its values are among `vs`.
abbrev covers : (ks vs : List String) → List (String × List String) → Bool
covers ks vs [] = true
covers ks vs ((k, v) ∷ rows) = includes ks k && all (includes vs) v && covers ks vs rows

includes-all :
    (v vs : List String) (h : String)
    → all (includes vs) v ≡ true
    → includes v h ≡ true
    → includes vs h ≡ true
includes-all [] vs h a i = cc
includes-all (x ∷ v) vs h a i = ground (arith, includes-all v vs h, eq_iff x h)

includes-entry :
    (ks vs : List String) (rows : List (String × List String)) (k h : String)
    → covers ks vs rows ≡ true
    → includes (entry k rows) h ≡ true
    → (includes ks k ≡ true) × (includes vs h ≡ true)
includes-entry ks vs [] k h c i = cc
includes-entry ks vs ((j, v) ∷ rows) k h c i =
    ground (arith, includes-entry ks vs rows k h, includes-all v vs h, eq_iff j k)

harness_known :
    (p h : String)
    → is_compatible p h ≡ true
    → (is_known_provider p ≡ true) × (is_known_harness h ≡ true)
unfolding is_compatible is_known_provider is_known_harness
harness_known p h = includes-entry model_providers harnesses model_provider_harnesses p h refl

effort_known : (h e : String) → supports_effort h e ≡ true → is_known_effort e ≡ true
unfolding supports_effort is_known_effort
effort_known h e i =
    (includes-entry harnesses thinking_efforts harness_thinking_efforts h e refl i).1

no_empty_harness : is_known_harness "" ≡ false
unfolding is_known_harness
no_empty_harness = refl

-- The provider and the effort, where they are given, are texts.
abbrev pub HasTexts : Value → Type 0
HasTexts body =
    (absent_or_string (provider_value body) ≡ true) × (absent_or_string (effort_value body) ≡ true)

-- The four checks on what they read.
refuse_iff : (b : Bool) (f m : String) → (refuse b f m ≡ []) ↔ (b ≡ false)
refuse_iff true f m = (λ h. cc, λ h. cc)
refuse_iff false f m = (λ _. refl, λ _. refl)

model_errors_iff :
    (p : String) (v : Value)
    → (model_errors p v ≡ []) ↔ ((trimmed v ≢ "") × (utf16_size (trimmed v) ≤ model_id_max_length))
unfolding model_errors
model_errors_iff p v = ground (arith, eq_iff (trimmed v) "")

provider_errors_iff :
    (p : String) (v : Value)
    → (provider_errors p v ≡ [])
      ↔ ((absent_or_string v ≡ true) × (is_known_provider (provider_of v) ≡ true))
unfolding provider_errors
provider_errors_iff p v = ground arith

harness_errors_iff :
    (p q : String) (v : Value)
    → is_known_provider q ≡ true
    → (harness_errors p q v ≡ []) ↔ (is_compatible q (harness_of v) ≡ true)
unfolding harness_errors
harness_errors_iff p q v k = ground (
  arith,
  harness_known q (harness_of v),
  no_empty_harness,
  eq_iff (harness_of v) "",
  ap is_known_harness,
)

effort_errors_iff :
    (p h : String) (v : Value)
    → is_known_harness h ≡ true
    → (effort_errors p h v ≡ [])
      ↔ ((absent_or_string v ≡ true) × (supports_effort h (effort_of v) ≡ true))
unfolding effort_errors
effort_errors_iff p h v k = ground (arith, effort_known h (effort_of v))

-- A selection is accepted exactly when what it stands for is supported and its provider and effort
-- are texts or absent.
pub selection_errors_iff :
    (p : String) (body : Value)
    → (selection_errors p body ≡ []) ↔ (IsSupported (selection_of body) × HasTexts body)
unfolding selection_errors selection_of
selection_errors_iff p body =
    let pv = provider_value body in
    let hv = prop "harness" body in
    let ev = effort_value body in
    let es = effort_errors p (harness_of hv) ev in
    let hs = harness_errors p (provider_of pv) hv in
    (
      λ h.
          let (m, h1) = (append-nil_iff (model_errors p (prop "model" body)) _).0 h in
          let (q, h2) = (append-nil_iff (provider_errors p pv) _).0 h1 in
          let (k, e) = (append-nil_iff hs es).0 h2 in
          let (named, short) = (model_errors_iff p (prop "model" body)).0 m in
          let (text, known) = (provider_errors_iff p pv).0 q in
          let fits = (harness_errors_iff p (provider_of pv) hv known).0 k in
          let (effort_text, supported) =
            (effort_errors_iff p (harness_of hv) ev (harness_known _ _ fits).1).0 e in
          (
            record { named = named; short = short; compatible = fits; effort = supported },
            (text, effort_text),
          ),
      λ (s, (text, effort_text)).
          let (known, known_h) = harness_known _ _ s.compatible in
          (append-nil_iff (model_errors p (prop "model" body)) _).1 (
            (model_errors_iff p (prop "model" body)).1 (s.named, s.short),
            (append-nil_iff (provider_errors p pv) _).1 (
              (provider_errors_iff p pv).1 (text, known),
              (append-nil_iff hs es).1 (
                (harness_errors_iff p (provider_of pv) hv known).1 s.compatible,
                (effort_errors_iff p (harness_of hv) ev known_h).1 (effort_text, s.effort),
              ),
            ),
          ),
    )

pub validate_model_selection_iff :
    (body : Value) (s : Selection)
    → (validate_model_selection body ≡ ok s)
      ↔ ((selection_of body ≡ s) × IsSupported s × HasTexts body)
unfolding validate_model_selection
validate_model_selection_iff body s =
    let (to, from) = checked-eq-ok_iff (selection_errors "" body) (selection_of body) s in
    (
      λ h.
          let (none_wrong, same) = to h in
          let (fits, texts) = (selection_errors_iff "" body).0 none_wrong in
          (same, subst IsSupported same fits, texts),
      λ (same, fits, texts).
          from ((selection_errors_iff "" body).1 (subst IsSupported (sym same) fits, texts), same),
    )

-- No row of a table has the value.
abbrev lacks : String → List (String × List String) → Bool
lacks h [] = true
lacks h ((k, v) ∷ rows) = not (includes v h) && lacks h rows

not_includes-entry :
    (rows : List (String × List String)) (k h : String)
    → lacks h rows ≡ true
    → includes (entry k rows) h ≡ false
not_includes-entry [] k h l = refl
not_includes-entry ((j, v) ∷ rows) k h l = ground (arith, not_includes-entry rows k h)

cursor_unsupported : (p : String) → is_compatible p "cursor" ≡ false
unfolding is_compatible
cursor_unsupported p = not_includes-entry model_provider_harnesses p "cursor" refl

-- The harness "cursor", and what stands for it, is listed among the harnesses and refused
-- with every provider.
pub cursor_refused :
    (p : String) (body : Value)
    → (selection_of body).harness ≡ "cursor"
    → (is_known_harness "cursor" ≡ true) × (selection_errors p body ≢ [])
unfolding is_known_harness
cursor_refused p body c = (
  refl,
  λ e.
      let (s, _) = (selection_errors_iff p body).0 e in
      cc (
        s.compatible,
        cursor_unsupported (selection_of body).model_provider,
        ap (is_compatible (selection_of body).model_provider) c,
      ),
)
