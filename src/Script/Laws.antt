-- ===== src/Script/Laws.antt =====
-- Which post-scripts are accepted.
use open_kritt.Prelude.{
  ◌≤◌, ◌≡◌, ◌↔◌, refl, ap, ◌∙◌, sym, true, false, not, Option, none, some, List, [], ◌∷◌, arith,
  append-nil_iff, String, includes, ◌==◌,
}
use open_kritt.Text.{trim, is_valid_key, concat}
use open_kritt.Value.{Value, Fields, end, field, prop, ok, checked-eq-ok_iff}
use open_kritt.Model.{trimmed, refuse}
use open_kritt.Descriptor.{
  max_descriptor_depth, max_descriptor_fields, is_reserved_output_key, validate_field_definition,
}
use open_kritt.Descriptor.Meaning.{IsDefinition, declared_fields}
use open_kritt.Descriptor.Laws.{validate_field_definition_iff}
use open_kritt.Format.{normalize_output_format, duplicate_output_format_keys}
use open_kritt.Template.{parse_refs, has_malformed_template_refs}
use open_kritt.Workflow.Content.{output_field_errors, set_from, unresolved, has_no_key}
use open_kritt.Workflow.Depths.{refuse-nil_iff}
use open_kritt.Workflow.Prompts.{unresolved_iff, includes-set_from, resolves}
use open_kritt.Script.{
  reserved_post_script_keys, PostScript, is_unrendered, script_key_errors, script_keys_errors,
  duplicate_errors, reading_errors, fields_or_empty, reference_errors, prompt_errors, content_value,
  post_script_errors, post_script_of, format_value, validate_post_script,
}

-- A key that a post-script may put out, after the keys `seen`.
pub record IsScriptKey (seen : List String) (k : String) (v : Value) : Type 0 where
  pub valid : is_valid_key k ≡ true
  pub free : includes reserved_post_script_keys k ≡ false
  pub new : includes seen k ≡ false
  pub own_to_user : is_reserved_output_key k ≡ false
  pub well_formed : IsDefinition max_descriptor_depth v
  pub small : declared_fields max_descriptor_depth v ≤ max_descriptor_fields
  pub rendered : is_unrendered k v ≡ false
  pub labelled : (k == "_chip_") ≡ false

abbrev pub AreScriptKeys : List String → Fields → Type 0
AreScriptKeys seen end = Unit
AreScriptKeys seen (field k v fs) = IsScriptKey seen k v × AreScriptKeys (k ∷ seen) fs

script_key_errors_iff :
    (seen : List String) (k : String) (v : Value)
    → (script_key_errors seen k v ≡ []) ↔ IsScriptKey seen k v
unfolding script_key_errors output_field_errors
script_key_errors_iff seen k v =
    let path = concat ("outputFormat" ∷ "." ∷ k ∷ []) in
    let a = append-nil_iff (refuse (not (is_valid_key k)) "outputFormat" _) _ in
    let b = append-nil_iff (refuse (includes reserved_post_script_keys k) "outputFormat" _) _ in
    let c = append-nil_iff (refuse (includes seen k) "outputFormat" _) _ in
    let o = append-nil_iff (output_field_errors "outputFormat" k v) _ in
    let d =
      append-nil_iff (refuse (is_reserved_output_key k) path _)
        (validate_field_definition path v) in
    let e =
      append-nil_iff (refuse (is_unrendered k v) "outputFormat" _)
        (refuse (k == "_chip_") "outputFormat" _) in
    let w = validate_field_definition_iff path v in
    (
      λ h.
          let (h1, r1) = a.0 h in
          let (h2, r2) = b.0 r1 in
          let (h3, r3) = c.0 r2 in
          let (h4, r4) = o.0 r3 in
          let (h5, h6) = d.0 h4 in
          let (h7, h8) = e.0 r4 in
          record {
            valid = ground (arith, (refuse-nil_iff _ _ _).0 h1);
            free = (refuse-nil_iff _ _ _).0 h2;
            new = (refuse-nil_iff _ _ _).0 h3;
            own_to_user = (refuse-nil_iff _ _ _).0 h5;
            well_formed = (w.0 h6).0;
            small = (w.0 h6).1;
            rendered = (refuse-nil_iff _ _ _).0 h7;
            labelled = (refuse-nil_iff _ _ _).0 h8;
          },
      λ s. a.1 (
        (refuse-nil_iff _ _ _).1 (ap not s.valid),
        b.1 (
          (refuse-nil_iff _ _ _).1 s.free,
          c.1 (
            (refuse-nil_iff _ _ _).1 s.new,
            o.1 (
              d.1 ((refuse-nil_iff _ _ _).1 s.own_to_user, w.1 (s.well_formed, s.small)),
              e.1 ((refuse-nil_iff _ _ _).1 s.rendered, (refuse-nil_iff _ _ _).1 s.labelled),
            ),
          ),
        ),
      ),
    )

script_keys_errors_iff :
    (seen : List String) (fs : Fields) → (script_keys_errors seen fs ≡ []) ↔ AreScriptKeys seen fs
unfolding script_keys_errors
script_keys_errors_iff seen end = (λ _. tt, λ _. refl)
script_keys_errors_iff seen (field k v fs) =
    let a = append-nil_iff (script_key_errors seen k v) (script_keys_errors (k ∷ seen) fs) in
    let c = script_key_errors_iff seen k v in
    let r = script_keys_errors_iff (k ∷ seen) fs in
    (λ h. (c.0 (a.0 h).0, r.0 (a.0 h).1), λ (p, q). a.1 (c.1 p, r.1 q))

reference_errors_iff : (ks : List String) → (reference_errors ks ≡ []) ↔ (ks ≡ [])
reference_errors_iff [] = (λ _. refl, λ _. refl)
reference_errors_iff (k ∷ ks) = (λ h. cc, λ h. cc)

-- Well-formed templates whose references are reserved keys or name extra values.
abbrev pub IsScriptPrompt : String → Type 0
IsScriptPrompt content =
    (has_malformed_template_refs content ≡ false)
    × ((k : String)
        → includes (parse_refs content) k ≡ true
        → resolves reserved_post_script_keys k ≡ true)

prompt_errors_iff : (content : String) → (prompt_errors content ≡ []) ↔ IsScriptPrompt content
unfolding prompt_errors
prompt_errors_iff content =
    let refs = set_from [] (parse_refs content) in
    let a = append-nil_iff (refuse (has_malformed_template_refs content) "content" _) _ in
    let u = unresolved_iff reserved_post_script_keys refs in
    let e = reference_errors_iff (unresolved reserved_post_script_keys refs) in
    let same = λ (k : String). includes-set_from [] (parse_refs content) k in
    (
      λ h. ((refuse-nil_iff _ _ _).0 (a.0 h).0, λ k i. u.0 (e.0 (a.0 h).1) k (same k ∙ i)),
      λ (m, f). a.1 ((refuse-nil_iff _ _ _).1 m, e.1 (u.1 (λ k i. f k (sym (same k) ∙ i)))),
    )

duplicate_errors_iff : (ks : List String) → (duplicate_errors ks ≡ []) ↔ (ks ≡ [])
duplicate_errors_iff [] = (λ _. refl, λ _. refl)
duplicate_errors_iff (k ∷ ks) = (λ h. cc, λ h. cc)

-- The format could be read, and its source names no key twice.
abbrev pub IsRead : Option Fields → List String → Type 0
IsRead none duplicates = ⊥
IsRead (some fs) duplicates = duplicates ≡ []

reading_errors_iff :
    (o : Option Fields) (ks : List String) → (reading_errors o ks ≡ []) ↔ IsRead o ks
reading_errors_iff none ks = (λ h. cc, λ h. elim h [ ])
reading_errors_iff (some fs) ks = duplicate_errors_iff ks

pub record IsPostScript (body : Value) (format : Option Fields) (duplicates : List String)
    : Type 0 where
  pub named : (trimmed (prop "name" body) == "") ≡ false
  pub filled : (trim (content_value body) == "") ≡ false
  pub read : IsRead format duplicates
  pub some_key : has_no_key (fields_or_empty format) ≡ false
  pub script_keys : AreScriptKeys [] (fields_or_empty format)
  pub prompt : IsScriptPrompt (content_value body)

post_script_errors_iff :
    (body : Value) (format : Option Fields) (ks : List String)
    → (post_script_errors body format ks ≡ []) ↔ IsPostScript body format ks
unfolding post_script_errors
post_script_errors_iff body format ks =
    let fs = fields_or_empty format in
    let a = append-nil_iff (refuse (trimmed (prop "name" body) == "") "name" _) _ in
    let b = append-nil_iff (refuse (trim (content_value body) == "") "content" _) _ in
    let c = append-nil_iff (reading_errors format ks) _ in
    let d = append-nil_iff (refuse (has_no_key fs) "outputFormat" _) _ in
    let e = append-nil_iff (script_keys_errors [] fs) (prompt_errors (content_value body)) in
    let r = reading_errors_iff format ks in
    let k = script_keys_errors_iff [] fs in
    let p = prompt_errors_iff (content_value body) in
    (
      λ h.
          let (h1, r1) = a.0 h in
          let (h2, r2) = b.0 r1 in
          let (h3, r3) = c.0 r2 in
          let (h4, r4) = d.0 r3 in
          let (h5, h6) = e.0 r4 in
          record {
            named = (refuse-nil_iff _ _ _).0 h1;
            filled = (refuse-nil_iff _ _ _).0 h2;
            read = r.0 h3;
            some_key = (refuse-nil_iff _ _ _).0 h4;
            script_keys = k.0 h5;
            prompt = p.0 h6;
          },
      λ s. a.1 (
        (refuse-nil_iff _ _ _).1 s.named,
        b.1 (
          (refuse-nil_iff _ _ _).1 s.filled,
          c.1 (
            r.1 s.read,
            d.1 ((refuse-nil_iff _ _ _).1 s.some_key, e.1 (k.1 s.script_keys, p.1 s.prompt)),
          ),
        ),
      ),
    )

-- A post-script is accepted when each check finds nothing, as what was read.
pub validate_post_script_iff :
    (parse_json : String → Option Value) (body : Value) (s : PostScript)
    → let format = normalize_output_format parse_json (format_value body) in
      (validate_post_script parse_json body ≡ ok s) ↔ (
        IsPostScript body format (duplicate_output_format_keys parse_json (format_value body))
        × (post_script_of body format ≡ s))
unfolding validate_post_script
validate_post_script_iff parse_json body s =
    let format = normalize_output_format parse_json (format_value body) in
    let ks = duplicate_output_format_keys parse_json (format_value body) in
    let c = checked-eq-ok_iff (post_script_errors body format ks) (post_script_of body format) s in
    let i = post_script_errors_iff body format ks in
    (λ h. (i.0 (c.0 h).0, (c.0 h).1), λ (p, e). c.1 (i.1 p, e))
