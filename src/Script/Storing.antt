-- ===== src/Script/Storing.antt =====
-- A post-script that is stored, when it is sent again as it is.
use open_kritt.Prelude.{◌≡◌, refl, sym, ap, ◌∙◌, Option, none, some, List, [], String, ◌==◌, subst}
use open_kritt.Text.{trim}
use open_kritt.Text.Laws.{trim_idem}
use open_kritt.Value.{Value, null, string, object, Fields, end, field, prop, ok}
use open_kritt.Model.{trimmed}
use open_kritt.Format.{normalize_each, normalize_output_format, duplicate_output_format_keys}
use open_kritt.Format.Normal.{output_format-normal}
use open_kritt.Workflow.{string_or_null}
use open_kritt.Workflow.Content.{has_no_key}
use open_kritt.Script.{
  PostScript, fields_or_empty, post_script_of, format_value, validate_post_script,
}
use open_kritt.Script.Laws.{IsRead, IsPostScript, AreScriptKeys, validate_post_script_iff}

abbrev pub text_or_null : Option String → Value
text_or_null none = null
text_or_null (some s) = string s

-- The body of a request that sends a stored post-script as it is.
abbrev pub as_request : PostScript → Value
as_request s = object (
    field "name" (string s.name) (
      field "description" (text_or_null s.description)
        (field "content" (string s.content) (field "outputFormat" (object s.output_format) end))))

-- A format that was read.
read_format : (o : Option Fields) (ks : List String) → IsRead o ks → o ≡ some (fields_or_empty o)
read_format none ks h = elim h [ ]
read_format (some fs) ks h = refl

trimmed_idem : (v : Value) → trim (trimmed v) ≡ trimmed v
unfolding trim
trimmed_idem (string s) = trim_idem s
trimmed_idem _ = refl

described : (o : Option String) → string_or_null (text_or_null o) ≡ o
described none = refl
described (some s) = refl

module _ (body : Value) (format : Option Fields) where
  stored_again :
      (fs : Fields)
      → fs ≡ fields_or_empty format
      → post_script_of (as_request (post_script_of body format)) (some fs)
        ≡ post_script_of body format
  stored_again fs e =
      let t = post_script_of body format in
      ap
        (λ n. record {
          name = n;
          content = t.content;
          description = string_or_null (text_or_null t.description);
          output_format = fs;
        })
        (trimmed_idem (prop "name" body))
      ∙ ap (λ d. record { name = t.name; content = t.content; description = d; output_format = fs })
          (described t.description)
      ∙ ap
          (λ f. record {
            name = t.name;
            content = t.content;
            description = t.description;
            output_format = f;
          })
          e

  IsPostScript-again :
      (ks : List String) (fs : Fields)
      → fs ≡ fields_or_empty format
      → IsPostScript body format ks
      → IsPostScript (as_request (post_script_of body format)) (some fs) []
  IsPostScript-again ks fs e p = record {
    named = ap (λ n. n == "") (trimmed_idem (prop "name" body)) ∙ p.named;
    filled = p.filled;
    read = refl;
    some_key = ap has_no_key e ∙ p.some_key;
    script_keys = subst (AreScriptKeys []) (sym e) p.script_keys;
    prompt = p.prompt;
  }

-- A post-script that `validatePostScript` accepts, from an output format of any form, is accepted again
-- when it is sent as it was stored, and is stored without a change.
pub validate_post_script-as_request :
    (parse_json : String → Option Value) (body : Value) (s : PostScript)
    → validate_post_script parse_json body ≡ ok s
    → validate_post_script parse_json (as_request s) ≡ ok s
validate_post_script-as_request parse_json body s h =
    let format = normalize_output_format parse_json (format_value body) in
    let ks = duplicate_output_format_keys parse_json (format_value body) in
    let t = post_script_of body format in
    let (p, same) = (validate_post_script_iff parse_json body s).0 h in
    let normal =
      output_format-normal parse_json (format_value body) (fields_or_empty format)
        (read_format format ks p.read) in
    let fs = normalize_each (fields_or_empty format) in
    subst (λ r. validate_post_script parse_json (as_request r) ≡ ok r) same
      ((validate_post_script_iff parse_json (as_request t) t).1
        (IsPostScript-again body format ks fs normal p, stored_again body format fs normal))
