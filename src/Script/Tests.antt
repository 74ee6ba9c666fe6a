-- ===== src/Script/Tests.antt =====
-- A post-script that is accepted, and the theorem at it.
use open_kritt.Prelude.{◌≡◌, refl, String, Option, none}
use open_kritt.Value.{Value, string, object, end, field, ok}
use open_kritt.Text.{trim}
use open_kritt.Text.{strip_prefix}
use open_kritt.Descriptor.{walking}
use open_kritt.Template.{
  parse_refs, has_malformed_template_refs, is_extra_ref, extra_sub_key, is_template_ref,
}
use open_kritt.Format.{normalize_definition, normalize_output_format}
use open_kritt.Workflow.Content.{output_field_errors}
use open_kritt.Script.{
  PostScript, script_key_errors, script_keys_errors, prompt_errors, post_script_errors,
  post_script_of, format_value, validate_post_script, validate_generated_post_script,
}
use open_kritt.Script.Storing.{as_request, validate_post_script-as_request}

abbrev no_json : String → Option Value
no_json _ = none

abbrev report : Value
report = object (
    field "name" (string " Report ") (
      field "description" (string "Writes a report.") (
        field "content" (string "Explain {{summary}} to {{extra.team}}.")
          (field "outputFormat" (object (field "_reserved_report" (string "string") end)) end))))

abbrev stored : PostScript
stored = post_script_of report (normalize_output_format no_json (format_value report))

accepted_run :
    (validate_post_script no_json report ≡ ok stored)
    × (validate_generated_post_script no_json report ≡ ok stored)
unfolding validate_post_script validate_generated_post_script post_script_errors script_key_errors
    script_keys_errors prompt_errors output_field_errors normalize_definition walking parse_refs
    has_malformed_template_refs is_extra_ref extra_sub_key is_template_ref strip_prefix trim
accepted_run = (refl, refl)

validate_post_script-as_request_example :
    validate_post_script no_json (as_request stored) ≡ ok stored
validate_post_script-as_request_example =
    validate_post_script-as_request no_json report stored accepted_run.0
