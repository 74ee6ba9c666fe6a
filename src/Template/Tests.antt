-- ===== src/Template/Tests.antt =====
-- Runs of the template scanner, and the theorems at concrete inputs.
use open_kritt.Prelude.{◌≤◌, ◌≡◌, ◌↔◌, refl, String, true, [], ◌∷◌, All, length}
use open_kritt.Text.{all_chars, trim, cut, size, strip_prefix, is_valid_key}
use open_kritt.Template.{
  is_template_ref, parse_template_refs, parse_refs, has_malformed_template_refs, extra_sub_key,
  extract_extra_keys, sample_limit, sample_length,
}
use open_kritt.Template.Malformed.{parse_template_refs_bounds, has_malformed_iff}
use open_kritt.Template.Rendering.{words, reference, render, parse_template_refs-render}

scanning : Unit {0}
unfolding parse_template_refs parse_refs has_malformed_template_refs is_template_ref trim cut
    extra_sub_key extract_extra_keys strip_prefix is_valid_key
scanning = tt

abbrev prompt : String
prompt = "Use {{ summary }} and {{extra.goal}}, not {{a..b}} or }}"

runs :
    (parse_template_refs prompt ≡ ("summary" ∷ "extra.goal" ∷ [], "{{a..b}}" ∷ "}}" ∷ []))
    × (has_malformed_template_refs prompt ≡ true)
    × (parse_template_refs "{{a {{b}}" ≡ ("b" ∷ [], "{{a {{b}}" ∷ []))
    × (extract_extra_keys prompt ≡ "goal" ∷ [])
unfolding scanning
runs = (refl, refl, refl, refl)

parse_template_refs_bounds_example :
    All (λ t. is_template_ref t ≡ true) (parse_template_refs prompt).0
    × (length (parse_template_refs prompt).1 ≤ sample_limit)
    × All (λ t. size t ≤ sample_length) (parse_template_refs prompt).1
parse_template_refs_bounds_example = parse_template_refs_bounds prompt

has_malformed_iff_example :
    (has_malformed_template_refs prompt ≡ true) ↔ (1 ≤ length (parse_template_refs prompt).1)
has_malformed_iff_example = has_malformed_iff prompt

parse_template_refs-render_example :
    parse_template_refs (render (words "Look at " ∷ reference "extra.goal" ∷ words "." ∷ []))
    ≡ ("extra.goal" ∷ [], [])
unfolding is_template_ref
parse_template_refs-render_example =
    parse_template_refs-render (words "Look at " ∷ reference "extra.goal" ∷ words "." ∷ [])
      (unfold all_chars in (refl, (refl, (refl, tt))))
