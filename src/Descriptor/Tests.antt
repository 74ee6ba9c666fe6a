-- ===== src/Descriptor/Tests.antt =====
-- Runs of the validation of field definitions, and the theorems at concrete inputs.
use open_kritt.Prelude.{◌≤◌, ◌≡◌, ◌↔◌, refl, String, List, [], ◌∷◌, All}
use open_kritt.Text.{last_segment, is_valid_key}
use open_kritt.Value.{Value, string, array, object, cons, nil, end, field, FieldError}
use open_kritt.Descriptor.{
  walk_definition, walk_descriptor, walk_type, walk_typed, walk_body, walk_fields, walk_items,
  walk_each, walk_enum, walk_enum_names, walk_required, walk_required_names, report_undeclared,
  walk_structure, walk_keys, validate_field_definition, max_descriptor_depth, max_descriptor_fields,
}
use open_kritt.Descriptor.Meaning.{IsDefinition, declared_fields}
use open_kritt.Descriptor.Laws.{validate_field_definition_iff}
use open_kritt.Descriptor.Paths.{IsUnder, validate_field_definition-IsUnder}

-- { type: 'array', items: { type: 'object', fields: { status: { type: 'string', enum: ['a', 'b'] } },
--   required: ['status'] } }
abbrev chain : Value
chain = object (
    field "type" (string "array") (
      field "items"
        (object (
          field "type" (string "object") (
            field "fields"
              (object (
                field "status"
                  (object (
                    field "type" (string "string")
                      (field "enum" (array (cons (string "a") (cons (string "b") nil))) end)))
                  end))
              (field "required" (array (cons (string "status") nil)) end))))
        end))

-- An enum with a repeated option, and a key that an array does not allow.
abbrev faulty : Value
faulty = object (
    field "type" (string "array") (
      field "items"
        (object (
          field "type" (string "string")
            (field "enum" (array (cons (string "a") (cons (string "a") nil))) end)))
        (field "fields" (object end) end)))

abbrev named_in : List FieldError → List String
named_in [] = []
named_in (e ∷ es) = e.field_name ∷ named_in es

walks_open : Unit {0}
unfolding walk_definition walk_descriptor walk_type walk_typed walk_body walk_fields walk_items
    walk_each walk_enum walk_enum_names walk_required walk_required_names report_undeclared
    walk_structure walk_keys
walks_open = tt

walks :
    (validate_field_definition "f.chain" chain ≡ [])
    × (named_in (validate_field_definition "f" faulty) ≡ "f.fields" ∷ "f.items.enum" ∷ [])
    × (named_in (validate_field_definition "f" (string "text")) ≡ "f" ∷ [])
unfolding validate_field_definition walks_open last_segment is_valid_key
walks = (refl, refl, refl)

validate_field_definition_iff_example : (validate_field_definition "f.chain" chain ≡ []) ↔ (
    IsDefinition max_descriptor_depth chain
    × (declared_fields max_descriptor_depth chain ≤ max_descriptor_fields))
validate_field_definition_iff_example = validate_field_definition_iff "f.chain" chain

validate_field_definition-IsUnder_example : All (IsUnder "f") (validate_field_definition "f" faulty)
validate_field_definition-IsUnder_example = validate_field_definition-IsUnder "f" faulty
