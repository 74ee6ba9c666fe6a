-- ===== src/Descriptor/Types.antt =====
-- The five type names of a field definition (`FIELD_TYPES` of backend/src/lib/fieldDefinitions.js).
use open_kritt.Prelude.{String, Option, none, some, List, [], ◌∷◌, ◌==◌, if◌then◌else◌}
use open_kritt.Value.{Value}

pub data FieldType : Type 0 where
  string number boolean array object : FieldType

abbrev pub field_types : List String
field_types = "string" ∷ "number" ∷ "boolean" ∷ "array" ∷ "object" ∷ []

-- The member of `FIELD_TYPES` that a text is.
abbrev pub named_type : String → Option FieldType
named_type t =
    if t == "string"
    then some string
    else if t == "number"
    then some number
    else if t == "boolean"
    then some boolean
    else if t == "array"
    then some array
    else if t == "object"
    then some object
    else none

-- `typeof type === 'string' && FIELD_TYPES.includes(type)`, with the member that was found.
abbrev pub field_type : Value → Option FieldType
field_type (Value.string t) = named_type t
field_type _ = none
