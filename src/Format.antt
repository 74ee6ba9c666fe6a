-- ===== src/Format.antt =====
-- Output formats and their normal form: backend/src/lib/fieldDefinitions.js, lines 36 to 104, and
-- `duplicateOutputFormatKeys` of backend/src/lib/constants.js. `JSON.parse` is a parameter. Keys stand
-- in the order in which they are defined; an engine lists those that look like array indices first.
pub mod Laws
pub mod Normal
mod Tests
use open_kritt.Prelude.{
  String, Bool, true, false, not, ◌&&◌, ◌||◌, Option, none, some, List, [], ◌∷◌, ◌++◌, ◌==◌, any,
  if◌then◌else◌, includes,
}
use open_kritt.Value.{
  Value, undefined, null, bool, number, real, string, array, object, Items, nil, cons, Fields, end,
  field, keys, own, get, has_own, assign, coalesce, prop, items, text_among, type_of,
}
use open_kritt.Value.Texts.{to_text}
use open_kritt.Descriptor.Types.{field_types}

-- `hasStructureKey` of an object.
abbrev pub has_structure_key : Fields → Bool
has_structure_key fs = any (has_own fs) ("items" ∷ "fields" ∷ "required" ∷ "enum" ∷ [])

-- `keys.length === 1` for an object that has `type`, with its value then a type name.
abbrev pub is_bare_type : Fields → Bool
is_bare_type (field k v end) = text_among field_types v
is_bare_type _ = false

-- The type where an object says no more than that, and else its copy.
abbrev pub shaped : (has_type has_structure bare : Bool) → (type copy : Value) → Value
shaped false true bare type copy = copy
shaped false false bare type copy = string "object"
shaped true has_structure true type copy = type
shaped true has_structure false type copy = copy

abbrev pub type_or_copy : Fields → Fields → Value
type_or_copy fs copy =
    shaped (has_own fs "type") (has_structure_key fs) (is_bare_type fs) (get "type" fs)
      (object copy)

-- `normalizeFieldDefinition` and `copyDescriptor`. A value that is copied is the same value.
unfoldable mutual
  pub normalize_definition : Value → Value
  normalize_definition (string s) = string s
  normalize_definition (array vs) = string "array"
  normalize_definition (object fs) = type_or_copy fs (copy_descriptor fs)
  normalize_definition v = string (type_of v)

  pub copy_descriptor : Fields → Fields
  copy_descriptor end = end
  copy_descriptor (field k v fs) =
      field k
        (if k == "items"
          then normalize_definition v
          else if k == "fields"
          then copy_field_map v
          else v)
        (copy_descriptor fs)

  pub copy_field_map : Value → Value
  copy_field_map (object m) = object (normalize_each m)
  copy_field_map v = v

  pub normalize_each : Fields → Fields
  normalize_each end = end
  normalize_each (field k v fs) = field k (normalize_definition v) (normalize_each fs)

-- The key of an entry of an output format that is a list: `f && typeof f === 'object' && 'key' in f`.
unfoldable pub entry_key : Value → Option String
unfolding to_text
entry_key (object fs) = if has_own fs "key" then some (to_text (get "key" fs)) else none
entry_key _ = none

abbrev pub entry_definition : Value → Value
entry_definition f = coalesce (prop "definition" f) (coalesce (prop "type" f) (string "string"))

abbrev define_entry : Option String → Value → Fields → Fields
define_entry none definition out = out
define_entry (some k) definition out = assign k definition out

unfoldable pub from_entries : Items → Fields → Fields
unfolding normalize_definition
from_entries nil out = out
from_entries (cons f vs) out =
    from_entries vs (define_entry (entry_key f) (normalize_definition (entry_definition f)) out)

abbrev pub format_of : Value → Fields
format_of (array vs) = from_entries vs end
format_of (object fs) = normalize_each fs
format_of _ = end

abbrev pub format_of_text : Option Value → Option Fields
format_of_text none = none
format_of_text (some v) = some (format_of v)

-- The duplicates, in the order in which they are found.
abbrev noted : Option String → List String → List String → List String
noted none seen found = found
noted (some k) seen found =
    if includes seen k && not (includes found k) then found ++ (k ∷ []) else found

abbrev seen_with : Option String → List String → List String
seen_with none seen = seen
seen_with (some k) seen = k ∷ seen

unfoldable pub duplicates_in : Items → List String → List String → List String
duplicates_in nil seen found = found
duplicates_in (cons f vs) seen found =
    duplicates_in vs (seen_with (entry_key f) seen) (noted (entry_key f) seen found)

abbrev pub duplicates_of : Value → List String
duplicates_of (array vs) = duplicates_in vs [] []
duplicates_of _ = []

abbrev duplicates_of_text : Option Value → List String
duplicates_of_text none = []
duplicates_of_text (some v) = duplicates_of v

module _ (parse_json : String → Option Value) where
  -- `normalizeOutputFormat`; nothing stands for the exception of `JSON.parse`.
  abbrev pub normalize_output_format : Value → Option Fields
  normalize_output_format (string s) = format_of_text (parse_json s)
  normalize_output_format v = some (format_of v)

  -- `duplicateOutputFormatKeys`
  abbrev pub duplicate_output_format_keys : Value → List String
  duplicate_output_format_keys (string s) = duplicates_of_text (parse_json s)
  duplicate_output_format_keys v = duplicates_of v

-- `fieldTypeName`, where nothing stands for `undefined`.
abbrev pub type_text : Value → Option String
type_text (string s) = some s
type_text _ = none

abbrev pub field_type_name : Value → Option String
field_type_name (string s) = some s
field_type_name (object fs) = type_text (get "type" fs)
field_type_name _ = none
