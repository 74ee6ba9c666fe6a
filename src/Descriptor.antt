-- ===== src/Descriptor.antt =====
-- Validation of output-format field definitions: backend/src/lib/fieldDefinitions.js, lines 6 to 34
-- and 106 to 209. `walkDefinition` pushes errors and adds to a counter; here it returns both. The
-- depth that it counts up from 1 to its maximum is counted down, as the levels that are left.
pub mod Types
pub mod Meaning
mod Tests
mod Parts
mod Counting
pub mod Paths
pub mod Laws
use open_kritt.Prelude.{
  ℕ, zero, suc, ◌+◌, String, Bool, true, false, not, ◌&&◌, ◌||◌, Option, none, some, List, [], ◌∷◌,
  ◌++◌, ◌==◌, ltb, if◌then◌else◌, includes, any, all_distinct, length,
}
use open_kritt.Text.{concat, join_comma, last_segment, is_valid_key, starts_with, decimal}
use open_kritt.Value.{
  Value, undefined, null, bool, number, real, string, array, object, Items, nil, cons, Fields, end,
  field, keys, own, has_own, FieldError,
}
use open_kritt.Descriptor.Types.{FieldType, field_types, field_type}

abbrev pub descriptor_keys : List String
descriptor_keys = "type" ∷ "items" ∷ "fields" ∷ "required" ∷ "enum" ∷ []

abbrev pub max_descriptor_depth : ℕ
max_descriptor_depth = 4

abbrev pub max_descriptor_fields : ℕ
max_descriptor_fields = 64

-- `isReservedOutputKey` of a text.
unfoldable pub is_reserved_output_key : String → Bool
is_reserved_output_key k = includes ("_chip_lifecycle" ∷ []) k || starts_with k "_engine_"

-- What a walk has pushed, and what it has added to `counter.fields`.
pub record Walk : Type 0 where
  pub errors : List FieldError
  pub fields : ℕ

abbrev pub clean : Walk
clean = record { errors = []; fields = 0 }

abbrev pub issue : String → String → FieldError
issue path message = record { field_name = path; message = message }

abbrev pub report : String → String → Walk
report path message = record { errors = issue path message ∷ []; fields = 0 }

infixr 20 ◌then_walk◌
abbrev pub ◌then_walk◌ : Walk → Walk → Walk
a then_walk b = record { errors = a.errors ++ b.errors; fields = a.fields + b.fields }

abbrev pub check : Bool → String → String → Walk
check true path message = clean
check false path message = report path message

-- The keys that each type allows beside the others.
abbrev pub allowed : FieldType → List String
allowed FieldType.array = "type" ∷ "items" ∷ []
allowed FieldType.object = "type" ∷ "fields" ∷ "required" ∷ []
allowed FieldType.string = "type" ∷ "enum" ∷ []
allowed _ = "type" ∷ []

abbrev pub type_text : FieldType → String
type_text FieldType.string = "string"
type_text FieldType.number = "number"
type_text FieldType.boolean = "boolean"
type_text FieldType.array = "array"
type_text FieldType.object = "object"

-- The elements of an array of strings; `none` for any other value.
abbrev pub string_items : Items → Option (List String)
string_items nil = some []
string_items (cons (string s) vs) = elim (string_items vs) [ none ↦ none | some ss ↦ some (s ∷ ss) ]
string_items (cons _ vs) = none

abbrev pub string_array : Value → Option (List String)
string_array (array vs) = string_items vs
string_array _ = none

-- The loop over the keys of a descriptor.
pub walk_keys : String → FieldType → List String → Walk
walk_keys path t [] = clean
walk_keys path t (k ∷ ks) =
    (if includes (allowed t) k
      then clean
      else if includes descriptor_keys k
      then report (concat (path ∷ "." ∷ k ∷ []))
          (concat ("\"" ∷ k ∷ "\" is not allowed under type \"" ∷ type_text t ∷ "\"." ∷ []))
      else report (concat (path ∷ "." ∷ k ∷ []))
          (concat ("\"" ∷ k ∷ "\" is not a supported descriptor key." ∷ [])))
    then_walk walk_keys path t ks

-- A structured descriptor must be complete.
pub walk_structure : String → FieldType → Fields → Walk
walk_structure path FieldType.array fs =
    check (not (any (λ k. not (k == "type")) (keys fs)) || has_own fs "items")
      (concat (path ∷ ".items" ∷ [])) "An array descriptor must declare \"items\"."
walk_structure path FieldType.object fs =
    check (not (any (λ k. not (k == "type")) (keys fs)) || has_own fs "fields")
      (concat (path ∷ ".fields" ∷ []))
      "An object descriptor must declare a non-empty \"fields\" map."
walk_structure path _ fs = clean

-- `required.filter((entry) => !Object.hasOwn(fields, entry))`
abbrev pub undeclared : Fields → List String → List String
undeclared m [] = []
undeclared m (k ∷ ks) = if has_own m k then undeclared m ks else k ∷ undeclared m ks

pub report_undeclared : String → List String → Walk
report_undeclared path [] = clean
report_undeclared path (n ∷ ns) =
    report (concat (path ∷ ".required" ∷ []))
      (concat ("\"required\" names undeclared field(s): " ∷ join_comma (n ∷ ns) ∷ "." ∷ []))

-- The names that `required` lists, or `none` where it is not an array of strings.
pub walk_required_names : String → Fields → Option (List String) → Walk
walk_required_names path m none =
    report (concat (path ∷ ".required" ∷ [])) "\"required\" must be an array of field names."
walk_required_names path m (some names) =
    check (all_distinct names) (concat (path ∷ ".required" ∷ []))
      "\"required\" lists the same field more than once."
    then_walk report_undeclared path (undeclared m names)

pub walk_required : String → Fields → Option Value → Walk
walk_required path m none = clean
walk_required path m (some v) = walk_required_names path m (string_array v)

-- The options of a non-empty `enum`, or `none` where one is not a string.
pub walk_enum_names : String → Option (List String) → Walk
walk_enum_names path none =
    report (concat (path ∷ ".enum" ∷ [])) "\"enum\" must contain strings only."
walk_enum_names path (some names) =
    check (all_distinct names) (concat (path ∷ ".enum" ∷ [])) "\"enum\" values must be unique."

pub walk_enum : String → Option Value → Walk
walk_enum path none = clean
walk_enum path (some (array (cons v vs))) = walk_enum_names path (string_items (cons v vs))
walk_enum path (some _) =
    report (concat (path ∷ ".enum" ∷ [])) "\"enum\" must be a non-empty array of strings."

-- What `walkDefinition` does with a nested definition is the parameter `walk`.
module _ (walk : String → Value → Walk) where
  pub walk_items : String → Option Value → Walk
  walk_items path none = clean
  walk_items path (some v) = walk (concat (path ∷ ".items" ∷ [])) v

  -- The loop over the declared fields.
  pub walk_each : String → Fields → Walk
  walk_each path end = clean
  walk_each path (field k v m) =
      check (is_valid_key k) (concat (path ∷ ".fields." ∷ k ∷ []))
        (concat ("\"" ∷ k ∷ "\" is not a valid field name." ∷ []))
      then_walk walk (concat (path ∷ ".fields." ∷ k ∷ [])) v
      then_walk walk_each path m

  pub walk_fields : String → Option Value → Option Value → Walk
  walk_fields path none required = clean
  walk_fields path (some (object (field k v m))) required =
      record { errors = []; fields = length (keys (field k v m)) }
      then_walk walk_each path (field k v m)
      then_walk walk_required path (field k v m) required
  walk_fields path (some _) required =
      report (concat (path ∷ ".fields" ∷ []))
        "An object descriptor must declare a non-empty \"fields\" map."

  pub walk_body : String → FieldType → Fields → Walk
  walk_body path FieldType.array fs = walk_items path (own "items" fs)
  walk_body path FieldType.object fs = walk_fields path (own "fields" fs) (own "required" fs)
  walk_body path FieldType.string fs = walk_enum path (own "enum" fs)
  walk_body path _ fs = clean

  pub walk_typed : String → Fields → Option FieldType → Walk
  walk_typed path fs none =
      report (concat (path ∷ ".type" ∷ []))
        "Type must be one of: string, number, boolean, array, object."
  walk_typed path fs (some t) =
      walk_structure path t fs then_walk walk_keys path t (keys fs) then_walk walk_body path t fs

  walk_type : String → Fields → Option Value → Walk
  walk_type path fs none =
      report (concat (path ∷ ".type" ∷ [])) "A field descriptor must declare its type."
  walk_type path fs (some v) = walk_typed path fs (field_type v)

  pub walk_descriptor : String → Fields → Walk
  walk_descriptor path fs = walk_type path fs (own "type" fs)

-- `walkDefinition`, where `room` is how many levels of descriptors may still be opened.
pub walk_definition : ℕ → String → Value → Walk
walk_definition room path (string t) =
    check (includes field_types t) path
      (concat ("\"" ∷ last_segment path ∷ "\" has an unsupported type \"" ∷ t ∷ "\"." ∷ []))
walk_definition zero path _ = report path "Exceeds the maximum nesting depth of 4."
walk_definition (suc room) path (object fs) = walk_descriptor (walk_definition room) path fs
walk_definition (suc room) path _ = report path (
    concat ("\"" ∷ last_segment path ∷ "\" must be a type name or a field descriptor object." ∷ []))

abbrev pub too_many : String → Walk → List FieldError
too_many path w =
    if ltb max_descriptor_fields w.fields
    then issue path
        (concat ("Declares " ∷ decimal w.fields ∷ " fields in total; the maximum is 64." ∷ []))
      ∷ []
    else []

-- `validateFieldDefinition`
pub validate_field_definition : String → Value → List FieldError
validate_field_definition path v =
    let w = walk_definition max_descriptor_depth path v in w.errors ++ too_many path w

-- All that a run of the validation computes with.
unfoldable pub walking : Unit {0}
unfolding validate_field_definition walk_definition walk_descriptor walk_type walk_typed walk_body
    walk_fields walk_items walk_each walk_enum walk_enum_names walk_required walk_required_names
    report_undeclared walk_structure walk_keys is_reserved_output_key last_segment is_valid_key
    starts_with
walking = tt
