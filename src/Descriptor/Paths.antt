-- ===== src/Descriptor/Paths.antt =====
-- Every error of a definition is reported at its path or below it.
use Prim.Native.String
use open_kritt.Prelude.{
  ℕ, zero, suc, String, ◌≡◌, Bool, true, false, Option, none, some, List, [], ◌∷◌, arith, All,
  All-append,
}
use open_kritt.Text.Laws.{starts_with-append, starts_with_self, starts_with_trans}
use open_kritt.Text.{starts_with}
use open_kritt.Value.{
  Value, array, object, cons, nil, Fields, end, field, keys, own, string, FieldError,
}
use open_kritt.Descriptor.Types.{FieldType, field_type}
use open_kritt.Descriptor.{
  Walk, check, string_array, string_items, undeclared, report_undeclared, walk_keys, walk_structure,
  walk_required_names, walk_required, walk_enum_names, walk_enum, walk_items, walk_each,
  walk_fields, walk_body, walk_typed, walk_type, walk_descriptor, walk_definition, too_many,
  validate_field_definition, max_descriptor_depth,
}

-- `path` is a beginning of the error's field.
abbrev pub IsUnder : String → FieldError → Type 0
IsUnder path e = starts_with e.field_name path ≡ true

abbrev AllUnder : String → Walk → Type 0
AllUnder path w = All (IsUnder path) w.errors

check-AllUnder : (p s : String) (b : Bool) (m : String) → AllUnder p (check b (String.◌++◌ p s) m)
check-AllUnder p s true m = tt
check-AllUnder p s false m = (starts_with-append p s, tt)

All-below :
    (p s : String) (es : List FieldError) → All (IsUnder (String.◌++◌ p s)) es → All (IsUnder p) es
All-below p s [] h = tt
All-below p s (e ∷ es) (u, h) = (starts_with_trans p s e.field_name u, All-below p s es h)

walk_keys-AllUnder : (p : String) (t : FieldType) (ks : List String) → AllUnder p (walk_keys p t ks)
unfolding walk_keys
walk_keys-AllUnder p t [] = tt
walk_keys-AllUnder p t (k ∷ ks) =
    ground (arith, walk_keys-AllUnder p t ks, starts_with-append p (String.◌++◌ "." k))

walk_structure-AllUnder :
    (p : String) (t : FieldType) (fs : Fields) → AllUnder p (walk_structure p t fs)
unfolding walk_structure
walk_structure-AllUnder p FieldType.array fs = check-AllUnder p ".items" _ _
walk_structure-AllUnder p FieldType.object fs = check-AllUnder p ".fields" _ _
walk_structure-AllUnder p _ fs = tt

report_undeclared-AllUnder : (p : String) (ks : List String) → AllUnder p (report_undeclared p ks)
unfolding report_undeclared
report_undeclared-AllUnder p [] = tt
report_undeclared-AllUnder p (k ∷ ks) = (starts_with-append p ".required", tt)

walk_required_names-AllUnder :
    (p : String) (m : Fields) (o : Option (List String)) → AllUnder p (walk_required_names p m o)
unfolding walk_required_names
walk_required_names-AllUnder p m none = (starts_with-append p ".required", tt)
walk_required_names-AllUnder p m (some ns) =
    All-append (IsUnder p) _ _ (check-AllUnder p ".required" _ _)
      (report_undeclared-AllUnder p (undeclared m ns))

walk_required-AllUnder :
    (p : String) (m : Fields) (o : Option Value) → AllUnder p (walk_required p m o)
unfolding walk_required
walk_required-AllUnder p m none = tt
walk_required-AllUnder p m (some v) = walk_required_names-AllUnder p m (string_array v)

walk_enum_names-AllUnder :
    (p : String) (o : Option (List String)) → AllUnder p (walk_enum_names p o)
unfolding walk_enum_names
walk_enum_names-AllUnder p none = (starts_with-append p ".enum", tt)
walk_enum_names-AllUnder p (some ns) = check-AllUnder p ".enum" _ _

walk_enum-AllUnder : (p : String) (o : Option Value) → AllUnder p (walk_enum p o)
unfolding walk_enum
walk_enum-AllUnder p none = tt
walk_enum-AllUnder p (some (array (cons v vs))) =
    walk_enum_names-AllUnder p (string_items (cons v vs))
walk_enum-AllUnder p (some (array nil)) = (starts_with-append p ".enum", tt)
walk_enum-AllUnder p (some _) = (starts_with-append p ".enum", tt)

module _ (walk : String → Value → Walk)
    (under : (p : String) (v : Value) → AllUnder p (walk p v)) where
  below : (p s : String) (v : Value) → AllUnder p (walk (String.◌++◌ p s) v)
  below p s v = All-below p s _ (under _ v)

  walk_each-AllUnder : (p : String) (m : Fields) → AllUnder p (walk_each walk p m)
  unfolding walk_each
  walk_each-AllUnder p end = tt
  walk_each-AllUnder p (field k v m) =
      let s = String.◌++◌ ".fields." k in
      All-append (IsUnder p) _ _ (check-AllUnder p s _ _)
        (All-append (IsUnder p) _ _ (below p s v) (walk_each-AllUnder p m))

  walk_fields-AllUnder :
      (p : String) (o required : Option Value) → AllUnder p (walk_fields walk p o required)
  unfolding walk_fields
  walk_fields-AllUnder p none required = tt
  walk_fields-AllUnder p (some (object (field k v m))) required =
      All-append (IsUnder p) _ _ (walk_each-AllUnder p (field k v m))
        (walk_required-AllUnder p (field k v m) required)
  walk_fields-AllUnder p (some (object end)) required = (starts_with-append p ".fields", tt)
  walk_fields-AllUnder p (some _) required = (starts_with-append p ".fields", tt)

  walk_items-AllUnder : (p : String) (o : Option Value) → AllUnder p (walk_items walk p o)
  unfolding walk_items
  walk_items-AllUnder p none = tt
  walk_items-AllUnder p (some v) = below p ".items" v

  walk_body-AllUnder :
      (p : String) (t : FieldType) (fs : Fields) → AllUnder p (walk_body walk p t fs)
  unfolding walk_body
  walk_body-AllUnder p FieldType.array fs = walk_items-AllUnder p (own "items" fs)
  walk_body-AllUnder p FieldType.object fs =
      walk_fields-AllUnder p (own "fields" fs) (own "required" fs)
  walk_body-AllUnder p FieldType.string fs = walk_enum-AllUnder p (own "enum" fs)
  walk_body-AllUnder p _ fs = tt

  walk_typed-AllUnder :
      (p : String) (fs : Fields) (o : Option FieldType) → AllUnder p (walk_typed walk p fs o)
  unfolding walk_typed
  walk_typed-AllUnder p fs none = (starts_with-append p ".type", tt)
  walk_typed-AllUnder p fs (some t) =
      All-append (IsUnder p) _ _ (walk_structure-AllUnder p t fs)
        (All-append (IsUnder p) _ _ (walk_keys-AllUnder p t (keys fs)) (walk_body-AllUnder p t fs))

  walk_type-AllUnder :
      (p : String) (fs : Fields) (o : Option Value) → AllUnder p (walk_type walk p fs o)
  unfolding walk_type
  walk_type-AllUnder p fs none = (starts_with-append p ".type", tt)
  walk_type-AllUnder p fs (some v) = walk_typed-AllUnder p fs (field_type v)

pub walk_definition-AllUnder :
    (room : ℕ) (p : String) (v : Value) → All (IsUnder p) (walk_definition room p v).errors
unfolding walk_definition walk_descriptor
walk_definition-AllUnder room p (string t) = ground (arith, starts_with_self p)
walk_definition-AllUnder (suc room) p (object fs) =
    walk_type-AllUnder (walk_definition room) (walk_definition-AllUnder room) p fs (own "type" fs)
walk_definition-AllUnder zero p _ = (starts_with_self p, tt)
walk_definition-AllUnder (suc room) p _ = (starts_with_self p, tt)

too_many-AllUnder : (p : String) (w : Walk) → All (IsUnder p) (too_many p w)
too_many-AllUnder p w = ground (arith, starts_with_self p)

-- The field of every error begins with the path of the definition.
pub validate_field_definition-IsUnder :
    (p : String) (v : Value) → All (IsUnder p) (validate_field_definition p v)
unfolding validate_field_definition
validate_field_definition-IsUnder p v =
    let w = walk_definition max_descriptor_depth p v in
    All-append (IsUnder p) w.errors (too_many p w)
      (walk_definition-AllUnder max_descriptor_depth p v) (too_many-AllUnder p w)
