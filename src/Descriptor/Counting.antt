-- ===== src/Descriptor/Counting.antt =====
-- The counter of a walk is the number of declared fields, whatever the path and the errors.
use open_kritt.Prelude.{
  ℕ, zero, suc, ◌+◌, String, ◌≡◌, refl, Bool, true, false, Option, none, some, List, [], ◌∷◌, arith,
  length,
}
use open_kritt.Value.{Value, array, object, cons, nil, Fields, end, field, keys, own, string}
use open_kritt.Descriptor.Types.{FieldType, field_type}
use open_kritt.Descriptor.{
  Walk, check, string_array, undeclared, report_undeclared, walk_keys, walk_structure,
  walk_required_names, walk_required, walk_enum_names, walk_enum, walk_items, walk_each,
  walk_fields, walk_body, walk_typed, walk_type, walk_descriptor, walk_definition,
}
use open_kritt.Descriptor.Meaning.{
  sum_fields, declared_items, declared_map, declared_in, declared_typed, declared_fields,
}

fields-check : (b : Bool) (p m : String) → (check b p m).fields ≡ 0
fields-check true p m = refl
fields-check false p m = refl

fields-walk_keys : (p : String) (t : FieldType) (ks : List String) → (walk_keys p t ks).fields ≡ 0
unfolding walk_keys
fields-walk_keys p t [] = refl
fields-walk_keys p t (k ∷ ks) = ground (arith, fields-walk_keys p t ks)

fields-walk_structure :
    (p : String) (t : FieldType) (fs : Fields) → (walk_structure p t fs).fields ≡ 0
unfolding walk_structure
fields-walk_structure p FieldType.array fs = fields-check _ _ _
fields-walk_structure p FieldType.object fs = fields-check _ _ _
fields-walk_structure p _ fs = refl

fields-report_undeclared : (p : String) (ks : List String) → (report_undeclared p ks).fields ≡ 0
unfolding report_undeclared
fields-report_undeclared p [] = refl
fields-report_undeclared p (k ∷ ks) = refl

fields-walk_required_names :
    (p : String) (m : Fields) (o : Option (List String)) → (walk_required_names p m o).fields ≡ 0
unfolding walk_required_names
fields-walk_required_names p m none = refl
fields-walk_required_names p m (some ns) =
    omega (arith, fields-check, fields-report_undeclared p (undeclared m ns))

fields-walk_required :
    (p : String) (m : Fields) (o : Option Value) → (walk_required p m o).fields ≡ 0
unfolding walk_required
fields-walk_required p m none = refl
fields-walk_required p m (some v) = fields-walk_required_names p m (string_array v)

fields-walk_enum : (p : String) (o : Option Value) → (walk_enum p o).fields ≡ 0
unfolding walk_enum walk_enum_names
fields-walk_enum p none = refl
fields-walk_enum p (some (array (cons v vs))) = ground arith
fields-walk_enum p (some (array nil)) = refl
fields-walk_enum p (some _) = refl

module _ (walk : String → Value → Walk) (f : Value → ℕ)
    (counts : (p : String) (v : Value) → (walk p v).fields ≡ f v) where
  fields-walk_each :
      (p : String) (m : Fields) → length (keys m) + (walk_each walk p m).fields ≡ sum_fields f m
  unfolding walk_each
  fields-walk_each p end = omega arith
  fields-walk_each p (field k v m) = omega (arith, fields-check, counts, fields-walk_each p m)

  fields-walk_fields :
      (p : String) (o required : Option Value)
      → (walk_fields walk p o required).fields ≡ declared_map f o
  unfolding walk_fields
  fields-walk_fields p none required = refl
  fields-walk_fields p (some (object (field k v m))) required =
      omega (arith, fields-walk_each p (field k v m), fields-walk_required p (field k v m) required)
  fields-walk_fields p (some (object end)) required = refl
  fields-walk_fields p (some _) required = refl

  fields-walk_items :
      (p : String) (o : Option Value) → (walk_items walk p o).fields ≡ declared_items f o
  unfolding walk_items
  fields-walk_items p none = refl
  fields-walk_items p (some v) = counts _ v

  fields-walk_body :
      (p : String) (t : FieldType) (fs : Fields)
      → (walk_body walk p t fs).fields ≡ declared_in f fs (some t)
  unfolding walk_body
  fields-walk_body p FieldType.array fs = fields-walk_items p (own "items" fs)
  fields-walk_body p FieldType.object fs =
      fields-walk_fields p (own "fields" fs) (own "required" fs)
  fields-walk_body p FieldType.string fs = fields-walk_enum p (own "enum" fs)
  fields-walk_body p FieldType.number fs = refl
  fields-walk_body p FieldType.boolean fs = refl

  fields-walk_typed :
      (p : String) (fs : Fields) (o : Option FieldType)
      → (walk_typed walk p fs o).fields ≡ declared_in f fs o
  unfolding walk_typed
  fields-walk_typed p fs none = refl
  fields-walk_typed p fs (some t) =
      omega (
        arith,
        fields-walk_structure p t fs,
        fields-walk_keys p t (keys fs),
        fields-walk_body p t fs,
      )

  fields-walk_type :
      (p : String) (fs : Fields) (o : Option Value)
      → (walk_type walk p fs o).fields ≡ declared_typed f fs o
  unfolding walk_type
  fields-walk_type p fs none = refl
  fields-walk_type p fs (some v) = fields-walk_typed p fs (field_type v)

  fields-walk_descriptor :
      (p : String) (fs : Fields)
      → (walk_descriptor walk p fs).fields ≡ declared_typed f fs (own "type" fs)
  unfolding walk_descriptor
  fields-walk_descriptor p fs = fields-walk_type p fs (own "type" fs)

pub fields-walk_definition :
    (room : ℕ) (p : String) (v : Value) → (walk_definition room p v).fields ≡ declared_fields room v
unfolding walk_definition
fields-walk_definition zero p (string t) = fields-check _ _ _
fields-walk_definition (suc room) p (string t) = fields-check _ _ _
fields-walk_definition (suc room) p (object fs) =
    fields-walk_descriptor (walk_definition room) (declared_fields room)
      (fields-walk_definition room) p fs
fields-walk_definition zero p _ = refl
fields-walk_definition (suc room) p _ = refl
