-- ===== src/Descriptor/Meaning.antt =====
-- What a well-formed field definition is, stated without paths, messages or a walk.
use open_kritt.Prelude.{
  ℕ, suc, ◌+◌, String, ◌≡◌, ◌≢◌, true, Option, none, some, List, [], ◌∷◌, All, includes,
}
use open_kritt.Text.{is_valid_key}
use open_kritt.Value.{Value, string, object, Fields, end, field, keys, own}
use open_kritt.Descriptor.Types.{FieldType, field_types, field_type}
use open_kritt.Descriptor.{allowed, string_array}

abbrev pub Optional {ℓ κ} : {A : Type ℓ} → (A → Type κ) → Option A → Type κ
Optional P none = Unit
Optional P (some a) = P a

abbrev pub IsDistinct : List String → Type 0
IsDistinct [] = Unit
IsDistinct (s ∷ ss) = All (λ t. t ≢ s) ss × IsDistinct ss

-- Distinct texts, at least one.
abbrev pub IsEnum : Value → Type 0
IsEnum v = (names : List String) × (string_array v ≡ some names) × (names ≢ []) × IsDistinct names

-- Distinct names, each declared among the fields.
abbrev pub IsRequired : Fields → Value → Type 0
IsRequired m v =
    (names : List String) × (string_array v ≡ some names)
    × IsDistinct names
    × All (λ k. own k m ≢ none) names

module _ (P : Value → Type 0) where
  abbrev pub EachField : Fields → Type 0
  EachField end = Unit
  EachField (field k v m) = (is_valid_key k ≡ true) × P v × EachField m

  -- A non-empty map of validly named fields.
  abbrev pub IsFieldMap : Fields → Value → Type 0
  IsFieldMap m v = (v ≡ object m) × (m ≢ end) × EachField m

  -- An object descriptor declares no fields, and then nothing is required, or a map of them.
  abbrev pub HasFields : Option Value → Option Value → Type 0
  HasFields none required = required ≡ none
  HasFields (some v) required = (m : Fields) × IsFieldMap m v × Optional (IsRequired m) required

  abbrev pub HasBody : FieldType → Fields → Type 0
  HasBody FieldType.array fs = Optional P (own "items" fs)
  HasBody FieldType.object fs = HasFields (own "fields" fs) (own "required" fs)
  HasBody FieldType.string fs = Optional IsEnum (own "enum" fs)
  HasBody FieldType.number fs = Unit
  HasBody FieldType.boolean fs = Unit

  -- One of the five types, the keys of that type and no others, and what the type asks of them.
  abbrev pub IsDescriptor : Fields → Type 0
  IsDescriptor fs =
      (v : Value) × (t : FieldType) × (own "type" fs ≡ some v)
      × (field_type v ≡ some t)
      × All (λ k. includes (allowed t) k ≡ true) (keys fs)
      × HasBody t fs

-- A type name, or a descriptor nested at most `room` deep.
abbrev pub IsDefinition : ℕ → Value → Type 0
IsDefinition room (string t) = includes field_types t ≡ true
IsDefinition (suc room) (object fs) = IsDescriptor (IsDefinition room) fs
IsDefinition _ _ = ⊥

-- The sum of a number for each declared field and one for the field itself.
abbrev pub sum_fields : (Value → ℕ) → Fields → ℕ
sum_fields f end = 0
sum_fields f (field k v m) = suc (f v + sum_fields f m)

abbrev pub declared_items : (Value → ℕ) → Option Value → ℕ
declared_items f none = 0
declared_items f (some v) = f v

abbrev pub declared_map : (Value → ℕ) → Option Value → ℕ
declared_map f (some (object m)) = sum_fields f m
declared_map f _ = 0

abbrev pub declared_in : (Value → ℕ) → Fields → Option FieldType → ℕ
declared_in f fs (some FieldType.array) = declared_items f (own "items" fs)
declared_in f fs (some FieldType.object) = declared_map f (own "fields" fs)
declared_in f fs _ = 0

abbrev pub declared_typed : (Value → ℕ) → Fields → Option Value → ℕ
declared_typed f fs none = 0
declared_typed f fs (some v) = declared_in f fs (field_type v)

-- How many fields a definition declares, at all levels together.
abbrev pub declared_fields : ℕ → Value → ℕ
declared_fields (suc room) (object fs) = declared_typed (declared_fields room) fs (own "type" fs)
declared_fields _ _ = 0
