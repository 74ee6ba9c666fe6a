-- ===== src/Descriptor/Laws.antt =====
-- `validateFieldDefinition` accepts exactly the well-formed definitions with at most 64 fields.
use open_kritt.Prelude.{
  append-nil_iff, ℕ, zero, suc, ◌≤◌, String, ◌≡◌, refl, subst, ◌↔◌, inl, inr, true, false, not,
  Option, none, some, [], ◌∷◌, arith, ◌==◌, eq_iff, All, includes, any, Option-cases,
}
use open_kritt.Value.{Value, object, Fields, end, field, keys, own, string}
use open_kritt.Descriptor.Types.{FieldType, field_type}
use open_kritt.Descriptor.{
  Walk, allowed, walk_structure, walk_body, walk_fields, walk_typed, walk_type, walk_descriptor,
  walk_definition, validate_field_definition, max_descriptor_depth, max_descriptor_fields, too_many,
}
use open_kritt.Descriptor.Counting.{fields-walk_definition}
use open_kritt.Descriptor.Meaning.{HasBody, declared_fields, IsDescriptor, IsDefinition}
use open_kritt.Descriptor.Parts.{
  check_iff, walk_keys_iff, walk_enum_iff, walk_items_iff, walk_fields_iff,
}

-- An own key is among the keys.
only_type-own :
    (k : String) (fs : Fields)
    → (k == "type") ≡ false
    → any (λ j. not (j == "type")) (keys fs) ≡ false
    → own k fs ≡ none
only_type-own k end ne h = refl
only_type-own k (field j v fs) ne h =
    ground (arith, eq_iff j k, eq_iff j "type", eq_iff k "type", only_type-own k fs ne)

-- Where every key is allowed, what makes a descriptor structured is the second or the third key.
extra-array :
    (fs : Fields) (a : String)
    → All (λ k. includes ("type" ∷ a ∷ []) k ≡ true) (keys fs)
    → own a fs ≡ none
    → any (λ j. not (j == "type")) (keys fs) ≡ false
extra-array end a al o = refl
extra-array (field k v fs) a (h, al) o =
    ground (arith, eq_iff k "type", eq_iff "type" k, eq_iff a k, eq_iff k a, extra-array fs a al)

extra-object :
    (fs : Fields) (a b : String)
    → All (λ k. includes ("type" ∷ a ∷ b ∷ []) k ≡ true) (keys fs)
    → own a fs ≡ none
    → own b fs ≡ none
    → any (λ j. not (j == "type")) (keys fs) ≡ false
extra-object end a b al o q = refl
extra-object (field k v fs) a b (h, al) o q = ground (
  arith,
  eq_iff k "type",
  eq_iff "type" k,
  eq_iff a k,
  eq_iff k a,
  eq_iff b k,
  eq_iff k b,
  extra-object fs a b al,
)

module _ (walk : String → Value → Walk) (P : Value → Type 0)
    (sound : (p : String) (v : Value) → ((walk p v).errors ≡ []) ↔ P v) where
  -- The structure check and the body check together.
  body_sound :
      (p : String) (t : FieldType) (fs : Fields)
      → (walk_structure p t fs).errors ≡ []
      → (walk_body walk p t fs).errors ≡ []
      → HasBody P t fs
  unfolding walk_structure walk_body
  body_sound p FieldType.array fs s b = (walk_items_iff walk P sound p (own "items" fs)).0 b
  body_sound p FieldType.string fs s b = (walk_enum_iff p (own "enum" fs)).0 b
  body_sound p FieldType.object fs s b = elim (Option-cases (own "fields" fs)) [
    | inl missing ↦
        rw missing (only_type-own "required" fs refl (ground (arith, (check_iff _ _ _).0 s)))
    | inr (v, found) ↦
        rw found ((walk_fields_iff walk P sound p v (own "required" fs)).0 (rw found at b))
  ]
  body_sound p FieldType.number fs s b = tt
  body_sound p FieldType.boolean fs s b = tt

  body_complete :
      (p : String) (t : FieldType) (fs : Fields)
      → All (λ k. includes (allowed t) k ≡ true) (keys fs)
      → HasBody P t fs
      → ((walk_structure p t fs).errors ≡ []) × ((walk_body walk p t fs).errors ≡ [])
  unfolding walk_structure walk_body walk_fields
  body_complete p FieldType.array fs al b = (
    (check_iff _ _ _).1 (ground (arith, extra-array fs "items" al)),
    (walk_items_iff walk P sound p (own "items" fs)).1 b,
  )
  body_complete p FieldType.string fs al b = (refl, (walk_enum_iff p (own "enum" fs)).1 b)
  body_complete p FieldType.object fs al b = elim (Option-cases (own "fields" fs)) [
    | inl missing ↦
        let no_required : own "required" fs ≡ none = rw missing at b in
        (
          (check_iff _ _ _).1
              (ground (arith, extra-object fs "fields" "required" al missing no_required)),
          rw missing refl,
        )
    | inr (v, found) ↦ (
      (check_iff _ _ _).1 (ground arith),
      rw found ((walk_fields_iff walk P sound p v (own "required" fs)).1 (rw found at b)),
    )
  ]
  body_complete p FieldType.number fs al b = (refl, refl)
  body_complete p FieldType.boolean fs al b = (refl, refl)

  typed_iff :
      (p : String) (fs : Fields) (o : Option FieldType)
      → ((walk_typed walk p fs o).errors ≡ []) ↔ (
          (t : FieldType) × (o ≡ some t)
          × All (λ k. includes (allowed t) k ≡ true) (keys fs)
          × HasBody P t fs)
  unfolding walk_typed
  typed_iff p fs none = (λ h. cc, λ h. cc (h.1))
  typed_iff p fs (some t) = (
    λ h.
        let (cs, rest) = (append-nil_iff _ _).0 h in
        let (ck, cb) = (append-nil_iff _ _).0 rest in
        (t, refl, (walk_keys_iff p t (keys fs)).0 ck, body_sound p t fs cs cb),
    λ (t', e, al, b).
        let same : t' ≡ t = cc e in
        let al' = subst (λ u. All (λ k. includes (allowed u) k ≡ true) (keys fs)) same al in
        let (cs, cb) = body_complete p t fs al' (subst (λ u. HasBody P u fs) same b) in
        (append-nil_iff _ _).1
          (cs, (append-nil_iff _ _).1 ((walk_keys_iff p t (keys fs)).1 al', cb)),
  )

  type_iff :
      (p : String) (fs : Fields) (o : Option Value)
      → ((walk_type walk p fs o).errors ≡ []) ↔ (
          (v : Value) × (t : FieldType) × (o ≡ some v)
          × (field_type v ≡ some t)
          × All (λ k. includes (allowed t) k ≡ true) (keys fs)
          × HasBody P t fs)
  unfolding walk_type
  type_iff p fs none = (λ h. cc, λ h. cc (h.2))
  type_iff p fs (some v) = (
    λ h. let (t, e, al, b) = (typed_iff p fs (field_type v)).0 h in (v, t, refl, e, al, b),
    λ (v', t, e, ft, al, b).
        let same : v' ≡ v = cc e in
        (typed_iff p fs (field_type v)).1 (t, subst (λ u. field_type u ≡ some t) same ft, al, b),
  )

  IsDescriptor-iff :
      (p : String) (fs : Fields) → ((walk_descriptor walk p fs).errors ≡ []) ↔ IsDescriptor P fs
  unfolding walk_descriptor
  IsDescriptor-iff p fs = type_iff p fs (own "type" fs)

-- A walk reports nothing exactly on the well-formed definitions, whatever the path.
pub walk_definition_iff :
    (room : ℕ) (p : String) (v : Value)
    → ((walk_definition room p v).errors ≡ []) ↔ IsDefinition room v
unfolding walk_definition
walk_definition_iff room p (string t) = check_iff _ _ _
walk_definition_iff (suc room) p (object fs) =
    IsDescriptor-iff (walk_definition room) (IsDefinition room) (walk_definition_iff room) p fs
walk_definition_iff zero p _ = (λ h. cc, λ h. elim h [ ])
walk_definition_iff (suc room) p _ = (λ h. cc, λ h. elim h [ ])

too_many_iff : (p : String) (w : Walk) → (too_many p w ≡ []) ↔ (w.fields ≤ max_descriptor_fields)
too_many_iff p w = ground arith

-- A definition is accepted exactly when it is well formed within four levels of descriptors and
-- declares at most 64 fields in all.
pub validate_field_definition_iff :
    (p : String) (v : Value)
    → (validate_field_definition p v ≡ []) ↔ (
        IsDefinition max_descriptor_depth v
        × (declared_fields max_descriptor_depth v ≤ max_descriptor_fields))
unfolding validate_field_definition
validate_field_definition_iff p v =
    let w = walk_definition max_descriptor_depth p v in
    let count = fields-walk_definition max_descriptor_depth p v in
    (
      λ h.
          let (ok_walk, few) = (append-nil_iff w.errors (too_many p w)).0 h in
          ((walk_definition_iff _ p v).0 ok_walk, rw count at ((too_many_iff p w).0 few)),
      λ (d, few).
          (append-nil_iff w.errors (too_many p w)).1
            ((walk_definition_iff _ p v).1 d, (too_many_iff p w).1 (rw count few)),
    )
