-- ===== src/Format/Laws.antt =====
-- Normal forms of field definitions.
use open_kritt.Prelude.{
  ◌≡◌, refl, ap, ap₂, ◌∙◌, sym, subst, Bool, true, false, none, some, arith, String, Bool-cases,
  inl, inr, if◌then◌else◌, ◌==◌, eq_iff,
}
use open_kritt.Value.{
  Value, undefined, null, bool, number, real, string, array, object, Fields, end, field, has_own,
  get,
}
use open_kritt.Format.{
  normalize_definition, copy_descriptor, copy_field_map, normalize_each, shaped, has_structure_key,
  is_bare_type,
}

-- A copy has the keys of what it copies.
has_own-copy_descriptor : (k : String) (fs : Fields) → has_own (copy_descriptor fs) k ≡ has_own fs k
unfolding copy_descriptor
has_own-copy_descriptor k end = refl
has_own-copy_descriptor k (field j v fs) = ground (arith, has_own-copy_descriptor k fs)

structure-copy_descriptor :
    (fs : Fields) → has_structure_key (copy_descriptor fs) ≡ has_structure_key fs
structure-copy_descriptor fs =
    rw
      (
        has_own-copy_descriptor "items" fs,
        has_own-copy_descriptor "fields" fs,
        has_own-copy_descriptor "required" fs,
        has_own-copy_descriptor "enum" fs,
      )
      refl

-- Of an object that has a type, the copy is a bare type name only where the object is one.
bare-copy_descriptor :
    (fs : Fields) → has_own fs "type" ≡ true → is_bare_type (copy_descriptor fs) ≡ is_bare_type fs
unfolding copy_descriptor
bare-copy_descriptor end h = refl
bare-copy_descriptor (field k v end) h = elim (Bool-cases (k == "type")) [
  | inl e ↦
      subst (λ j. is_bare_type (copy_descriptor (field j v end)) ≡ is_bare_type (field j v end))
        (sym ((eq_iff k "type").0 e)) refl
  | inr e ↦ cc (h, ap (λ b. elim (if b then some v else none) [ none ↦ false | some _ ↦ true ]) e)
]
bare-copy_descriptor (field k v (field j w fs)) h = refl

has_one : (k : String) (v : Value) → has_own (field k v end) "type" ≡ true → (k == "type") ≡ true
has_one k v h = ground (arith, h)

-- A bare type name is a text.
bare_text :
    (fs : Fields)
    → has_own fs "type" ≡ true
    → is_bare_type fs ≡ true
    → normalize_definition (get "type" fs) ≡ get "type" fs
unfolding normalize_definition
bare_text end h b = cc
bare_text (field k (string s) end) h b =
    let same =
      ap (λ c. elim (if c then some (string s) else none) [ none ↦ undefined | some v ↦ v ])
        (has_one k (string s) h) in
    ap normalize_definition same ∙ sym same
bare_text (field k _ end) h b = cc
bare_text (field k v (field j w fs)) h b = cc

-- The normal form of a copy that is normal itself, where a copy is the normal form.
normal_copy_untyped :
    (c : Fields)
    → has_own c "type" ≡ false
    → has_structure_key c ≡ true
    → copy_descriptor c ≡ c
    → normalize_definition (object c) ≡ object c
unfolding normalize_definition
normal_copy_untyped c t s e =
    ap
      (λ b.
        shaped b (has_structure_key c) (is_bare_type c) (get "type" c) (object (copy_descriptor c)))
      t
    ∙ ap (λ b. shaped false b (is_bare_type c) (get "type" c) (object (copy_descriptor c))) s
    ∙ ap object e

normal_copy_typed :
    (c : Fields)
    → has_own c "type" ≡ true
    → is_bare_type c ≡ false
    → copy_descriptor c ≡ c
    → normalize_definition (object c) ≡ object c
unfolding normalize_definition
normal_copy_typed c t s e =
    ap
      (λ b.
        shaped b (has_structure_key c) (is_bare_type c) (get "type" c) (object (copy_descriptor c)))
      t
    ∙ ap (λ b. shaped true (has_structure_key c) b (get "type" c) (object (copy_descriptor c))) s
    ∙ ap object e

normal_shaped :
    (has_type has_structure bare : Bool) (type copy : Value)
    → (has_type ≡ false → has_structure ≡ true → normalize_definition copy ≡ copy)
    → (has_type ≡ true → bare ≡ true → normalize_definition type ≡ type)
    → (has_type ≡ true → bare ≡ false → normalize_definition copy ≡ copy)
    → normalize_definition (shaped has_type has_structure bare type copy)
      ≡ shaped has_type has_structure bare type copy
unfolding normalize_definition
normal_shaped false true bare type copy f g h = f refl refl
normal_shaped false false bare type copy f g h = refl
normal_shaped true has_structure true type copy f g h = g refl refl
normal_shaped true has_structure false type copy f g h = h refl refl

normal_object :
    (fs : Fields)
    → copy_descriptor (copy_descriptor fs) ≡ copy_descriptor fs
    → normalize_definition (normalize_definition (object fs)) ≡ normalize_definition (object fs)
unfolding normalize_definition
normal_object fs e =
    let c = copy_descriptor fs in
    let t = has_own-copy_descriptor "type" fs in
    normal_shaped (has_own fs "type") (has_structure_key fs) (is_bare_type fs) (get "type" fs)
      (object c) (λ a b. normal_copy_untyped c (t ∙ a) (structure-copy_descriptor fs ∙ b) e)
      (λ a b. bare_text fs a b)
      (λ a b. normal_copy_typed c (t ∙ a) (bare-copy_descriptor fs a ∙ b) e)

-- An entry of a copy is normal if what it is made of is.
normal_entry :
    (items_key fields_key : Bool) (v n m : Value)
    → normalize_definition n ≡ n
    → copy_field_map m ≡ m
    → (if items_key
        then normalize_definition (if items_key then n else if fields_key then m else v)
        else if fields_key
        then copy_field_map (if items_key then n else if fields_key then m else v)
        else if items_key
        then n
        else if fields_key
        then m
        else v)
      ≡ (if items_key then n else if fields_key then m else v)
normal_entry true f v n m h k = h
normal_entry false true v n m h k = k
normal_entry false false v n m h k = refl

mutual
  unfolding normalize_definition

  normal_again :
      (v : Value) → normalize_definition (normalize_definition v) ≡ normalize_definition v
  normal_again undefined = refl
  normal_again null = refl
  normal_again (bool b) = refl
  normal_again (number n) = refl
  normal_again (real s) = refl
  normal_again (string s) = refl
  normal_again (array vs) = refl
  normal_again (object fs) = normal_object fs (copy_again fs)

  copy_again : (fs : Fields) → copy_descriptor (copy_descriptor fs) ≡ copy_descriptor fs
  copy_again end = refl
  copy_again (field k v fs) =
      ap₂ (field k)
        (normal_entry (k == "items") (k == "fields") v (normalize_definition v) (copy_field_map v)
          (normal_again v) (field_map_again v))
        (copy_again fs)

  field_map_again : (v : Value) → copy_field_map (copy_field_map v) ≡ copy_field_map v
  field_map_again (object m) = ap object (each_again m)
  field_map_again undefined = refl
  field_map_again null = refl
  field_map_again (bool b) = refl
  field_map_again (number n) = refl
  field_map_again (real s) = refl
  field_map_again (string s) = refl
  field_map_again (array vs) = refl

  each_again : (fs : Fields) → normalize_each (normalize_each fs) ≡ normalize_each fs
  each_again end = refl
  each_again (field k v fs) = ap₂ (field k) (normal_again v) (each_again fs)

-- A normalized definition is its own normal form, so that storing what was normalized and normalizing
-- it again when it is read changes nothing.
pub normalize_definition_idem :
    (v : Value) → normalize_definition (normalize_definition v) ≡ normalize_definition v
normalize_definition_idem v = normal_again v
