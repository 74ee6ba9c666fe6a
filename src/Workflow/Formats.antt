-- ===== src/Workflow/Formats.antt =====
-- The output formats of a workflow without errors.
use open_kritt.Prelude.{
  ℕ, ◌≤◌, ◌≡◌, ◌↔◌, refl, ap, ◌∙◌, sym, Bool, true, false, not, ◌&&◌, some, List, [], ◌∷◌, arith,
  append-nil_iff, String, Bool-cases, inl, inr, includes, ◌==◌, eq_iff, All, map_get,
}
use open_kritt.Text.{concat, is_valid_key}
use open_kritt.Value.{Value, Fields, end, field, keys, has_own, get}
use open_kritt.Model.{refuse}
use open_kritt.Descriptor.{
  is_reserved_output_key, validate_field_definition, max_descriptor_depth, max_descriptor_fields,
}
use open_kritt.Descriptor.Meaning.{IsDefinition, declared_fields}
use open_kritt.Descriptor.Laws.{validate_field_definition_iff}
use open_kritt.Format.{field_type_name}
use open_kritt.Workflow.Types.{Level, at_depth, required_vuln_keys, required_key_types}
use open_kritt.Workflow.Content.{
  output_field_errors, is_reserved_key, is_repeated, key_errors, keys_errors, has_no_key,
  output_errors, missing_keys, missing_key_errors, is_text, terminal_type_errors,
  terminal_types_errors, terminal_errors,
}
use open_kritt.Workflow.Depths.{refuse-nil_iff}

-- A key that may stand in an output format, among the keys of the workflow.
pub record IsOutputKey (ks : List String) (k : String) (v : Value) : Type 0 where
  pub valid : is_valid_key k ≡ true
  pub free : is_reserved_key k ≡ false
  pub single : is_repeated ks k ≡ false
  pub own_to_user : is_reserved_output_key k ≡ false
  pub well_formed : IsDefinition max_descriptor_depth v
  pub small : declared_fields max_descriptor_depth v ≤ max_descriptor_fields

abbrev pub EachKey : (String → Value → Type 0) → Fields → Type 0
EachKey P end = Unit
EachKey P (field k v fs) = P k v × EachKey P fs

key_errors_iff :
    (path : String) (ks : List String) (k : String) (v : Value)
    → (key_errors path ks k v ≡ []) ↔ IsOutputKey ks k v
unfolding key_errors output_field_errors
key_errors_iff path ks k v =
    let p = concat (path ∷ "." ∷ k ∷ []) in
    let a = append-nil_iff (refuse (not (is_valid_key k)) path _) _ in
    let b = append-nil_iff (refuse (is_reserved_key k) path _) _ in
    let c = append-nil_iff (refuse (is_repeated ks k) path _) _ in
    let d =
      append-nil_iff (refuse (is_reserved_output_key k) p _) (validate_field_definition p v) in
    let w = validate_field_definition_iff p v in
    (
      λ h.
          let (h1, r1) = a.0 h in
          let (h2, r2) = b.0 r1 in
          let (h3, r3) = c.0 r2 in
          let (h4, r4) = d.0 r3 in
          let (h5, h6) = w.0 r4 in
          record {
            valid = ground (arith, (refuse-nil_iff _ _ _).0 h1);
            free = (refuse-nil_iff _ _ _).0 h2;
            single = (refuse-nil_iff _ _ _).0 h3;
            own_to_user = (refuse-nil_iff _ _ _).0 h4;
            well_formed = h5;
            small = h6;
          },
      λ o. a.1 (
        (refuse-nil_iff _ _ _).1 (ap not o.valid),
        b.1 (
          (refuse-nil_iff _ _ _).1 o.free,
          c.1 (
            (refuse-nil_iff _ _ _).1 o.single,
            d.1 ((refuse-nil_iff _ _ _).1 o.own_to_user, w.1 (o.well_formed, o.small)),
          ),
        ),
      ),
    )

keys_errors_iff :
    (path : String) (ks : List String) (fs : Fields)
    → (keys_errors path ks fs ≡ []) ↔ EachKey (IsOutputKey ks) fs
unfolding keys_errors
keys_errors_iff path ks end = (λ _. tt, λ _. refl)
keys_errors_iff path ks (field k v fs) =
    let a = append-nil_iff (key_errors path ks k v) (keys_errors path ks fs) in
    let c = key_errors_iff path ks k v in
    let r = keys_errors_iff path ks fs in
    (λ h. (c.0 (a.0 h).0, r.0 (a.0 h).1), λ (p, q). a.1 (c.1 p, r.1 q))

-- A level's output format has a key, and all its keys may stand there.
abbrev pub HasFormat : List String → Level → Type 0
HasFormat ks l = (has_no_key l.output_format ≡ false) × EachKey (IsOutputKey ks) l.output_format

pub output_errors_iff :
    (ks : List String) (ls : List Level) → (output_errors ks ls ≡ []) ↔ All (HasFormat ks) ls
unfolding output_errors
output_errors_iff ks [] = (λ _. tt, λ _. refl)
output_errors_iff ks (l ∷ ls) =
    let path = at_depth l.depth "outputFormat" in
    let a = append-nil_iff (refuse (has_no_key l.output_format) path _) _ in
    let b = append-nil_iff (keys_errors path ks l.output_format) (output_errors ks ls) in
    let p = keys_errors_iff path ks l.output_format in
    let r = output_errors_iff ks ls in
    (
      λ h.
          let (e, rest) = a.0 h in
          (((refuse-nil_iff _ _ _).0 e, p.0 (b.0 rest).0), r.0 (b.0 rest).1),
      λ ((e, s), t). a.1 ((refuse-nil_iff _ _ _).1 e, b.1 (p.1 s, r.1 t)),
    )

-- A key of the format is not a reserved one.
pub key-free :
    (ks : List String) (fs : Fields) (k : String)
    → EachKey (IsOutputKey ks) fs
    → includes (keys fs) k ≡ true
    → is_reserved_key k ≡ false
key-free ks end k h i = cc
key-free ks (field j v fs) k (p, h) i = elim (Bool-cases (j == k)) [
  | inl e ↦ ap is_reserved_key (sym ((eq_iff j k).0 e)) ∙ p.free
  | inr e ↦ key-free ks fs k h ground (arith, i, e)
]

-- The terminal format has the key, with the type that is asked for.
abbrev pub IsTyped : Fields → String → Type 0
IsTyped fs k = is_text (field_type_name (get k fs)) (map_get k required_key_types) ≡ true

abbrev pub IsRequiredKey : Fields → String → Type 0
IsRequiredKey fs k = (has_own fs k ≡ true) × IsTyped fs k

type_of_absent : (h t : Bool) → (h && not t) ≡ false → h ≡ true → t ≡ true
type_of_absent h t e i = ground arith

absent_of_type : (h t : Bool) → (h ≡ true → t ≡ true) → (h && not t) ≡ false
absent_of_type true true f = refl
absent_of_type true false f = cc (f refl)
absent_of_type false t f = refl

present_missing :
    (fs : Fields) (k : String) (ks : List String)
    → has_own fs k ≡ true
    → missing_keys fs (k ∷ ks) ≡ []
    → missing_keys fs ks ≡ []
present_missing fs k ks e m = ground (arith, m)

missing_present :
    (fs : Fields) (k : String) (ks : List String)
    → has_own fs k ≡ true
    → missing_keys fs ks ≡ []
    → missing_keys fs (k ∷ ks) ≡ []
missing_present fs k ks e m = ground (arith, m)

absent_missing :
    (fs : Fields) (k : String) (ks : List String)
    → has_own fs k ≡ false
    → missing_keys fs (k ∷ ks) ≡ []
    → ⊥
absent_missing fs k ks e m = ground (arith, m)

terminal_type_errors_iff :
    (fs : Fields) (k : String)
    → (terminal_type_errors fs k ≡ []) ↔ (has_own fs k ≡ true → IsTyped fs k)
unfolding terminal_type_errors
terminal_type_errors_iff fs k =
    let typed = is_text (field_type_name (get k fs)) (map_get k required_key_types) in
    let r = refuse-nil_iff (has_own fs k && not typed) "terminal.outputFormat" _ in
    (λ h i. type_of_absent _ typed (r.0 h) i, λ f. r.1 (absent_of_type _ typed f))

terminal_keys_iff :
    (fs : Fields) (ks : List String)
    → ((missing_keys fs ks ≡ []) × (terminal_types_errors fs ks ≡ [])) ↔ All (IsRequiredKey fs) ks
unfolding terminal_types_errors
terminal_keys_iff fs [] = (λ _. tt, λ _. (refl, refl))
terminal_keys_iff fs (k ∷ ks) =
    let a = append-nil_iff (terminal_type_errors fs k) (terminal_types_errors fs ks) in
    let t = terminal_type_errors_iff fs k in
    let r = terminal_keys_iff fs ks in
    elim (Bool-cases (has_own fs k)) [
      | inl e ↦ (
        λ (m, n). ((e, t.0 (a.0 n).0 e), r.0 (present_missing fs k ks e m, (a.0 n).1)),
        λ ((_, p), q). (missing_present fs k ks e (r.1 q).0, a.1 (t.1 (λ _. p), (r.1 q).1)),
      )
      | inr e ↦ (λ (m, n). elim (absent_missing fs k ks e m) [ ], λ ((p, _), q). cc (p, e))
    ]

missing_key_errors_iff : (d : ℕ) (ks : List String) → (missing_key_errors d ks ≡ []) ↔ (ks ≡ [])
missing_key_errors_iff d [] = (λ _. refl, λ _. refl)
missing_key_errors_iff d (k ∷ ks) = (λ h. cc, λ h. cc)

-- All required keys, each with its type, and `exploitable` with its type if it is there.
abbrev pub IsTerminal : Fields → Type 0
IsTerminal fs =
    All (IsRequiredKey fs) required_vuln_keys
    × (has_own fs "exploitable" ≡ true → IsTyped fs "exploitable")

pub terminal_errors_iff :
    (d : ℕ) (l : Level) → (terminal_errors d (some l) ≡ []) ↔ IsTerminal l.output_format
unfolding terminal_errors
terminal_errors_iff d l =
    let fs = l.output_format in
    let a = append-nil_iff (missing_key_errors d (missing_keys fs required_vuln_keys)) _ in
    let b =
      append-nil_iff (terminal_types_errors fs required_vuln_keys)
        (terminal_type_errors fs "exploitable") in
    let m = missing_key_errors_iff d (missing_keys fs required_vuln_keys) in
    let t = terminal_keys_iff fs required_vuln_keys in
    let x = terminal_type_errors_iff fs "exploitable" in
    (
      λ h. let (e, rest) = a.0 h in (t.0 (m.0 e, (b.0 rest).0), x.0 (b.0 rest).1),
      λ (p, q). a.1 (m.1 (t.1 p).0, b.1 ((t.1 p).1, x.1 q)),
    )
