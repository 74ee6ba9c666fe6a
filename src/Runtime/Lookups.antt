-- ===== src/Runtime/Lookups.antt =====
-- Settings and the names of the environment that they are written under
-- (backend/src/lib/runtimeSettings.js).
use open_kritt.Prelude.{
  some_same, or_true, String, ◌≡◌, refl, sym, ap, ◌∙◌, Bool, true, false, not, ◌&&◌, ◌||◌, some,
  List, [], ◌∷◌, ◌==◌, if◌then◌else◌, arith, eq_iff, Bool-cases, inl, inr, subst, All, map_get,
  all_distinct, includes, and-eq-true,
}
use open_kritt.Environment.{Outcome, thrown}
use open_kritt.Environment.Editing.{is_nil}
use open_kritt.Environment.Adding.{entry_keys}
use open_kritt.Environment.Mutate.{Values}
use open_kritt.Runtime.{Definition, Setting, Numbers, runtime_setting_definitions}
use open_kritt.Runtime.Reading.{resolved_setting, setting_text, first_source}
use open_kritt.Runtime.ReadBack.{is_of_kind, IsReadBack, parsed_setting_value-setting_text}
use open_kritt.Runtime.Bounds.{IsSupported}
use open_kritt.Runtime.Update.{Platform, resolved_all, environment_updates, env_key_of}

-- The table has no setting with the name of the prototype.
abbrev all_named : List (String × Definition) → Bool
all_named [] = true
all_named ((_, d) ∷ ds) = not (d.env_key == "__proto__") && all_named ds

pub thrown_same {ℓ} : {A : Type ℓ} (e f : String) → Path (Outcome A) (thrown e) (thrown f) → e ≡ f
thrown_same e f h = cc

pub named_found :
    (ds : List (String × Definition)) (key : String) (d : Definition)
    → all_named ds ≡ true
    → map_get key ds ≡ some d
    → (d.env_key == "__proto__") ≡ false
named_found [] key d h e = cc e
named_found ((k, c) ∷ ds) key d h e = elim (Bool-cases (k == key)) [
  | inl same ↦
      let found : some c ≡ some d = sym (ap (λ b. if b then some c else map_get key ds) same) ∙ e in
      let first : (c.env_key == "__proto__") ≡ false = ground (arith, h) in
      ap (λ x. x.env_key == "__proto__") (sym (some_same found)) ∙ first
  | inr n ↦
      named_found ds key d ground (arith, h)
        (sym (ap (λ b. if b then some c else map_get key ds) n) ∙ e)
]

pub definitions_named : all_named runtime_setting_definitions ≡ true
unfolding runtime_setting_definitions
definitions_named = refl

module _ {Real : Type 0} (numbers : Numbers Real) (p : Platform) where
  abbrev name_of : String → String
  name_of key = env_key_of p numbers (map_get key runtime_setting_definitions)

  -- The name of a setting that has a value is a key of the update.
  environment_update_in :
      (values : List (String × Setting Real)) (name key : String) (v : Setting Real)
      → name_of key ≡ name
      → map_get key values ≡ some v
      → includes (entry_keys (environment_updates p numbers values)) name ≡ true
  environment_update_in [] name key v e h = cc h
  environment_update_in ((j, w) ∷ values) name key v e h = elim (Bool-cases (j == key)) [
    | inl same ↦
        ap (λ b. b || includes (entry_keys (environment_updates p numbers values)) name)
          ((eq_iff (name_of j) name).1 (ap name_of ((eq_iff j key).0 same) ∙ e))
    | inr n ↦
        ap (λ b. (name_of j == name) || b)
          (environment_update_in values name key v e
            (sym (ap (λ b. if b then some w else map_get key values) n) ∙ h))
        ∙ or_true (name_of j == name)
  ]

  -- A name that is in the rest is not the first name, when names are distinct.
  later_name :
      (names : List String) (first name : String)
      → (not (includes names first) && all_distinct names) ≡ true
      → includes names name ≡ true
      → (first == name) ≡ false
  later_name names first name distinct later = elim (Bool-cases (first == name)) [
    | inl same ↦
        let there = ap (includes names) ((eq_iff first name).0 same) ∙ later in
        cc (there, (and-eq-true (not (includes names first)) (all_distinct names) distinct).0)
    | inr n ↦ n
  ]

  -- The text of a value is the update of the name of its setting.
  pub map_get-environment_updates :
      (values : List (String × Setting Real)) (name key : String) (v : Setting Real)
      → name_of key ≡ name
      → all_distinct (entry_keys (environment_updates p numbers values)) ≡ true
      → map_get key values ≡ some v
      → map_get name (environment_updates p numbers values) ≡ some (some (setting_text numbers v))
  map_get-environment_updates [] name key v e distinct h = cc h
  map_get-environment_updates ((j, w) ∷ values) name key v e distinct h =
      let rest = map_get name (environment_updates p numbers values) in
      let first = some (some (setting_text numbers w)) in
      elim (Bool-cases (j == key)) [
        | inl same ↦
            ap (λ b. if b then first else rest)
              ((eq_iff (name_of j) name).1 (ap name_of ((eq_iff j key).0 same) ∙ e))
            ∙ ap (λ x. some (some (setting_text numbers x)))
                (some_same (sym (ap (λ b. if b then some w else map_get key values) same) ∙ h))
        | inr n ↦
            let found = sym (ap (λ b. if b then some w else map_get key values) n) ∙ h in
            let names = entry_keys (environment_updates p numbers values) in
            ap (λ b. if b then first else rest)
              (later_name names (name_of j) name distinct
                (environment_update_in values name key v e found))
            ∙ map_get-environment_updates values name key v e
                (and-eq-true (not (includes names (name_of j))) (all_distinct names) distinct).1
                found
      ]

  pub map_get-resolved_all :
      (ds : List (String × Definition)) (key : String) (d : Definition) (runtime project : Values)
      → map_get key ds ≡ some d
      → map_get key (resolved_all p numbers ds runtime project)
        ≡ some (resolved_setting numbers d runtime project p.env)
  map_get-resolved_all [] key d runtime project e = cc e
  map_get-resolved_all ((k, c) ∷ ds) key d runtime project e = elim (Bool-cases (k == key)) [
    | inl same ↦
        ap
          (λ b.
            if b
            then some (resolved_setting numbers c runtime project p.env)
            else map_get key (resolved_all p numbers ds runtime project))
          same
        ∙ ap (λ x. some (resolved_setting numbers x runtime project p.env))
            (some_same (sym (ap (λ b. if b then some c else map_get key ds) same) ∙ e))
    | inr n ↦
        ap
          (λ b.
            if b
            then some (resolved_setting numbers c runtime project p.env)
            else map_get key (resolved_all p numbers ds runtime project))
          n
        ∙ map_get-resolved_all ds key d runtime project
            (sym (ap (λ b. if b then some c else map_get key ds) n) ∙ e)
  ]

  -- A setting whose name has a text in the file of the engine is read from there.
  pub resolved_setting-runtime :
      (d : Definition) (v : Setting Real) (runtime project : Values)
      → IsReadBack numbers
      → is_of_kind numbers d.kind v ≡ true
      → map_get d.env_key runtime ≡ some (setting_text numbers v)
      → resolved_setting numbers d runtime project p.env
        ≡ record { source = "runtime_config"; value = v; valid = true }
  unfolding resolved_setting
  resolved_setting-runtime d v runtime project read_back kind e =
      ap (λ o. first_source numbers d o (map_get d.env_key p.env) (map_get d.env_key project)) e
      ∙ ap
          (λ ((x, fits) : Setting Real × Bool). record {
            source = "runtime_config";
            value = x;
            valid = fits;
          })
          (parsed_setting_value-setting_text numbers read_back d v kind)

  -- The names of a list of accepted settings.
  pub IsSupported-of :
      (values : List (String × Setting Real)) (key : String) (v : Setting Real)
      → All (IsSupported numbers) values
      → map_get key values ≡ some v
      → IsSupported numbers (key, v)
  IsSupported-of [] key v s h = cc h
  IsSupported-of ((j, w) ∷ values) key v (s, ss) h = elim (Bool-cases (j == key)) [
    | inl same ↦
        subst (λ x. IsSupported numbers (key, x))
          (some_same (sym (ap (λ b. if b then some w else map_get key values) same) ∙ h))
          (subst (λ k. IsSupported numbers (k, w)) ((eq_iff j key).0 same) s)
    | inr n ↦
        IsSupported-of values key v ss
          (sym (ap (λ b. if b then some w else map_get key values) n) ∙ h)
  ]

  some_update :
      (values : List (String × Setting Real)) (key : String) (v : Setting Real)
      → map_get key values ≡ some v
      → is_nil (environment_updates p numbers values) ≡ false
  some_update [] key v h = cc h
  some_update (_ ∷ values) key v h = refl
