-- ===== src/Template/Extra.antt =====
-- The keys of `{{extra.<key>}}` references.
use open_kritt.Prelude.{
  String, ◌≡◌, refl, ◌∙◌, sym, Bool, true, false, ◌||◌, Option, none, some, List, [], ◌∷◌, ◌++◌,
  ◌==◌, arith, eq_iff, includes, all_distinct, any, Bool-cases, inl, inr,
}
use open_kritt.Template.{
  add, add_found, extra_keys_from, extra_sub_key, extract_extra_keys, parse_refs,
}

-- The reference names the extra key.
abbrev pub is_key : String → Option String → Bool
is_key k none = false
is_key k (some j) = j == k

abbrev pub names_extra : String → String → Bool
names_extra k ref = is_key k (extra_sub_key ref)

pub includes-append :
    (xs ys : List String) (k : String) → includes (xs ++ ys) k ≡ includes xs k || includes ys k
includes-append [] ys k = refl
includes-append (x ∷ xs) ys k = ground (arith, includes-append xs ys k)

or-false : (b : Bool) → (b || false) ≡ b
or-false b = ground arith

pub includes-add :
    (xs : List String) (j k : String) → includes (add xs j) k ≡ includes xs k || j == k
includes-add xs j k = elim (Bool-cases (includes xs j)) [
  | inl old ↦ ground (arith, eq_iff j k)
  | inr new ↦ rw new (includes-append xs (j ∷ []) k ∙ rw (or-false (j == k)))
]

distinct-concat :
    (xs : List String) (k : String)
    → all_distinct xs ≡ true
    → includes xs k ≡ false
    → all_distinct (xs ++ k ∷ []) ≡ true
distinct-concat [] k d n = refl
distinct-concat (x ∷ xs) k d n =
    ground (arith, distinct-concat xs k, includes-append xs (k ∷ []) x, eq_iff x k, eq_iff k x)

distinct-add :
    (xs : List String) (o : Option String)
    → all_distinct xs ≡ true
    → all_distinct (add_found xs o) ≡ true
distinct-add xs none d = d
distinct-add xs (some k) d = elim (Bool-cases (includes xs k)) [
  | inl old ↦ rw old d
  | inr new ↦ rw new (distinct-concat xs k d new)
]

includes-add_found :
    (xs : List String) (o : Option String) (k : String)
    → includes (add_found xs o) k ≡ includes xs k || is_key k o
includes-add_found xs none k = sym (or-false (includes xs k))
includes-add_found xs (some j) k = includes-add xs j k

or_assoc : (a b c : Bool) → ((a || b) || c) ≡ (a || (b || c))
or_assoc a b c = ground arith

includes-extra_keys_from :
    (refs found : List String) (k : String)
    → includes (extra_keys_from found refs) k ≡ includes found k || any (names_extra k) refs
unfolding extra_keys_from
includes-extra_keys_from [] found k = sym (or-false (includes found k))
includes-extra_keys_from (r ∷ refs) found k =
    includes-extra_keys_from refs (add_found found (extra_sub_key r)) k
    ∙ rw (includes-add_found found (extra_sub_key r) k)
        (or_assoc (includes found k) (is_key k (extra_sub_key r)) (any (names_extra k) refs))

distinct-extra_keys_from :
    (refs found : List String)
    → all_distinct found ≡ true
    → all_distinct (extra_keys_from found refs) ≡ true
unfolding extra_keys_from
distinct-extra_keys_from [] found d = d
distinct-extra_keys_from (r ∷ refs) found d =
    distinct-extra_keys_from refs (add_found found (extra_sub_key r))
      (distinct-add found (extra_sub_key r) d)

-- The extra keys of a prompt are distinct, and they are exactly the keys that its references name.
pub extract_extra_keys_exact :
    (content : String)
    → (all_distinct (extract_extra_keys content) ≡ true)
      × ((k : String)
          → includes (extract_extra_keys content) k ≡ any (names_extra k) (parse_refs content))
unfolding extract_extra_keys
extract_extra_keys_exact content = (
  distinct-extra_keys_from (parse_refs content) [] refl,
  includes-extra_keys_from (parse_refs content) [],
)
