-- ===== src/Environment/Undo.antt =====
-- The values that `mutateEnvironmentFile` of backend/src/lib/environmentFile.js reports as previous
-- ones: an update with them gives the values of the text before.
use open_kritt.Prelude.{
  String, ◌≡◌, refl, ap, ap₂, ◌∙◌, true, false, not, ◌&&◌, Option, none, some, List, [], ◌∷◌, ◌==◌,
  if◌then◌else◌, arith, eq_iff, Bool-cases, inl, inr, map_get, map_set, map_get-map_set_other, all,
  all_distinct, subst,
}
use open_kritt.Text.{is_identifier}
use open_kritt.Environment.{
  returned, parse_environment_text, split_lines, set_value, set_matched, decode_env_value,
  parse_lines, to_line_end, assigned, is_terminator,
}
use open_kritt.Environment.Editing.{update_environment_text, file_lines, updated_text}
use open_kritt.Environment.Lines.{is_line}
use open_kritt.Environment.View.{value_after, overridden, map_get-parse_environment_text}
use open_kritt.Environment.Rewriting.{is_writable, entries_fit}
use open_kritt.Environment.Adding.{entry_keys}
use open_kritt.Environment.Laws.{update_environment_text-IsUpdated, updated_text-all_lines}
use open_kritt.Environment.Decoded.{value_after-open, Each}
use open_kritt.Environment.Mutate.{previous_of, Values, Updates}

entry_keys-previous_of :
    (updates : Updates) (values : Values)
    → entry_keys (previous_of updates values) ≡ entry_keys updates
entry_keys-previous_of [] values = refl
entry_keys-previous_of ((key, _) ∷ entries) values =
    ap (λ ks. key ∷ ks) (entry_keys-previous_of entries values)

map_get-set_value_proto :
    (key new : String) (values : Values)
    → map_get "__proto__" (set_value key new values) ≡ map_get "__proto__" values
unfolding set_value
map_get-set_value_proto key new values = elim (Bool-cases (key == "__proto__")) [
  | inl p ↦ ap (λ b. map_get "__proto__" (if b then values else map_set key new values)) p
  | inr n ↦
      ap (λ b. map_get "__proto__" (if b then values else map_set key new values)) n
      ∙ map_get-map_set_other key "__proto__" new values n
]

map_get-set_matched_proto :
    (m : Option (String × String)) (values : Values)
    → map_get "__proto__" (set_matched m values) ≡ map_get "__proto__" values
map_get-set_matched_proto none values = refl
map_get-set_matched_proto (some (key, raw)) values =
    map_get-set_value_proto key (decode_env_value raw) values

map_get-parse_lines_proto :
    (ls : List String) (values : Values)
    → map_get "__proto__" (parse_lines ls values) ≡ map_get "__proto__" values
unfolding parse_lines
map_get-parse_lines_proto [] values = refl
map_get-parse_lines_proto (l ∷ ls) values =
    map_get-parse_lines_proto ls (set_matched (to_line_end (assigned l)) values)
    ∙ map_get-set_matched_proto (to_line_end (assigned l)) values

written_back :
    (k : String) (ls : List String) (o : Option String)
    → value_after k ls none ≡ o
    → is_writable o ≡ true
written_back k ls none e = refl
written_back k ls (some v) e =
    subst (Each (λ c. not (is_terminator c))) e (value_after-open k ls none tt)

parsed-is_writable :
    (k text : String) → is_writable (map_get k (parse_environment_text text)) ≡ true
unfolding parse_environment_text
parsed-is_writable k text = elim (Bool-cases (k == "__proto__")) [
  | inl p ↦ ap is_writable (
      ap (λ j. map_get j (parse_environment_text text)) ((eq_iff k "__proto__").0 p)
      ∙ map_get-parse_lines_proto (split_lines text) [])
  | inr n ↦
      ap is_writable (map_get-parse_environment_text k text n)
      ∙ written_back k (split_lines text) (value_after k (split_lines text) none) refl
]

previous_of-fits :
    (updates : Updates) (text : String)
    → entries_fit updates ≡ true
    → entries_fit (previous_of updates (parse_environment_text text)) ≡ true
previous_of-fits [] text h = refl
previous_of-fits ((key, value) ∷ entries) text h =
    let i : is_identifier key ≡ true = ground (arith, h) in
    let rest = previous_of-fits entries text ground (arith, h) in
    ap₂ ◌&&◌ i (ap₂ ◌&&◌ (parsed-is_writable key text) rest)

-- The update and then its previous values leave the value of a key.
put_back :
    (updates : Updates) (values : Values) (k : String)
    → overridden
        (map_get k (previous_of updates values))
        (overridden (map_get k updates) (map_get k values))
      ≡ map_get k values
put_back [] values k = refl
put_back ((key, value) ∷ entries) values k = elim (Bool-cases (key == k)) [
  | inl same ↦
      ap
        (λ b.
          overridden
            (if b then some (map_get key values) else map_get k (previous_of entries values))
            (overridden (if b then some value else map_get k entries) (map_get k values)))
        same
      ∙ ap (λ j. map_get j values) ((eq_iff key k).0 same)
  | inr n ↦
      ap
        (λ b.
          overridden
            (if b then some (map_get key values) else map_get k (previous_of entries values))
            (overridden (if b then some value else map_get k entries) (map_get k values)))
        n
      ∙ put_back entries values k
]

-- An update, and the update that undoes it.
pub record IsUndone (text : String) (updates : Updates) : Type 0 where
  pub new_text : String
  pub done : update_environment_text text updates ≡ returned new_text
  pub new_values :
      (k : String)
      → (k == "__proto__") ≡ false
      → map_get k (parse_environment_text new_text)
        ≡ overridden (map_get k updates) (map_get k (parse_environment_text text))
  pub last_text : String
  pub undone :
      update_environment_text new_text (previous_of updates (parse_environment_text text))
      ≡ returned last_text
  pub last_values :
      (k : String)
      → (k == "__proto__") ≡ false
      → map_get k (parse_environment_text last_text) ≡ map_get k (parse_environment_text text)

pub update-IsUndone :
    (text : String) (updates : Updates)
    → all is_line (file_lines text) ≡ true
    → all_distinct (entry_keys updates) ≡ true
    → entries_fit updates ≡ true
    → IsUndone text updates
update-IsUndone text updates lines distinct fits =
    let values = parse_environment_text text in
    let back = previous_of updates values in
    let u = update_environment_text-IsUpdated text updates lines distinct fits in
    let new_text = updated_text text u.lines in
    let w =
      update_environment_text-IsUpdated new_text back
        (updated_text-all_lines text u.lines u.are_lines)
        (ap all_distinct (entry_keys-previous_of updates values) ∙ distinct)
        (previous_of-fits updates text fits) in
    record {
      new_text = new_text;
      done = u.result;
      new_values = u.values;
      last_text = updated_text new_text w.lines;
      undone = w.result;
      last_values = λ k named.
          w.values k named
          ∙ ap (overridden (map_get k back)) (u.values k named)
          ∙ put_back updates values k;
    }

-- After an update, with distinct keys that are names and values without a character that ends a
-- line, of a text whose lines do not end with a carriage return, an update with the values that
-- `mutateEnvironmentFile` reports as previous ones returns a text, in which every key but
-- `__proto__` has the value that it has in the first text.
pub update_environment_text-previous_of :
    (text : String) (updates : Updates) (k : String)
    → all is_line (file_lines text) ≡ true
    → all_distinct (entry_keys updates) ≡ true
    → entries_fit updates ≡ true
    → (k == "__proto__") ≡ false
    → (new_text : String) × ((update_environment_text text updates ≡ returned new_text)
        × ((last_text : String) × ((update_environment_text new_text
                  (previous_of updates (parse_environment_text text))
                ≡ returned last_text)
              × (map_get k (parse_environment_text last_text)
                  ≡ map_get k (parse_environment_text text)))))
update_environment_text-previous_of text updates k lines distinct fits named =
    let u = update-IsUndone text updates lines distinct fits in
    (u.new_text, (u.done, (u.last_text, (u.undone, u.last_values k named))))
