-- ===== src/Environment/View.antt =====
-- The abstract view of an environment file: for a key, the value of the last line that assigns it.
-- `parseEnvironmentText` of backend/src/lib/environmentFile.js reads that view, and
-- `updateEnvironmentText` writes the values of the update into it.
use open_kritt.Prelude.{
  String, ◌≡◌, refl, sym, ap, ◌∙◌, Bool, true, false, Option, none, some, List, [], ◌∷◌, ◌++◌, ◌==◌,
  if◌then◌else◌, arith, eq_iff, Bool-cases, inl, inr, map_get, map_set, map_get-map_set,
}
use open_kritt.Environment.{
  assigned, to_line_end, decode_env_value, set_matched, set_value, parse_lines,
  parse_environment_text, split_lines,
}

-- What a line leaves of the value of the key `k`, when the value was `o`.
abbrev pub reads : String → Option (String × String) → Option String → Option String
reads k none o = o
reads k (some (key, raw)) o = if key == k then some (decode_env_value raw) else o

-- The value of the key `k` after the lines, when it was `o` before them.
abbrev pub value_after : String → List String → Option String → Option String
value_after k [] o = o
value_after k (l ∷ ls) o = value_after k ls (reads k (to_line_end (assigned l)) o)

pub value_after-append :
    (k : String) (ls ms : List String) (o : Option String)
    → value_after k (ls ++ ms) o ≡ value_after k ms (value_after k ls o)
value_after-append k [] ms o = refl
value_after-append k (l ∷ ls) ms o =
    value_after-append k ls ms (reads k (to_line_end (assigned l)) o)

apart :
    (k key : String) → (k == "__proto__") ≡ false → (key == "__proto__") ≡ true → (key == k) ≡ false
apart k key h p =
    let kp = eq_iff k "__proto__" in
    let keyp = eq_iff key "__proto__" in
    let both = eq_iff key k in ground (both, keyp, kp, h, p, arith)

map_get-set_value :
    (k key new : String) (values : List (String × String))
    → (k == "__proto__") ≡ false
    → map_get k (set_value key new values) ≡ (if key == k then some new else map_get k values)
unfolding set_value
map_get-set_value k key new values h = elim (Bool-cases (key == "__proto__")) [
  | inl p ↦
      ap (λ b. map_get k (if b then values else map_set key new values)) p
      ∙ sym (ap (λ b. if b then some new else map_get k values) (apart k key h p))
  | inr n ↦
      ap (λ b. map_get k (if b then values else map_set key new values)) n
      ∙ map_get-map_set key k new values
]

map_get-set_matched :
    (k : String) (m : Option (String × String)) (values : List (String × String))
    → (k == "__proto__") ≡ false
    → map_get k (set_matched m values) ≡ reads k m (map_get k values)
map_get-set_matched k none values h = refl
map_get-set_matched k (some (key, raw)) values h =
    map_get-set_value k key (decode_env_value raw) values h

map_get-parse_lines :
    (k : String) (ls : List String) (values : List (String × String))
    → (k == "__proto__") ≡ false
    → map_get k (parse_lines ls values) ≡ value_after k ls (map_get k values)
unfolding parse_lines
map_get-parse_lines k [] values h = refl
map_get-parse_lines k (l ∷ ls) values h =
    let m = to_line_end (assigned l) in
    map_get-parse_lines k ls (set_matched m values) h
    ∙ ap (value_after k ls) (map_get-set_matched k m values h)

pub map_get-parse_environment_text :
    (k text : String)
    → (k == "__proto__") ≡ false
    → map_get k (parse_environment_text text) ≡ value_after k (split_lines text) none
unfolding parse_environment_text
map_get-parse_environment_text k text h = map_get-parse_lines k (split_lines text) [] h

-- What an update makes of the value `o` of a key, from the entry `u` of the key.
abbrev pub overridden : Option (Option String) → Option String → Option String
overridden none o = o
overridden (some value) o = value

-- What the loop over the lines makes of the value `o` of a key with the entry `u`, where the key was met
-- before or is met by now, and the lines themselves would give the value `own`.
abbrev pub rewritten :
    Option (Option String) → Bool → Bool → Option String → Option String → Option String
rewritten none before now o own = own
rewritten (some none) before now o own = o
rewritten (some (some v)) true now o own = o
rewritten (some (some v)) false true o own = some v
rewritten (some (some v)) false false o own = o

pub rewritten-compose :
    (u : Option (Option String)) (a b c : Bool) (o own : Option String)
    (f : Option String → Option String)
    → (a ≡ true → b ≡ true)
    → (b ≡ true → c ≡ true)
    → rewritten u b c (rewritten u a b o own) (f (rewritten u a b o own))
      ≡ rewritten u a c o (f own)
rewritten-compose none a b c o own f g h = refl
rewritten-compose (some none) a b c o own f g h = refl
rewritten-compose (some (some v)) true true c o own f g h = refl
rewritten-compose (some (some v)) true false c o own f g h = cc (g refl)
rewritten-compose (some (some v)) false true true o own f g h = refl
rewritten-compose (some (some v)) false true false o own f g h = cc (h refl)
rewritten-compose (some (some v)) false false true o own f g h = refl
rewritten-compose (some (some v)) false false false o own f g h = refl

pub rewritten_same :
    (u : Option (Option String)) (a : Bool) (o : Option String) → rewritten u a a o o ≡ o
rewritten_same none a o = refl
rewritten_same (some none) a o = refl
rewritten_same (some (some v)) true o = refl
rewritten_same (some (some v)) false o = refl
