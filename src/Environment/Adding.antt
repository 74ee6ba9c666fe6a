-- ===== src/Environment/Adding.antt =====
-- The loop of `updateEnvironmentText` over the entries of the update
-- (backend/src/lib/environmentFile.js).
use open_kritt.Prelude.{
  String, ◌≡◌, refl, sym, ap, ◌∙◌, Bool, true, false, not, Option, none, some, List, [], ◌∷◌, ◌++◌,
  ◌==◌, if◌then◌else◌, arith, eq_iff, Bool-cases, inl, inr, map_get, includes, All, All-append,
  all_distinct,
}
use open_kritt.Text.{is_identifier, concat}
use open_kritt.Environment.{returned, thrown, and_then}
use open_kritt.Environment.Editing.{written_entry, new_lines}
use open_kritt.Environment.Lines.{is_line}
use open_kritt.Environment.View.{value_after, value_after-append, rewritten}
use open_kritt.Environment.Rewriting.{entries_fit, IsEmitted, written_entry-IsEmitted}

abbrev pub entry_keys : List (String × Option String) → List String
entry_keys [] = []
entry_keys ((key, _) ∷ entries) = key ∷ entry_keys entries

-- What the entries that are left do to the value `o` of a key with the entry `u`.
abbrev pub added_value : Option (Option String) → Bool → Option String → Option String
added_value none met o = o
added_value (some none) met o = o
added_value (some (some v)) true o = o
added_value (some (some v)) false o = some v

pub record IsAdded (seen : List String) (entries : List (String × Option String)) : Type 0 where
  pub lines : List String
  pub result : new_lines seen entries ≡ returned lines
  pub are_lines : All (λ l. is_line l ≡ true) lines
  pub effect :
      (k : String) (o : Option String)
      → value_after k lines o ≡ added_value (map_get k entries) (includes seen k) o

not_found :
    (entries : List (String × Option String)) (key : String)
    → includes (entry_keys entries) key ≡ false
    → map_get key entries ≡ none
not_found [] key h = refl
not_found ((k, v) ∷ entries) key h =
    let other : (k == key) ≡ false = ground (arith, h) in
    ap (λ b. if b then some v else map_get key entries) other
    ∙ not_found entries key ground (arith, h)

rewritten_added :
    (value : Option String) (met : Bool) (o : Option String)
    → rewritten (some value) met true o o ≡ added_value (some value) met o
rewritten_added none met o = refl
rewritten_added (some v) true o = refl
rewritten_added (some v) false o = refl

module _ (seen : List String) (key : String) (value : Option String)
    (entries : List (String × Option String)) (first : IsEmitted seen key value)
    (rest : IsAdded seen entries) (fresh : includes (entry_keys entries) key ≡ false) where
  both_effects :
      (k : String) (o : Option String)
      → value_after k (first.lines ++ rest.lines) o
        ≡ added_value (map_get k ((key, value) ∷ entries)) (includes seen k) o
  both_effects k o = elim (Bool-cases (key == k)) [
    | inl same ↦
        let key_is_k = (eq_iff key k).0 same in
        value_after-append k first.lines rest.lines o
        ∙ rest.effect k (value_after k first.lines o)
        ∙ ap (λ u. added_value u (includes seen k) (value_after k first.lines o))
            (ap (λ j. map_get j entries) (sym key_is_k) ∙ not_found entries key fresh)
        ∙ first.effect k o
        ∙ ap (λ b. if b then rewritten (some value) (includes seen key) true o o else o) same
        ∙ rewritten_added value (includes seen key) o
        ∙ ap (λ j. added_value (some value) (includes seen j) o) key_is_k
        ∙ ap (λ u. added_value u (includes seen k) o)
            (sym (ap (λ b. if b then some value else map_get k entries) same))
    | inr n ↦
        value_after-append k first.lines rest.lines o
        ∙ rest.effect k (value_after k first.lines o)
        ∙ ap (added_value (map_get k entries) (includes seen k)) (
            first.effect k o
            ∙ ap (λ b. if b then rewritten (some value) (includes seen key) true o o else o) n)
        ∙ ap (λ u. added_value u (includes seen k) o)
            (sym (ap (λ b. if b then some value else map_get k entries) n))
  ]

  IsAdded-onto : is_identifier key ≡ true → IsAdded seen ((key, value) ∷ entries)
  unfolding new_lines
  IsAdded-onto i = record {
    lines = first.lines ++ rest.lines;
    result =
        ap
          (λ b.
            if not b
            then thrown (concat ("Invalid environment key: " ∷ key ∷ []))
            else and_then (written_entry seen key value)
                (λ ls. and_then (new_lines seen entries) (λ more. returned (ls ++ more))))
          i
        ∙ ap
            (λ r.
              and_then r (λ ls. and_then (new_lines seen entries) (λ more. returned (ls ++ more))))
            first.result
        ∙ ap (λ r. and_then r (λ more. returned (first.lines ++ more))) rest.result;
    are_lines =
        All-append (λ l. is_line l ≡ true) first.lines rest.lines first.are_lines rest.are_lines;
    effect = both_effects;
  }

pub new_lines-IsAdded :
    (seen : List String) (entries : List (String × Option String))
    → all_distinct (entry_keys entries) ≡ true
    → entries_fit entries ≡ true
    → IsAdded seen entries
unfolding new_lines
new_lines-IsAdded seen [] d f = record {
  lines = [];
  result = refl;
  are_lines = tt;
  effect = λ k o. refl;
}
new_lines-IsAdded seen ((key, value) ∷ entries) d f =
    let i : is_identifier key ≡ true = ground (arith, f) in
    IsAdded-onto seen key value entries (written_entry-IsEmitted seen key value i ground (arith, f))
      (new_lines-IsAdded seen entries ground (arith, d) ground (arith, f)) ground (arith, d) i
