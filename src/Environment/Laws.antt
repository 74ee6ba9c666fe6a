-- ===== src/Environment/Laws.antt =====
-- What `updateEnvironmentText` of backend/src/lib/environmentFile.js promises: it returns, and the
-- new text gives every key the value of the update, and the value of the old text where the update has
-- none.
use Prim.Native.String
use open_kritt.Prelude.{
  String, ◌≡◌, refl, sym, ap, ap₂, ◌∙◌, Bool, true, false, ◌&&◌, ◌||◌, Option, none, some, List, [],
  ◌∷◌, ◌++◌, ◌==◌, if◌then◌else◌, eq_iff, and-eq-true, Bool-cases, inl, inr, map_get, includes, All,
  All-append, subst, all, all_distinct,
}
use open_kritt.Environment.{returned, and_then, split_lines, parse_environment_text}
use open_kritt.Environment.Editing.{
  new_lines, file_lines, updated_text, update_environment_text, ends_lf, join_lines, has_crlf,
  editing, pop_last,
}
use open_kritt.Environment.Lines.{is_line, updated_text-lines, split_lines-file_lines}
use open_kritt.Environment.View.{
  value_after, value_after-append, rewritten, overridden, map_get-parse_environment_text,
}
use open_kritt.Environment.Rewriting.{entries_fit}
use open_kritt.Environment.Rewritten.{rewrite_lines-IsRewritten}
use open_kritt.Environment.Adding.{entry_keys, added_value, new_lines-IsAdded}

all→All : (ls : List String) → all is_line ls ≡ true → All (λ l. is_line l ≡ true) ls
all→All [] h = tt
all→All (l ∷ ls) h =
    let (first, others) = and-eq-true (is_line l) (all is_line ls) h in (first, all→All ls others)

empty_line : (k : String) (o : Option String) → value_after k ("" ∷ []) o ≡ o
unfolding editing
empty_line k o = refl

perhaps_empty_line :
    (k : String) (b : Bool) (o : Option String) → value_after k (if b then "" ∷ [] else []) o ≡ o
perhaps_empty_line k true o = empty_line k o
perhaps_empty_line k false o = refl

no_text : (k : String) → value_after k (split_lines "") none ≡ value_after k (file_lines "") none
unfolding editing
no_text k = refl

-- The value of a key in a text is the one that its lines give.
value_of_text :
    (k text : String) → value_after k (split_lines text) none ≡ value_after k (file_lines text) none
value_of_text k text = elim (Bool-cases (text == "")) [
  | inl e ↦
      subst (λ t. value_after k (split_lines t) none ≡ value_after k (file_lines t) none)
        (sym ((eq_iff text "").0 e)) (no_text k)
  | inr n ↦
      ap (λ ls. value_after k ls none) (split_lines-file_lines text n)
      ∙ value_after-append k (file_lines text) (if ends_lf text then "" ∷ [] else []) none
      ∙ perhaps_empty_line k (ends_lf text) (value_after k (file_lines text) none)
]

no_lines :
    (k : String) (b crlf : Bool)
    → value_after k
        (split_lines (String.◌++◌ "" (if b then (if crlf then "\r\n" else "\n") else "")))
        none
      ≡ none
unfolding editing
no_lines k true true = refl
no_lines k true false = refl
no_lines k false crlf = refl

value_of_updated :
    (k text : String) (ls : List String)
    → All (λ l. is_line l ≡ true) ls
    → value_after k (split_lines (updated_text text ls)) none ≡ value_after k ls none
unfolding join_lines
value_of_updated k text [] h = no_lines k (ends_lf text || false) (has_crlf text)
value_of_updated k text (l ∷ ls) h =
    ap (λ ms. value_after k ms none) (updated_text-lines text l ls h)
    ∙ value_after-append k (l ∷ ls) ("" ∷ []) none
    ∙ empty_line k (value_after k (l ∷ ls) none)

resolved :
    (u : Option (Option String)) (met : Bool) (own : Option String)
    → added_value u met (rewritten u false met none own) ≡ overridden u own
resolved none met own = refl
resolved (some none) met own = refl
resolved (some (some v)) true own = refl
resolved (some (some v)) false own = refl

-- The result of an update: lines, that for every key give the value of the update or of the text.
pub record IsUpdated (text : String) (updates : List (String × Option String)) : Type 0 where
  pub lines : List String
  pub result : update_environment_text text updates ≡ returned (updated_text text lines)
  pub are_lines : All (λ l. is_line l ≡ true) lines
  pub values :
      (k : String)
      → (k == "__proto__") ≡ false
      → map_get k (parse_environment_text (updated_text text lines))
        ≡ overridden (map_get k updates) (map_get k (parse_environment_text text))

pub update_environment_text-IsUpdated :
    (text : String) (updates : List (String × Option String))
    → all is_line (file_lines text) ≡ true
    → all_distinct (entry_keys updates) ≡ true
    → entries_fit updates ≡ true
    → IsUpdated text updates
unfolding update_environment_text
update_environment_text-IsUpdated text updates lines distinct fits =
    let a =
      rewrite_lines-IsRewritten updates fits (file_lines text) []
        (all→All (file_lines text) lines) in
    let b = new_lines-IsAdded a.now updates distinct fits in
    record {
      lines = a.kept ++ b.lines;
      result =
          ap
            (λ r.
              and_then
                (and_then r (λ (kept, seen).
                  and_then (new_lines seen updates) (λ more. returned (kept ++ more))))
                (λ ls. returned (updated_text text ls)))
            a.done
          ∙ ap
              (λ r.
                and_then (and_then r (λ more. returned (a.kept ++ more)))
                  (λ ls. returned (updated_text text ls)))
              b.result;
      are_lines = All-append (λ l. is_line l ≡ true) a.kept b.lines a.are_lines b.are_lines;
      values = λ k named.
          map_get-parse_environment_text k (updated_text text (a.kept ++ b.lines)) named
          ∙ value_of_updated k text (a.kept ++ b.lines)
              (All-append (λ l. is_line l ≡ true) a.kept b.lines a.are_lines b.are_lines)
          ∙ value_after-append k a.kept b.lines none
          ∙ b.effect k (value_after k a.kept none)
          ∙ ap (added_value (map_get k updates) (includes a.now k)) (a.effect k none)
          ∙ resolved (map_get k updates) (includes a.now k) (value_after k (file_lines text) none)
          ∙ ap (overridden (map_get k updates))
              (sym (map_get-parse_environment_text k text named ∙ value_of_text k text));
    }

all_of_All : (ls : List String) → All (λ l. is_line l ≡ true) ls → all is_line ls ≡ true
all_of_All [] h = refl
all_of_All (l ∷ ls) (h, hs) = ap₂ ◌&&◌ h (all_of_All ls hs)

pop_last-are_lines :
    (ls : List String) → All (λ l. is_line l ≡ true) ls → All (λ l. is_line l ≡ true) (pop_last ls)
pop_last-are_lines [] h = h
pop_last-are_lines (l ∷ []) h = tt
pop_last-are_lines (l ∷ m ∷ ls) (h, hs) = (h, pop_last-are_lines (m ∷ ls) hs)

file_lines-are_lines :
    (t : String)
    → All (λ l. is_line l ≡ true) (split_lines t)
    → All (λ l. is_line l ≡ true) (file_lines t)
unfolding file_lines
file_lines-are_lines t h = either (t == "") (ends_lf t)
  where
    either :
        (a b : Bool)
        → All
            (λ l. is_line l ≡ true)
            (let lines = if a then [] else split_lines t in if b then pop_last lines else lines)
    either true true = tt
    either true false = tt
    either false true = pop_last-are_lines (split_lines t) h
    either false false = h

no_lines-are_lines :
    (b crlf : Bool)
    → All
        (λ l. is_line l ≡ true)
        (split_lines (String.◌++◌ "" (if b then (if crlf then "\r\n" else "\n") else "")))
unfolding editing is_line
no_lines-are_lines true true = (refl, (refl, tt))
no_lines-are_lines true false = (refl, (refl, tt))
no_lines-are_lines false crlf = (refl, tt)

updated_text-are_lines :
    (text : String) (ls : List String)
    → All (λ l. is_line l ≡ true) ls
    → All (λ l. is_line l ≡ true) (split_lines (updated_text text ls))
unfolding join_lines is_line
updated_text-are_lines text [] h = no_lines-are_lines (ends_lf text || false) (has_crlf text)
updated_text-are_lines text (l ∷ ls) h =
    subst (All (λ l. is_line l ≡ true)) (sym (updated_text-lines text l ls h))
      (All-append (λ l. is_line l ≡ true) (l ∷ ls) ("" ∷ []) h (refl, tt))

-- The lines of an updated text can be updated again.
pub updated_text-all_lines :
    (text : String) (ls : List String)
    → All (λ l. is_line l ≡ true) ls
    → all is_line (file_lines (updated_text text ls)) ≡ true
updated_text-all_lines text ls h =
    all_of_All (file_lines (updated_text text ls))
      (file_lines-are_lines (updated_text text ls) (updated_text-are_lines text ls h))

-- The update of a text whose lines do not end with a carriage return, with distinct keys that are
-- names and values without a character that ends a line: `updateEnvironmentText` returns a text,
-- in which `parseEnvironmentText` finds for every key but `__proto__` the value of the update, no
-- value where the update has null, and the value of the old text where the update has no such
-- key.
pub update_environment_text-parse_environment_text :
    (text : String) (updates : List (String × Option String)) (k : String)
    → all is_line (file_lines text) ≡ true
    → all_distinct (entry_keys updates) ≡ true
    → entries_fit updates ≡ true
    → (k == "__proto__") ≡ false
    → (new_text : String) × ((update_environment_text text updates ≡ returned new_text)
        × (map_get k (parse_environment_text new_text)
            ≡ overridden (map_get k updates) (map_get k (parse_environment_text text))))
update_environment_text-parse_environment_text text updates k lines distinct fits named =
    let u = update_environment_text-IsUpdated text updates lines distinct fits in
    (updated_text text u.lines, (u.result, u.values k named))
