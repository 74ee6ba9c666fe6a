-- ===== src/Environment/Rewritten.antt =====
-- The loop of `updateEnvironmentText` over all lines (backend/src/lib/environmentFile.js).
use open_kritt.Prelude.{
  some_same, String, ◌≡◌, refl, sym, ap, ap₂, ◌∙◌, true, ◌&&◌, Option, none, some, List, [], ◌∷◌,
  ◌++◌, ◌==◌, if◌then◌else◌, arith, eq_iff, and-eq-true, Bool-cases, inl, inr, map_get, includes,
  All, All-append,
}
use open_kritt.Text.{is_identifier}
use open_kritt.Environment.{Outcome, returned, and_then, assigned, to_line_end}
use open_kritt.Environment.Editing.{Written, written_entry, rewrite_match, rewrite_lines, add_lines}
use open_kritt.Environment.Lines.{is_line}
use open_kritt.Environment.View.{
  reads, value_after, value_after-append, rewritten, rewritten-compose, rewritten_same,
}
use open_kritt.Environment.Rewriting.{
  is_writable, entries_fit, written_entry-IsEmitted, IsRewritten, stays, effect_kept, replaced,
}

-- An entry that is found fits.
found_fits :
    (entries : List (String × Option String)) (key : String) (value : Option String)
    → entries_fit entries ≡ true
    → map_get key entries ≡ some value
    → (is_identifier key && is_writable value) ≡ true
found_fits [] key value h e = cc
found_fits ((k, v) ∷ entries) key value h e = elim (Bool-cases (k == key)) [
  | inl same ↦
      let found : some v ≡ some value =
        sym (ap (λ b. if b then some v else map_get key entries) same) ∙ e in
      ap₂ (λ j w. is_identifier j && is_writable w) (sym ((eq_iff k key).0 same))
        (some_same (sym found))
      ∙ ground (arith, h)
  | inr n ↦
      found_fits entries key value ground (arith, h)
        (sym (ap (λ b. if b then some v else map_get key entries) n) ∙ e)
]

module _ (updates : List (String × Option String)) (fits : entries_fit updates ≡ true) where
  rewrite_found :
      (seen : List String) (l key raw : String)
      → is_line l ≡ true
      → assigned l ≡ some (key, raw)
      → (found : Option (Option String)) → map_get key updates ≡ found
      → IsRewritten updates seen (l ∷ []) (elim found [
        | none ↦ returned (l ∷ [], seen)
        | some value ↦ and_then (written_entry seen key value) (λ ls. returned (ls, key ∷ seen))
      ])
  rewrite_found seen l key raw line e none at =
      stays updates seen l (some (key, raw)) e line (effect_kept updates seen key raw at)
  rewrite_found seen l key raw line e (some value) at =
      let (i, w) =
        and-eq-true (is_identifier key) (is_writable value)
          (found_fits updates key value fits at) in
      replaced updates seen key raw l value e at (written_entry-IsEmitted seen key value i w)

  rewrite_match-IsRewritten :
      (seen : List String) (l : String) (m : Option (String × String))
      → is_line l ≡ true
      → assigned l ≡ m
      → IsRewritten updates seen (l ∷ []) (rewrite_match updates seen l m)
  rewrite_match-IsRewritten seen l none line e =
      stays updates seen l none e line
        (λ k o. sym (rewritten_same (map_get k updates) (includes seen k) o))
  rewrite_match-IsRewritten seen l (some (key, raw)) line e =
      rewrite_found seen l key raw line e (map_get key updates) refl

  -- A line and the lines after it.
  IsRewritten-onto :
      (seen : List String) (l : String) (ls : List String) (first : Outcome Written)
      → (a : IsRewritten updates seen (l ∷ []) first)
      → IsRewritten updates a.now ls (rewrite_lines updates a.now ls)
      → IsRewritten updates seen
          (l ∷ ls)
          (and_then first (λ (lines, now). add_lines lines (rewrite_lines updates now ls)))
  IsRewritten-onto seen l ls first a b = record {
    kept = a.kept ++ b.kept;
    now = b.now;
    done =
        ap (λ r. and_then r (λ (lines, now). add_lines lines (rewrite_lines updates now ls))) a.done
        ∙ ap (add_lines a.kept) b.done;
    are_lines = All-append (λ x. is_line x ≡ true) a.kept b.kept a.are_lines b.are_lines;
    grows = λ k h. b.grows k (a.grows k h);
    effect = λ k o.
        value_after-append k a.kept b.kept o
        ∙ b.effect k (value_after k a.kept o)
        ∙ ap
            (λ x.
              rewritten (map_get k updates) (includes a.now k) (includes b.now k) x
                (value_after k ls x))
            (a.effect k o)
        ∙ rewritten-compose (map_get k updates) (includes seen k) (includes a.now k)
            (includes b.now k) o (reads k (to_line_end (assigned l)) o) (value_after k ls)
            (a.grows k) (b.grows k);
  }

  -- The loop returns, for every key with the value that is in the update.
  pub rewrite_lines-IsRewritten :
      (ls seen : List String)
      → All (λ l. is_line l ≡ true) ls
      → IsRewritten updates seen ls (rewrite_lines updates seen ls)
  unfolding rewrite_lines
  rewrite_lines-IsRewritten [] seen _ = record {
    kept = [];
    now = seen;
    done = refl;
    are_lines = tt;
    grows = λ k h. h;
    effect = λ k o. sym (rewritten_same (map_get k updates) (includes seen k) o);
  }
  rewrite_lines-IsRewritten (l ∷ ls) seen (line, lines) =
      let a = rewrite_match-IsRewritten seen l (assigned l) line refl in
      IsRewritten-onto seen l ls (rewrite_match updates seen l (assigned l)) a
        (rewrite_lines-IsRewritten ls a.now lines)
