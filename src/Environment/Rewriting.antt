-- ===== src/Environment/Rewriting.antt =====
-- The loop of `updateEnvironmentText` over the lines of the file (backend/src/lib/environmentFile.js):
-- what it leaves of the value of every key.
use open_kritt.Prelude.{
  or_true, String, ◌≡◌, refl, sym, ap, ap₂, ◌∙◌, Bool, true, false, not, ◌&&◌, ◌||◌, Option, none,
  some, List, [], ◌∷◌, ◌==◌, if◌then◌else◌, eq_iff, Bool-cases, inl, inr, map_get, includes, All,
  subst,
}
use open_kritt.Text.{is_identifier, all_chars}
use open_kritt.Environment.{
  Outcome, returned, and_then, assigned, to_line_end, decode_env_value, is_terminator,
}
use open_kritt.Environment.Editing.{Written, written_entry, entry_line}
use open_kritt.Environment.Lines.{is_line}
use open_kritt.Environment.Entries.{no_terminator, entry_line-IsLineOf}
use open_kritt.Environment.View.{reads, value_after, rewritten, rewritten_same}

-- A value that can be written: one without a character that ends a line, or none.
abbrev pub is_writable : Option String → Bool
is_writable none = true
is_writable (some v) = no_terminator v

-- The keys are names and the values can be written.
abbrev pub entries_fit : List (String × Option String) → Bool
entries_fit [] = true
entries_fit ((key, value) ∷ entries) =
    is_identifier key && (is_writable value && entries_fit entries)

-- The lines that are written for an entry, and what they make of the value of a key.
pub record IsEmitted (seen : List String) (key : String) (value : Option String) : Type 0 where
  pub lines : List String
  pub result : written_entry seen key value ≡ returned lines
  pub are_lines : All (λ l. is_line l ≡ true) lines
  pub effect :
      (k : String) (o : Option String)
      → value_after k lines o
        ≡ (if key == k then rewritten (some value) (includes seen key) true o o else o)

if_same {ℓ} : {A : Type ℓ} (b : Bool) (x : A) → (if b then x else x) ≡ x
if_same true x = refl
if_same false x = refl

written_some :
    (seen : List String) (key v : String)
    → is_identifier key ≡ true
    → no_terminator v ≡ true
    → (b : Bool) → includes seen key ≡ b
    → IsEmitted seen key (some v)
written_some seen key v i h true e = record {
  lines = [];
  result =
      ap (λ b. if b then returned [] else and_then (entry_line key v) (λ l. returned (l ∷ []))) e;
  are_lines = tt;
  effect = λ k o. sym (
      ap (λ b. if key == k then rewritten (some (some v)) b true o o else o) e
      ∙ if_same (key == k) o);
}
written_some seen key v i h false e =
    let (l, entry) = entry_line-IsLineOf key v i h in
    record {
      lines = l ∷ [];
      result =
          ap (λ b. if b then returned [] else and_then (entry_line key v) (λ l. returned (l ∷ [])))
            e
          ∙ ap (λ r. and_then r (λ l. returned (l ∷ []))) entry.written;
      are_lines = (entry.line, tt);
      effect = λ k o.
          ap (λ m. reads k m o) entry.read
          ∙ ap (λ v. if key == k then some v else o) entry.value
          ∙ sym (ap (λ b. if key == k then rewritten (some (some v)) b true o o else o) e);
    }

pub written_entry-IsEmitted :
    (seen : List String) (key : String) (value : Option String)
    → is_identifier key ≡ true
    → is_writable value ≡ true
    → IsEmitted seen key value
written_entry-IsEmitted seen key none i h = record {
  lines = [];
  result = refl;
  are_lines = tt;
  effect = λ k o. sym (if_same (key == k) o);
}
written_entry-IsEmitted seen key (some v) i h = written_some seen key v i h (includes seen key) refl

-- What the loop makes of lines: lines again, and the keys that are met, so that for every key
-- the value is what `rewritten` says.
pub record IsRewritten (updates : List (String × Option String)) (seen ls : List String)
    (result : Outcome Written) : Type 0 where
  pub kept : List String
  pub now : List String
  pub done : result ≡ returned (kept, now)
  pub are_lines : All (λ l. is_line l ≡ true) kept
  pub grows : (k : String) → includes seen k ≡ true → includes now k ≡ true
  pub effect :
      (k : String) (o : Option String)
      → value_after k kept o
        ≡ rewritten (map_get k updates) (includes seen k) (includes now k) o (value_after k ls o)

module _ (updates : List (String × Option String)) (seen : List String) where
  -- A line that stays, when it assigns no key of the update.
  pub stays :
      (l : String) (m : Option (String × String))
      → assigned l ≡ m
      → is_line l ≡ true
      → ((k : String) (o : Option String)
          → reads k (to_line_end m) o
            ≡ rewritten
                (map_get k updates)
                (includes seen k)
                (includes seen k)
                o
                (reads k (to_line_end m) o))
      → IsRewritten updates seen (l ∷ []) (returned (l ∷ [], seen))
  stays l m e line f = record {
    kept = l ∷ [];
    now = seen;
    done = refl;
    are_lines = (line, tt);
    grows = λ k h. h;
    effect = λ k o.
        subst
          (λ n.
            reads k (to_line_end n) o
            ≡ rewritten (map_get k updates) (includes seen k) (includes seen k) o
                (reads k (to_line_end n) o))
          (sym e) (f k o);
  }

pub reads_other :
    (k key raw : String) (o : Option String)
    → (key == k) ≡ false
    → reads k (to_line_end (some (key, raw))) o ≡ o
reads_other k key raw o n = either (all_chars (λ c. not (is_terminator c)) raw)
  where
    either : (b : Bool) → reads k (if b then some (key, raw) else none) o ≡ o
    either true = ap (λ b. if b then some (decode_env_value raw) else o) n
    either false = refl

-- The value that the line itself gives does not count for a key of the update.
pub rewritten_met :
    (value : Option String) (a c : Bool) (o own own' : Option String)
    → rewritten (some value) a c o own ≡ rewritten (some value) a c o own'
rewritten_met none a c o own own' = refl
rewritten_met (some v) true c o own own' = refl
rewritten_met (some v) false true o own own' = refl
rewritten_met (some v) false false o own own' = refl

module _ (updates : List (String × Option String)) (seen : List String) (key raw : String) where
  abbrev own : String → Option String → Option String
  own k o = reads k (to_line_end (some (key, raw))) o

  effect_other :
      (k : String) (o : Option String) (c : Bool)
      → (key == k) ≡ false
      → c ≡ includes seen k
      → o ≡ rewritten (map_get k updates) (includes seen k) c o (own k o)
  effect_other k o c n e = sym (
      ap (λ x. rewritten (map_get k updates) (includes seen k) c o x) (reads_other k key raw o n)
      ∙ ap (λ b. rewritten (map_get k updates) (includes seen k) b o o) e
      ∙ rewritten_same (map_get k updates) (includes seen k) o)

  -- A key without an entry: the line stays.
  pub effect_kept :
      map_get key updates ≡ none
      → (k : String) (o : Option String)
      → own k o ≡ rewritten (map_get k updates) (includes seen k) (includes seen k) o (own k o)
  effect_kept e k o = elim (Bool-cases (key == k)) [
    | inl same ↦ sym (
        ap (λ u. rewritten u (includes seen k) (includes seen k) o (own k o))
          (ap (λ j. map_get j updates) (sym ((eq_iff key k).0 same)) ∙ e))
    | inr n ↦ reads_other k key raw o n ∙ effect_other k o (includes seen k) n refl
  ]

  -- A key with an entry: the value is written in place of the line, if it is met first.
  effect_written :
      (value : Option String)
      → map_get key updates ≡ some value
      → (w : IsEmitted seen key value) → (k : String) (o : Option String)
      → value_after k w.lines o
        ≡ rewritten (map_get k updates) (includes seen k) (includes (key ∷ seen) k) o (own k o)
  effect_written value e w k o = elim (Bool-cases (key == k)) [
    | inl same ↦
        let key_is_k = (eq_iff key k).0 same in
        w.effect k o
        ∙ ap (λ b. if b then rewritten (some value) (includes seen key) true o o else o) same
        ∙ rewritten_met value (includes seen key) true o o (own k o)
        ∙ ap₂ (λ b c. rewritten (some value) b c o (own k o)) (ap (includes seen) key_is_k)
            (sym (ap (λ b. b || includes seen k) same))
        ∙ ap (λ u. rewritten u (includes seen k) (includes (key ∷ seen) k) o (own k o))
            (sym (ap (λ j. map_get j updates) (sym key_is_k) ∙ e))
    | inr n ↦
        w.effect k o
        ∙ ap (λ b. if b then rewritten (some value) (includes seen key) true o o else o) n
        ∙ effect_other k o (includes (key ∷ seen) k) n (ap (λ b. b || includes seen k) n)
  ]

  pub replaced :
      (l : String) (value : Option String)
      → assigned l ≡ some (key, raw)
      → map_get key updates ≡ some value
      → (w : IsEmitted seen key value)
      → IsRewritten updates seen
          (l ∷ [])
          (and_then (written_entry seen key value) (λ ls. returned (ls, key ∷ seen)))
  replaced l value e at w = record {
    kept = w.lines;
    now = key ∷ seen;
    done = ap (λ r. and_then r (λ ls. returned (ls, key ∷ seen))) w.result;
    are_lines = w.are_lines;
    grows = λ k h. ap (λ b. (key == k) || b) h ∙ or_true (key == k);
    effect = λ k o.
        effect_written value at w k o
        ∙ ap
            (λ m.
              rewritten (map_get k updates) (includes seen k) (includes (key ∷ seen) k) o
                (reads k (to_line_end m) o))
            (sym e);
  }
