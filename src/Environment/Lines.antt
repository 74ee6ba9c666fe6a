-- ===== src/Environment/Lines.antt =====
-- The lines of an environment file: what joining and splitting do to them.
use Prim.Native.Char.{Char}
use Prim.Native.String.{[] as nil, ◌∷◌ as cons}
use Prim.Native.String
use text.Mathlib.TextLemmas.{nil-append, cons-append, append-nil, append_assoc}
use mathlib.Core.List.{append-nil as append-nil_right}
use open_kritt.Prelude.{
  or_true, String, ◌≡◌, refl, sym, ap, ◌∙◌, Bool, true, false, not, ◌&&◌, List, [], ◌∷◌, ◌++◌, ◌==◌,
  if◌then◌else◌, arith, All,
}
use open_kritt.Environment.{split_lines, is_lf, is_cr, starts_lf, onto_first}
use open_kritt.Environment.Editing.{
  ends_lf, pop_last, file_lines, join_lines, newline_of, has_crlf, updated_text,
}

-- A text without line feed that does not end with a carriage return.
unfoldable pub is_line : String → Bool
is_line nil = true
is_line (cons c s) = not (is_lf c) && (not (is_cr c && s == "") && is_line s)

-- A text that `split` takes for the end of a line.
abbrev pub IsNewline : String → Type 0
IsNewline n = (rest : String) → split_lines (String.◌++◌ n rest) ≡ "" ∷ split_lines rest

not_before_lf :
    (c : Char) (s n rest : String)
    → is_line (cons c s) ≡ true
    → (is_cr c && starts_lf (String.◌++◌ s (String.◌++◌ n rest))) ≡ false
unfolding is_line
not_before_lf c nil n rest h = ground (arith, h)
not_before_lf c (cons d s) n rest h =
    ap (λ t. is_cr c && starts_lf t) (cons-append d s (String.◌++◌ n rest)) ∙ ground (arith, h)

split_lines-line :
    (l n rest : String)
    → IsNewline n
    → is_line l ≡ true
    → split_lines (String.◌++◌ l (String.◌++◌ n rest)) ≡ l ∷ split_lines rest
unfolding split_lines is_line
split_lines-line nil n rest newline h =
    ap split_lines (nil-append (String.◌++◌ n rest)) ∙ newline rest
split_lines-line (cons c s) n rest newline h =
    let text = String.◌++◌ s (String.◌++◌ n rest) in
    let plain : is_lf c ≡ false = ground (arith, h) in
    let tail : is_line s ≡ true = ground (arith, h) in
    ap split_lines (cons-append c s (String.◌++◌ n rest))
    ∙ ap
        (λ b.
          if b
          then "" ∷ split_lines text
          else if is_cr c && starts_lf text
          then split_lines text
          else onto_first c (split_lines text))
        plain
    ∙ ap (λ b. if b then split_lines text else onto_first c (split_lines text))
        (not_before_lf c s n rest h)
    ∙ ap (onto_first c) (split_lines-line s n rest newline tail)

lf-IsNewline : IsNewline "\n"
unfolding split_lines
lf-IsNewline rest =
    ap split_lines
      (cons-append (Char.char 10 tt) "" rest ∙ ap (cons (Char.char 10 tt)) (nil-append rest))

crlf-IsNewline : IsNewline "\r\n"
unfolding split_lines
crlf-IsNewline rest = ap split_lines (
    cons-append (Char.char 13 tt) "\n" rest
    ∙ ap (cons (Char.char 13 tt))
        (cons-append (Char.char 10 tt) "" rest ∙ ap (cons (Char.char 10 tt)) (nil-append rest)))

newline_of-IsNewline : (text : String) → IsNewline (newline_of text)
newline_of-IsNewline text = either (has_crlf text)
  where
    either : (b : Bool) → IsNewline (if b then "\r\n" else "\n")
    either true = crlf-IsNewline
    either false = lf-IsNewline

-- Lines that are joined, with a newline after the last, are split into the lines again.
join_lines-split :
    (n : String)
    → IsNewline n
    → (l : String) (ls : List String) → All (λ x. is_line x ≡ true) (l ∷ ls)
    → split_lines (String.◌++◌ (join_lines n (l ∷ ls)) n) ≡ (l ∷ ls) ++ "" ∷ []
unfolding join_lines split_lines
join_lines-split n newline l [] (h, _) =
    ap (λ t. split_lines (String.◌++◌ l t)) (sym (append-nil n)) ∙ split_lines-line l n "" newline h
join_lines-split n newline l (m ∷ ls) (h, hs) =
    ap split_lines (
      append_assoc l (String.◌++◌ n (join_lines n (m ∷ ls))) n
      ∙ ap (String.◌++◌ l) (append_assoc n (join_lines n (m ∷ ls)) n))
    ∙ split_lines-line l n (String.◌++◌ (join_lines n (m ∷ ls)) n) newline h
    ∙ ap (λ r. l ∷ r) (join_lines-split n newline m ls hs)

-- The lines of the new text: those that were written, and an empty one.
pub updated_text-lines :
    (text l : String) (ls : List String)
    → All (λ x. is_line x ≡ true) (l ∷ ls)
    → split_lines (updated_text text (l ∷ ls)) ≡ (l ∷ ls) ++ "" ∷ []
updated_text-lines text l ls h =
    let n = newline_of text in
    ap (λ b. split_lines (String.◌++◌ (join_lines n (l ∷ ls)) (if b then n else "")))
      (or_true (ends_lf text))
    ∙ join_lines-split n (newline_of-IsNewline text) l ls h

-- The lines of a text that ends with a line feed: a first one, others, and an empty one.
abbrev EndsEmpty : List String → Type 0
EndsEmpty lines = (l : String) × ((ls : List String) × (lines ≡ l ∷ (ls ++ "" ∷ [])))

EndsEmpty-onto_first :
    (c : Char) (lines : List String) → EndsEmpty lines → EndsEmpty (onto_first c lines)
EndsEmpty-onto_first c lines (l, (ls, e)) = (cons c l, (ls, ap (onto_first c) e))

EndsEmpty-if :
    (a b : Bool) (c : Char) (rest : List String)
    → EndsEmpty rest
    → EndsEmpty (if a then "" ∷ rest else if b then rest else onto_first c rest)
EndsEmpty-if true b c rest (l, (ls, e)) = ("", (l ∷ ls, ap (λ r. "" ∷ r) e))
EndsEmpty-if false true c rest h = h
EndsEmpty-if false false c rest h = EndsEmpty-onto_first c rest h

split_lines-EndsEmpty : (text : String) → ends_lf text ≡ true → EndsEmpty (split_lines text)
unfolding ends_lf split_lines
split_lines-EndsEmpty nil h = cc
split_lines-EndsEmpty (cons c nil) h = rw h ("", ([], refl))
split_lines-EndsEmpty (cons c (cons d s)) h =
    EndsEmpty-if (is_lf c) (is_cr c && is_lf d) c (split_lines (cons d s))
      (split_lines-EndsEmpty (cons d s) h)

pop_last-append : (l x : String) (ls : List String) → pop_last (l ∷ (ls ++ x ∷ [])) ≡ l ∷ ls
pop_last-append l x [] = refl
pop_last-append l x (m ∷ ls) = ap (λ r. l ∷ r) (pop_last-append m x ls)

popped :
    (b : Bool) (lines : List String)
    → (b ≡ true → EndsEmpty lines)
    → lines ≡ (if b then pop_last lines else lines) ++ (if b then "" ∷ [] else [])
popped false lines h = sym (append-nil_right lines)
popped true lines h =
    let (l, (ls, e)) = h refl in
    e ∙ ap (λ r. r ++ "" ∷ []) (sym (ap pop_last e ∙ pop_last-append l "" ls))

-- A text has its lines, and after a last line feed an empty one.
pub split_lines-file_lines :
    (text : String)
    → (text == "") ≡ false
    → split_lines text ≡ file_lines text ++ (if ends_lf text then "" ∷ [] else [])
unfolding file_lines
split_lines-file_lines text h =
    popped (ends_lf text) (split_lines text) (split_lines-EndsEmpty text)
    ∙ ap
        (λ b.
          let lines = if b then [] else split_lines text in
          (if ends_lf text then pop_last lines else lines)
          ++ (if ends_lf text then "" ∷ [] else []))
        (sym h)
