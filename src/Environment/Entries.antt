-- ===== src/Environment/Entries.antt =====
-- A line that is written for a key is read as an assignment to that key.
use Prim.Native.Char.{Char, code}
use Prim.Native.String.{[] as nil, ◌∷◌ as cons}
use Prim.Native.String
use text.Mathlib.TextLemmas.{nil-append, cons-append}
use open_kritt.Prelude.{
  ◌≤◌, String, ◌≡◌, refl, sym, ap, ap₂, ◌∙◌, Bool, true, false, not, ◌&&◌, ◌||◌, none, some, [],
  ◌∷◌, ◌==◌, if◌then◌else◌, and-eq-true, arith, inl, inr,
}
use open_kritt.Text.{
  concat, trim_start, all_chars, is_space, is_identifier, is_name_char, is_name_start, is_digit,
  strip_prefix,
}
use open_kritt.Text.Laws.{all_chars_mono}
use open_kritt.Environment.{
  returned, thrown, and_then, is_single_quote, is_cr, is_lf, is_terminator, backslash,
  name_and_rest, assignment, assigned, onto_name, or_else, with_name, after_equals, assignment_in,
  after_space, decode_env_value, to_line_end,
}
use open_kritt.Environment.Editing.{is_plain, escape_quotes, entry_line, encode_env_value}
use open_kritt.Environment.Lines.{is_line}
use open_kritt.Environment.Values.{
  single_line, IsEncoded, encode_env_value-IsEncoded, decode_env_value-encode_env_value, not_space,
}

all_chars-append :
    (p : Char → Bool) (s t : String)
    → all_chars p s ≡ true
    → all_chars p t ≡ true
    → all_chars p (String.◌++◌ s t) ≡ true
unfolding all_chars
all_chars-append p nil t h k = ap (all_chars p) (nil-append t) ∙ k
all_chars-append p (cons c s) t h k =
    let (first, others) = and-eq-true (p c) (all_chars p s) h in
    ap (all_chars p) (cons-append c s t) ∙ ap₂ ◌&&◌ first (all_chars-append p s t others k)

if-all_chars :
    (b : Bool) (p : Char → Bool) (s t : String)
    → all_chars p s ≡ true
    → all_chars p t ≡ true
    → all_chars p (if b then s else t) ≡ true
if-all_chars true p s t h k = h
if-all_chars false p s t h k = k

all_chars-escape_quotes :
    (p : Char → Bool)
    → p backslash ≡ true
    → (s : String) → all_chars p s ≡ true
    → all_chars p (escape_quotes s) ≡ true
unfolding all_chars escape_quotes
all_chars-escape_quotes p b nil h = refl
all_chars-escape_quotes p b (cons c s) h =
    let (first, others) = and-eq-true (p c) (all_chars p s) h in
    let rest = all_chars-escape_quotes p b s others in
    if-all_chars (is_single_quote c) p (cons backslash (cons c (escape_quotes s)))
      (cons c (escape_quotes s)) (ap₂ ◌&&◌ b (ap₂ ◌&&◌ first rest)) (ap₂ ◌&&◌ first rest)

-- No character that ends a line for a regular expression.
abbrev pub no_terminator : String → Bool
no_terminator s = all_chars (λ c. not (is_terminator c)) s

single_line_of : (v : String) → no_terminator v ≡ true → single_line v ≡ true
single_line_of v h =
    all_chars_mono (λ c. not (is_terminator c)) (λ c. not (is_cr c || is_lf c))
      (λ c k. ground (arith, k)) v h

encoded-no_terminator :
    (v e : String) → no_terminator v ≡ true → IsEncoded v e → no_terminator e ≡ true
unfolding all_chars
encoded-no_terminator v e h (inl (same, _)) = ap no_terminator same ∙ h
encoded-no_terminator v e h (inr (same, _)) =
    let p : Char → Bool = λ c. not (is_terminator c) in
    ap no_terminator same
    ∙ all_chars-append p "'" (String.◌++◌ (escape_quotes v) "'") refl
        (all_chars-append p (escape_quotes v) "'" (all_chars-escape_quotes p refl v h) refl)

-- Without carriage returns and line feeds a text is a line.
no_terminator-is_line : (s : String) → single_line s ≡ true → is_line s ≡ true
unfolding is_line all_chars
no_terminator-is_line nil h = refl
no_terminator-is_line (cons c s) h =
    let (first, others) = and-eq-true (not (is_cr c || is_lf c)) (single_line s) h in
    ground (arith, first, no_terminator-is_line s others)

name_and_rest-entry :
    (key e : String)
    → all_chars is_name_char key ≡ true
    → name_and_rest (String.◌++◌ key (cons (Char.char 61 tt) e)) ≡ (key, cons (Char.char 61 tt) e)
unfolding name_and_rest all_chars
name_and_rest-entry nil e h = ap name_and_rest (nil-append (cons (Char.char 61 tt) e))
name_and_rest-entry (cons c s) e h =
    let (first, others) = and-eq-true (is_name_char c) (all_chars is_name_char s) h in
    let text = String.◌++◌ s (cons (Char.char 61 tt) e) in
    ap name_and_rest (cons-append c s (cons (Char.char 61 tt) e))
    ∙ ap (λ b. if b then onto_name c (name_and_rest text) else ("", cons c text)) first
    ∙ ap (onto_name c) (name_and_rest-entry s e others)

name_of_identifier : (key : String) → is_identifier key ≡ true → all_chars is_name_char key ≡ true
unfolding is_identifier all_chars
name_of_identifier nil h = refl
name_of_identifier (cons c s) h =
    let (first, others) = and-eq-true (is_name_start c) (all_chars is_name_char s) h in
    ap₂ (λ a b. (a || is_digit c) && b) first others

name_start_bounds : (c : Char) → is_name_start c ≡ true → (65 ≤ code c) × (code c ≤ 122)
name_start_bounds c h = (ground (arith, h), ground (arith, h))

name_start-not_space : (c : Char) → is_name_start c ≡ true → is_space c ≡ false
name_start-not_space c h =
    let (l, u) = name_start_bounds c h in
    ground (arith, not_space c (omega (arith, l)) (omega (arith, u)))

assignment-entry :
    (c : Char) (s e : String)
    → is_identifier (cons c s) ≡ true
    → assignment (cons c (String.◌++◌ s (cons (Char.char 61 tt) e))) ≡ some (cons c s, e)
unfolding assignment is_identifier trim_start
assignment-entry c s e h =
    let (first, others) = and-eq-true (is_name_start c) (all_chars is_name_char s) h in
    let text = cons (Char.char 61 tt) e in
    ap
      (λ ((name, rest) : String × String).
        if is_name_start c then with_name name (after_equals (trim_start rest)) else none)
      (ap name_and_rest (sym (cons-append c s text))
        ∙ name_and_rest-entry (cons c s) e (name_of_identifier (cons c s) h))
    ∙ ap (λ b. if b then some (cons c s, e) else none) first

trim_start-entry : (c : Char) (s : String) → is_space c ≡ false → trim_start (cons c s) ≡ cons c s
unfolding trim_start
trim_start-entry c s h = ap (λ b. if b then trim_start s else cons c s) h

-- The line `key=e` is an assignment of `e` to the key.
assigned-entry :
    (key e : String)
    → is_identifier key ≡ true
    → assigned (concat (key ∷ "=" ∷ e ∷ [])) ≡ some (key, e)
unfolding assigned is_identifier
assigned-entry nil e h = cc
assigned-entry (cons c s) e h =
    let (first, _) = and-eq-true (is_name_start c) (all_chars is_name_char s) h in
    let text = cons (Char.char 61 tt) e in
    let sign : String.◌++◌ "=" e ≡ text =
      cons-append (Char.char 61 tt) "" e ∙ ap (cons (Char.char 61 tt)) (nil-append e) in
    ap assigned (ap (String.◌++◌ (cons c s)) sign ∙ cons-append c s text)
    ∙ ap (λ t. or_else (assignment t) (assignment_in (after_space (strip_prefix t "export"))))
        (trim_start-entry c (String.◌++◌ s text) (name_start-not_space c first))
    ∙ ap
        (λ a.
          or_else a
            (assignment_in (after_space (strip_prefix (cons c (String.◌++◌ s text)) "export"))))
        (assignment-entry c s e h)

-- What a written line is: a line of text that assigns the value to the key.
pub record IsLineOf (key v l : String) : Type 0 where
  pub text : String
  pub written : entry_line key v ≡ returned l
  pub read : to_line_end (assigned l) ≡ some (key, text)
  pub value : decode_env_value text ≡ v
  pub line : is_line l ≡ true

encoded_some :
    (b c : Bool) (v : String)
    → (e : String) × ((if b
          then returned ""
          else if c
          then returned v
          else returned (concat ("'" ∷ escape_quotes v ∷ "'" ∷ [])))
        ≡ returned e)
encoded_some true c v = ("", refl)
encoded_some false true v = (v, refl)
encoded_some false false v = (concat ("'" ∷ escape_quotes v ∷ "'" ∷ []), refl)

-- Every value without line separators is encoded.
encode_env_value_total :
    (v : String) → single_line v ≡ true → (e : String) × (encode_env_value v ≡ returned e)
unfolding encode_env_value
encode_env_value_total v h =
    let (e, same) = encoded_some (v == "") (all_chars is_plain v) v in
    (
      e,
      ap
            (λ b.
              if not b
              then thrown "Environment values must be a single line."
              else if v == ""
              then returned ""
              else if all_chars is_plain v
              then returned v
              else returned (concat ("'" ∷ escape_quotes v ∷ "'" ∷ [])))
            h
          ∙ same,
    )

to_line_end-some :
    (key e : String) → no_terminator e ≡ true → to_line_end (some (key, e)) ≡ some (key, e)
to_line_end-some key e h = ap (λ b. if b then some (key, e) else none) h

name-single_line : (key : String) → is_identifier key ≡ true → single_line key ≡ true
name-single_line key h =
    all_chars_mono is_name_char (λ c. not (is_cr c || is_lf c)) (λ c k. ground (arith, k)) key
      (name_of_identifier key h)

-- A key and a value without line terminators make a line that is read as both.
pub entry_line-IsLineOf :
    (key v : String)
    → is_identifier key ≡ true
    → no_terminator v ≡ true
    → (l : String) × IsLineOf key v l
unfolding all_chars
entry_line-IsLineOf key v i h =
    let (e, same) = encode_env_value_total v (single_line_of v h) in
    let open_text = encoded-no_terminator v e h (encode_env_value-IsEncoded v e same) in
    let p : Char → Bool = λ c. not (is_cr c || is_lf c) in
    (
      concat (key ∷ "=" ∷ e ∷ []),
      record {
        text = e;
        written = ap (λ o. and_then o (λ t. returned (concat (key ∷ "=" ∷ t ∷ [])))) same;
        read = ap to_line_end (assigned-entry key e i) ∙ to_line_end-some key e open_text;
        value = decode_env_value-encode_env_value v e same;
        line = no_terminator-is_line (concat (key ∷ "=" ∷ e ∷ [])) (
            all_chars-append p key (String.◌++◌ "=" e) (name-single_line key i)
              (all_chars-append p "=" e refl (single_line_of e open_text)));
      },
    )
