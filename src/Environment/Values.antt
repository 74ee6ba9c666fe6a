-- ===== src/Environment/Values.antt =====
-- Values that are written and read again: `encodeEnvValue` and `decodeEnvValue` of
-- backend/src/lib/environmentFile.js.
use Prim.Native.Char.{Char, code}
use Prim.Native.String.{[] as nil, ◌∷◌ as cons}
use Prim.Native.String
use text.Mathlib.TextEquality.{Char-path}
use text.Mathlib.TextLemmas.{nil-append, cons-append, cons-ne-nil}
use open_kritt.Prelude.{
  ◌≤◌, String, ◌≡◌, refl, sym, ap, ◌∙◌, Bool, true, false, not, ◌||◌, some, [], ◌∷◌, ◌==◌,
  if◌then◌else◌, nat_eq, and-eq-true, arith, eq_iff, Bool-cases, ◌⊎◌, inl, inr,
}
use open_kritt.Text.{concat, trim, trim_start, trim_end, all_chars, is_space}
use open_kritt.Text.Laws.{trim_of_no_space, all_chars_mono}
use open_kritt.Environment.{
  returned, thrown, is_single_quote, is_cr, is_lf, unescape, strip_last, between, unquoted,
  decode_env_value, backslash,
}
use open_kritt.Environment.Editing.{is_plain, escape_quotes, encode_env_value}

pub eq-nil : (c : Char) (s : String) → (cons c s == "") ≡ false
eq-nil c s = elim (Bool-cases (cons c s == "")) [
  | inl e ↦ elim (cons-ne-nil c s ((eq_iff (cons c s) "").0 e)) [ ]
  | inr e ↦ e
]

plain_bounds : (c : Char) → is_plain c ≡ true → (43 ≤ code c) × (code c ≤ 122)
plain_bounds c h = (ground (arith, h), ground (arith, h))

pub not_space : (c : Char) → 33 ≤ code c → code c ≤ 127 → not (is_space c) ≡ true
not_space c l u = ground (arith, l, u)

plain-not_space : (c : Char) → is_plain c ≡ true → not (is_space c) ≡ true
plain-not_space c h =
    let (l, u) = plain_bounds c h in not_space c (omega (arith, l)) (omega (arith, u))

-- A value of plain characters is read as it is.
unquoted_plain : (v : String) → all_chars is_plain v ≡ true → unquoted v (between 39 v) ≡ v
unfolding all_chars
unquoted_plain nil h = refl
unquoted_plain (cons c s) h =
    let (l, u) = plain_bounds c (and-eq-true (is_plain c) (all_chars is_plain s) h).0 in
    let single : nat_eq (code c) 39 ≡ false = ground (arith, l) in
    let double : nat_eq (code c) 34 ≡ false = ground (arith, l) in rw (single, double)

decode_plain : (v : String) → all_chars is_plain v ≡ true → decode_env_value v ≡ v
unfolding decode_env_value
decode_plain v h =
    ap (λ s. unquoted s (between 39 s))
      (trim_of_no_space v (all_chars_mono is_plain (λ c. not (is_space c)) plain-not_space v h))
    ∙ unquoted_plain v h

-- What stands for the text `s` behind a backslash that waits.
abbrev behind : Bool → String → String
behind true s = cons backslash s
behind false s = s

abbrev escaped_onto : Char → String → String
escaped_onto c t = if is_single_quote c then cons backslash (cons c t) else cons c t

-- A character and its escape are undone, whether a backslash waits or not.
module _ (c : Char) (s t : String)
    (undone : (waiting : Bool) → unescape is_single_quote waiting t ≡ behind waiting s) where
  onto :
      (w b : Bool)
      → is_single_quote c ≡ b
      → unescape is_single_quote w (escaped_onto c t)
        ≡ unescape is_single_quote w (if b then cons backslash (cons c t) else cons c t)
  onto w b e =
      ap (λ x. unescape is_single_quote w (if x then cons backslash (cons c t) else cons c t)) e

  unescape_quote :
      (w : Bool)
      → is_single_quote c ≡ true
      → unescape is_single_quote w (escaped_onto c t) ≡ behind w (cons c s)
  unfolding unescape
  unescape_quote true q =
      onto true true q ∙ rw (unescape, q) (ap (λ r. cons backslash (cons c r)) (undone false))
  unescape_quote false q = onto false true q ∙ rw (unescape, q) (ap (cons c) (undone false))

  unescape_other :
      (w : Bool)
      → is_single_quote c ≡ false
      → nat_eq (code c) 92 ≡ false
      → unescape is_single_quote w (escaped_onto c t) ≡ behind w (cons c s)
  unfolding unescape
  unescape_other true n o =
      onto true false n ∙ rw (unescape, n, o) (ap (λ r. cons backslash (cons c r)) (undone false))
  unescape_other false n o = onto false false n ∙ rw (unescape, o) (ap (cons c) (undone false))

  unescape-backslash :
      (w : Bool)
      → c ≡ backslash
      → unescape is_single_quote w (escaped_onto c t) ≡ behind w (cons c s)
  unfolding unescape
  unescape-backslash true e = rw e (ap (cons backslash) (undone true))
  unescape-backslash false e = rw e (undone true)

  unescape_step : (w : Bool) → unescape is_single_quote w (escaped_onto c t) ≡ behind w (cons c s)
  unescape_step w = elim (Bool-cases (is_single_quote c)) [
    | inl q ↦ unescape_quote w q
    | inr n ↦ elim (Bool-cases (nat_eq (code c) 92)) [
      | inl b ↦ unescape-backslash w (Char-path c backslash ground (arith, b))
      | inr o ↦ unescape_other w n o
    ]
  ]

unescape-escape_quotes :
    (s : String) (waiting : Bool)
    → unescape is_single_quote waiting (escape_quotes s) ≡ behind waiting s
unfolding unescape escape_quotes
unescape-escape_quotes nil true = refl
unescape-escape_quotes nil false = refl
unescape-escape_quotes (cons c s) w =
    unescape_step c s (escape_quotes s) (unescape-escape_quotes s) w

-- A text that ends with a quote.
quote_end-not_nil : (s : String) → (String.◌++◌ s "'" == "") ≡ false
quote_end-not_nil nil = refl
quote_end-not_nil (cons c s) = ap (λ t. t == "") (cons-append c s "'") ∙ eq-nil c _

trim_end_quoted : (s : String) → trim_end (String.◌++◌ s "'") ≡ String.◌++◌ s "'"
unfolding trim_end
trim_end_quoted nil = refl
trim_end_quoted (cons c s) = rw (cons-append, trim_end_quoted s, quote_end-not_nil s) refl

strip_last_onto :
    (c : Char) (t s : String)
    → strip_last 39 t ≡ some s
    → strip_last 39 (cons c t) ≡ some (cons c s)
unfolding strip_last
strip_last_onto c nil s h = cc
strip_last_onto c (cons d t) s h = rw h refl

strip_last_quote : (s : String) → strip_last 39 (String.◌++◌ s "'") ≡ some s
unfolding strip_last
strip_last_quote nil = refl
strip_last_quote (cons c s) =
    ap (strip_last 39) (cons-append c s "'")
    ∙ strip_last_onto c (String.◌++◌ s "'") s (strip_last_quote s)

quoted_cons :
    (s : String) → concat ("'" ∷ s ∷ "'" ∷ []) ≡ cons (Char.char 39 tt) (String.◌++◌ s "'")
quoted_cons s =
    cons-append (Char.char 39 tt) "" (String.◌++◌ s "'")
    ∙ ap (cons (Char.char 39 tt)) (nil-append (String.◌++◌ s "'"))

trim_quoted :
    (s : String)
    → trim (cons (Char.char 39 tt) (String.◌++◌ s "'")) ≡ cons (Char.char 39 tt) (String.◌++◌ s "'")
unfolding trim trim_start trim_end
trim_quoted s = rw (trim_end_quoted s, quote_end-not_nil s) refl

pub returned_same {ℓ} : {A : Type ℓ} {a b : A} → returned a ≡ returned b → a ≡ b
returned_same h = cc

decode_quoted : (s : String) → decode_env_value (concat ("'" ∷ escape_quotes s ∷ "'" ∷ [])) ≡ s
unfolding decode_env_value
decode_quoted s =
    ap (λ v. unquoted v (between 39 v))
      (ap trim (quoted_cons (escape_quotes s)) ∙ trim_quoted (escape_quotes s))
    ∙ ap (unquoted (cons (Char.char 39 tt) (String.◌++◌ (escape_quotes s) "'")))
        (strip_last_quote (escape_quotes s))
    ∙ unescape-escape_quotes s false

abbrev pub single_line : String → Bool
single_line v = all_chars (λ c. not (is_cr c || is_lf c)) v

-- What `encodeEnvValue` returns: the plain text itself, or a text in quotes.
abbrev pub IsEncoded : String → String → Type 0
IsEncoded v e =
    ((e ≡ v) × (all_chars is_plain v ≡ true))
    ⊎ ((e ≡ concat ("'" ∷ escape_quotes v ∷ "'" ∷ [])) × (single_line v ≡ true))

IsEncoded-if :
    (v e : String) (a b c : Bool)
    → (a ≡ false → single_line v ≡ true)
    → (b ≡ true → v ≡ "")
    → (c ≡ true → all_chars is_plain v ≡ true)
    → (if a
        then thrown "Environment values must be a single line."
        else if b
        then returned ""
        else if c
        then returned v
        else returned (concat ("'" ∷ escape_quotes v ∷ "'" ∷ [])))
      ≡ returned e
    → IsEncoded v e
unfolding all_chars
IsEncoded-if v e true b c k f g h = cc
IsEncoded-if v e false true c k f g h =
    inl (returned_same (sym h) ∙ sym (f refl), ap (all_chars is_plain) (f refl))
IsEncoded-if v e false false true k f g h = inl (returned_same (sym h), g refl)
IsEncoded-if v e false false false k f g h = inr (returned_same (sym h), k refl)

pub encode_env_value-IsEncoded : (v e : String) → encode_env_value v ≡ returned e → IsEncoded v e
unfolding encode_env_value
encode_env_value-IsEncoded v e h =
    IsEncoded-if v e (not (single_line v)) (v == "") (all_chars is_plain v) (λ k. ground (arith, k))
      (λ k. (eq_iff v "").0 k) (λ k. k) h

-- A value that is written as `encodeEnvValue` writes it is read back by `decodeEnvValue`.
pub decode_env_value-encode_env_value :
    (v e : String) → encode_env_value v ≡ returned e → decode_env_value e ≡ v
decode_env_value-encode_env_value v e h = elim (encode_env_value-IsEncoded v e h) [
  | inl (same, plain) ↦ ap decode_env_value same ∙ decode_plain v plain
  | inr (same, _) ↦ ap decode_env_value same ∙ decode_quoted v
]
