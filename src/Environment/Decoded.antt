-- ===== src/Environment/Decoded.antt =====
-- The values that are read from a file can be written again: no character of them ends a line.
use Prim.Native.Char.{Char, code}
use Prim.Native.String.{[] as nil, ◌∷◌ as cons}
use open_kritt.Prelude.{
  ℕ, String, ◌≡◌, refl, sym, ap, ap₂, Bool, true, false, not, ◌&&◌, Option, none, some, List, [],
  ◌∷◌, ◌==◌, if◌then◌else◌, nat_eq, and-eq-true, Bool-cases, inl, inr, subst,
}
use open_kritt.Text.{trim, trim_start, trim_end, all_chars, is_space}
use open_kritt.Environment.{
  is_terminator, is_single_quote, is_double_escaped, backslash, unescape, strip_last, between,
  unquoted, unquoted_double, decode_env_value, to_line_end, assigned,
}
use open_kritt.Environment.Entries.{no_terminator}
use open_kritt.Environment.View.{reads, value_after}

module _ (p : Char → Bool) where
  if-p :
      (b : Bool) (s t : String)
      → all_chars p s ≡ true
      → all_chars p t ≡ true
      → all_chars p (if b then s else t) ≡ true
  if-p true s t h k = h
  if-p false s t h k = k

  trim_start-all_chars : (s : String) → all_chars p s ≡ true → all_chars p (trim_start s) ≡ true
  unfolding trim_start all_chars
  trim_start-all_chars nil h = refl
  trim_start-all_chars (cons c s) h =
      if-p (is_space c) (trim_start s) (cons c s)
        (trim_start-all_chars s (and-eq-true (p c) (all_chars p s) h).1) h

  trim_end-all_chars : (s : String) → all_chars p s ≡ true → all_chars p (trim_end s) ≡ true
  unfolding trim_end all_chars
  trim_end-all_chars nil h = refl
  trim_end-all_chars (cons c s) h =
      let (first, others) = and-eq-true (p c) (all_chars p s) h in
      if-p (trim_end s == "" && is_space c) "" (cons c (trim_end s)) refl
        (ap₂ ◌&&◌ first (trim_end-all_chars s others))

  -- The characters of an optional text.
  abbrev pub Each : Option String → Type 0
  Each none = Unit
  Each (some s) = all_chars p s ≡ true

  strip_last-Each : (q : ℕ) (s : String) → all_chars p s ≡ true → Each (strip_last q s)
  unfolding strip_last all_chars
  strip_last-Each q nil h = tt
  strip_last-Each q (cons c nil) h = last (nat_eq (code c) q)
    where
      last : (b : Bool) → Each (if b then some "" else none)
      last true = refl
      last false = tt
  strip_last-Each q (cons c (cons d s)) h =
      let (first, others) = and-eq-true (p c) (all_chars p (cons d s)) h in
      onto (strip_last q (cons d s)) first (strip_last-Each q (cons d s) others)
    where
      onto :
          (o : Option String)
          → p c ≡ true
          → Each o
          → Each (elim o [ none ↦ none | some t ↦ some (cons c t) ])
      onto none f g = tt
      onto (some t) f g = ap₂ ◌&&◌ f g

  between-Each : (q : ℕ) (s : String) → all_chars p s ≡ true → Each (between q s)
  unfolding all_chars
  between-Each q nil h = tt
  between-Each q (cons c s) h =
      quoted (nat_eq (code c) q) (strip_last-Each q s (and-eq-true (p c) (all_chars p s) h).1)
    where
      quoted : (b : Bool) → Each (strip_last q s) → Each (if b then strip_last q s else none)
      quoted true g = g
      quoted false g = tt

  module _ (escapable : p backslash ≡ true) (e : Char → Bool) (s : String)
      (rest : (waiting : Bool) → all_chars p (unescape e waiting s) ≡ true) where
    -- What is written for a character, in front of the rest.
    abbrev put : (String → String) × Bool → String
    put (write, waits) = write (unescape e waits s)

    waited :
        (a b : Bool) (c : Char)
        → p c ≡ true
        → all_chars p (
            put (
              if a
              then (cons c, false)
              else if b
              then (cons backslash, true)
              else ((λ (s : String). cons backslash (cons c s)), false)))
          ≡ true
    unfolding all_chars
    waited true b c f = ap₂ ◌&&◌ f (rest false)
    waited false true c f = ap₂ ◌&&◌ escapable (rest true)
    waited false false c f = ap₂ ◌&&◌ escapable (ap₂ ◌&&◌ f (rest false))

    plain :
        (b : Bool) (c : Char)
        → p c ≡ true
        → all_chars p (put (if b then ((λ (s : String). s), true) else (cons c, false))) ≡ true
    unfolding all_chars
    plain true c f = rest true
    plain false c f = ap₂ ◌&&◌ f (rest false)

    unescape_char-all_chars :
        (waiting : Bool) (c : Char)
        → p c ≡ true
        → all_chars p (unescape e waiting (cons c s)) ≡ true
    unfolding unescape
    unescape_char-all_chars true c f = waited (e c) (nat_eq (code c) 92) c f
    unescape_char-all_chars false c f = plain (nat_eq (code c) 92) c f

  unescape-all_chars :
      p backslash ≡ true
      → (e : Char → Bool) (s : String) (waiting : Bool) → all_chars p s ≡ true
      → all_chars p (unescape e waiting s) ≡ true
  unfolding unescape all_chars
  unescape-all_chars b e nil true h = ap (λ x. x && true) b
  unescape-all_chars b e nil false h = refl
  unescape-all_chars b e (cons c s) waiting h =
      let (first, others) = and-eq-true (p c) (all_chars p s) h in
      unescape_char-all_chars b e s (λ w. unescape-all_chars b e s w others) waiting c first

unquoted_double-open :
    (v : String) (inner : Option String)
    → no_terminator v ≡ true
    → Each (λ c. not (is_terminator c)) inner
    → no_terminator (unquoted_double v inner) ≡ true
unquoted_double-open v none h k = h
unquoted_double-open v (some s) h k =
    unescape-all_chars (λ c. not (is_terminator c)) refl is_double_escaped s false k

unquoted-open :
    (v : String) (inner : Option String)
    → no_terminator v ≡ true
    → Each (λ c. not (is_terminator c)) inner
    → no_terminator (unquoted v inner) ≡ true
unquoted-open v none h k =
    unquoted_double-open v (between 34 v) h (between-Each (λ c. not (is_terminator c)) 34 v h)
unquoted-open v (some s) h k =
    unescape-all_chars (λ c. not (is_terminator c)) refl is_single_quote s false k

decode_env_value-open :
    (raw : String) → no_terminator raw ≡ true → no_terminator (decode_env_value raw) ≡ true
unfolding decode_env_value trim
decode_env_value-open raw h =
    let p : Char → Bool = λ c. not (is_terminator c) in
    let t = trim_end-all_chars p (trim_start raw) (trim_start-all_chars p raw h) in
    unquoted-open (trim raw) (between 39 (trim raw)) t (between-Each p 39 (trim raw) t)

chosen :
    (b : Bool) (raw : String) (o : Option String)
    → Each (λ c. not (is_terminator c)) o
    → no_terminator (decode_env_value raw) ≡ true
    → Each (λ c. not (is_terminator c)) (if b then some (decode_env_value raw) else o)
chosen true raw o h d = d
chosen false raw o h d = h

reads-open :
    (k : String) (m : Option (String × String)) (o : Option String)
    → Each (λ c. not (is_terminator c)) o
    → Each (λ c. not (is_terminator c)) (reads k (to_line_end m) o)
reads-open k none o h = h
reads-open k (some (key, raw)) o h = elim (Bool-cases (no_terminator raw)) [
  | inl t ↦
      subst
        (λ b. Each (λ c. not (is_terminator c)) (reads k (if b then some (key, raw) else none) o))
        (sym t) (chosen (key == k) raw o h (decode_env_value-open raw t))
  | inr f ↦
      subst
        (λ b. Each (λ c. not (is_terminator c)) (reads k (if b then some (key, raw) else none) o))
        (sym f) h
]

pub value_after-open :
    (k : String) (ls : List String) (o : Option String)
    → Each (λ c. not (is_terminator c)) o
    → Each (λ c. not (is_terminator c)) (value_after k ls o)
value_after-open k [] o h = h
value_after-open k (l ∷ ls) o h =
    value_after-open k ls (reads k (to_line_end (assigned l)) o) (reads-open k (assigned l) o h)
