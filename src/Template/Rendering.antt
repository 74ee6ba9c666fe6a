-- ===== src/Template/Rendering.antt =====
-- A template that is written from its parts is read back.
use Prim.Native.Char.{Char, code}
use Prim.Native.String.{[] as nil, ◌∷◌ as cons}
use Prim.Native.String
use text.Mathlib.TextLemmas.{
  nil-append, cons-append, append-nil as string_append-nil, append_assoc as string_append_assoc,
}
use mathlib.Core.List.{append-nil, append_assoc}
use open_kritt.Prelude.{
  String, ◌≡◌, refl, ap, ◌∙◌, Bool, true, false, not, ◌||◌, none, some, List, [], ◌∷◌, ◌++◌, arith,
  ◌≤◌, nat_eq, All, and-eq-true,
}
use open_kritt.Text.{all_chars, trim, is_space, is_name_char}
use open_kritt.Text.Laws.{trim_of_no_space, all_chars_mono}
use open_kritt.Template.{
  Scan, Opened, other, pair_kind, scan_step, scan_from, full, nothing_yet, parse_template_refs,
  is_template_ref, ref_from, push,
}

-- Neither a brace nor white space.
abbrev is_brace : Char → Bool
is_brace c = nat_eq (code c) b'{' || nat_eq (code c) b'}'

abbrev pub no_brace : Char → Bool
no_brace c = not (is_brace c)

abbrev no_space : Char → Bool
no_space c = not (is_space c)

pub data Piece : Type 0 where
  words : String → Piece
  reference : String → Piece

-- Words hold no brace, and a reference has the form of one.
abbrev pub IsPiece : Piece → Type 0
IsPiece (words s) = all_chars no_brace s ≡ true
IsPiece (reference r) = is_template_ref r ≡ true

abbrev pub render : List Piece → String
render [] = ""
render (words s ∷ ps) = String.◌++◌ s (render ps)
render (reference r ∷ ps) = cons "{" (cons "{" (String.◌++◌ r (cons "}" (cons "}" (render ps)))))

abbrev pub references : List Piece → List String
references [] = []
references (words s ∷ ps) = references ps
references (reference r ∷ ps) = r ∷ references ps

pair_kind_of_no_brace : (c d : Char) → no_brace c ≡ true → pair_kind c d ≡ other
pair_kind_of_no_brace c d h = ground arith

scan-plain :
    (c : Char) (t : String) (st : Scan)
    → no_brace c ≡ true
    → scan_from full (cons c t) none st ≡ scan_from full t none st
unfolding scan_from scan_step
scan-plain c nil st h = refl
scan-plain c (cons d t) st h = rw (pair_kind_of_no_brace c d h) refl

scan-plain_inside :
    (c : Char) (t : String) (o : Opened) (st : Scan)
    → no_brace c ≡ true
    → scan_from full (cons c t) (some o) st ≡ scan_from full t (some (push o c)) st
unfolding scan_from scan_step
scan-plain_inside c nil o st h = refl
scan-plain_inside c (cons d t) o st h = rw (pair_kind_of_no_brace c d h) refl

scan-words :
    (s t : String) (st : Scan)
    → all_chars no_brace s ≡ true
    → scan_from full (String.◌++◌ s t) none st ≡ scan_from full t none st
unfolding all_chars
scan-words nil t st h = rw nil-append
scan-words (cons c s) t st h =
    let (hc, hs) = and-eq-true (no_brace c) (all_chars no_brace s) h in
    rw cons-append (scan-plain c (String.◌++◌ s t) st hc ∙ scan-words s t st hs)

abbrev extend : Opened → String → Opened
extend o s = record o { inside = String.◌++◌ o.inside s }

scan-inside :
    (s t : String) (o : Opened) (st : Scan)
    → all_chars no_brace s ≡ true
    → scan_from full (String.◌++◌ s t) (some o) st ≡ scan_from full t (some (extend o s)) st
unfolding all_chars
scan-inside nil t o st h = simp (nil-append, string_append-nil)
scan-inside (cons c s) t o st h =
    let (hc, hs) = and-eq-true (no_brace c) (all_chars no_brace s) h in
    rw cons-append (
      scan-plain_inside c (String.◌++◌ s t) o st hc
      ∙ scan-inside s t (push o c) st hs
      ∙ ap (λ u. scan_from full t (some (record o { inside = u })) st)
          (string_append_assoc o.inside (cons c nil) s ∙ simp (cons-append, nil-append)))

abbrev is_ref_char : Char → Bool
is_ref_char c = is_name_char c || nat_eq (code c) b'.'

ref_from-chars : (b : Bool) (s : String) → ref_from b s ≡ true → all_chars is_ref_char s ≡ true
unfolding ref_from all_chars
ref_from-chars b nil h = refl
ref_from-chars b (cons c s) h = ground (arith, ref_from-chars false s, ref_from-chars true s)

ref_char-bounds : (c : Char) → is_ref_char c ≡ true → (46 ≤ code c) × (code c ≤ 122)
ref_char-bounds c h = ground arith

no_space_of_bounds : (c : Char) → 46 ≤ code c → code c ≤ 122 → no_space c ≡ true
no_space_of_bounds c h k = ground arith

ref_char-no_brace : (c : Char) → is_ref_char c ≡ true → no_brace c ≡ true
ref_char-no_brace c h = ground arith

ref_char-no_space : (c : Char) → is_ref_char c ≡ true → no_space c ≡ true
ref_char-no_space c h = let (l, u) = ref_char-bounds c h in no_space_of_bounds c l u

module _ (r : String) (h : is_template_ref r ≡ true) where
  ref-no_brace : all_chars no_brace r ≡ true
  unfolding is_template_ref
  ref-no_brace = all_chars_mono is_ref_char no_brace ref_char-no_brace r (ref_from-chars true r h)

  trim-ref : trim r ≡ r
  unfolding is_template_ref
  trim-ref =
      trim_of_no_space r
        (all_chars_mono is_ref_char no_space ref_char-no_space r (ref_from-chars true r h))

abbrev found : Scan → List String → Scan
found st rs = record st { refs = st.refs ++ rs }

scan-closing :
    (u r t : String) (st : Scan)
    → is_template_ref r ≡ true
    → scan_from full (cons "}" (cons "}" t)) (some (record { from_open = u; inside = r })) st
      ≡ scan_from full t none (found st (r ∷ []))
unfolding scan_from scan_step
scan-closing u r t st h = rw (trim-ref r h, h) refl

scan-reference :
    (r t : String) (st : Scan)
    → is_template_ref r ≡ true
    → scan_from full (cons "{" (cons "{" (String.◌++◌ r (cons "}" (cons "}" t))))) none st
      ≡ scan_from full t none (found st (r ∷ []))
unfolding scan_from scan_step
scan-reference r t st h =
    let whole = cons "{" (cons "{" (String.◌++◌ r (cons "}" (cons "}" t)))) in
    scan-inside r (cons "}" (cons "}" t)) (record { from_open = whole; inside = "" }) st
      (ref-no_brace r h)
    ∙ rw nil-append (scan-closing whole r t st h)

scan-render :
    (ps : List Piece) (st : Scan)
    → All IsPiece ps
    → scan_from full (render ps) none st ≡ found st (references ps)
unfolding scan_from
scan-render [] st h = rw append-nil
scan-render (words s ∷ ps) st (p, h) = scan-words s (render ps) st p ∙ scan-render ps st h
scan-render (reference r ∷ ps) st (p, h) =
    scan-reference r (render ps) st p ∙ scan-render ps (found st (r ∷ [])) h ∙ rw append_assoc

-- Words without braces and well-formed references, written one after the other, are read back: the
-- references in order, and nothing malformed.
pub parse_template_refs-render :
    (ps : List Piece) → All IsPiece ps → parse_template_refs (render ps) ≡ (references ps, [])
unfolding parse_template_refs
parse_template_refs-render ps h =
    ap (λ (st : Scan). (st.refs, st.malformed)) (scan-render ps nothing_yet h)
