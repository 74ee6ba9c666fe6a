-- ===== src/Template/Malformed.antt =====
-- What the collected malformed parts are, and when there is one.
use Prim.Native.Char.{Char}
use Prim.Native.String.{[] as nil, ◌∷◌ as cons}
use open_kritt.Prelude.{
  String, ◌≡◌, ◌↔◌, refl, sym, ◌∙◌, true, Option, none, some, [], ◌∷◌, arith, ◌≤◌, length,
  length-append, All, All-append, inl, inr, Bool-cases,
}
use open_kritt.Text.{trim, size}
use open_kritt.Text.Laws.{size-cut-le}
use open_kritt.Template.{
  Scan, Opened, Pair, Move, return, skip_two, skip_one, opening, closing, other, pair_kind,
  scan_step, resume, scan_from, full, first_malformed, nothing_yet, parse_template_refs,
  has_malformed_template_refs, is_template_ref, sample_limit, sample_length, finish, braced,
  record_malformed, record_ref,
}
use open_kritt.Template.Laws.{Lands, scan_from-keeps}

-- What holds of a scan that collects everything.
pub record IsSound (a : Scan) : Type 0 where
  pub found_some : a.malformed_found ≡ true → 1 ≤ length a.malformed
  pub some_found : 1 ≤ length a.malformed → a.malformed_found ≡ true
  pub few : length a.malformed ≤ sample_limit
  pub short : All (λ t. size t ≤ sample_length) a.malformed
  pub valid : All (λ t. is_template_ref t ≡ true) a.refs

record_malformed-IsSound :
    (t : String) (a : Scan)
    → size t ≤ sample_length
    → IsSound a
    → IsSound (record_malformed full t a)
record_malformed-IsSound t a h s = record {
  found_some = ground (arith, length-append a.malformed (t ∷ []));
  some_found = λ _. refl;
  few = ground (arith, length-append a.malformed (t ∷ []));
  short = ground (arith, All-append (λ t. size t ≤ sample_length) a.malformed (t ∷ []));
  valid = s.valid;
}

record_ref-IsSound :
    (t : String) (a : Scan) → is_template_ref t ≡ true → IsSound a → IsSound (record_ref full t a)
record_ref-IsSound t a h s = record {
  found_some = s.found_some;
  some_found = s.some_found;
  few = s.few;
  short = s.short;
  valid = All-append (λ t. is_template_ref t ≡ true) a.refs (t ∷ []) s.valid (h, tt);
}

step-IsSound :
    (k : Pair) (c : Char) (s : String) (o : Option Opened) (a : Scan)
    → IsSound a
    → Lands IsSound (scan_step full k c s o a)
unfolding scan_step
step-IsSound opening c s none a h = h
step-IsSound closing c s none a h = record_malformed-IsSound "}}" a (unfold size in omega arith) h
step-IsSound other c s none a h = h
step-IsSound opening c s (some o) a h =
    record_malformed-IsSound _ a (size-cut-le sample_length o.from_open) h
step-IsSound closing c s (some o) a h = elim (Bool-cases (is_template_ref (trim o.inside))) [
  | inl valid ↦ rw valid (record_ref-IsSound (trim o.inside) a valid h)
  | inr bad ↦ rw bad (record_malformed-IsSound _ a (size-cut-le sample_length (braced o.inside)) h)
]
step-IsSound other c s (some o) a h = h

finish-IsSound : (o : Option Opened) (a : Scan) → IsSound a → IsSound (finish full o a)
finish-IsSound none a h = h
finish-IsSound (some o) a h = record_malformed-IsSound _ a (size-cut-le sample_length o.from_open) h

scan-IsSound : (content : String) → IsSound (scan_from full content none nothing_yet)
scan-IsSound content =
    scan_from-keeps IsSound full finish-IsSound step-IsSound content none nothing_yet (ground arith)

-- Every reference that is found has the form of one; at most 25 malformed parts are kept, each of
-- at most 200 characters.
pub parse_template_refs_bounds :
    (content : String)
    → All (λ t. is_template_ref t ≡ true) (parse_template_refs content).0
      × (length (parse_template_refs content).1 ≤ sample_limit)
      × All (λ t. size t ≤ sample_length) (parse_template_refs content).1
unfolding parse_template_refs
parse_template_refs_bounds content = let s = scan-IsSound content in (s.valid, s.few, s.short)

-- Once something malformed was found, the scan does not forget it.
step-stays :
    (k : Pair) (c : Char) (s : String) (o : Option Opened) (a : Scan)
    → a.malformed_found ≡ true
    → Lands (λ x. x.malformed_found ≡ true) (scan_step full k c s o a)
unfolding scan_step
step-stays opening c s none a h = h
step-stays closing c s none a h = refl
step-stays other c s none a h = h
step-stays opening c s (some o) a h = refl
step-stays closing c s (some o) a h = ground arith
step-stays other c s (some o) a h = h

scan_from-stays :
    (s : String) (o : Option Opened) (a : Scan)
    → a.malformed_found ≡ true
    → (scan_from full s o a).malformed_found ≡ true
scan_from-stays =
    scan_from-keeps (λ x. x.malformed_found ≡ true) full (λ o a h. ground arith) step-stays

-- A move of the full scan, and the move of the scan that stops at the first malformed part.
abbrev Follows : Move → Move → Type 0
Follows (skip_two o a) (skip_two o' b) = (o ≡ o') × (a.malformed_found ≡ b.malformed_found)
Follows (skip_one o a) (skip_one o' b) = (o ≡ o') × (a.malformed_found ≡ b.malformed_found)
Follows (skip_two o a) (return b) = (a.malformed_found ≡ true) × (b.malformed_found ≡ true)
Follows _ _ = ⊥

step-Follows :
    (k : Pair) (c : Char) (s : String) (o : Option Opened) (a b : Scan)
    → a.malformed_found ≡ b.malformed_found
    → Follows (scan_step full k c s o a) (scan_step first_malformed k c s o b)
unfolding scan_step
step-Follows opening c s none a b h = ground arith
step-Follows closing c s none a b h = ground arith
step-Follows other c s none a b h = ground arith
step-Follows opening c s (some o) a b h = ground arith
step-Follows closing c s (some o) a b h = ground arith
step-Follows other c s (some o) a b h = ground arith

abbrev SameFound : (f g : Option Opened → Scan → Scan) → Type 0
SameFound f g =
    (o : Option Opened) (a b : Scan)
    → a.malformed_found ≡ b.malformed_found
    → (f o a).malformed_found ≡ (g o b).malformed_found

resume-SameFound :
    (two one two' one' : Option Opened → Scan → Scan)
    → ((o : Option Opened) (a : Scan) → a.malformed_found ≡ true → (two o a).malformed_found ≡ true)
    → SameFound two two'
    → SameFound one one'
    → (x y : Move) → Follows x y
    → (resume two one x).malformed_found ≡ (resume two' one' y).malformed_found
resume-SameFound two one two' one' stay f g (skip_two o a) (skip_two o' b) (e, h) =
    rw e (f o' a b h)
resume-SameFound two one two' one' stay f g (skip_one o a) (skip_one o' b) (e, h) =
    rw e (g o' a b h)
resume-SameFound two one two' one' stay f g (skip_two o a) (return b) (p, q) = stay o a p ∙ sym q
resume-SameFound two one two' one' stay f g _ _ h = elim h [ ]

scan_from-SameFound : (s : String) → SameFound (scan_from full s) (scan_from first_malformed s)
unfolding scan_from
scan_from-SameFound nil o a b h = ground arith
scan_from-SameFound (cons c nil) o a b h = ground arith
scan_from-SameFound (cons c (cons d s)) o a b h =
    resume-SameFound _ _ _ _ (scan_from-stays s) (scan_from-SameFound s)
      (scan_from-SameFound (cons d s)) (scan_step full (pair_kind c d) c (cons c (cons d s)) o a)
      (scan_step first_malformed (pair_kind c d) c (cons c (cons d s)) o b)
      (step-Follows (pair_kind c d) c (cons c (cons d s)) o a b h)

-- The check that stops at the first malformed part succeeds exactly when the full scan collects
-- one.
pub has_malformed_iff :
    (content : String)
    → (has_malformed_template_refs content ≡ true) ↔ (1 ≤ length (parse_template_refs content).1)
unfolding has_malformed_template_refs parse_template_refs
has_malformed_iff content =
    let s = scan-IsSound content in
    let same = scan_from-SameFound content none nothing_yet nothing_yet refl in
    (λ h. s.found_some (same ∙ h), λ h. sym same ∙ s.some_found h)
