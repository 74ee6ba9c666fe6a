-- ===== src/Template/Laws.antt =====
-- The three ways to scan a template agree.
use Prim.Native.Char.{Char}
use Prim.Native.String.{[] as nil, ◌∷◌ as cons}
use open_kritt.Prelude.{String, ◌≡◌, refl, Option, none, some, arith}
use open_kritt.Template.{
  Mode, Scan, Opened, Pair, Move, return, skip_two, skip_one, opening, closing, other, pair_kind,
  scan_step, resume, scan_from, full, refs_only, nothing_yet, parse_template_refs, parse_refs,
  finish,
}

-- Two moves that go on alike, from scans that are related by `R`.
abbrev pub Alike : (Scan → Scan → Type 0) → Move → Move → Type 0
Alike R (return a) (return b) = R a b
Alike R (skip_two o a) (skip_two o' b) = (o ≡ o') × R a b
Alike R (skip_one o a) (skip_one o' b) = (o ≡ o') × R a b
Alike R _ _ = ⊥

module _ (R : Scan → Scan → Type 0) (m m' : Mode)
    (ends : (o : Option Opened) (a b : Scan) → R a b → R (finish m o a) (finish m' o b))
    (steps : (k : Pair) (c : Char) (s : String) (o : Option Opened) (a b : Scan)
      → R a b
      → Alike R (scan_step m k c s o a) (scan_step m' k c s o b)) where
  resume-alike :
      (two one two' one' : Option Opened → Scan → Scan)
      → ((o : Option Opened) (a b : Scan) → R a b → R (two o a) (two' o b))
      → ((o : Option Opened) (a b : Scan) → R a b → R (one o a) (one' o b))
      → (x y : Move) → Alike R x y
      → R (resume two one x) (resume two' one' y)
  resume-alike two one two' one' f g (return a) (return b) h = h
  resume-alike two one two' one' f g (skip_two o a) (skip_two o' b) (e, h) = rw e (f o' a b h)
  resume-alike two one two' one' f g (skip_one o a) (skip_one o' b) (e, h) = rw e (g o' a b h)
  resume-alike two one two' one' f g _ _ h = elim h [ ]

  pub scan_from-alike :
      (s : String) (o : Option Opened) (a b : Scan)
      → R a b
      → R (scan_from m s o a) (scan_from m' s o b)
  unfolding scan_from
  scan_from-alike nil o a b h = ends o a b h
  scan_from-alike (cons c nil) o a b h = ends o a b h
  scan_from-alike (cons c (cons d s)) o a b h =
      resume-alike _ _ _ _ (scan_from-alike s) (scan_from-alike (cons d s)) _ _
        (steps (pair_kind c d) c (cons c (cons d s)) o a b h)

-- A move whose scan has `P`.
abbrev pub Lands : (Scan → Type 0) → Move → Type 0
Lands P (return a) = P a
Lands P (skip_two o a) = P a
Lands P (skip_one o a) = P a

-- An invariant of the loop.
module _ (P : Scan → Type 0) (m : Mode)
    (ends : (o : Option Opened) (a : Scan) → P a → P (finish m o a))
    (steps : (k : Pair) (c : Char) (s : String) (o : Option Opened) (a : Scan)
      → P a
      → Lands P (scan_step m k c s o a)) where
  resume-keeps :
      (two one : Option Opened → Scan → Scan)
      → ((o : Option Opened) (a : Scan) → P a → P (two o a))
      → ((o : Option Opened) (a : Scan) → P a → P (one o a))
      → (x : Move) → Lands P x
      → P (resume two one x)
  resume-keeps two one f g (return a) h = h
  resume-keeps two one f g (skip_two o a) h = f o a h
  resume-keeps two one f g (skip_one o a) h = g o a h

  pub scan_from-keeps : (s : String) (o : Option Opened) (a : Scan) → P a → P (scan_from m s o a)
  unfolding scan_from
  scan_from-keeps nil o a h = ends o a h
  scan_from-keeps (cons c nil) o a h = ends o a h
  scan_from-keeps (cons c (cons d s)) o a h =
      resume-keeps _ _ (scan_from-keeps s) (scan_from-keeps (cons d s)) _
        (steps (pair_kind c d) c (cons c (cons d s)) o a h)

step-SameRefs :
    (k : Pair) (c : Char) (s : String) (o : Option Opened) (a b : Scan)
    → a.refs ≡ b.refs
    → Alike (λ x y. x.refs ≡ y.refs) (scan_step full k c s o a) (scan_step refs_only k c s o b)
unfolding scan_step
step-SameRefs opening c s none a b h = ground arith
step-SameRefs closing c s none a b h = ground arith
step-SameRefs other c s none a b h = ground arith
step-SameRefs opening c s (some o) a b h = ground arith
step-SameRefs closing c s (some o) a b h = ground arith
step-SameRefs other c s (some o) a b h = ground arith

finish-SameRefs :
    (o : Option Opened) (a b : Scan)
    → a.refs ≡ b.refs
    → (finish full o a).refs ≡ (finish refs_only o b).refs
finish-SameRefs none a b h = h
finish-SameRefs (some o) a b h = h

-- The scan that also collects malformed parts finds the same references.
pub parse_template_refs-refs :
    (content : String) → (parse_template_refs content).0 ≡ parse_refs content
unfolding parse_template_refs parse_refs
parse_template_refs-refs content =
    scan_from-alike (λ a b. a.refs ≡ b.refs) full refs_only finish-SameRefs step-SameRefs content
      none nothing_yet nothing_yet refl
