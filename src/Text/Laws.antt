-- ===== src/Text/Laws.antt =====
-- Prefixes of built texts.

use Prim.Native.Char.{Char}
use Prim.Native.String.{[] as nil, ◌∷◌ as cons}
use Prim.Native.String
use text.Mathlib.TextLemmas.{nil-append, cons-append}
use open_kritt.Prelude.{
  ℕ, zero, suc, ◌≤◌, String, Bool-cases, inl, inr, ◌∙◌, ◌&&◌, ◌==◌, if◌then◌else◌, ◌≡◌, refl, Bool,
  true, false, not, ◌&&◌, and-eq-true, arith, ap, some,
}
use open_kritt.Text.{
  starts_with, cut, size, trim, trim_start, trim_end, all_chars, is_space, strip_prefix,
}

-- A text starts with what it was built from.
pub starts_with-append : (s t : String) → starts_with (String.◌++◌ s t) s ≡ true
unfolding starts_with
starts_with-append nil t = refl
starts_with-append (cons c s) t = rw cons-append (ground (arith, starts_with-append s t))

pub starts_with_self : (s : String) → starts_with s s ≡ true
unfolding starts_with
starts_with_self nil = refl
starts_with_self (cons c s) = ground (arith, starts_with_self s)

-- A text that starts with an extension of `s` starts with `s`.
pub starts_with_trans :
    (s t u : String) → starts_with u (String.◌++◌ s t) ≡ true → starts_with u s ≡ true
unfolding starts_with
starts_with_trans nil t u h = refl
starts_with_trans (cons c s) t nil h = rw cons-append at h
starts_with_trans (cons c s) t (cons d u) h =
    let h' = rw cons-append at h in ground (arith, starts_with_trans s t u)

pub size-cut-le : (n : ℕ) (s : String) → size (cut n s) ≤ n
unfolding size cut
size-cut-le zero s = omega arith
size-cut-le (suc n) nil = omega arith
size-cut-le (suc n) (cons c s) = omega (arith, size-cut-le n s)

not-eq-true : (b : Bool) → not b ≡ true → b ≡ false
not-eq-true b h = ground arith

and-false : (b : Bool) → (b && false) ≡ false
and-false b = ground arith

trim_start_of_no_space :
    (s : String) → all_chars (λ c. not (is_space c)) s ≡ true → trim_start s ≡ s
unfolding trim_start all_chars
trim_start_of_no_space nil h = refl
trim_start_of_no_space (cons c s) h =
    let (hc, hs) = and-eq-true (not (is_space c)) (all_chars (λ c. not (is_space c)) s) h in
    rw (not-eq-true (is_space c) hc)

trim_end_of_no_space : (s : String) → all_chars (λ c. not (is_space c)) s ≡ true → trim_end s ≡ s
unfolding trim_end all_chars
trim_end_of_no_space nil h = refl
trim_end_of_no_space (cons c s) h =
    let (hc, hs) = and-eq-true (not (is_space c)) (all_chars (λ c. not (is_space c)) s) h in
    rw (trim_end_of_no_space s hs, not-eq-true (is_space c) hc, and-false)

-- A text without white space is left as it is.
pub trim_of_no_space : (s : String) → all_chars (λ c. not (is_space c)) s ≡ true → trim s ≡ s
unfolding trim
trim_of_no_space s h = rw (trim_start_of_no_space s h) (trim_end_of_no_space s h)

pub all_chars_mono :
    (p q : Char → Bool)
    → ((c : Char) → p c ≡ true → q c ≡ true)
    → (s : String) → all_chars p s ≡ true
    → all_chars q s ≡ true
unfolding all_chars
all_chars_mono p q f nil h = refl
all_chars_mono p q f (cons c s) h =
    let (hc, hs) = and-eq-true (p c) (all_chars p s) h in rw (f c hc) (all_chars_mono p q f s hs)

pub strip_prefix-append : (s t : String) → strip_prefix (String.◌++◌ s t) s ≡ some t
unfolding strip_prefix
strip_prefix-append nil t = ap some (nil-append t)
strip_prefix-append (cons c s) t = rw cons-append (ground (arith, strip_prefix-append s t))

-- A text that does not begin with white space.
is_open : String → Bool
is_open nil = true
is_open (cons c s) = not (is_space c)

trim_start-open : (s : String) → is_open (trim_start s) ≡ true
unfolding is_open trim_start
trim_start-open nil = refl
trim_start-open (cons c s) = elim (Bool-cases (is_space c)) [
  | inl e ↦ rw e (trim_start-open s)
  | inr e ↦ rw e (ap not e)
]

trim_start_of_open : (s : String) → is_open s ≡ true → trim_start s ≡ s
unfolding is_open trim_start
trim_start_of_open nil h = refl
trim_start_of_open (cons c s) h = ground (arith, h)

trim_end-open : (s : String) → is_open s ≡ true → is_open (trim_end s) ≡ true
unfolding is_open trim_end
trim_end-open nil h = refl
trim_end-open (cons c s) h = ground (arith, h)

trim_end_idem : (s : String) → trim_end (trim_end s) ≡ trim_end s
unfolding trim_end
trim_end_idem nil = refl
trim_end_idem (cons c s) = elim (Bool-cases (trim_end s == "" && is_space c)) [
  | inl e ↦ rw e refl
  | inr e ↦ rw e (
      ap (λ r. if r == "" && is_space c then "" else cons c r) (trim_end_idem s)
      ∙ ap (λ b. if b then "" else cons c (trim_end s)) e)
]

pub trim_idem : (s : String) → trim (trim s) ≡ trim s
unfolding trim
trim_idem s =
    ap trim_end (
      trim_start_of_open (trim_end (trim_start s))
        (trim_end-open (trim_start s) (trim_start-open s)))
    ∙ trim_end_idem (trim_start s)
