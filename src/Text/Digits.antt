-- ===== src/Text/Digits.antt =====
-- A number is written in digits.
use Prim.Native.Char.{Char}
use Prim.Native.String.{[] as nil, ◌∷◌ as cons}
use Prim.Native.String
use text.Mathlib.TextLemmas.{nil-append, cons-append, cons-ne-nil}
use open_kritt.Prelude.{
  ℕ, zero, suc, ◌/◌, ◌%◌, String, ◌≡◌, refl, ap, ap₂, ◌∙◌, Bool, true, false, not, ◌&&◌, ltb, ◌==◌,
  if◌then◌else◌, eq_iff, Bool-cases, inl, inr, subst, sym,
}
use open_kritt.Text.{decimal, decimal_from, digit_text, all_chars, is_digit, is_digits}

-- A text of digits, at least one.
abbrev IsNumeral : String → Type 0
IsNumeral s = (all_chars is_digit s ≡ true) × ((s == "") ≡ false)

eq-nil : (c : Char) (s : String) → (cons c s == "") ≡ false
eq-nil c s = elim (Bool-cases (cons c s == "")) [
  | inl e ↦ elim (cons-ne-nil c s ((eq_iff (cons c s) "").0 e)) [ ]
  | inr e ↦ e
]

cons_digit :
    (c : Char) (s : String)
    → is_digit c ≡ true
    → all_chars is_digit s ≡ true
    → IsNumeral (String.◌++◌ (cons c nil) s)
unfolding all_chars
cons_digit c s d h =
    let same = cons-append c nil s ∙ ap (cons c) (nil-append s) in
    subst IsNumeral (sym same) (ap₂ (λ a b. a && b) d h, eq-nil c s)

digit_text-append :
    (n : ℕ) (s : String) → all_chars is_digit s ≡ true → IsNumeral (String.◌++◌ (digit_text n) s)
unfolding digit_text
digit_text-append zero s h = cons_digit _ s refl h
digit_text-append (suc zero) s h = cons_digit _ s refl h
digit_text-append (suc (suc zero)) s h = cons_digit _ s refl h
digit_text-append (suc (suc (suc zero))) s h = cons_digit _ s refl h
digit_text-append (suc (suc (suc (suc zero)))) s h = cons_digit _ s refl h
digit_text-append (suc (suc (suc (suc (suc zero))))) s h = cons_digit _ s refl h
digit_text-append (suc (suc (suc (suc (suc (suc zero)))))) s h = cons_digit _ s refl h
digit_text-append (suc (suc (suc (suc (suc (suc (suc zero))))))) s h = cons_digit _ s refl h
digit_text-append (suc (suc (suc (suc (suc (suc (suc (suc zero)))))))) s h = cons_digit _ s refl h
digit_text-append (suc (suc (suc (suc (suc (suc (suc (suc (suc n))))))))) s h =
    cons_digit _ s refl h

if-IsNumeral :
    (b : Bool) (s t : String) → IsNumeral s → IsNumeral t → IsNumeral (if b then s else t)
if-IsNumeral true s t h k = h
if-IsNumeral false s t h k = k

decimal_from-IsNumeral :
    (fuel n : ℕ) (acc : String) → IsNumeral acc → IsNumeral (decimal_from fuel n acc)
unfolding decimal_from
decimal_from-IsNumeral zero n acc h = h
decimal_from-IsNumeral (suc fuel) n acc h =
    if-IsNumeral (ltb n 10) _ _ (digit_text-append n acc h.0)
      (decimal_from-IsNumeral fuel (n / 10) _ (digit_text-append (n % 10) acc h.0))

decimal-IsNumeral : (n : ℕ) → IsNumeral (decimal n)
unfolding decimal decimal_from all_chars
decimal-IsNumeral n =
    if-IsNumeral (ltb n 10) _ _ (digit_text-append n "" refl)
      (decimal_from-IsNumeral n (n / 10) _ (digit_text-append (n % 10) "" refl))

pub decimal-is_digits : (n : ℕ) → is_digits (decimal n) ≡ true
unfolding is_digits
decimal-is_digits n = ap₂ (λ a b. not a && b) (decimal-IsNumeral n).1 (decimal-IsNumeral n).0
