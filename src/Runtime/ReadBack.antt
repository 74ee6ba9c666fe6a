-- ===== src/Runtime/ReadBack.antt =====
-- A setting that is written as text is read from it again (backend/src/lib/runtimeSettings.js).
use Prim.Native.Char.{Char, code}
use Prim.Native.String.{[] as nil, ◌∷◌ as cons}
use Prim.Native.String
use text.Mathlib.TextLemmas.{nil-append, cons-append}
use open_kritt.Prelude.{
  ℕ, zero, suc, ◌+◌, ◌*◌, ◌-◌, ◌/◌, ◌%◌, ◌<◌, String, ◌≡◌, refl, ap, ◌∙◌, Bool, true, false, not,
  none, some, ◌==◌, if◌then◌else◌, nat_eq, ltb, and-eq-true, arith, Bool-cases, inl, inr,
}
use open_kritt.Text.{
  trim, trim_start, trim_end, to_lower, all_chars, is_space, is_digit, is_digits, decimal,
  decimal_from, digit_text,
}
use open_kritt.Scan.{digits_value, digits_from}
use open_kritt.Text.Laws.{all_chars_mono, trim_of_no_space}
use open_kritt.Text.Digits.{decimal-is_digits}
use open_kritt.Runtime.{
  ℤ, pos, negsuc, neg, int_text, integer_of, Kind, integer, fraction, flag, Definition, Setting,
  whole, real_number, enabled, Numbers, is_within,
}
use open_kritt.Runtime.Reading.{
  within_whole, within_real, real_within, setting_of_kind, setting_text, parsed_setting_value,
  value_or_default,
}

after_digit :
    (k : ℕ) (c : Char) (acc : String)
    → digits_from k (String.◌++◌ (cons c nil) acc) ≡ digits_from (k * 10 + (code c - 48)) acc
unfolding digits_from
after_digit k c acc = ap (digits_from k) (cons-append c nil acc ∙ ap (cons c) (nil-append acc))

digit-append :
    (k d : ℕ) (acc : String)
    → d < 10
    → digits_from k (String.◌++◌ (digit_text d) acc) ≡ digits_from (k * 10 + d) acc
unfolding digits_from digit_text
digit-append k zero acc h = after_digit k (Char.char 48 tt) acc
digit-append k (suc zero) acc h = after_digit k (Char.char 49 tt) acc
digit-append k (suc (suc zero)) acc h = after_digit k (Char.char 50 tt) acc
digit-append k (suc (suc (suc zero))) acc h = after_digit k (Char.char 51 tt) acc
digit-append k (suc (suc (suc (suc zero)))) acc h = after_digit k (Char.char 52 tt) acc
digit-append k (suc (suc (suc (suc (suc zero))))) acc h = after_digit k (Char.char 53 tt) acc
digit-append k (suc (suc (suc (suc (suc (suc zero)))))) acc h = after_digit k (Char.char 54 tt) acc
digit-append k (suc (suc (suc (suc (suc (suc (suc zero))))))) acc h =
    after_digit k (Char.char 55 tt) acc
digit-append k (suc (suc (suc (suc (suc (suc (suc (suc zero)))))))) acc h =
    after_digit k (Char.char 56 tt) acc
digit-append k (suc (suc (suc (suc (suc (suc (suc (suc (suc zero))))))))) acc h =
    after_digit k (Char.char 57 tt) acc
digit-append k (suc (suc (suc (suc (suc (suc (suc (suc (suc (suc m)))))))))) acc h =
    let none_left : ⊥ = omega (arith, h) in elim none_left [ ]

decimal_from-value :
    (fuel n : ℕ) (acc : String)
    → n < fuel
    → digits_from 0 (decimal_from fuel n acc) ≡ digits_from n acc
unfolding decimal_from
decimal_from-value zero n acc h = let none_left : ⊥ = omega (arith, h) in elim none_left [ ]
decimal_from-value (suc fuel) n acc h = elim (Bool-cases (ltb n 10)) [
  | inl below ↦
      ap
        (λ b. digits_from 0 (
          if b
          then String.◌++◌ (digit_text n) acc
          else decimal_from fuel (n / 10) (String.◌++◌ (digit_text (n % 10)) acc)))
        below
      ∙ digit-append 0 n acc ground (arith, below)
      ∙ ap (λ m. digits_from m acc) (omega arith)
  | inr above ↦
      let lower : n / 10 < fuel = ground (arith, above, h) in
      let back : n / 10 * 10 + n % 10 ≡ n = omega arith in
      ap
        (λ b. digits_from 0 (
          if b
          then String.◌++◌ (digit_text n) acc
          else decimal_from fuel (n / 10) (String.◌++◌ (digit_text (n % 10)) acc)))
        above
      ∙ decimal_from-value fuel (n / 10) (String.◌++◌ (digit_text (n % 10)) acc) lower
      ∙ digit-append (n / 10) (n % 10) acc (omega arith)
      ∙ ap (λ m. digits_from m acc) back
]

digits_value-decimal : (n : ℕ) → digits_value (decimal n) ≡ n
unfolding digits_value decimal
digits_value-decimal n = decimal_from-value (suc n) n "" omega arith ∙ no_digits n
  where
    no_digits : (n : ℕ) → digits_from n "" ≡ n
    no_digits n = refl

digits_open : (s : String) → is_digits s ≡ true → all_chars is_digit s ≡ true
unfolding is_digits
digits_open s h = (and-eq-true (not (s == "")) (all_chars is_digit s) h).1

not_minus : (c : Char) (s : String) → is_digits (cons c s) ≡ true → nat_eq (code c) 45 ≡ false
unfolding is_digits all_chars
not_minus c s h = ground (arith, h)

no_digits_empty : is_digits "" ≡ true → ⊥
unfolding is_digits all_chars
no_digits_empty h = cc h

integer_of_digits : (s : String) → is_digits s ≡ true → integer_of s ≡ some (pos (digits_value s))
unfolding integer_of
integer_of_digits nil h = elim (no_digits_empty h) [ ]
integer_of_digits (cons c s) h =
    let plain : nat_eq (code c) 45 ≡ false = not_minus c s h in
    ap
      (λ b.
        if b
        then (if is_digits s then some (neg (digits_value s)) else none)
        else if is_digits (cons c s)
        then some (pos (digits_value (cons c s)))
        else none)
      plain
    ∙ ap (λ b. if b then some (pos (digits_value (cons c s))) else none) h

minus_text : (s : String) → String.◌++◌ "-" s ≡ cons (Char.char 45 tt) s
minus_text s = cons-append (Char.char 45 tt) "" s ∙ ap (cons (Char.char 45 tt)) (nil-append s)

pub integer_of-int_text : (z : ℤ) → integer_of (int_text z) ≡ some z
unfolding integer_of
integer_of-int_text (pos n) =
    integer_of_digits (decimal n) (decimal-is_digits n)
    ∙ ap (λ m. some (pos m)) (digits_value-decimal n)
integer_of-int_text (negsuc n) =
    ap integer_of (minus_text (decimal (suc n)))
    ∙ ap (λ b. if b then some (neg (digits_value (decimal (suc n)))) else none)
        (decimal-is_digits (suc n))
    ∙ ap (λ m. some (neg m)) (digits_value-decimal (suc n))

digit-not_space : (c : Char) → is_digit c ≡ true → not (is_space c) ≡ true
digit-not_space c h = ground (arith, h)

decimal_open : (n : ℕ) → all_chars (λ c. not (is_space c)) (decimal n) ≡ true
decimal_open n =
    all_chars_mono is_digit (λ c. not (is_space c)) digit-not_space (decimal n)
      (digits_open (decimal n) (decimal-is_digits n))

minus_open : (n : ℕ) → all_chars (λ c. not (is_space c)) (cons (Char.char 45 tt) (decimal n)) ≡ true
unfolding all_chars
minus_open n = decimal_open n

pub trim-int_text : (z : ℤ) → trim (int_text z) ≡ int_text z
trim-int_text (pos n) = trim_of_no_space (decimal n) (decimal_open n)
trim-int_text (negsuc n) =
    trim_of_no_space (int_text (negsuc n))
      (ap (all_chars (λ c. not (is_space c))) (minus_text (decimal (suc n))) ∙ minus_open (suc n))

-- Whether a value is of a kind, within its bounds.
module _ {Real : Type 0} (numbers : Numbers Real) where
  abbrev pub is_of_kind : Kind → Setting Real → Bool
  is_of_kind (integer least most) (whole z) = is_within least most z
  is_of_kind (fraction least most) (real_number r) = real_within numbers least most r
  is_of_kind flag (enabled b) = true
  is_of_kind _ _ = false

  -- `String(x)` of a finite number is a text without white space, and `Number` reads it as `x`.
  abbrev pub IsReadBack : Type 0
  IsReadBack =
      (r : Real)
      → (numbers.read (numbers.print r) ≡ some r)
        × ((trim (numbers.print r) ≡ numbers.print r) × ((numbers.print r == "") ≡ false))

  module _ (read_back : IsReadBack) where
    setting_of_kind-setting_text :
        (kind : Kind) (v : Setting Real)
        → is_of_kind kind v ≡ true
        → setting_of_kind numbers kind (trim (setting_text numbers v)) ≡ some v
    unfolding trim trim_start trim_end to_lower
    setting_of_kind-setting_text (integer least most) (whole z) h =
        ap (λ t. within_whole numbers least most (integer_of t)) (trim-int_text z)
        ∙ ap (within_whole numbers least most) (integer_of-int_text z)
        ∙ ap (λ b. if b then some (whole z) else none) h
    setting_of_kind-setting_text (fraction least most) (real_number r) h =
        let (same, (open_text, not_empty)) = read_back r in
        ap (setting_of_kind numbers (fraction least most)) open_text
        ∙ ap
            (λ b.
              if b then none else within_real numbers least most (numbers.read (numbers.print r)))
            not_empty
        ∙ ap (within_real numbers least most) same
        ∙ ap (λ b. if b then some (real_number r) else none) h
    setting_of_kind-setting_text flag (enabled true) h = refl
    setting_of_kind-setting_text flag (enabled false) h = refl
    setting_of_kind-setting_text (integer least most) (real_number r) h = cc h
    setting_of_kind-setting_text (integer least most) (enabled b) h = cc h
    setting_of_kind-setting_text (fraction least most) (whole z) h = cc h
    setting_of_kind-setting_text (fraction least most) (enabled b) h = cc h
    setting_of_kind-setting_text flag (whole z) h = cc h
    setting_of_kind-setting_text flag (real_number r) h = cc h

    -- The text of a value that is of the kind of its setting and within its bounds is read as that
    -- value, and as valid, where the language reads the text of a finite number as that number.
    pub parsed_setting_value-setting_text :
        (d : Definition) (v : Setting Real)
        → is_of_kind d.kind v ≡ true
        → parsed_setting_value numbers (some (setting_text numbers v)) d ≡ (v, true)
    unfolding parsed_setting_value
    parsed_setting_value-setting_text d v h =
        ap (value_or_default numbers d) (setting_of_kind-setting_text d.kind v h)
