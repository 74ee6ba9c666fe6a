-- ===== src/Text.antt =====
-- Texts as the program uses them: template literals, `split('.').pop()`, `trim`, and the regular
-- expressions for names. A text is its code points; JavaScript counts UTF-16 units, which
-- are the same but for characters outside the basic plane.
pub mod Laws
pub mod Digits
use Prim.Native.Char.{Char, code}
use Prim.Native.String.{[] as nil, ◌∷◌ as cons}
use Prim.Native.String
use open_kritt.Prelude.{
  ℕ, zero, suc, ◌/◌, ◌%◌, String, Bool, true, false, not, ◌&&◌, ◌||◌, Option, none, some, List, [],
  ◌∷◌, ltb, leb, nat_eq, ◌==◌, if◌then◌else◌, includes,
}

-- A template literal: its parts in a row.
abbrev pub concat : List String → String
concat [] = ""
concat (s ∷ []) = s
concat (s ∷ ss) = String.◌++◌ s (concat ss)

-- `list.join(', ')`
abbrev pub join_comma : List String → String
join_comma [] = ""
join_comma (s ∷ []) = s
join_comma (s ∷ ss) = String.◌++◌ s (String.◌++◌ ", " (join_comma ss))

unfoldable pub digit_text : ℕ → String
digit_text zero = "0"
digit_text (suc zero) = "1"
digit_text (suc (suc zero)) = "2"
digit_text (suc (suc (suc zero))) = "3"
digit_text (suc (suc (suc (suc zero)))) = "4"
digit_text (suc (suc (suc (suc (suc zero))))) = "5"
digit_text (suc (suc (suc (suc (suc (suc zero)))))) = "6"
digit_text (suc (suc (suc (suc (suc (suc (suc zero))))))) = "7"
digit_text (suc (suc (suc (suc (suc (suc (suc (suc zero)))))))) = "8"
digit_text _ = "9"

unfoldable pub decimal_from : ℕ → ℕ → String → String
decimal_from zero n acc = acc
decimal_from (suc fuel) n acc =
    let more = decimal_from fuel (n / 10) (String.◌++◌ (digit_text (n % 10)) acc) in
    if ltb n 10 then String.◌++◌ (digit_text n) acc else more

-- `String(n)` of a non-negative integer; a number has fewer digits than its value plus one.
unfoldable pub decimal : ℕ → String
unfolding decimal_from digit_text
decimal n = decimal_from (suc n) n ""

-- `path.split('.').pop()`, where `segment` is what stands since the last dot.
last_segment_from : String → String → String
last_segment_from segment nil = segment
last_segment_from segment (cons c s) =
    last_segment_from (if nat_eq (code c) b'.' then "" else String.◌++◌ segment (cons c nil)) s

unfoldable pub last_segment : String → String
unfolding last_segment_from
last_segment path = last_segment_from "" path

abbrev pub is_digit : Char → Bool
is_digit c = leb b'0' (code c) && leb (code c) b'9'

-- [a-zA-Z_]
abbrev pub is_name_start : Char → Bool
is_name_start c =
    leb b'a' (code c) && leb (code c) b'z'
    || leb b'A' (code c) && leb (code c) b'Z'
    || nat_eq (code c) b'_'

-- [a-zA-Z0-9_]
abbrev pub is_name_char : Char → Bool
is_name_char c = is_name_start c || is_digit c

unfoldable pub all_chars : (Char → Bool) → String → Bool
all_chars p nil = true
all_chars p (cons c s) = p c && all_chars p s

-- /^[a-zA-Z_][a-zA-Z0-9_]*$/
unfoldable pub is_identifier : String → Bool
unfolding all_chars
is_identifier nil = false
is_identifier (cons c s) = is_name_start c && all_chars is_name_char s

-- /^\d+$/
unfoldable pub is_digits : String → Bool
unfolding all_chars
is_digits s = not (s == "") && all_chars is_digit s

-- /^[1-9]\d*$/
unfoldable pub is_positive_digits : String → Bool
unfolding all_chars
is_positive_digits nil = false
is_positive_digits (cons c s) = leb b'1' (code c) && leb (code c) b'9' && all_chars is_digit s

-- The white space and line terminators that `trim` strips.
abbrev pub is_space : Char → Bool
is_space c =
    let n = code c in
    leb 9 n && leb n 13
    || nat_eq n 32
    || nat_eq n 0xa0
    || nat_eq n 0x1680
    || leb 0x2000 n && leb n 0x200a
    || nat_eq n 0x2028
    || nat_eq n 0x2029
    || nat_eq n 0x202f
    || nat_eq n 0x205f
    || nat_eq n 0x3000
    || nat_eq n 0xfeff

unfoldable pub trim_start : String → String
trim_start nil = ""
trim_start (cons c s) = if is_space c then trim_start s else cons c s

unfoldable pub trim_end : String → String
trim_end nil = ""
trim_end (cons c s) = let rest = trim_end s in if rest == "" && is_space c then "" else cons c rest

-- `s.trim()`
unfoldable pub trim : String → String
unfolding trim_start trim_end
trim s = trim_end (trim_start s)

-- `s.startsWith(prefix)`
unfoldable pub starts_with : String → String → Bool
starts_with s nil = true
starts_with nil (cons d t) = false
starts_with (cons c s) (cons d t) = nat_eq (code c) (code d) && starts_with s t

-- `s.length`: a character outside the basic plane has two units.
unfoldable pub utf16_size : String → ℕ
utf16_size nil = 0
utf16_size (cons c s) = if leb 65536 (code c) then suc (suc (utf16_size s)) else suc (utf16_size s)

-- The characters of a text.
unfoldable pub size : String → ℕ
size nil = 0
size (cons c s) = suc (size s)

-- Names that change a plain object when they are assigned.
abbrev pub unsafe_object_keys : List String
unsafe_object_keys = "__proto__" ∷ "constructor" ∷ "prototype" ∷ []

-- `isValidKey` of constants.js and `isValidFieldKey` of fieldDefinitions.js.
unfoldable pub is_valid_key : String → Bool
unfolding is_identifier
is_valid_key k = is_identifier k && not (includes unsafe_object_keys k)

-- `s.slice(0, n)`
unfoldable pub cut : ℕ → String → String
cut zero s = ""
cut (suc n) nil = ""
cut (suc n) (cons c s) = cons c (cut n s)

-- What follows `prefix`, if the text starts with it.
unfoldable pub strip_prefix : String → String → Option String
strip_prefix s nil = some s
strip_prefix nil (cons d t) = none
strip_prefix (cons c s) (cons d t) = if nat_eq (code c) (code d) then strip_prefix s t else none

-- The lower case of the letters A to Z and of the Kelvin sign, which alone of all characters
-- outside ASCII becomes a letter a to z; other characters stay as they are.
abbrev lower_char : Char → String
lower_char c =
    if nat_eq (code c) b'A'
    then "a"
    else if nat_eq (code c) b'B'
    then "b"
    else if nat_eq (code c) b'C'
    then "c"
    else if nat_eq (code c) b'D'
    then "d"
    else if nat_eq (code c) b'E'
    then "e"
    else if nat_eq (code c) b'F'
    then "f"
    else if nat_eq (code c) b'G'
    then "g"
    else if nat_eq (code c) b'H'
    then "h"
    else if nat_eq (code c) b'I'
    then "i"
    else if nat_eq (code c) b'J'
    then "j"
    else if nat_eq (code c) b'K'
    then "k"
    else if nat_eq (code c) b'L'
    then "l"
    else if nat_eq (code c) b'M'
    then "m"
    else if nat_eq (code c) b'N'
    then "n"
    else if nat_eq (code c) b'O'
    then "o"
    else if nat_eq (code c) b'P'
    then "p"
    else if nat_eq (code c) b'Q'
    then "q"
    else if nat_eq (code c) b'R'
    then "r"
    else if nat_eq (code c) b'S'
    then "s"
    else if nat_eq (code c) b'T'
    then "t"
    else if nat_eq (code c) b'U'
    then "u"
    else if nat_eq (code c) b'V'
    then "v"
    else if nat_eq (code c) b'W'
    then "w"
    else if nat_eq (code c) b'X'
    then "x"
    else if nat_eq (code c) b'Y'
    then "y"
    else if nat_eq (code c) b'Z'
    then "z"
    else if nat_eq (code c) 0x212a
    then "k"
    else cons c nil

-- `s.toLowerCase()`, as far as a comparison with ASCII texts can tell.
unfoldable pub to_lower : String → String
to_lower nil = ""
to_lower (cons c s) = String.◌++◌ (lower_char c) (to_lower s)
