-- ===== src/Value/Texts.antt =====
-- `String(value)` and `JSON.stringify(value)`.
use Prim.Native.Char.{Char, code}
use Prim.Native.String.{[] as nil_text, ◌∷◌ as cons_text}
use Prim.Native.String
use open_kritt.Prelude.{
  ℕ, ◌/◌, ◌%◌, String, Bool, true, false, ◌||◌, [], ◌∷◌, ◌==◌, nat_eq, ltb, if◌then◌else◌,
}
use open_kritt.Text.{concat, decimal}
use open_kritt.Value.{
  Value, undefined, null, bool, number, real, string, array, object, Items, nil, cons, Fields, end,
  field, is_nullish,
}

-- An array's elements are joined by commas, with nothing for `null` and `undefined`.
unfoldable mutual
  pub to_text : Value → String
  to_text undefined = "undefined"
  to_text null = "null"
  to_text (bool true) = "true"
  to_text (bool false) = "false"
  to_text (number n) = decimal n
  to_text (real s) = s
  to_text (string s) = s
  to_text (array vs) = items_text vs
  to_text (object fs) = "[object Object]"

  pub items_text : Items → String
  items_text nil = ""
  items_text (cons v vs) = String.◌++◌ (if is_nullish v then "" else to_text v) (rest_text vs)

  pub rest_text : Items → String
  rest_text nil = ""
  rest_text (cons v vs) =
      concat ("," ∷ (if is_nullish v then "" else to_text v) ∷ rest_text vs ∷ [])

-- `${value ?? ''}`
unfoldable pub id_string : Value → String
unfolding to_text
id_string v = if is_nullish v then "" else to_text v

hex_digit : ℕ → String
hex_digit n =
    if ltb n 10
    then decimal n
    else if nat_eq n 10
    then "a"
    else if nat_eq n 11
    then "b"
    else if nat_eq n 12
    then "c"
    else if nat_eq n 13
    then "d"
    else if nat_eq n 14
    then "e"
    else "f"

escape : Char → String
escape c =
    let n = code c in
    if nat_eq n 34
    then "\\\""
    else if nat_eq n 92
    then "\\\\"
    else if nat_eq n 8
    then "\\b"
    else if nat_eq n 9
    then "\\t"
    else if nat_eq n 10
    then "\\n"
    else if nat_eq n 12
    then "\\f"
    else if nat_eq n 13
    then "\\r"
    else if ltb n 32
    then concat ("\\u00" ∷ hex_digit (n / 16) ∷ hex_digit (n % 16) ∷ [])
    else cons_text c nil_text

escaped : String → String
escaped nil_text = ""
escaped (cons_text c s) = String.◌++◌ (escape c) (escaped s)

quoted : String → String
quoted s = concat ("\"" ∷ escaped s ∷ "\"" ∷ [])

-- A number that JSON has no text for is written as null.
real_json : String → String
real_json s = if s == "NaN" || s == "Infinity" || s == "-Infinity" then "null" else s

abbrev is_undefined : Value → Bool
is_undefined undefined = true
is_undefined _ = false

-- `undefined` is written as null in an array and left out of an object; on its own it has no
-- text, which no caller asks for.
unfoldable mutual
  unfolding real_json quoted escaped escape hex_digit decimal

  pub stringify : Value → String
  stringify undefined = "undefined"
  stringify null = "null"
  stringify (bool true) = "true"
  stringify (bool false) = "false"
  stringify (number n) = decimal n
  stringify (real s) = real_json s
  stringify (string s) = quoted s
  stringify (array nil) = "[]"
  stringify (array (cons v vs)) =
      concat
        ("[" ∷ (if is_undefined v then "null" else stringify v) ∷ stringify_items vs ∷ "]" ∷ [])
  stringify (object fs) = concat ("{" ∷ stringify_fields true fs ∷ "}" ∷ [])

  pub stringify_items : Items → String
  stringify_items nil = ""
  stringify_items (cons v vs) =
      concat ("," ∷ (if is_undefined v then "null" else stringify v) ∷ stringify_items vs ∷ [])

  pub stringify_fields : Bool → Fields → String
  stringify_fields first end = ""
  stringify_fields first (field k undefined fs) = stringify_fields first fs
  stringify_fields first (field k v fs) =
      concat (
        (if first then "" else ",") ∷ quoted k ∷ ":" ∷ stringify v ∷ stringify_fields false fs ∷ [])
