-- ===== src/Value.antt =====
-- The values of JavaScript that come from JSON, with `undefined` for an absent property.
-- An object is the list of its own enumerable properties in order; keys are distinct in a real
-- object, and a lookup takes the first. A number is a non-negative integer or any other number,
-- which is kept as the text that `String(x)` prints for it.
pub mod Texts
pub mod Objects
mod Tests
use open_kritt.Prelude.{
  ◌≡◌, ◌↔◌, refl, ap, ℕ, String, Bool, true, false, Option, none, some, List, [], ◌∷◌, ◌==◌, nat_eq,
  not, ◌&&◌, includes, if◌then◌else◌,
}

mutual
  pub data Value : Type 0 where
    undefined null : Value
    bool : Bool → Value
    number : ℕ → Value
    real : String → Value
    string : String → Value
    array : Items → Value
    object : Fields → Value

  pub data Items : Type 0 where
    nil : Items
    cons : Value → Items → Items

  pub data Fields : Type 0 where
    end : Fields
    field : String → Value → Fields → Fields

abbrev pub items : Items → List Value
items nil = []
items (cons v vs) = v ∷ items vs

-- `Object.keys(o)`
abbrev pub keys : Fields → List String
keys end = []
keys (field k v fs) = k ∷ keys fs

-- An own property.
abbrev pub own : String → Fields → Option Value
own k end = none
own k (field j v fs) = if j == k then some v else own k fs

-- `o[k]` of an object without such a key on its prototype.
abbrev pub get : String → Fields → Value
get k fs = elim (own k fs) [ none ↦ undefined | some v ↦ v ]

-- `Object.hasOwn(o, k)`
abbrev pub has_own : Fields → String → Bool
has_own fs k = elim (own k fs) [ none ↦ false | some _ ↦ true ]

-- `typeof v`
abbrev pub type_of : Value → String
type_of undefined = "undefined"
type_of null = "object"
type_of (bool _) = "boolean"
type_of (number _) = "number"
type_of (real _) = "number"
type_of (string _) = "string"
type_of (array _) = "object"
type_of (object _) = "object"

-- `typeof v === 'string'`
abbrev pub is_string : Value → Bool
is_string (string _) = true
is_string _ = false

-- `v === undefined || v === null`
abbrev pub is_nullish : Value → Bool
is_nullish undefined = true
is_nullish null = true
is_nullish _ = false

-- One error of a `ValidationError`.
pub record FieldError : Type 0 where
  pub field_name : String
  pub message : String

abbrev pub error : String → String → FieldError
error f m = record { field_name = f; message = m }

-- A result, or a thrown `ValidationError` with its errors.
pub data Checked {ℓ} (A : Type ℓ) : Type ℓ where
  ok : A → Checked A
  invalid : List FieldError → Checked A

-- `a ?? b`
abbrev pub coalesce : Value → Value → Value
coalesce undefined b = b
coalesce null b = b
coalesce a b = a

-- `v?.[k]` of a name that no prototype has.
abbrev pub prop : String → Value → Value
prop k (object fs) = get k fs
prop k _ = undefined

-- `if (errors.length) throw new ValidationError(errors); return value;`
abbrev pub checked {ℓ} : {A : Type ℓ} → List FieldError → A → Checked A
checked [] a = ok a
checked (e ∷ es) a = invalid (e ∷ es)

pub checked-eq-ok_iff {ℓ} :
    {A : Type ℓ} (es : List FieldError) (a b : A) → (checked es a ≡ ok b) ↔ ((es ≡ []) × (a ≡ b))
checked-eq-ok_iff [] a b = (λ h. (refl, cc), λ (_, e). ap ok e)
checked-eq-ok_iff (e ∷ es) a b = (λ h. cc, λ (h, _). cc h)

-- `value !== null && typeof value === 'object' && !Array.isArray(value) ? value : {}`
abbrev pub object_or_empty : Value → Fields
object_or_empty (object fs) = fs
object_or_empty _ = end

-- The same test with `null` in place of `{}`.
abbrev pub as_object : Value → Option Fields
as_object (object fs) = some fs
as_object _ = none

-- `{ ...o, [k]: v }`: the property keeps its place if it is there.
unfoldable pub assign : String → Value → Fields → Fields
assign k v end = field k v end
assign k v (field j w fs) = if j == k then field k v fs else field j w (assign k v fs)

-- `a === b`, where objects and arrays come from separate documents and so are never the same.
abbrev pub strict_equal : Value → Value → Bool
strict_equal undefined undefined = true
strict_equal null null = true
strict_equal (bool true) (bool b) = b
strict_equal (bool false) (bool b) = not b
strict_equal (number m) (number n) = nat_eq m n
strict_equal (real s) (real t) = s == t && not (s == "NaN")
strict_equal (string s) (string t) = s == t
strict_equal _ _ = false

-- The members of a list of texts that a value can be: `set.has(value)`.
abbrev pub text_among : List String → Value → Bool
text_among ss (string s) = includes ss s
text_among ss _ = false

-- `value === true`
abbrev pub is_true : Value → Bool
is_true (bool b) = b
is_true _ = false

-- `typeof value === 'string' ? value : fallback`
abbrev pub string_or : String → Value → String
string_or fallback (string s) = s
string_or fallback _ = fallback
