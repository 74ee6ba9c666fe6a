-- ===== src/Format/Normal.antt =====
-- What is read of an output format is in normal form (backend/src/lib/fieldDefinitions.js).
use open_kritt.Prelude.{
  ◌≡◌, refl, ap, ap₂, subst, Option, none, some, String, Bool-cases, inl, inr, ◌==◌,
}
use open_kritt.Value.{
  Value, undefined, null, bool, number, real, string, array, object, Fields, end, field, Items, nil,
  cons, assign,
}
use open_kritt.Format.{
  normalize_definition, normalize_each, from_entries, entry_key, entry_definition, define_entry,
  format_of, format_of_text, normalize_output_format,
}
use open_kritt.Format.Laws.{normalize_definition_idem}

first_value : Fields → Value
first_value (field k v fs) = v
first_value end = null

rest_of : Fields → Fields
rest_of (field k v fs) = fs
rest_of end = end

assign-normal :
    (k : String) (v : Value) (fs : Fields)
    → normalize_each fs ≡ fs
    → normalize_each (assign k (normalize_definition v) fs) ≡ assign k (normalize_definition v) fs
unfolding assign first_value rest_of normalize_each
assign-normal k v end h = ap (λ w. field k w end) (normalize_definition_idem v)
assign-normal k v (field j w fs) h = elim (Bool-cases (j == k)) [
  | inl e ↦ rw e (ap₂ (field k) (normalize_definition_idem v) (ap rest_of h))
  | inr e ↦ rw e (ap₂ (field j) (ap first_value h) (assign-normal k v fs (ap rest_of h)))
]

define_entry-normal :
    (o : Option String) (v : Value) (fs : Fields)
    → normalize_each fs ≡ fs
    → normalize_each (define_entry o (normalize_definition v) fs)
      ≡ define_entry o (normalize_definition v) fs
define_entry-normal none v fs h = h
define_entry-normal (some k) v fs h = assign-normal k v fs h

each_normal : (fs : Fields) → normalize_each (normalize_each fs) ≡ normalize_each fs
unfolding normalize_each
each_normal end = refl
each_normal (field k v fs) = ap₂ (field k) (normalize_definition_idem v) (each_normal fs)

from_entries-normal :
    (vs : Items) (out : Fields)
    → normalize_each out ≡ out
    → normalize_each (from_entries vs out) ≡ from_entries vs out
unfolding from_entries
from_entries-normal nil out h = h
from_entries-normal (cons f vs) out h =
    from_entries-normal vs _ (define_entry-normal (entry_key f) (entry_definition f) out h)

format_of-normal : (v : Value) → normalize_each (format_of v) ≡ format_of v
unfolding normalize_each
format_of-normal (array vs) = from_entries-normal vs end refl
format_of-normal (object fs) = each_normal fs
format_of-normal undefined = refl
format_of-normal null = refl
format_of-normal (bool b) = refl
format_of-normal (number n) = refl
format_of-normal (real s) = refl
format_of-normal (string s) = refl

-- What is read of an output format, from whatever form, is its own normal form.
pub output_format-normal :
    (parse_json : String → Option Value) (v : Value) (fs : Fields)
    → normalize_output_format parse_json v ≡ some fs
    → normalize_each fs ≡ fs
output_format-normal parse_json v fs h = read v h
  where
    same : (w : Value) → some (format_of w) ≡ some fs → normalize_each fs ≡ fs
    same w e =
        let found : format_of w ≡ fs = cc e in
        subst (λ x. normalize_each x ≡ x) found (format_of-normal w)

    text : (o : Option Value) → format_of_text o ≡ some fs → normalize_each fs ≡ fs
    text none e = cc e
    text (some w) e = same w e

    read : (v : Value) → normalize_output_format parse_json v ≡ some fs → normalize_each fs ≡ fs
    read (string s) e = text (parse_json s) e
    read undefined e = same undefined e
    read null e = same null e
    read (bool b) e = same (bool b) e
    read (number n) e = same (number n) e
    read (real s) e = same (real s) e
    read (array vs) e = same (array vs) e
    read (object os) e = same (object os) e
