-- ===== src/Template.antt =====
-- References in prompt templates: backend/src/lib/constants.js, lines 144 to 150 and 157 to 274
-- (frontend/src/lib/keys.js has the same scanner). The cursor is the text that is left, and
-- `openStart` is the text from the open braces on with what stands between them and the cursor.
pub mod Laws
pub mod Malformed
pub mod Extra
pub mod Rendering
mod Tests
use Prim.Native.Char.{Char, code}
use Prim.Native.String.{[] as nil, ◌∷◌ as cons}
use Prim.Native.String
use open_kritt.Prelude.{
  ℕ, String, Bool, true, false, not, ◌&&◌, ◌||◌, Option, none, some, List, [], ◌∷◌, ◌++◌, nat_eq,
  ltb, ◌==◌, if◌then◌else◌, length, includes,
}
use open_kritt.Text.{is_name_char, all_chars, trim, cut, strip_prefix, is_valid_key}

abbrev pub sample_limit : ℕ
sample_limit = 25

abbrev pub sample_length : ℕ
sample_length = 200

-- The rest of /^[a-zA-Z0-9_]+(?:\.[a-zA-Z0-9_]+)*$/; `pending` where a name has to begin.
ref_from : Bool → String → Bool
ref_from pending nil = not pending
ref_from pending (cons c s) =
    let in_name = ref_from false s in
    let after_dot = ref_from true s in
    if is_name_char c
    then in_name
    else if nat_eq (code c) b'.' && not pending
    then after_dot
    else false

-- `TEMPLATE_REF_RE.test(ref)`
unfoldable pub is_template_ref : String → Bool
unfolding ref_from
is_template_ref s = ref_from true s

-- The options of `scanTemplateRefs`.
pub record Mode : Type 0 where
  pub collect_refs : Bool
  pub collect_malformed : Bool
  pub stop_on_malformed : Bool

pub record Scan : Type 0 where
  pub refs : List String
  pub malformed : List String
  pub malformed_found : Bool

pub record Opened : Type 0 where
  pub from_open : String
  pub inside : String

-- What a pair of characters is.
pub data Pair : Type 0 where
  opening closing other : Pair

abbrev pub pair_kind : Char → Char → Pair
pair_kind c d =
    if nat_eq (code c) b'{' && nat_eq (code d) b'{'
    then opening
    else if nat_eq (code c) b'}' && nat_eq (code d) b'}'
    then closing
    else other

abbrev pub record_malformed : Mode → String → Scan → Scan
record_malformed mode sample st = record {
  refs = st.refs;
  malformed =
      if mode.collect_malformed && ltb (length st.malformed) sample_limit
      then st.malformed ++ sample ∷ []
      else st.malformed;
  malformed_found = true;
}

abbrev pub record_ref : Mode → String → Scan → Scan
record_ref mode ref st = record {
  refs = if mode.collect_refs then st.refs ++ ref ∷ [] else st.refs;
  malformed = st.malformed;
  malformed_found = st.malformed_found;
}

abbrev pub finish : Mode → Option Opened → Scan → Scan
finish mode none st = st
finish mode (some o) st = record_malformed mode (cut sample_length o.from_open) st

abbrev pub braced : String → String
braced s = String.◌++◌ "{{" (String.◌++◌ s "}}")

abbrev pub push : Opened → Char → Opened
push o c = record o { inside = String.◌++◌ o.inside (cons c nil) }

-- How a round of the loop ends: with a `return`, or with the cursor two or one further.
pub data Move : Type 0 where
  return : Scan → Move
  skip_two : Option Opened → Scan → Move
  skip_one : Option Opened → Scan → Move

-- `if (recordMalformed(…)) return …;`, and else on with two characters skipped.
abbrev pub malformed_or : Mode → String → Option Opened → Scan → Move
malformed_or mode sample next st =
    if mode.stop_on_malformed
    then return (record_malformed mode sample st)
    else skip_two next (record_malformed mode sample st)

abbrev pub opened_at : String → Option Opened
opened_at text = some (record { from_open = text; inside = "" })

-- One round: the pair at the cursor, its first character, the text from the cursor on.
pub scan_step : Mode → Pair → Char → String → Option Opened → Scan → Move
scan_step mode opening c text none st = skip_two (opened_at text) st
scan_step mode closing c text none st = malformed_or mode "}}" none st
scan_step mode other c text none st = skip_one none st
scan_step mode opening c text (some o) st =
    malformed_or mode (cut sample_length o.from_open) (opened_at text) st
scan_step mode closing c text (some o) st =
    if is_template_ref (trim o.inside)
    then skip_two none (record_ref mode (trim o.inside) st)
    else malformed_or mode (cut sample_length (braced o.inside)) none st
scan_step mode other c text (some o) st = skip_one (some (push o c)) st

abbrev pub resume : (two one : Option Opened → Scan → Scan) → Move → Scan
resume two one (return st) = st
resume two one (skip_two o st) = two o st
resume two one (skip_one o st) = one o st

-- The loop of `scanTemplateRefs`.
pub scan_from : Mode → String → Option Opened → Scan → Scan
scan_from mode nil opened st = finish mode opened st
scan_from mode (cons c nil) opened st = finish mode opened st
scan_from mode (cons c (cons d s)) opened st =
    resume (scan_from mode s) (scan_from mode (cons d s))
      (scan_step mode (pair_kind c d) c (cons c (cons d s)) opened st)

abbrev pub nothing_yet : Scan
nothing_yet = record { refs = []; malformed = []; malformed_found = false }

abbrev pub scan_template_refs : Mode → String → Scan
scan_template_refs mode content = scan_from mode content none nothing_yet

abbrev pub full : Mode
full = record { collect_refs = true; collect_malformed = true; stop_on_malformed = false }

abbrev pub refs_only : Mode
refs_only = record { collect_refs = true; collect_malformed = false; stop_on_malformed = false }

abbrev pub first_malformed : Mode
first_malformed = record {
  collect_refs = false;
  collect_malformed = false;
  stop_on_malformed = true;
}

unfoldable pub parse_template_refs : String → List String × List String
unfolding scan_from scan_step
parse_template_refs content = let st = scan_template_refs full content in (st.refs, st.malformed)

unfoldable pub parse_refs : String → List String
unfolding scan_from scan_step
parse_refs content = (scan_template_refs refs_only content).refs

unfoldable pub has_malformed_template_refs : String → Bool
unfolding scan_from scan_step
has_malformed_template_refs content = (scan_template_refs first_malformed content).malformed_found

-- `extraSubKey`
unfoldable pub extra_sub_key : String → Option String
extra_sub_key ref = elim (strip_prefix ref "extra.") [
  | none ↦ none
  | some k ↦ if not (k == "") && all_chars is_name_char k && is_valid_key k then some k else none
]

-- `isExtraRef`
unfoldable pub is_extra_ref : String → Bool
is_extra_ref ref = ref == "extra" || elim (extra_sub_key ref) [ none ↦ false | some _ ↦ true ]

-- `Set.prototype.add`, with the members in the order of insertion.
abbrev pub add : List String → String → List String
add ks k = if includes ks k then ks else ks ++ k ∷ []

abbrev pub add_found : List String → Option String → List String
add_found ks none = ks
add_found ks (some k) = add ks k

-- The loop of `extractExtraKeys`.
pub extra_keys_from : List String → List String → List String
extra_keys_from found [] = found
extra_keys_from found (ref ∷ refs) = extra_keys_from (add_found found (extra_sub_key ref)) refs

unfoldable pub extract_extra_keys : String → List String
unfolding extra_keys_from
extract_extra_keys content = extra_keys_from [] (parse_refs content)

-- `refResolves`
unfoldable pub ref_resolves : String → List String → Bool → Bool
ref_resolves ref available allow_extra = includes available ref || allow_extra && is_extra_ref ref
