-- ===== src/Format/Tests.antt =====
-- Normal forms of two definitions.
use open_kritt.Prelude.{◌≡◌, refl}
use open_kritt.Value.{string, number, object, end, field}
use open_kritt.Format.{normalize_definition}
use open_kritt.Format.Laws.{normalize_definition_idem}

normal_run :
    normalize_definition (
      object (
        field "type"
          (string "array")
          (field "items" (object (field "type" (string "number") end)) end)))
    ≡ object (field "type" (string "array") (field "items" (string "number") end))
unfolding normalize_definition
normal_run = refl

normalize_definition_idem_example :
    normalize_definition (normalize_definition (object (field "example" (number 1) end)))
    ≡ normalize_definition (object (field "example" (number 1) end))
normalize_definition_idem_example =
    normalize_definition_idem (object (field "example" (number 1) end))
