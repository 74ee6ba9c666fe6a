-- ===== src/Value/Tests.antt =====
-- A run of `JSON.stringify`.
use open_kritt.Prelude.{◌≡◌, refl}
use open_kritt.Value.{undefined, null, number, string, array, object, nil, cons, end, field}
use open_kritt.Value.Texts.{stringify}

stringify_run :
    stringify (
      object (
        field "a"
          (array (cons null (cons undefined (cons (string "x\"y") nil))))
          (field "b" undefined (field "c" (number 12) end))))
    ≡ "{\"a\":[null,null,\"x\\\"y\"],\"c\":12}"
unfolding stringify
stringify_run = refl
