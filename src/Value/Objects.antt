-- ===== src/Value/Objects.antt =====
-- Reading an object after a property was assigned.
use open_kritt.Prelude.{String, ◌≡◌, refl, some, ◌==◌, if◌then◌else◌, arith, eq_iff}
use open_kritt.Value.{Value, Fields, end, field, own, get, assign}

pub own-assign :
    (k j : String) (v : Value) (fs : Fields)
    → own j (assign k v fs) ≡ (if k == j then some v else own j fs)
unfolding assign
own-assign k j v end = refl
own-assign k j v (field i w fs) =
    ground (arith, eq_iff i k, eq_iff i j, eq_iff k j, own-assign k j v fs)

pub get-assign :
    (k j : String) (v : Value) (fs : Fields)
    → get j (assign k v fs) ≡ (if k == j then v else get j fs)
get-assign k j v fs = ground (arith, own-assign k j v fs)
