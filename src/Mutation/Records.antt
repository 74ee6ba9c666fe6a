-- ===== src/Mutation/Records.antt =====
-- `overlayRecords` of the queue (frontend/src/lib/latestMutation.js): the values that users chose laid
-- over the records that the server sent. Records are objects.
use open_kritt.Prelude.{
  String, ◌≡◌, refl, ap, ap₂, ◌∙◌, ◌&&◌, Option, none, some, List, [], ◌∷◌, map, arith, eq_iff,
  ◌==◌, if◌then◌else◌, map_get, map_set, map_get-map_set,
}
use open_kritt.Value.{Value, Fields, end, field, own, get, has_own, assign}
use open_kritt.Value.Texts.{to_text}
use open_kritt.Value.Objects.{own-assign}
use open_kritt.Mutation.{Overlay, Queue}

abbrev pub or_else {ℓ} : {A : Type ℓ} → Option A → Option A → Option A
or_else none o = o
or_else (some a) o = some a

-- `patches.get(scope) || {}`
abbrev pub patch_or_empty : Option Fields → Fields
patch_or_empty none = end
patch_or_empty (some p) = p

-- The patches after the overlays of `overlays.values()`.
abbrev pub patches_of :
    List (String × Overlay Value) → List (String × Fields) → List (String × Fields)
patches_of [] ps = ps
patches_of ((_, o) ∷ os) ps =
    patches_of os
      (map_set o.scope (assign o.field_name o.value (patch_or_empty (map_get o.scope ps))) ps)

-- The properties of `record`, with the values of `patch` where it has them.
abbrev pub updated : Fields → Fields → Fields
updated end patch = end
updated (field k v fs) patch = elim (own k patch) [
  | none ↦ field k v (updated fs patch)
  | some w ↦ field k w (updated fs patch)
]

abbrev pub followed_by : Fields → Fields → Fields
followed_by end fs = fs
followed_by (field k v gs) fs = field k v (followed_by gs fs)

-- The properties of `patch` that `record` does not have.
abbrev pub added : Fields → Fields → Fields
added fs end = end
added fs (field k v p) = if has_own fs k then added fs p else field k v (added fs p)

-- `{ ...record, ...patch }`
abbrev pub spread : Fields → Fields → Fields
spread fs patch = followed_by (updated fs patch) (added fs patch)

abbrev pub patched : Option Fields → Fields → Fields
patched none r = r
patched (some patch) r = spread r patch

-- One record, under the overlays.
abbrev pub overlaid : String → List (String × Overlay Value) → Fields → Fields
overlaid id_field os r = patched (map_get (to_text (get id_field r)) (patches_of os [])) r

abbrev pub lay_over : String → List (String × Overlay Value) → List Fields → List Fields
lay_over id_field [] records = records
lay_over id_field (o ∷ os) records = map (overlaid id_field (o ∷ os)) records

abbrev pub overlay_records : Queue Value → String → List Fields → List Fields
overlay_records q id_field records = lay_over id_field q.overlays records

-- The value of the last overlay for a field of a scope.
abbrev pub newest : String → String → List (String × Overlay Value) → Option Value
newest s f [] = none
newest s f ((_, o) ∷ os) =
    or_else (newest s f os) (if o.scope == s && o.field_name == f then some o.value else none)

abbrev own_patch : String → Option Fields → Option Value
own_patch f none = none
own_patch f (some p) = own f p

own-followed_by :
    (f : String) (fs gs : Fields) → own f (followed_by fs gs) ≡ or_else (own f fs) (own f gs)
own-followed_by f end gs = refl
own-followed_by f (field k v fs) gs = ground (arith, own-followed_by f fs gs)

-- A property of the record, after a patch that may have it too.
abbrev after_patch : Option Value → Option Value → Option Value
after_patch none o = none
after_patch (some v) o = or_else o (some v)

abbrev unless_own : Option Value → Option Value → Option Value
unless_own none o = o
unless_own (some v) o = none

own-updated : (f : String) (fs p : Fields) → own f (updated fs p) ≡ after_patch (own f fs) (own f p)
own-updated f end p = refl
own-updated f (field k v fs) p = ground (arith, own-updated f fs p, eq_iff k f)

own-added : (f : String) (fs p : Fields) → own f (added fs p) ≡ unless_own (own f fs) (own f p)
own-added f fs end = ground arith
own-added f fs (field k v p) = ground (arith, own-added f fs p, eq_iff k f)

own-spread : (f : String) (fs p : Fields) → own f (spread fs p) ≡ or_else (own f p) (own f fs)
own-spread f fs p =
    own-followed_by f (updated fs p) (added fs p)
    ∙ ap₂ or_else (own-updated f fs p) (own-added f fs p)
    ∙ ground arith

own-patches_of :
    (s f : String) (os : List (String × Overlay Value)) (ps : List (String × Fields))
    → own_patch f (map_get s (patches_of os ps))
      ≡ or_else (newest s f os) (own_patch f (map_get s ps))
own-patches_of s f [] ps = refl
own-patches_of s f ((j, o) ∷ os) ps = ground (
  arith,
  eq_iff o.scope s,
  own-patches_of s f os
      (map_set o.scope (assign o.field_name o.value (patch_or_empty (map_get o.scope ps))) ps),
  map_get-map_set o.scope s (assign o.field_name o.value (patch_or_empty (map_get o.scope ps))) ps,
  own-assign o.field_name f o.value (patch_or_empty (map_get o.scope ps)),
)

own-patched :
    (f : String) (o : Option Fields) (r : Fields)
    → own f (patched o r) ≡ or_else (own_patch f o) (own f r)
own-patched f none r = refl
own-patched f (some p) r = own-spread f r p

map-map_eq {ℓ} :
    {A B C : Type ℓ} (g : A → B) (h : B → C) (k : A → C) (xs : List A)
    → ((x : A) → h (g x) ≡ k x)
    → map h (map g xs) ≡ map k xs
map-map_eq g h k [] e = refl
map-map_eq g h k (x ∷ xs) e = ap₂ ◌∷◌ (e x) (map-map_eq g h k xs e)

own-overlaid :
    (id_field f : String) (os : List (String × Overlay Value)) (r : Fields)
    → own f (overlaid id_field os r) ≡ or_else (newest (to_text (get id_field r)) f os) (own f r)
own-overlaid id_field f os r =
    own-patched f (map_get (to_text (get id_field r)) (patches_of os [])) r
    ∙ ap (λ o. or_else o (own f r)) (own-patches_of (to_text (get id_field r)) f os [])
    ∙ ground arith

map_same {ℓ} :
    {A B : Type ℓ} (h k : A → B) (xs : List A) → ((x : A) → h x ≡ k x) → map h xs ≡ map k xs
map_same h k [] e = refl
map_same h k (x ∷ xs) e = ap₂ ◌∷◌ (e x) (map_same h k xs e)

own-lay_over :
    (id_field f : String) (os : List (String × Overlay Value)) (rs : List Fields)
    → map (own f) (lay_over id_field os rs)
      ≡ map (λ r. or_else (newest (to_text (get id_field r)) f os) (own f r)) rs
own-lay_over id_field f [] rs = map_same _ _ rs (λ r. refl)
own-lay_over id_field f (o ∷ os) rs = map-map_eq _ _ _ rs (own-overlaid id_field f (o ∷ os))

-- Of the records that are shown, in their order, each property is that of the newest overlay for
-- the record and the property, and without one that of the record that the server sent.
pub overlay_records_lem :
    (q : Queue Value) (id_field f : String) (rs : List Fields)
    → map (own f) (overlay_records q id_field rs)
      ≡ map (λ r. or_else (newest (to_text (get id_field r)) f q.overlays) (own f r)) rs
overlay_records_lem q id_field f rs = own-lay_over id_field f q.overlays rs
