-- ===== src/Workflow/Available.antt =====
-- The keys that a step at a depth may refer to: `availableAt` of `validateWorkflow`
-- (backend/src/lib/validation.js, lines 346 to 377). The set is a list of its members.
use open_kritt.Prelude.{
  ℕ, suc, String, Bool, false, Option, none, some, List, [], ◌∷◌, ◌++◌, ltb, if◌then◌else◌,
}
use open_kritt.Value.{keys}
use open_kritt.Workflow.Types.{
  Level, level_at, effective_consumes, sort_levels, builtin_keys, multi_output_depth_key,
  is_multi_output_depth_key,
}

-- `normLevels.filter((level) => level.depth < depth)`
abbrev pub earlier : ℕ → List Level → List Level
earlier d [] = []
earlier d (l ∷ ls) = if ltb l.depth d then l ∷ earlier d ls else earlier d ls

-- The keys of collapsed depths among the keys.
abbrev pub multi_keys : List String → List String
multi_keys [] = []
multi_keys (k ∷ ks) = if is_multi_output_depth_key k then k ∷ multi_keys ks else multi_keys ks

-- `consumer && effectiveConsumes(consumer)`
abbrev pub is_consumer : Option Level → Bool
is_consumer none = false
is_consumer (some c) = effective_consumes c

-- One round of the loop, at the earlier level `e` of the levels `ls`.
abbrev pub carry : List Level → List String → Level → List String
carry ls available e =
    if is_consumer (level_at (suc e.depth) ls)
    then builtin_keys ++ multi_keys available ++ multi_output_depth_key e.depth ∷ []
    else available ++ keys e.output_format

abbrev pub carry_all : List Level → List String → List Level → List String
carry_all ls available [] = available
carry_all ls available (e ∷ es) = carry_all ls (carry ls available e) es

-- `availableAt`
unfoldable pub available_at : List Level → ℕ → List String
available_at ls d = carry_all ls builtin_keys (sort_levels (earlier d ls))
