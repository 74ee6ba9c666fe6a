-- ===== src/Model/Lists.antt =====
-- The tables of backend/src/lib/constants.js, lines 73 to 109.
use open_kritt.Prelude.{String, Bool, List, [], ◌∷◌, ◌==◌, if◌then◌else◌, includes}

abbrev pub thinking_efforts : List String
thinking_efforts = "default" ∷ "low" ∷ "medium" ∷ "high" ∷ "xhigh" ∷ "max" ∷ "ultra" ∷ []

abbrev pub model_providers : List String
model_providers =
    "codex" ∷ "claude" ∷ "openrouter" ∷ "omniroute" ∷ "xai" ∷ "deepseek" ∷ "ollama" ∷ []

abbrev pub harnesses : List String
harnesses = "codex" ∷ "claude-code" ∷ "cursor" ∷ "grok-build" ∷ "ollama" ∷ []

-- The texts of an object's entry, empty where there is none.
abbrev pub entry : String → List (String × List String) → List String
entry k [] = []
entry k ((j, v) ∷ rows) = if j == k then v else entry k rows

-- `HARNESS_ALIASES[h] || h`
abbrev pub harness_alias : String → String
harness_alias h =
    if h == "codex-cli"
    then "codex"
    else if h == "cursor-agent"
    then "cursor"
    else if h == "cursor-cli"
    then "cursor"
    else if h == "grok"
    then "grok-build"
    else h

abbrev pub model_provider_harnesses : List (String × List String)
model_provider_harnesses =
    ("codex", "codex" ∷ [])
    ∷ ("claude", "claude-code" ∷ [])
    ∷ ("openrouter", "codex" ∷ "claude-code" ∷ [])
    ∷ ("omniroute", "codex" ∷ "claude-code" ∷ [])
    ∷ ("xai", "grok-build" ∷ [])
    ∷ ("deepseek", "codex" ∷ [])
    ∷ ("ollama", "ollama" ∷ [])
    ∷ []

abbrev pub harness_thinking_efforts : List (String × List String)
harness_thinking_efforts =
    ("codex", "default" ∷ "low" ∷ "medium" ∷ "high" ∷ "xhigh" ∷ "max" ∷ "ultra" ∷ [])
    ∷ ("claude-code", "default" ∷ "low" ∷ "medium" ∷ "high" ∷ "xhigh" ∷ "max" ∷ [])
    ∷ ("grok-build", "low" ∷ "medium" ∷ "high" ∷ "xhigh" ∷ [])
    ∷ ("ollama", "default" ∷ [])
    ∷ []

-- `MODEL_PROVIDER_HARNESSES[p]`
unfoldable pub provider_harnesses : String → List String
provider_harnesses p = entry p model_provider_harnesses

-- `isModelProviderHarnessCompatible`
unfoldable pub is_compatible : String → String → Bool
unfolding provider_harnesses
is_compatible p h = includes (provider_harnesses p) h

-- `HARNESS_THINKING_EFFORTS[h]?.includes(e)`
unfoldable pub supports_effort : String → String → Bool
supports_effort h e = includes (entry h harness_thinking_efforts) e

-- `MODEL_PROVIDERS.includes(p)`, `HARNESSES.includes(h)`, `THINKING_EFFORTS.includes(e)`
unfoldable pub is_known_provider : String → Bool
is_known_provider p = includes model_providers p

unfoldable pub is_known_harness : String → Bool
is_known_harness h = includes harnesses h

unfoldable pub is_known_effort : String → Bool
is_known_effort e = includes thinking_efforts e
