-- ===== src/Runtime.antt =====
-- The settings of the engine: backend/src/lib/runtimeSettings.js. A whole number keeps its sign; the
-- numbers with a fraction are those of the language and stand as a parameter, with what reads, orders
-- and prints them.
pub mod Bounds
pub mod ReadBack
pub mod Update
mod Updating
mod Tests
pub mod Reading
mod Lookups
pub mod Laws
use Prim.Native.Char.{code}
use Prim.Native.String.{[] as nil, ◌∷◌ as cons}
use Prim.Native.String
use open_kritt.Prelude.{
  ℕ, zero, suc, String, Bool, true, false, not, ◌&&◌, ◌||◌, Option, none, some, List, [], ◌∷◌, ◌++◌,
  leb, nat_eq, ◌==◌, if◌then◌else◌, includes, map_get, map_set,
}
use open_kritt.Text.{concat, decimal, trim, is_digits, to_lower}
use open_kritt.Scan.{digits_value, max_safe_integer, limit_text}
use open_kritt.Value.{
  Value, Fields, end, field, string, number, real, bool, object, FieldError, error, Checked, ok,
  invalid, checked, as_object,
}
use open_kritt.Model.{refuse}

-- The integers, over the native numbers: `negsuc n` is -(n + 1).
pub data ℤ : Type 0 where
  pos : ℕ → ℤ
  negsuc : ℕ → ℤ

abbrev pub leb_int : ℤ → ℤ → Bool
leb_int (pos m) (pos n) = leb m n
leb_int (pos m) (negsuc n) = false
leb_int (negsuc m) (pos n) = true
leb_int (negsuc m) (negsuc n) = leb n m

abbrev pub neg : ℕ → ℤ
neg zero = pos 0
neg (suc n) = negsuc n

abbrev pub int_text : ℤ → String
int_text (pos n) = decimal n
int_text (negsuc n) = concat ("-" ∷ decimal (suc n) ∷ [])

-- `type`, with the bounds of the numbers.
pub data Kind : Type 0 where
  integer : ℤ → ℤ → Kind
  fraction : ℕ → ℕ → Kind
  flag : Kind

pub data Default : Type 0 where
  count : ℕ → Default
  on_or_off : Bool → Default

-- When a setting takes effect.
pub data Apply : Type 0 where
  live restart : Apply

-- A definition of a setting: the name in the environment, the kind and the default, and what the page
-- shows of it; a step is kept as its text.
pub record Definition : Type 0 where
  pub env_key : String
  pub kind : Kind
  pub default_value : Default
  pub step : Option String
  pub recommended_max : Option ℕ
  pub apply : Apply

-- `RUNTIME_SETTING_DEFINITIONS`
unfoldable pub runtime_setting_definitions : List (String × Definition)
runtime_setting_definitions =
    (
      "workerCount",
      record {
        env_key = "ENGINE_WORKER_COUNT";
        kind = integer (pos 0) (pos 128);
        default_value = count 2;
        step = none;
        recommended_max = some 10;
        apply = live;
      },
    )
    ∷ (
      "maxConcurrentScans",
      record {
        env_key = "ENGINE_MAX_CONCURRENT_SCANS";
        kind = integer (pos 1) (pos 128);
        default_value = count 1;
        step = none;
        recommended_max = some 4;
        apply = live;
      },
    )
    ∷ (
      "maxWorkersPerScan",
      record {
        env_key = "ENGINE_MAX_WORKERS_PER_SCAN";
        kind = integer (pos 0) (pos 128);
        default_value = count 0;
        step = none;
        recommended_max = some 10;
        apply = live;
      },
    )
    ∷ (
      "workersPerAccount",
      record {
        env_key = "ENGINE_WORKERS_PER_ACCOUNT";
        kind = integer (pos 1) (pos 128);
        default_value = count 15;
        step = none;
        recommended_max = some 15;
        apply = live;
      },
    )
    ∷ (
      "autoscaleScanWorkersOnProviderCapacity",
      record {
        env_key = "ENGINE_AUTOSCALE_SCAN_WORKERS_ON_PROVIDER_CAPACITY";
        kind = flag;
        default_value = on_or_off true;
        step = none;
        recommended_max = none;
        apply = live;
      },
    )
    ∷ (
      "codexMaxSubagentsPerSession",
      record {
        env_key = "ENGINE_CODEX_MAX_SUBAGENTS_PER_SESSION";
        kind = integer (pos 1) (pos 5);
        default_value = count 5;
        step = none;
        recommended_max = some 5;
        apply = live;
      },
    )
    ∷ (
      "codexFastMode",
      record {
        env_key = "ENGINE_CODEX_FAST_MODE";
        kind = flag;
        default_value = on_or_off false;
        step = none;
        recommended_max = none;
        apply = live;
      },
    )
    ∷ (
      "minFreeStorageGb",
      record {
        env_key = "ENGINE_MIN_FREE_STORAGE_GB";
        kind = fraction 0 1024;
        default_value = count 20;
        step = some "0.1";
        recommended_max = none;
        apply = live;
      },
    )
    ∷ (
      "ignoreLowStorage",
      record {
        env_key = "ENGINE_IGNORE_LOW_STORAGE";
        kind = flag;
        default_value = on_or_off false;
        step = none;
        recommended_max = none;
        apply = live;
      },
    )
    ∷ (
      "memoryReserveGb",
      record {
        env_key = "ENGINE_MEMORY_RESERVE_GB";
        kind = fraction 0 1024;
        default_value = count 2;
        step = some "0.1";
        recommended_max = none;
        apply = live;
      },
    )
    ∷ (
      "scanRunnerMemoryMb",
      record {
        env_key = "ENGINE_SCAN_RUNNER_MEMORY_MB";
        kind = integer (pos 0) (pos 1048576);
        default_value = count 1536;
        step = none;
        recommended_max = some 4096;
        apply = live;
      },
    )
    ∷ (
      "scanRunnerMemoryReservationMb",
      record {
        env_key = "ENGINE_SCAN_RUNNER_MEMORY_RESERVATION_MB";
        kind = integer (pos 0) (pos 1048576);
        default_value = count 1536;
        step = none;
        recommended_max = some 4096;
        apply = live;
      },
    )
    ∷ (
      "scanRunnerCpus",
      record {
        env_key = "ENGINE_SCAN_RUNNER_CPUS";
        kind = fraction 0 64;
        default_value = count 0;
        step = some "0.05";
        recommended_max = none;
        apply = live;
      },
    )
    ∷ (
      "scanRunnerOomScoreAdj",
      record {
        env_key = "ENGINE_SCAN_RUNNER_OOM_SCORE_ADJ";
        kind = integer (negsuc 999) (pos 1000);
        default_value = count 500;
        step = none;
        recommended_max = none;
        apply = live;
      },
    )
    ∷ (
      "memoryPressureEvictionEnabled",
      record {
        env_key = "ENGINE_MEMORY_PRESSURE_EVICTION_ENABLED";
        kind = flag;
        default_value = on_or_off false;
        step = none;
        recommended_max = none;
        apply = live;
      },
    )
    ∷ (
      "workspaceSetupConcurrency",
      record {
        env_key = "ENGINE_WORKSPACE_SETUP_CONCURRENCY";
        kind = integer (pos 1) (pos 32);
        default_value = count 2;
        step = none;
        recommended_max = some 4;
        apply = restart;
      },
    )
    ∷ (
      "retryCount",
      record {
        env_key = "ENGINE_RETRY_COUNT";
        kind = integer (pos 0) (pos 10);
        default_value = count 2;
        step = none;
        recommended_max = some 2;
        apply = live;
      },
    )
    ∷ (
      "cyberSafetyRetryCount",
      record {
        env_key = "ENGINE_CYBER_SAFETY_RETRY_COUNT";
        kind = integer (pos 0) (pos 10);
        default_value = count 0;
        step = none;
        recommended_max = some 3;
        apply = live;
      },
    )
    ∷ (
      "harnessTimeoutSeconds",
      record {
        env_key = "ENGINE_HARNESS_TIMEOUT_SECONDS";
        kind = integer (pos 60) (pos 86400);
        default_value = count 7200;
        step = none;
        recommended_max = some 7200;
        apply = live;
      },
    )
    ∷ []

-- `/^-?\d+$/` and the number of such a text.
unfoldable pub integer_of : String → Option ℤ
integer_of nil = none
integer_of (cons c s) =
    if nat_eq (code c) b'-'
    then (if is_digits s then some (neg (digits_value s)) else none)
    else if is_digits (cons c s)
    then some (pos (digits_value (cons c s)))
    else none

abbrev pub magnitude : ℤ → ℕ
magnitude (pos n) = n
magnitude (negsuc n) = suc n

-- `Number.isSafeInteger(value) && value >= min && value <= max`
abbrev pub is_within : ℤ → ℤ → ℤ → Bool
is_within least most z = leb (magnitude z) max_safe_integer && (leb_int least z && leb_int z most)

abbrev pub on_words : List String
on_words = "1" ∷ "true" ∷ "yes" ∷ "on" ∷ []

abbrev pub off_words : List String
off_words = "0" ∷ "false" ∷ "no" ∷ "off" ∷ []

abbrev pub whole_message : ℤ → ℤ → String
whole_message least most =
    concat ("Enter a value from " ∷ int_text least ∷ " to " ∷ int_text most ∷ "." ∷ [])

-- The value of a setting; `Real` are the finite numbers of the language.
pub data Setting (Real : Type 0) : Type 0 where
  whole : ℤ → Setting Real
  real_number : Real → Setting Real
  enabled : Bool → Setting Real

-- A value that is taken over, or the error that is pushed for it.
pub data Given (Real : Type 0) : Type 0 where
  accepted : Setting Real → Given Real
  rejected : FieldError → Given Real

-- What the language does with numbers.
pub record Numbers (Real : Type 0) : Type 0 where
  pub of_count : ℕ → Real
  pub less : Real → Real → Bool
  pub read : String → Option Real
  pub print : Real → String

-- `Object.keys(o).length === 0`
abbrev pub is_end : Fields → Bool
is_end end = true
is_end (field k v fs) = false
