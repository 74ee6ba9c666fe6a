-- ===== src/Scan/Moves.antt =====
-- The status changes that users may ask for.
use open_kritt.Prelude.{
  ℕ, ◌≡◌, ◌≢◌, ◌↔◌, ◌⊎◌, refl, sym, ap, subst, ◌∙◌, inl, inr, Bool, Bool-cases, true, false, not,
  ◌&&◌, ◌||◌, some, List, [], ◌∷◌, String, ltb, ◌==◌, arith, eq_iff,
}
use open_kritt.Value.{Value, string}
use open_kritt.Scan.{
  Status, queued, pending, prewarming_cache, running, rate_limited, post_processing, paused,
  completed, stopped, failed, user_status_transitions, is_status, has_status, set_status,
  change_status, scan_statuses, status_name, find_status, parse_status,
}
use open_kritt.Scan.Laws.{change_status_tested_iff}

-- A scan that has not ended.
abbrev pub IsUnended : Status → Type 0
IsUnended completed = ⊥
IsUnended stopped = ⊥
IsUnended failed = ⊥
IsUnended _ = Unit

-- A scan that does its work.
abbrev pub IsAtWork : Status → Type 0
IsAtWork prewarming_cache = Unit
IsAtWork running = Unit
IsAtWork post_processing = Unit
IsAtWork _ = ⊥

-- A scan that can go on where it was left.
abbrev pub IsResumable : Status → Type 0
IsResumable paused = Unit
IsResumable stopped = Unit
IsResumable failed = Unit
IsResumable _ = ⊥

-- What a user may do to a scan.
pub data UserMove : Status → Status → Type 0 where
  stop : {s : Status} → IsUnended s → UserMove s stopped
  pause : {s : Status} → IsAtWork s → UserMove s paused
  resume : {s : Status} → IsResumable s → UserMove s pending

find_status-name : (t : Status) → find_status scan_statuses (status_name t) ≡ some t
find_status-name queued = refl
find_status-name pending = refl
find_status-name prewarming_cache = refl
find_status-name running = refl
find_status-name rate_limited = refl
find_status-name post_processing = refl
find_status-name paused = refl
find_status-name completed = refl
find_status-name stopped = refl
find_status-name failed = refl

pub eq_of-is_status : (s t : Status) → is_status s t ≡ true → s ≡ t
eq_of-is_status s t h =
    let names = (eq_iff (status_name s) (status_name t)).0 h in
    let found =
      sym (find_status-name s) ∙ ap (find_status scan_statuses) names ∙ find_status-name t in
    cc found

is_status_iff : (s t : Status) → (is_status s t ≡ true) ↔ (s ≡ t)
is_status_iff s t =
    (eq_of-is_status s t, λ e. (eq_iff (status_name s) (status_name t)).1 (ap status_name e))

pub one_of : (u t : Status) → has_status (u ∷ []) t ≡ true → t ≡ u
one_of u t h = sym (eq_of-is_status u t ground (arith, h))

two_of : (u v t : Status) → has_status (u ∷ v ∷ []) t ≡ true → (t ≡ u) ⊎ (t ≡ v)
two_of u v t h = elim (Bool-cases (is_status u t)) [
  | inl e ↦ inl (sym (eq_of-is_status u t e))
  | inr e ↦ inr (one_of v t ground (arith, h, e))
]

to_stop : (s t : Status) → IsUnended s → t ≡ stopped → UserMove s t
to_stop s t p e = subst (UserMove s) (sym e) (stop p)

to_resume : (s t : Status) → IsResumable s → t ≡ pending → UserMove s t
to_resume s t p e = subst (UserMove s) (sym e) (resume p)

halt : (s t : Status) → IsAtWork s → IsUnended s → (t ≡ paused) ⊎ (t ≡ stopped) → UserMove s t
halt s t p q (inl e) = subst (UserMove s) (sym e) (pause p)
halt s t p q (inr e) = to_stop s t q e

move_of : (s t : Status) → has_status (user_status_transitions s) t ≡ true → UserMove s t
move_of queued t h = to_stop queued t tt (one_of stopped t h)
move_of pending t h = to_stop pending t tt (one_of stopped t h)
move_of rate_limited t h = to_stop rate_limited t tt (one_of stopped t h)
move_of prewarming_cache t h = halt prewarming_cache t tt tt (two_of paused stopped t h)
move_of running t h = halt running t tt tt (two_of paused stopped t h)
move_of post_processing t h = halt post_processing t tt tt (two_of paused stopped t h)
move_of paused t h = elim (two_of pending stopped t h) [
  | inl e ↦ to_resume paused t tt e
  | inr e ↦ to_stop paused t tt e
]
move_of completed t h = cc h
move_of stopped t h = to_resume stopped t tt (one_of pending t h)
move_of failed t h = to_resume failed t tt (one_of pending t h)

can_stop : (s : Status) → IsUnended s → has_status (user_status_transitions s) stopped ≡ true
can_stop queued p = refl
can_stop pending p = refl
can_stop prewarming_cache p = refl
can_stop running p = refl
can_stop rate_limited p = refl
can_stop post_processing p = refl
can_stop paused p = refl
can_stop completed p = elim p [ ]
can_stop stopped p = elim p [ ]
can_stop failed p = elim p [ ]

can_pause : (s : Status) → IsAtWork s → has_status (user_status_transitions s) paused ≡ true
can_pause prewarming_cache p = refl
can_pause running p = refl
can_pause post_processing p = refl
can_pause _ p = elim p [ ]

can_resume : (s : Status) → IsResumable s → has_status (user_status_transitions s) pending ≡ true
can_resume paused p = refl
can_resume stopped p = refl
can_resume failed p = refl
can_resume _ p = elim p [ ]

move-allowed : (s t : Status) → UserMove s t → has_status (user_status_transitions s) t ≡ true
move-allowed s t (stop p) = can_stop s p
move-allowed s t (pause p) = can_pause s p
move-allowed s t (resume p) = can_resume s p

move_iff :
    (s t : Status)
    → ((is_status t s || has_status (user_status_transitions s) t) ≡ true)
      ↔ ((t ≡ s) ⊎ UserMove s t)
move_iff s t =
    let same = is_status_iff t s in
    (
      λ h. elim (Bool-cases (is_status t s)) [
        | inl e ↦ inl (same.0 e)
        | inr e ↦ inr (move_of s t ground (arith, h, e))
      ],
      λ h. elim h [
        | inl e ↦ let y = same.1 e in ground (arith, y)
        | inr m ↦ let y = move-allowed s t m in ground (arith, y)
      ],
    )

find_status-named :
    (ts : List Status) (s : String) (t : Status) → find_status ts s ≡ some t → s ≡ status_name t
find_status-named [] s t h = cc h
find_status-named (u ∷ us) s t h = elim (Bool-cases (status_name u == s)) [
  | inl e ↦
      let same = (eq_iff (status_name u) s).0 e in
      let found : u ≡ t = ground (arith, h, e) in sym same ∙ ap status_name found
  | inr e ↦ find_status-named us s t ground (arith, h, e)
]

sent_iff : (v : Value) (t : Status) → (parse_status v ≡ some t) ↔ (v ≡ string (status_name t))
sent_iff v t = (named v, λ e. ap parse_status e ∙ find_status-name t)
  where
    named : (v : Value) → parse_status v ≡ some t → v ≡ string (status_name t)
    named (string s) h = ap string (find_status-named scan_statuses s t h)
    named _ h = cc h

resumes_iff :
    (s t : Status) (b : Bool)
    → (b ≡ (is_status t pending && not (is_status s pending)))
      ↔ ((b ≡ true) ↔ ((t ≡ pending) × (s ≢ pending)))
resumes_iff s t b = ground (arith, is_status_iff t pending, is_status_iff s pending)

idle_iff : (b : Bool) (n : ℕ) → ((b && ltb 0 n) ≡ false) ↔ ((b ≡ false) ⊎ (n ≡ 0))
idle_iff b n = ground arith

-- A request sets a status exactly when these four hold. It sends the name of the status. The status is
-- the present one, or stopped for a scan that is not completed, stopped or failed, or paused for one
-- that prewarms its cache, runs or is post-processed, or pending for one that is paused, stopped or
-- failed. It resumes the scan exactly when the status is pending and the present one is not. A scan that
-- is resumed has no supplemental work.
pub change_status_iff :
    (s t : Status) (n : ℕ) (v : Value) (b : Bool)
    → (change_status s n v ≡ set_status t b) ↔ (
        (v ≡ string (status_name t))
        × ((t ≡ s) ⊎ UserMove s t)
        × ((b ≡ true) ↔ ((t ≡ pending) × (s ≢ pending)))
        × ((b ≡ false) ⊎ (n ≡ 0)))
change_status_iff s t n v b =
    let tests = change_status_tested_iff s t n v b in
    let sent = sent_iff v t in
    let moves = move_iff s t in
    let resumes = resumes_iff s t b in
    let idle = idle_iff b n in
    (
      λ h. let (a, m, r, z) = tests.0 h in (sent.0 a, moves.0 m, resumes.0 r, idle.0 z),
      λ (a, m, r, z). tests.1 (sent.1 a, moves.1 m, resumes.1 r, idle.1 z),
    )
