-- ===== src/Scan/Life.antt =====
-- Where the requests of users can bring a scan.

use open_kritt.Prelude.{
  ℕ, ◌≡◌, refl, sym, subst, ◌⊎◌, inl, inr, Bool, Bool-cases, true, ◌||◌, [], ◌∷◌, arith,
}
use open_kritt.Value.{Value}
use open_kritt.Scan.{
  Status, queued, pending, prewarming_cache, running, rate_limited, post_processing, paused,
  completed, stopped, failed, user_status_transitions, is_status, has_status, set_status,
  change_status,
}
use open_kritt.Scan.Moves.{eq_of-is_status, one_of}
use open_kritt.Scan.Laws.{change_status_tested_iff}

-- A step that a user can take: a request that sets a status.
pub data UserStep : Status → Status → Type 0 where
  step :
      {s t : Status} (n : ℕ) (v : Value) (b : Bool)
      → change_status s n v ≡ set_status t b
      → UserStep s t

-- The statuses that a user can reach.
pub data Reach : Status → Status → Type 0 where
  here : {s : Status} → Reach s s
  later : {s t u : Status} → Reach s t → UserStep t u → Reach s u

-- The statuses that a user can set.
abbrev pub IsUsers : Status → Type 0
IsUsers t = (t ≡ pending) ⊎ ((t ≡ paused) ⊎ (t ≡ stopped))

either_of :
    (u v t : Status)
    → has_status (u ∷ v ∷ []) t ≡ true
    → (t ≡ u → IsUsers t)
    → (t ≡ v → IsUsers t)
    → IsUsers t
either_of u v t h f g = elim (Bool-cases (is_status u t)) [
  | inl e ↦ f (sym (eq_of-is_status u t e))
  | inr e ↦ g (one_of v t ground (arith, h, e))
]

pending_only : (t : Status) → has_status (pending ∷ []) t ≡ true → IsUsers t
pending_only t h = inl (one_of pending t h)

stopped_only : (t : Status) → has_status (stopped ∷ []) t ≡ true → IsUsers t
stopped_only t h = inr (inr (one_of stopped t h))

paused_or_stopped : (t : Status) → has_status (paused ∷ stopped ∷ []) t ≡ true → IsUsers t
paused_or_stopped t h = either_of paused stopped t h (λ e. inr (inl e)) (λ e. inr (inr e))

-- A status that a transition leads to is one that users can set.
allowed-IsUsers : (s t : Status) → has_status (user_status_transitions s) t ≡ true → IsUsers t
allowed-IsUsers queued t h = stopped_only t h
allowed-IsUsers pending t h = stopped_only t h
allowed-IsUsers rate_limited t h = stopped_only t h
allowed-IsUsers prewarming_cache t h = paused_or_stopped t h
allowed-IsUsers running t h = paused_or_stopped t h
allowed-IsUsers post_processing t h = paused_or_stopped t h
allowed-IsUsers paused t h = either_of pending stopped t h inl (λ e. inr (inr e))
allowed-IsUsers completed t h = cc h
allowed-IsUsers stopped t h = pending_only t h
allowed-IsUsers failed t h = pending_only t h

step-allowed :
    (s t : Status)
    → UserStep s t
    → (is_status t s || has_status (user_status_transitions s) t) ≡ true
step-allowed s t (step n v b h) = ((change_status_tested_iff s t n v b).0 h).1

step-IsUsers : (s t : Status) → UserStep s t → (t ≡ s) ⊎ IsUsers t
step-IsUsers s t h = elim (Bool-cases (is_status t s)) [
  | inl e ↦ inl (eq_of-is_status t s e)
  | inr e ↦ inr (allowed-IsUsers s t ground (arith, step-allowed s t h, e))
]

step-completed : (t : Status) → UserStep completed t → t ≡ completed
step-completed t h = eq_of-is_status t completed ground (arith, step-allowed completed t h)

-- However many requests users make, a scan stays as it was or is pending, paused or stopped: they
-- can never set it running, completed or failed.
pub Reach-IsUsers : (s t : Status) → Reach s t → (t ≡ s) ⊎ IsUsers t
Reach-IsUsers s t here = inl refl
Reach-IsUsers s u (later {t = t} r h) = elim (step-IsUsers t u h) [
  | inr k ↦ inr k
  | inl e ↦ subst (λ w. (w ≡ s) ⊎ IsUsers w) (sym e) (Reach-IsUsers s t r)
]

-- However many requests users make, a completed scan stays completed.
pub Reach-completed : (t : Status) → Reach completed t → t ≡ completed
Reach-completed t here = refl
Reach-completed u (later {t = t} r h) =
    step-completed u (subst (λ w. UserStep w u) (Reach-completed t r) h)
