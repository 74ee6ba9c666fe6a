-- ===== src/Workflow/Keys.antt =====
-- Which keys are available at a depth, stated by depths and without an order of traversal.
use open_kritt.Prelude.{
  some_same, ℕ, zero, suc, ◌≤◌, ◌<◌, ◌≡◌, ◌↔◌, ◌⊎◌, inl, inr, ap, ap₂, ◌∙◌, sym, subst, Bool, true,
  false, ◌&&◌, ◌||◌, List, [], ◌∷◌, ◌++◌, some, arith, String, Bool-cases, if◌then◌else◌, includes,
  ◌==◌, eq_iff,
}
use open_kritt.Value.{keys}
use open_kritt.Template.Extra.{includes-append}
use open_kritt.Workflow.Types.{
  Level, depths, level_at, builtin_keys, multi_output_depth_key, is_multi_output_depth_key,
}
use open_kritt.Workflow.Available.{multi_keys, is_consumer, available_at}
use open_kritt.Workflow.Routing.{nat_distinct}
use open_kritt.Workflow.Reach.{
  available_at-suc, available_at-zero, includes-multi_keys, multi_key_known, depth-level_at,
}

-- The keys of a level that no boundary up to the depth collapses.
pub record IsOutput (ls : List Level) (d : ℕ) (k : String) (e : ℕ) : Type 0 where
  pub level : Level
  pub at : level_at e ls ≡ some level
  pub key : includes (keys level.output_format) k ≡ true
  pub open_to : (m : ℕ) → e < m → m ≤ d → is_consumer (level_at m ls) ≡ false

-- The key of a depth that the next one collapses.
abbrev pub IsCollapsed : List Level → String → ℕ → Type 0
IsCollapsed ls k e = (is_consumer (level_at (suc e) ls) ≡ true) × (multi_output_depth_key e ≡ k)

-- A key is available at a depth if it is built in, or a depth before is collapsed under this name, or
-- a depth before has it in its output format and no depth in between collapses.
abbrev pub IsAvailable : List Level → ℕ → String → Type 0
IsAvailable ls d k =
    (includes builtin_keys k ≡ true)
    ⊎ ((e : ℕ) × (e < d) × (IsCollapsed ls k e ⊎ IsOutput ls d k e))

or_cases : (a b : Bool) → (a || b) ≡ true → (a ≡ true) ⊎ (b ≡ true)
or_cases a b h = ground arith

or_left : (a b : Bool) → a ≡ true → (a || b) ≡ true
or_left a b h = ground arith

or_right : (a b : Bool) → b ≡ true → (a || b) ≡ true
or_right a b h = ground arith

le_cases : (m d : ℕ) → m ≤ suc d → (m ≡ suc d) ⊎ (m ≤ d)
le_cases m d h = ground (arith, h)

lt_cases : (m d : ℕ) → m < suc d → (m ≡ d) ⊎ (m < d)
lt_cases m d h = ground (arith, h)

only_builtin : {ls : List Level} {k : String} → IsAvailable ls 0 k → includes builtin_keys k ≡ true
only_builtin (inl b) = b
only_builtin (inr (e, l, _)) = let none_left : ⊥ = omega (arith, l) in elim none_left [ ]

module _ (ls : List Level) (k : String) (distinct : nat_distinct (depths ls) ≡ true)
    (proper : (e : ℕ) (l : Level)
      → level_at e ls ≡ some l
      → includes (keys l.output_format) k ≡ true
      → is_multi_output_depth_key k ≡ false) where
  includes-collapsed :
      (av : List String) (d : ℕ)
      → includes (builtin_keys ++ multi_keys av ++ multi_output_depth_key d ∷ []) k ≡ (
          includes builtin_keys k
          || ((is_multi_output_depth_key k && includes av k) || (multi_output_depth_key d == k)))
  includes-collapsed av d =
      includes-append builtin_keys _ k
      ∙ ap (λ b. includes builtin_keys k || b)
          (includes-append (multi_keys av) _ k ∙ ap₂ ◌||◌ (includes-multi_keys av k) ground arith)

  -- One level more, with the level `x` at the depth `d`.
  module _ (d : ℕ) (x : Level) (at : level_at d ls ≡ some x)
      (before : (includes (available_at ls d) k ≡ true) ↔ IsAvailable ls d k) where
    carried : Bool → List String
    carried b =
        if b
        then builtin_keys ++ multi_keys (available_at ls d) ++ multi_output_depth_key d ∷ []
        else available_at ls d ++ keys x.output_format

    carried_eq :
        (b : Bool) → is_consumer (level_at (suc d) ls) ≡ b → available_at ls (suc d) ≡ carried b
    unfolding carried
    carried_eq b c =
        available_at-suc d ls x distinct at
        ∙ ap
            (λ n.
              if is_consumer (level_at (suc n) ls)
              then builtin_keys ++ multi_keys (available_at ls d) ++ multi_output_depth_key n ∷ []
              else available_at ls d ++ keys x.output_format)
            (depth-level_at d ls x at)
        ∙ ap carried c

    -- What is in the keys that a boundary leaves.
    left_by_boundary :
        (is_multi_output_depth_key k && includes (available_at ls d) k) ≡ true
        → IsAvailable ls d k
        → IsAvailable ls (suc d) k
    left_by_boundary h (inl b) = inl b
    left_by_boundary h (inr (e, l, inl m)) = inr (e, omega (arith, l), inl m)
    left_by_boundary h (inr (e, l, inr o)) =
        let plain = proper e o.level o.at o.key in
        cc (h, ap (λ b. b && includes (available_at ls d) k) plain)

    collapsed_key :
        is_consumer (level_at (suc d) ls) ≡ true
        → ((is_multi_output_depth_key k && includes (available_at ls d) k)
            || (multi_output_depth_key d == k))
          ≡ true
        → IsAvailable ls (suc d) k
    collapsed_key c h = elim (or_cases _ (multi_output_depth_key d == k) h) [
      | inl m ↦ left_by_boundary m (before.0 ground (arith, m))
      | inr m ↦ inr (d, omega arith, inl (c, (eq_iff _ k).0 m))
    ]

    collapsed_key_back :
        is_consumer (level_at (suc d) ls) ≡ true
        → IsAvailable ls (suc d) k
        → (includes builtin_keys k
            || ((is_multi_output_depth_key k && includes (available_at ls d) k)
                || (multi_output_depth_key d == k)))
          ≡ true
    collapsed_key_back c (inl b) = or_left _ _ b
    collapsed_key_back c (inr (e, l, inl (m, same))) = elim (lt_cases e d l) [
      | inl now ↦
          or_right _ _ (or_right _ _ ((eq_iff _ k).1 (ap multi_output_depth_key (sym now) ∙ same)))
      | inr old ↦ or_right _ _ (
          or_left _ _ (
            ap₂ ◌&&◌ (ap is_multi_output_depth_key (sym same) ∙ multi_key_known e)
              (before.1 (inr (e, old, inl (m, same))))))
    ]
    collapsed_key_back c (inr (e, l, inr o)) = cc (c, o.open_to (suc d) l (omega arith))

    next_collapsed :
        is_consumer (level_at (suc d) ls) ≡ true
        → (includes (available_at ls (suc d)) k ≡ true) ↔ IsAvailable ls (suc d) k
    unfolding carried
    next_collapsed c =
        let e =
          ap (λ s. includes s k) (carried_eq true c) ∙ includes-collapsed (available_at ls d) d in
        (
          λ h. elim (or_cases (includes builtin_keys k) _ (sym e ∙ h)) [
            | inl b ↦ inl b
            | inr r ↦ collapsed_key c r
          ],
          λ h. e ∙ collapsed_key_back c h,
        )

    open_key :
        is_consumer (level_at (suc d) ls) ≡ false → IsAvailable ls d k → IsAvailable ls (suc d) k
    open_key c (inl b) = inl b
    open_key c (inr (e, l, inl m)) = inr (e, omega (arith, l), inl m)
    open_key c (inr (e, l, inr o)) = inr (
      e,
      omega (arith, l),
      inr (record {
        level = o.level;
        at = o.at;
        key = o.key;
        open_to = λ m above below. elim (le_cases m d below) [
          | inl last ↦ subst (λ n. is_consumer (level_at n ls) ≡ false) (sym last) c
          | inr old ↦ o.open_to m above old
        ];
      }),
    )

    own_key :
        is_consumer (level_at (suc d) ls) ≡ false
        → includes (keys x.output_format) k ≡ true
        → IsAvailable ls (suc d) k
    own_key c h = inr (
      d,
      omega arith,
      inr (record {
        level = x;
        at = at;
        key = h;
        open_to = λ m above below.
            subst (λ n. is_consumer (level_at n ls) ≡ false) (omega (arith, above, below)) c;
      }),
    )

    open_key_back :
        is_consumer (level_at (suc d) ls) ≡ false
        → IsAvailable ls (suc d) k
        → (includes (available_at ls d) k || includes (keys x.output_format) k) ≡ true
    open_key_back c (inl b) = or_left _ _ (before.1 (inl b))
    open_key_back c (inr (e, l, inl (m, same))) = elim (lt_cases e d l) [
      | inl now ↦ cc (c, m, ap (λ n. is_consumer (level_at (suc n) ls)) now)
      | inr old ↦ or_left _ _ (before.1 (inr (e, old, inl (m, same))))
    ]
    open_key_back c (inr (e, l, inr o)) = elim (lt_cases e d l) [
      | inl now ↦
          let same = some_same (sym o.at ∙ ap (λ n. level_at n ls) now ∙ at) in
          or_right _ _ (ap (λ y. includes (keys y.output_format) k) (sym same) ∙ o.key)
      | inr old ↦ or_left _ _ (
          before.1 (
            inr (
              e,
              old,
              inr (record {
                level = o.level;
                at = o.at;
                key = o.key;
                open_to = λ m above below. o.open_to m above (omega (arith, below));
              }),
            )))
    ]

    next_open :
        is_consumer (level_at (suc d) ls) ≡ false
        → (includes (available_at ls (suc d)) k ≡ true) ↔ IsAvailable ls (suc d) k
    unfolding carried
    next_open c =
        let e =
          ap (λ s. includes s k) (carried_eq false c)
          ∙ includes-append (available_at ls d) (keys x.output_format) k in
        (
          λ h. elim (or_cases (includes (available_at ls d) k) _ (sym e ∙ h)) [
            | inl b ↦ open_key c (before.0 b)
            | inr r ↦ own_key c r
          ],
          λ h. e ∙ open_key_back c h,
        )

    next : (includes (available_at ls (suc d)) k ≡ true) ↔ IsAvailable ls (suc d) k
    next = elim (Bool-cases (is_consumer (level_at (suc d) ls))) [
      | inl c ↦ next_collapsed c
      | inr c ↦ next_open c
    ]

  first_keys : (includes (available_at ls 0) k ≡ true) ↔ IsAvailable ls 0 k
  first_keys = (
    λ h. inl (ap (λ s. includes s k) (sym (available_at-zero ls)) ∙ h),
    λ h. ap (λ s. includes s k) (available_at-zero ls) ∙ only_builtin h,
  )

  pub available_at_iff :
      (d : ℕ)
      → ((e : ℕ) → e < d → (x : Level) × (level_at e ls ≡ some x))
      → (includes (available_at ls d) k ≡ true) ↔ IsAvailable ls d k
  available_at_iff zero f = first_keys
  available_at_iff (suc d) f =
      let (x, at) = f d (omega arith) in
      next d x at (available_at_iff d (λ e l. f e (omega (arith, l))))
