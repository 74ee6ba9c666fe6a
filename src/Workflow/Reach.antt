-- ===== src/Workflow/Reach.antt =====
-- The keys at a depth, from those at the depth before.
use open_kritt.Prelude.{
  ℕ, suc, ◌≤◌, ◌<◌, ◌≡◌, ◌⊎◌, inl, inr, refl, ap, ap₂, ◌∙◌, sym, subst, true, false, ◌&&◌, List, [],
  ◌∷◌, ◌++◌, some, arith, ltb, String, Bool-cases, and-eq-true, ◌≢◌, includes, eq_iff,
}
use open_kritt.Text.{decimal}
use open_kritt.Text.Laws.{strip_prefix-append}
use open_kritt.Text.Digits.{decimal-is_digits}
use open_kritt.Workflow.Types.{
  Level, depths, level_at, insert_level, sort_levels, builtin_keys, multi_output_depth_key,
  is_multi_output_depth_key, digits_left,
}
use open_kritt.Workflow.Available.{earlier, multi_keys, carry, carry_all, available_at}
use open_kritt.Workflow.Routing.{nat_includes, nat_distinct}

pub multi_key_known : (d : ℕ) → is_multi_output_depth_key (multi_output_depth_key d) ≡ true
unfolding is_multi_output_depth_key multi_output_depth_key
multi_key_known d =
    ap digits_left (strip_prefix-append "multi_output_depth_" (decimal d)) ∙ decimal-is_digits d

-- All levels are above the depth.
abbrev IsBelow : ℕ → List Level → Type 0
IsBelow d [] = Unit
IsBelow d (m ∷ ms) = (m.depth < d) × IsBelow d ms

insert_level-last :
    (l : Level) (ms : List Level) → IsBelow l.depth ms → insert_level l ms ≡ ms ++ (l ∷ [])
insert_level-last l [] h = refl
insert_level-last l (m ∷ ms) (k, h) = ground (arith, insert_level-last l ms h, k)

insert_level-append :
    (l x : Level) (ms : List Level)
    → l.depth < x.depth
    → insert_level l (ms ++ (x ∷ [])) ≡ insert_level l ms ++ (x ∷ [])
insert_level-append l x [] h = ground (arith, h)
insert_level-append l x (m ∷ ms) h = ground (arith, insert_level-append l x ms h)

insert_level-IsBelow :
    (d : ℕ) (l : Level) (ms : List Level)
    → l.depth < d
    → IsBelow d ms
    → IsBelow d (insert_level l ms)
insert_level-IsBelow d l [] h k = (h, tt)
insert_level-IsBelow d l (m ∷ ms) h (k, r) =
    ground (arith, insert_level-IsBelow d l ms h r, h, k, r)

sorted-IsBelow : (d : ℕ) (ls : List Level) → IsBelow d (sort_levels (earlier d ls))
sorted-IsBelow d [] = tt
sorted-IsBelow d (l ∷ ls) = elim (Bool-cases (ltb l.depth d)) [
  | inl e ↦ rw e (
      insert_level-IsBelow d l (sort_levels (earlier d ls)) ground (arith, e) (sorted-IsBelow d ls))
  | inr e ↦ rw e (sorted-IsBelow d ls)
]

earlier-suc_absent :
    (d : ℕ) (ls : List Level)
    → nat_includes (depths ls) d ≡ false
    → earlier (suc d) ls ≡ earlier d ls
earlier-suc_absent d [] h = refl
earlier-suc_absent d (l ∷ ls) h = ground (arith, earlier-suc_absent d ls)

compare_cases : (m n : ℕ) → (m ≡ n) ⊎ ((m < n) ⊎ (n < m))
compare_cases m n = ground arith

earlier_keeps :
    (d : ℕ) (l : Level) (ls : List Level) → l.depth < d → earlier d (l ∷ ls) ≡ l ∷ earlier d ls
earlier_keeps d l ls h = ground (arith, h)

earlier_skips :
    (d : ℕ) (l : Level) (ls : List Level) → d ≤ l.depth → earlier d (l ∷ ls) ≡ earlier d ls
earlier_skips d l ls h = ground (arith, h)

level_at_head : (d : ℕ) (l : Level) (ls : List Level) → l.depth ≡ d → level_at d (l ∷ ls) ≡ some l
level_at_head d l ls h = ground (arith, h)

level_at_tail :
    (d : ℕ) (l : Level) (ls : List Level) → l.depth ≢ d → level_at d (l ∷ ls) ≡ level_at d ls
level_at_tail d l ls h = ground (arith, h)

pub depth-level_at : (d : ℕ) (ls : List Level) (x : Level) → level_at d ls ≡ some x → x.depth ≡ d
depth-level_at d [] x e = cc
depth-level_at d (l ∷ ls) x e = ground (arith, depth-level_at d ls x, ap Level.depth)

some_inj {ℓ} : {A : Type ℓ} (a b : A) → some a ≡ some b → a ≡ b
some_inj a b e = cc

-- With the levels at one depth more, the sorted ones have one more at the end.
sorted-suc :
    (d : ℕ) (ls : List Level) (x : Level)
    → nat_distinct (depths ls) ≡ true
    → level_at d ls ≡ some x
    → sort_levels (earlier (suc d) ls) ≡ sort_levels (earlier d ls) ++ (x ∷ [])
sorted-suc d [] x h e = cc
sorted-suc d (l ∷ ls) x h e =
    let (new, distinct) = and-eq-true _ (nat_distinct (depths ls)) h in
    elim (compare_cases l.depth d) [
      | inl same ↦
          let gone =
            earlier-suc_absent d ls
              (subst (λ n. nat_includes (depths ls) n ≡ false) same (ground (arith, new))) in
          let last = insert_level-last l (sort_levels (earlier d ls)) (
            subst (λ n. IsBelow n (sort_levels (earlier d ls))) (sym same) (sorted-IsBelow d ls)) in
          ap sort_levels (earlier_keeps (suc d) l ls (omega (arith, same)))
          ∙ ap (λ a. insert_level l (sort_levels a)) gone
          ∙ last
          ∙ ap₂ (λ a y. sort_levels a ++ (y ∷ []))
              (sym (earlier_skips d l ls (omega (arith, same))))
              (some_inj l x (sym (level_at_head d l ls same) ∙ e))
      | inr (inl below) ↦
          let e' = sym (level_at_tail d l ls (λ h. omega (arith, h, below))) ∙ e in
          let at = depth-level_at d ls x e' in
          ap sort_levels (earlier_keeps (suc d) l ls (omega (arith, below)))
          ∙ ap (insert_level l) (sorted-suc d ls x distinct e')
          ∙ insert_level-append l x (sort_levels (earlier d ls)) (omega (arith, below, at))
          ∙ ap (λ a. sort_levels a ++ (x ∷ [])) (sym (earlier_keeps d l ls below))
      | inr (inr above) ↦
          let e' = sym (level_at_tail d l ls (λ h. omega (arith, h, above))) ∙ e in
          ap sort_levels (earlier_skips (suc d) l ls (omega (arith, above)))
          ∙ sorted-suc d ls x distinct e'
          ∙ ap (λ a. sort_levels a ++ (x ∷ [])) (sym (earlier_skips d l ls (omega (arith, above))))
    ]

carry_all-append :
    (ls : List Level) (av : List String) (es : List Level) (x : Level)
    → carry_all ls av (es ++ (x ∷ [])) ≡ carry ls (carry_all ls av es) x
carry_all-append ls av [] x = refl
carry_all-append ls av (e ∷ es) x = carry_all-append ls (carry ls av e) es x

-- The keys at a depth are those at the depth before, carried over its level.
pub available_at-suc :
    (d : ℕ) (ls : List Level) (x : Level)
    → nat_distinct (depths ls) ≡ true
    → level_at d ls ≡ some x
    → available_at ls (suc d) ≡ carry ls (available_at ls d) x
unfolding available_at
available_at-suc d ls x h e =
    ap (carry_all ls builtin_keys) (sorted-suc d ls x h e)
    ∙ carry_all-append ls builtin_keys (sort_levels (earlier d ls)) x

earlier_zero : (ls : List Level) → earlier 0 ls ≡ []
earlier_zero [] = refl
earlier_zero (l ∷ ls) = earlier_skips 0 l ls (omega arith) ∙ earlier_zero ls

pub available_at-zero : (ls : List Level) → available_at ls 0 ≡ builtin_keys
unfolding available_at
available_at-zero ls = ap (λ a. carry_all ls builtin_keys (sort_levels a)) (earlier_zero ls)

pub includes-multi_keys :
    (ks : List String) (k : String)
    → includes (multi_keys ks) k ≡ (is_multi_output_depth_key k && includes ks k)
includes-multi_keys [] k = ground arith
includes-multi_keys (j ∷ ks) k =
    ground (arith, includes-multi_keys ks k, eq_iff j k, ap is_multi_output_depth_key)
