-- ===== src/Workflow/Prompts.antt =====
-- The prompts of a workflow without errors.
use open_kritt.Prelude.{
  ℕ, suc, ◌≡◌, ◌↔◌, refl, ap, ◌∙◌, sym, Bool, true, false, ◌||◌, List, [], ◌∷◌, arith,
  append-nil_iff, String, Bool-cases, inl, inr, includes, ◌==◌, eq_iff, All, eq_refl,
}
use open_kritt.Text.{trim}
use open_kritt.Model.{refuse}
use open_kritt.Template.{parse_refs, has_malformed_template_refs, is_extra_ref, add}
use open_kritt.Template.Extra.{includes-add}
use open_kritt.Workflow.Types.{Step, Level, content_of, at_depth, at_step}
use open_kritt.Workflow.Available.{available_at}
use open_kritt.Workflow.Content.{
  set_from, unresolved, unresolved_errors, content_errors, prompt_errors, has_no_step,
  level_prompt_errors,
}
use open_kritt.Workflow.Depths.{refuse-nil_iff}

pub includes-set_from :
    (set ss : List String) (k : String)
    → includes (set_from set ss) k ≡ (includes set k || includes ss k)
includes-set_from set [] k = ground arith
includes-set_from set (s ∷ ss) k =
    ground (arith, includes-set_from (add set s) ss k, includes-add set s k)

-- A key is one of the available ones or names an extra value.
abbrev pub resolves : List String → String → Bool
resolves available k = includes available k || is_extra_ref k

unresolved-step :
    (available : List String) (k : String) (ks : List String)
    → (unresolved available (k ∷ ks) ≡ [])
      ↔ ((resolves available k ≡ true) × (unresolved available ks ≡ []))
unresolved-step available k ks = ground arith

pub unresolved_iff :
    (available ks : List String)
    → (unresolved available ks ≡ [])
      ↔ ((k : String) → includes ks k ≡ true → resolves available k ≡ true)
unresolved_iff available [] = (λ _ k h. cc, λ _. refl)
unresolved_iff available (j ∷ ks) =
    let (to, from) = unresolved-step available j ks in
    let (to', from') = unresolved_iff available ks in
    (
      λ h k i. elim (Bool-cases (j == k)) [
        | inl e ↦ ap (resolves available) (sym ((eq_iff j k).0 e)) ∙ (to h).0
        | inr e ↦ to' (to h).1 k ground (arith, i, e)
      ],
      λ h.
          from
            (h j (ap (λ b. b || includes ks j) (eq_refl j)), from' (λ k i. h k ground (arith, i))),
    )

-- A prompt with text and without malformed syntax, whose references all resolve.
pub record IsPrompt (available : List String) (content : String) : Type 0 where
  pub filled : (trim content == "") ≡ false
  pub proper : has_malformed_template_refs content ≡ false
  pub resolved : (k : String) → includes (parse_refs content) k ≡ true → resolves available k ≡ true

unresolved_errors_iff :
    (path : String) (ks : List String) → (unresolved_errors path ks ≡ []) ↔ (ks ≡ [])
unresolved_errors_iff path [] = (λ _. refl, λ _. refl)
unresolved_errors_iff path (k ∷ ks) = (λ h. cc, λ h. cc)

content_errors_iff :
    (path : String) (available : List String) (content : String)
    → (content_errors path available content ≡ []) ↔ IsPrompt available content
unfolding content_errors
content_errors_iff path available content =
    let refs = set_from [] (parse_refs content) in
    let a = append-nil_iff (refuse (trim content == "") path _) _ in
    let b =
      append-nil_iff (refuse (has_malformed_template_refs content) path _)
        (unresolved_errors path (unresolved available refs)) in
    let u = unresolved_iff available refs in
    let same = λ (k : String). includes-set_from [] (parse_refs content) k in
    (
      λ h.
          let (e, r) = a.0 h in
          let (m, n) = b.0 r in
          record {
            filled = (refuse-nil_iff _ _ _).0 e;
            proper = (refuse-nil_iff _ _ _).0 m;
            resolved = λ k i.
                u.0 ((unresolved_errors_iff path (unresolved available refs)).0 n) k (same k ∙ i);
          },
      λ p. a.1 (
        (refuse-nil_iff _ _ _).1 p.filled,
        b.1 (
          (refuse-nil_iff _ _ _).1 p.proper,
          (unresolved_errors_iff path (unresolved available refs)).1
              (u.1 (λ k i. p.resolved k (sym (same k) ∙ i))),
        ),
      ),
    )

prompt_errors_iff :
    (d : ℕ) (available : List String) (i : ℕ) (ss : List Step)
    → (prompt_errors d available i ss ≡ []) ↔ All (λ s. IsPrompt available (content_of s)) ss
unfolding prompt_errors
prompt_errors_iff d available i [] = (λ _. tt, λ _. refl)
prompt_errors_iff d available i (s ∷ ss) =
    let a =
      append-nil_iff (content_errors (at_step d i "content") available (content_of s))
        (prompt_errors d available (suc i) ss) in
    let c = content_errors_iff (at_step d i "content") available (content_of s) in
    let r = prompt_errors_iff d available (suc i) ss in
    (λ h. (c.0 (a.0 h).0, r.0 (a.0 h).1), λ (p, q). a.1 (c.1 p, r.1 q))

-- At least one step, and prompts over the keys that are available.
abbrev pub HasPrompts : List Level → Level → Type 0
HasPrompts all l =
    (has_no_step l.steps ≡ false)
    × All (λ s. IsPrompt (available_at all l.depth) (content_of s)) l.steps

pub level_prompt_errors_iff :
    (all ls : List Level) → (level_prompt_errors all ls ≡ []) ↔ All (HasPrompts all) ls
unfolding level_prompt_errors
level_prompt_errors_iff all [] = (λ _. tt, λ _. refl)
level_prompt_errors_iff all (l ∷ ls) =
    let a = append-nil_iff (refuse (has_no_step l.steps) (at_depth l.depth "steps") _) _ in
    let b =
      append-nil_iff (prompt_errors l.depth (available_at all l.depth) 0 l.steps)
        (level_prompt_errors all ls) in
    let p = prompt_errors_iff l.depth (available_at all l.depth) 0 l.steps in
    let r = level_prompt_errors_iff all ls in
    (
      λ h.
          let (e, rest) = a.0 h in
          (((refuse-nil_iff _ _ _).0 e, p.0 (b.0 rest).0), r.0 (b.0 rest).1),
      λ ((e, s), t). a.1 ((refuse-nil_iff _ _ _).1 e, b.1 (p.1 s, r.1 t)),
    )
