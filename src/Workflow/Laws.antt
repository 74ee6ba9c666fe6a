-- ===== src/Workflow/Laws.antt =====
-- What `validateWorkflow` guarantees of the workflows that it accepts.
use open_kritt.Prelude.{
  ℕ, suc, ◌-◌, any, ◌≤◌, ◌≡◌, ◌⊎◌, inl, inr, refl, ap, ◌∙◌, sym, subst, Bool, true, false, ◌||◌,
  Option, none, some, List, [], ◌∷◌, arith, String, includes, All,
}
use open_kritt.Value.{Value, ok, prop, keys}
use open_kritt.Template.{parse_refs, is_extra_ref}
use open_kritt.Workflow.Types.{Step, Level, content_of, level_at, depths, is_multi_output_depth_key}
use open_kritt.Workflow.Normal.{normal_levels}
use open_kritt.Workflow.Available.{available_at}
use open_kritt.Workflow.Routing.{nat_includes, nat_distinct, max_of}
use open_kritt.Workflow.Content.{all_keys, is_reserved_key, terminal_errors}
use open_kritt.Workflow.Depths.{range_from, Has, depth_errors_iff, sorted_depths, max_of_bound}
use open_kritt.Workflow.Keys.{IsAvailable, available_at_iff}
use open_kritt.Workflow.Prompts.{IsPrompt, HasPrompts}
use open_kritt.Workflow.Uniqueness.{AreApart, formats-AreApart}
use open_kritt.Workflow.Formats.{HasFormat, IsTerminal, terminal_errors_iff, key-free}
use open_kritt.Workflow.Normal.{is_bound}
use open_kritt.Workflow.Binding.{IsRouted, IsMatching}
use open_kritt.Workflow.Accepted.{
  IsStructured, IsAccepted, accepted, depths-with_effective, level_of_includes, Has-includes,
  All-level_at, some_inj,
}
use open_kritt.Workflow.{Workflow, level_values, validate_workflow}

reserved_multi : (k : String) → is_reserved_key k ≡ false → is_multi_output_depth_key k ≡ false
reserved_multi k h = ground (arith, h)

resolved_cases : (a b : Bool) (P : Type 0) → (a ≡ true → P) → (a || b) ≡ true → (b ≡ true) ⊎ P
resolved_cases true b P f h = inr (f refl)
resolved_cases false b P f h = inl h

-- A prompt whose references name extra values or keys that reach the depth.
abbrev pub IsReferring : List Level → ℕ → Step → Type 0
IsReferring ls d s =
    (k : String)
    → includes (parse_refs (content_of s)) k ≡ true
    → (is_extra_ref k ≡ true) ⊎ IsAvailable ls d k

-- A level that binds is not the first one and does not collapse the depth before, which there is, and
-- its steps match the steps of that depth. A level that does not bind has no bound step.
abbrev pub IsBoundTo : List Level → Level → Type 0
IsBoundTo ls l =
    (l.bind_previous ≡ false → any is_bound l.steps ≡ false)
    × (l.bind_previous ≡ true
        → (1 ≤ l.depth)
          × (l.consumes_all ≡ false)
          × ((p : Level) × (level_at (l.depth - 1) ls ≡ some p) × IsMatching p.steps l.steps))

module _ (ls : List Level) (h : IsStructured ls) where
  deep :
      (nat_distinct (depths ls) ≡ true)
      × (nat_includes (depths ls) 0 ≡ true)
      × Has (depths ls) 0 (suc (max_of (depths ls)))
  deep = (depth_errors_iff (depths ls)).0 h.deep

  level_within : (d : ℕ) → d ≤ max_of (depths ls) → (x : Level) × (level_at d ls ≡ some x)
  level_within d l = level_of_includes d ls (
      Has-includes (depths ls) 0 (suc (max_of (depths ls))) d deep.2 (omega arith)
        (omega (arith, l)))

  proper_keys :
      (k : String) (e : ℕ) (l : Level)
      → level_at e ls ≡ some l
      → includes (keys l.output_format) k ≡ true
      → is_multi_output_depth_key k ≡ false
  proper_keys k e l at i =
      let (_, each) = All-level_at (HasFormat (all_keys ls)) e ls l at h.formatted in
      reserved_multi k (key-free (all_keys ls) l.output_format k each i)

  reaches :
      (d : ℕ) (k : String)
      → d ≤ max_of (depths ls)
      → includes (available_at ls d) k ≡ true
      → IsAvailable ls d k
  reaches d k below =
      (available_at_iff ls k deep.0 (proper_keys k) d
        (λ e l. level_within e (omega (arith, l, below)))).0

  prompts_refer :
      (d : ℕ) (ss : List Step)
      → d ≤ max_of (depths ls)
      → All (λ s. IsPrompt (available_at ls d) (content_of s)) ss
      → All (IsReferring ls d) ss
  prompts_refer d [] below p = tt
  prompts_refer d (s ∷ ss) below (p, ps) = (
    λ k i.
        resolved_cases (includes (available_at ls d) k) (is_extra_ref k) (IsAvailable ls d k)
          (reaches d k below) (p.resolved k i),
    prompts_refer d ss below ps,
  )

  levels_refer :
      (ms : List Level)
      → ((d : ℕ) → nat_includes (depths ms) d ≡ true → d ≤ max_of (depths ls))
      → All (HasPrompts ls) ms
      → All (λ l. All (IsReferring ls l.depth) l.steps) ms
  levels_refer [] f p = tt
  levels_refer (m ∷ ms) f ((_, p), ps) = (
    prompts_refer m.depth m.steps (f m.depth ground arith) p,
    levels_refer ms (λ d i. f d ground (arith, i)) ps,
  )

  levels_bound :
      (ms : List Level)
      → ((d : ℕ) → nat_includes (depths ms) d ≡ true → d ≤ max_of (depths ls))
      → All (IsRouted ls) ms
      → All (IsBoundTo ls) ms
  levels_bound [] f r = tt
  levels_bound (m ∷ ms) f ((plain, binding), rs) = (
    (
      plain,
      λ b.
          let (later, open_depth, matching) = binding b in
          let below = f m.depth ground arith in
          let (p, at) = level_within (m.depth - 1) (omega (arith, below)) in
          (later, open_depth, (p, at, matching p at)),
    ),
    levels_bound ms (λ d i. f d ground (arith, i)) rs,
  )

  IsTerminal-of :
      (d : ℕ) (o : Option Level)
      → level_at d ls ≡ o
      → ((x : Level) × (o ≡ some x))
      → terminal_errors d o ≡ []
      → (l : Level) × (level_at d ls ≡ some l) × IsTerminal l.output_format
  IsTerminal-of d none at (x, e) n = cc
  IsTerminal-of d (some l) at e n = (l, at, (terminal_errors_iff d l).0 n)

module _ (parse_json : String → Option Value) (number_of_text : String → Option ℕ) (body : Value)
    (w : Workflow) (h : validate_workflow parse_json number_of_text body ≡ ok w) where
  of_body : IsAccepted parse_json number_of_text body w
  of_body = accepted parse_json number_of_text body w h

  -- The levels of an accepted workflow are at the depths 0, 1, 2 and so on up to its maximum, each
  -- once and in this order, however the request ordered them.
  pub depths-validate_workflow : depths w.levels ≡ range_from 0 (suc w.max_depth)
  depths-validate_workflow =
      subst (λ v. depths v.levels ≡ range_from 0 (suc v.max_depth)) of_body.result
        (depths-with_effective _ ∙ sorted_depths of_body.levels of_body.structure.deep)

  module _ (ls : List Level)
      (e : normal_levels parse_json number_of_text 0 (level_values (prop "levels" body))
        ≡ some ls) where
    same_levels : of_body.levels ≡ ls
    same_levels = some_inj (sym of_body.normal ∙ e)

    structure : IsStructured ls
    structure = subst IsStructured same_levels of_body.structure

    -- In an accepted workflow, every reference of every prompt names an extra value, a built-in key,
    -- a depth before that is collapsed under that name, or an output key of a depth before that no
    -- depth in between collapses.
    pub validate_workflow-IsReferring : All (λ l. All (IsReferring ls l.depth) l.steps) ls
    validate_workflow-IsReferring =
        levels_refer ls structure ls (max_of_bound (depths ls)) structure.prompted

    -- In an accepted workflow, a depth that binds is not the first and does not collapse the depth
    -- before, and its steps are bound to the steps of that depth one to one: as many, by distinct
    -- names, which are all the names of that depth. Elsewhere no step is bound.
    pub validate_workflow-IsBoundTo : All (IsBoundTo ls) ls
    validate_workflow-IsBoundTo =
        levels_bound ls structure ls (max_of_bound (depths ls)) structure.routed

    -- In an accepted workflow, no two levels declare the same output key, but for the names that every
    -- object inherits.
    pub validate_workflow-AreApart : AreApart ls
    validate_workflow-AreApart =
        formats-AreApart (all_keys ls) ls structure.formatted (λ k. omega arith)

    -- An accepted workflow has a level at its maximal depth, which emits all the required keys of a
    -- finding, each with its type, and `exploitable`, if at all, as a boolean.
    pub validate_workflow-IsTerminal :
        (l : Level) × (level_at w.max_depth ls ≡ some l) × IsTerminal l.output_format
    validate_workflow-IsTerminal =
        let top = max_of (depths ls) in
        let at =
          ap (λ v. v.max_depth) (sym of_body.result) ∙ ap (λ m. max_of (depths m)) same_levels in
        subst (λ d. (l : Level) × (level_at d ls ≡ some l) × IsTerminal l.output_format) (sym at)
          (IsTerminal-of ls structure top (level_at top ls) refl
            (level_within ls structure top (omega arith)) structure.ended)
