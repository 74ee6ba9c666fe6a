-- ===== src/Workflow/Accepted.antt =====
-- What holds of a workflow that is accepted.
use open_kritt.Prelude.{
  ℕ, zero, suc, ◌+◌, ◌≤◌, ◌<◌, ◌≡◌, inl, inr, refl, ap, ◌∙◌, sym, subst, true, false, Option, none,
  some, List, [], ◌∷◌, ◌++◌, arith, append-nil_iff, String, Bool-cases, nat_eq, if◌then◌else◌, ◌==◌,
  All,
}
use open_kritt.Value.{Value, ok, prop, FieldError, checked-eq-ok_iff}
use open_kritt.Model.{trimmed}
use open_kritt.Workflow.Types.{Level, level_at, depths}
use open_kritt.Workflow.Normal.{normal_levels, levels_errors}
use open_kritt.Workflow.Routing.{
  nat_includes, max_of, depth_errors, client_id_errors, all_bind_errors,
}
use open_kritt.Workflow.Content.{all_keys, output_errors, level_prompt_errors, terminal_errors}
use open_kritt.Workflow.Depths.{Has, refuse-nil_iff}
use open_kritt.Workflow.Prompts.{HasPrompts, level_prompt_errors_iff}
use open_kritt.Workflow.Formats.{HasFormat, output_errors_iff}
use open_kritt.Workflow.Binding.{IsRouted, All-IsRouted}
use open_kritt.Workflow.{
  Workflow, structure_errors, with_effective, workflow_of, name_errors, validate_levels,
  level_values, validate_given, validate_workflow,
}

-- Levels without structural errors, by the parts of the check.
pub record IsStructured (ls : List Level) : Type 0 where
  pub deep : depth_errors (depths ls) ≡ []
  pub named : client_id_errors ls [] ≡ []
  pub routed : All (IsRouted ls) ls
  pub formatted : All (HasFormat (all_keys ls)) ls
  pub prompted : All (HasPrompts ls) ls
  pub ended : terminal_errors (max_of (depths ls)) (level_at (max_of (depths ls)) ls) ≡ []

structured : (ls : List Level) → structure_errors ls ≡ [] → IsStructured ls
unfolding structure_errors
structured ls h =
    let top = max_of (depths ls) in
    let a = (append-nil_iff (depth_errors (depths ls)) _).0 h in
    let b = (append-nil_iff (client_id_errors ls []) _).0 a.1 in
    let c = (append-nil_iff (all_bind_errors ls ls) _).0 b.1 in
    let d = (append-nil_iff (output_errors (all_keys ls) ls) _).0 c.1 in
    let e =
      (append-nil_iff (level_prompt_errors ls ls) (terminal_errors top (level_at top ls))).0 d.1 in
    record {
      deep = a.0;
      named = b.0;
      routed = All-IsRouted ls ls c.0;
      formatted = (output_errors_iff (all_keys ls) ls).0 d.0;
      prompted = (level_prompt_errors_iff ls ls).0 e.0;
      ended = e.1;
    }

pub depths-with_effective : (ls : List Level) → depths (with_effective ls) ≡ depths ls
depths-with_effective [] = refl
depths-with_effective (l ∷ ls) = ap (λ ds. l.depth ∷ ds) (depths-with_effective ls)

module _ (parse_json : String → Option Value) (number_of_text : String → Option ℕ) where
  -- An accepted request: its name, its levels, and the result that they give.
  pub record IsAccepted (body : Value) (w : Workflow) : Type 0 where
    pub levels : List Level
    pub normal :
        normal_levels parse_json number_of_text 0 (level_values (prop "levels" body)) ≡ some levels
    pub titled : (trimmed (prop "name" body) == "") ≡ false
    pub readable :
        levels_errors parse_json number_of_text 0 (level_values (prop "levels" body)) ≡ []
    pub structure : IsStructured levels
    pub result : workflow_of body levels ≡ w

  validate_levels_ok :
      (body : Value) (earlier : List FieldError) (o : Option (List Level)) (w : Workflow)
      → validate_levels body earlier o ≡ ok w
      → (ls : List Level) × (o ≡ some ls)
        × (earlier ≡ [])
        × (structure_errors ls ≡ [])
        × (workflow_of body ls ≡ w)
  unfolding validate_levels
  validate_levels_ok body earlier none w h = cc
  validate_levels_ok body earlier (some ls) w h =
      let (clean, same) =
        (checked-eq-ok_iff (earlier ++ structure_errors ls) (workflow_of body ls) w).0 h in
      let (e, s) = (append-nil_iff earlier (structure_errors ls)).0 clean in (ls, refl, e, s, same)

  validate_given_ok :
      (body : Value) (vs : List Value) (w : Workflow)
      → validate_given parse_json number_of_text body vs ≡ ok w
      → (ls : List Level) × (normal_levels parse_json number_of_text 0 vs ≡ some ls)
        × ((trimmed (prop "name" body) == "") ≡ false)
        × (levels_errors parse_json number_of_text 0 vs ≡ [])
        × IsStructured ls
        × (workflow_of body ls ≡ w)
  unfolding validate_given
  validate_given_ok body [] w h = cc
  validate_given_ok body (v ∷ vs) w h =
      let (ls, normal, e, s, same) = validate_levels_ok body _ _ w h in
      let (titled, readable) =
        (append-nil_iff (name_errors body) (levels_errors parse_json number_of_text 0 (v ∷ vs))).0
          e in
      (ls, normal, (refuse-nil_iff _ _ _).0 titled, readable, structured ls s, same)

  pub accepted :
      (body : Value) (w : Workflow)
      → validate_workflow parse_json number_of_text body ≡ ok w
      → IsAccepted body w
  unfolding validate_workflow
  accepted body w h =
      let (ls, normal, titled, readable, s, same) =
        validate_given_ok body (level_values (prop "levels" body)) w h in
      record {
        levels = ls;
        normal = normal;
        titled = titled;
        readable = readable;
        structure = s;
        result = same;
      }

pub level_of_includes :
    (d : ℕ) (ls : List Level)
    → nat_includes (depths ls) d ≡ true
    → (x : Level) × (level_at d ls ≡ some x)
level_of_includes d [] h = cc
level_of_includes d (l ∷ ls) h = elim (Bool-cases (nat_eq l.depth d)) [
  | inl e ↦ (l, ap (λ b. if b then some l else level_at d ls) e)
  | inr e ↦
      let (x, at) = level_of_includes d ls ground (arith, h, e) in
      (x, ap (λ b. if b then some l else level_at d ls) e ∙ at)
]

pub Has-includes :
    (ds : List ℕ) (d count e : ℕ)
    → Has ds d count
    → d ≤ e
    → e < d + count
    → nat_includes ds e ≡ true
Has-includes ds d zero e h l m = let none_left : ⊥ = omega (arith, l, m) in elim none_left [ ]
Has-includes ds d (suc count) e (i, h) l m = elim (Bool-cases (nat_eq d e)) [
  | inl same ↦ subst (λ n. nat_includes ds n ≡ true) ground (arith, same) i
  | inr other ↦ Has-includes ds (suc d) count e h ground (arith, other, l) (omega (arith, m))
]

pub some_inj {ℓ} : {A : Type ℓ} {a b : A} → some a ≡ some b → a ≡ b
some_inj e = cc

pub All-level_at {κ} :
    (P : Level → Type κ) (d : ℕ) (ls : List Level) (x : Level)
    → level_at d ls ≡ some x
    → All P ls
    → P x
All-level_at P d [] x e a = cc
All-level_at P d (l ∷ ls) x e (p, a) = elim (Bool-cases (nat_eq l.depth d)) [
  | inl same ↦ subst P (some_inj (sym (ap (λ b. if b then some l else level_at d ls) same) ∙ e)) p
  | inr other ↦
      All-level_at P d ls x (sym (ap (λ b. if b then some l else level_at d ls) other) ∙ e) a
]
