-- ===== src/Workflow/Binding.antt =====
-- Bind routing without errors matches the steps of a depth with those of the depth before, one to one.
use open_kritt.Prelude.{
  ℕ, suc, ◌-◌, ◌≤◌, ◌≡◌, refl, ap, ap₂, ◌∙◌, sym, Bool, true, false, not, ◌||◌, Option, none, some,
  List, [], ◌∷◌, ◌++◌, arith, append-nil_iff, String, Bool-cases, inl, inr, includes, ◌==◌, eq_iff,
  eq_refl, subst, All, all_distinct, length, map, ltb, nat_eq, any,
}
use open_kritt.Model.{refuse}
use open_kritt.Workflow.Types.{Step, Level, level_at, at_depth, at_step}
use open_kritt.Workflow.Normal.{is_bound}
use open_kritt.Workflow.Routing.{
  client_ids, source, claim, claim_text, claim_errors, used_with, used_after, destination_errors,
  source_errors, is_unused, previous_errors, bind_errors, all_bind_errors,
}
use open_kritt.Workflow.Depths.{refuse-nil_iff}

-- The steps' bindings are the names: distinct ones of the identifiers `ids`, none of them used.
pub record Claims (ids used : List String) (ss : List Step) : Type 0 where
  pub names : List String
  pub bound : map Step.bound_source_step_id ss ≡ map some names
  pub distinct : all_distinct names ≡ true
  pub among : (k : String) → includes names k ≡ true → includes ids k ≡ true
  pub fresh : (k : String) → includes names k ≡ true → includes used k ≡ false
  pub all_used :
      (k : String) → includes (used_after ids used ss) k ≡ (includes used k || includes names k)

-- A claim without an error.
record Claimed (ids used : List String) (o : Option String) : Type 0 where
  id : String
  bound : o ≡ some id
  among : includes ids id ≡ true
  fresh : includes used id ≡ false
  same : claim ids used o ≡ source id

claim_text_ok :
    (ids used : List String) (path id : String)
    → claim_errors path (claim_text ids used id) ≡ []
    → (includes ids id ≡ true) × (includes used id ≡ false) × (claim_text ids used id ≡ source id)
claim_text_ok ids used path id h = ground (arith, h)

claim_ok :
    (ids used : List String) (path : String) (o : Option String)
    → claim_errors path (claim ids used o) ≡ []
    → Claimed ids used o
claim_ok ids used path none h = cc
claim_ok ids used path (some id) h =
    let (a, f, s) = claim_text_ok ids used path id h in
    record { id = id; bound = refl; among = a; fresh = f; same = s }

not-false : (b : Bool) → not b ≡ false → b ≡ true
not-false b h = ground arith

or_swap : (a b c : Bool) → ((a || b) || c) ≡ (b || (a || c))
or_swap a b c = ground arith

Claims-step :
    (ids used : List String) (s : Step) (ss : List Step)
    (o : Claimed ids used s.bound_source_step_id)
    → Claims ids (o.id ∷ used) ss
    → Claims ids used (s ∷ ss)
Claims-step ids used s ss o r = record {
  names = o.id ∷ r.names;
  bound = ap₂ ◌∷◌ o.bound r.bound;
  distinct = ground (arith, r.distinct, r.fresh o.id, eq_refl o.id);
  among = λ k e. elim (Bool-cases (o.id == k)) [
    | inl same ↦ ap (includes ids) (sym ((eq_iff o.id k).0 same)) ∙ o.among
    | inr other ↦ r.among k ground (arith, e, other)
  ];
  fresh = λ k e. elim (Bool-cases (o.id == k)) [
    | inl same ↦ ap (includes used) (sym ((eq_iff o.id k).0 same)) ∙ o.fresh
    | inr other ↦ ground (arith, r.fresh k ground (arith, e, other), other)
  ];
  all_used = λ k.
      ap (λ x. includes (used_after ids (used_with x used) ss) k) o.same
      ∙ r.all_used k
      ∙ or_swap (o.id == k) (includes used k) (includes r.names k);
}

All-claimed :
    (d : ℕ) (ids used : List String) (i : ℕ) (ss : List Step)
    → destination_errors d ids used i ss ≡ []
    → All (λ s. s.has_client_id ≡ true) ss × Claims ids used ss
unfolding destination_errors
All-claimed d ids used i [] h = (
  tt,
  record {
    names = [];
    bound = refl;
    distinct = refl;
    among = λ k e. cc;
    fresh = λ k e. cc;
    all_used = λ k. ground arith;
  },
)
All-claimed d ids used i (s ∷ ss) h =
    let path = at_step d i "boundSourceStepId" in
    let c = claim ids used s.bound_source_step_id in
    let (own, rest) =
      (append-nil_iff (refuse (not s.has_client_id) (at_step d i "clientId") _) _).0 h in
    let (made, later) =
      (append-nil_iff (claim_errors path c)
          (destination_errors d ids (used_with c used) (suc i) ss)).0
        rest in
    let o = claim_ok ids used path s.bound_source_step_id made in
    let (owns, r) = All-claimed d ids (used_with c used) (suc i) ss later in
    (
      (not-false s.has_client_id ((refuse-nil_iff _ _ _).0 own), owns),
      Claims-step ids used s ss o (subst (λ x. Claims ids (used_with x used) ss) o.same r),
    )

-- Of two lists of texts, the second has what the first has and the other way round.
abbrev pub AreSame : List String → List String → Type 0
AreSame xs ys = (k : String) → includes xs k ≡ includes ys k

unused-includes :
    (used ids : List String)
    → is_unused used ids ≡ false
    → (k : String) → includes ids k ≡ true
    → includes used k ≡ true
unused-includes used [] h k i = cc
unused-includes used (j ∷ ids) h k i =
    ground (arith, eq_iff j k, unused-includes used ids ground (arith, h) k)

names_same :
    (ids : List String) (ss : List Step) (r : Claims ids [] ss)
    → is_unused (used_after ids [] ss) ids ≡ false
    → AreSame r.names ids
names_same ids ss r h k =
    let used = r.all_used k in
    ground (arith, used, r.among k, unused-includes (used_after ids [] ss) ids h k)

sources_owned :
    (d i : ℕ) (ss : List Step) → source_errors d i ss ≡ [] → All (λ s. s.has_client_id ≡ true) ss
unfolding source_errors
sources_owned d i [] h = tt
sources_owned d i (s ∷ ss) h =
    let (own, rest) =
      (append-nil_iff (refuse (not s.has_client_id) (at_step d i "clientId") _) _).0 h in
    (not-false s.has_client_id ((refuse-nil_iff _ _ _).0 own), sources_owned d (suc i) ss rest)

-- The steps `ss` are bound to the steps `ps`, one to one.
pub record IsMatching (ps ss : List Step) : Type 0 where
  pub many : 2 ≤ length ps
  pub as_many : length ps ≡ length ss
  pub named : All (λ s. s.has_client_id ≡ true) ps × All (λ s. s.has_client_id ≡ true) ss
  pub names : List String
  pub bound : map Step.bound_source_step_id ss ≡ map some names
  pub distinct : all_distinct names ≡ true
  pub covering : AreSame names (client_ids ps)

sizes_ok : (m n : ℕ) → (ltb m 2 || ltb n 2) ≡ false → not (nat_eq m n) ≡ false → (2 ≤ m) × (m ≡ n)
sizes_ok m n h k = ground (arith, h, k)

previous-IsMatching : (l p : Level) → previous_errors l (some p) ≡ [] → IsMatching p.steps l.steps
unfolding previous_errors
previous-IsMatching l p h =
    let path = at_depth l.depth "bindPrevious" in
    let ids = client_ids p.steps in
    let a =
      (append-nil_iff (refuse (ltb (length p.steps) 2 || ltb (length l.steps) 2) path _) _).0 h in
    let b =
      (append-nil_iff (refuse (not (nat_eq (length p.steps) (length l.steps))) path _) _).0 a.1 in
    let c = (append-nil_iff (source_errors p.depth 0 p.steps) _).0 b.1 in
    let e = (append-nil_iff (destination_errors l.depth ids [] 0 l.steps) _).0 c.1 in
    let sizes =
      sizes_ok (length p.steps) (length l.steps) ((refuse-nil_iff _ _ _).0 a.0)
        ((refuse-nil_iff _ _ _).0 b.0) in
    let (owns, r) = All-claimed l.depth ids [] 0 l.steps e.0 in
    record {
      many = sizes.0;
      as_many = sizes.1;
      named = (sources_owned p.depth 0 p.steps c.0, owns);
      names = r.names;
      bound = r.bound;
      distinct = r.distinct;
      covering = names_same ids l.steps r ((refuse-nil_iff _ _ _).0 e.1);
    }

-- A level that binds is not the first one and does not collapse the depth before; its steps match those
-- of that depth. A level that does not bind has no bound step.
abbrev pub IsRouted : List Level → Level → Type 0
IsRouted ls l =
    (l.bind_previous ≡ false → any is_bound l.steps ≡ false)
    × (l.bind_previous ≡ true
        → (1 ≤ l.depth)
          × (l.consumes_all ≡ false)
          × ((p : Level) → level_at (l.depth - 1) ls ≡ some p → IsMatching p.steps l.steps))

bind_errors_first :
    (ls : List Level) (l : Level)
    → bind_errors ls l ≡ []
    → (l.bind_previous ≡ false → any is_bound l.steps ≡ false)
      × (l.bind_previous ≡ true
          → (1 ≤ l.depth)
            × ((refuse l.consumes_all
                    (at_depth l.depth "bindPrevious")
                    "Bind routing cannot be combined with batch consumption."
                  ++ previous_errors l (level_at (l.depth - 1) ls))
                ≡ []))
unfolding bind_errors
bind_errors_first ls l h = ground (arith, h)

routed : (ls : List Level) (l : Level) → bind_errors ls l ≡ [] → IsRouted ls l
routed ls l h =
    let (plain, binding) = bind_errors_first ls l h in
    (
      plain,
      λ b.
          let (deep, rest) = binding b in
          let (c, m) =
            (append-nil_iff (refuse l.consumes_all (at_depth l.depth "bindPrevious") _) _).0 rest in
          (
            deep,
            (refuse-nil_iff _ _ _).0 c,
            λ p at. previous-IsMatching l p (ap (previous_errors l) (sym at) ∙ m),
          ),
    )

pub All-IsRouted : (all ls : List Level) → all_bind_errors all ls ≡ [] → All (IsRouted all) ls
unfolding all_bind_errors
All-IsRouted all [] h = tt
All-IsRouted all (l ∷ ls) h =
    let (own, rest) = (append-nil_iff (bind_errors all l) (all_bind_errors all ls)).0 h in
    (routed all l own, All-IsRouted all ls rest)
