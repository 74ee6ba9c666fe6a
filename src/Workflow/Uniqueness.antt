-- ===== src/Workflow/Uniqueness.antt =====
-- The output keys of a workflow over its levels.
use open_kritt.Prelude.{
  ◌+◌, ◌≤◌, ◌≡◌, ap, ◌∙◌, sym, Bool-cases, true, false, not, ◌&&◌, inl, inr, List, [], ◌∷◌, ◌++◌,
  arith, String, includes, ◌==◌, eq_iff, ltb, All,
}
use open_kritt.Value.{Fields, end, field, keys}
use open_kritt.Workflow.Types.{Level}
use open_kritt.Workflow.Content.{inherited_names, occurrences, all_keys, is_repeated}
use open_kritt.Workflow.Formats.{IsOutputKey, EachKey, HasFormat}

-- Two levels share no output key, but for the names that every object inherits.
abbrev pub IsApart : Level → Level → Type 0
IsApart l m =
    (k : String)
    → includes (keys l.output_format) k ≡ true
    → includes (keys m.output_format) k ≡ true
    → includes inherited_names k ≡ true

-- Any two levels of the list.
abbrev pub AreApart : List Level → Type 0
AreApart [] = Unit
AreApart (l ∷ ls) = All (IsApart l) ls × AreApart ls

occurrences-includes : (k : String) (ks : List String) → includes ks k ≡ true → 1 ≤ occurrences k ks
occurrences-includes k [] h = cc h
occurrences-includes k (j ∷ js) h = ground (arith, h, occurrences-includes k js)

occurrences-append :
    (k : String) (xs ys : List String)
    → occurrences k (xs ++ ys) ≡ occurrences k xs + occurrences k ys
occurrences-append k [] ys = omega arith
occurrences-append k (x ∷ xs) ys = ground (arith, occurrences-append k xs ys)

key-single :
    (ks : List String) (fs : Fields) (k : String)
    → EachKey (IsOutputKey ks) fs
    → includes (keys fs) k ≡ true
    → is_repeated ks k ≡ false
key-single ks end k h i = cc
key-single ks (field j v fs) k (p, h) i = elim (Bool-cases (j == k)) [
  | inl e ↦ ap (is_repeated ks) (sym ((eq_iff j k).0 e)) ∙ p.single
  | inr e ↦ key-single ks fs k h ground (arith, i, e)
]

module _ (ks : List String) where
  -- A key of a level that all the keys have twice is one that objects inherit.
  twice :
      (l : Level) (k : String)
      → HasFormat ks l
      → includes (keys l.output_format) k ≡ true
      → 2 ≤ occurrences k ks
      → includes inherited_names k ≡ true
  twice l k (_, each) i two = elim (Bool-cases (includes inherited_names k)) [
    | inl e ↦ e
    | inr e ↦
        let single : (not (includes inherited_names k) && ltb 1 (occurrences k ks)) ≡ false =
          key-single ks l.output_format k each i in
        let once : ltb 1 (occurrences k ks) ≡ false =
          sym (ap (λ b. not b && ltb 1 (occurrences k ks)) e) ∙ single in
        let none_left : ⊥ = ground (arith, once, two) in elim none_left [ ]
  ]

  IsApart-from :
      (l : Level) (ms : List Level)
      → HasFormat ks l
      → ((k : String)
          → occurrences k (keys l.output_format) + occurrences k (all_keys ms) ≤ occurrences k ks)
      → All (IsApart l) ms
  IsApart-from l [] p f = tt
  IsApart-from l (m ∷ ms) p f = (
    λ k i j.
        let a = occurrences-includes k (keys l.output_format) i in
        let b = occurrences-includes k (keys m.output_format) j in
        let c = occurrences-append k (keys m.output_format) (all_keys ms) in
        twice l k p i (omega (arith, a, b, c, f k)),
    IsApart-from l ms p (λ k.
        let c = occurrences-append k (keys m.output_format) (all_keys ms) in omega (arith, c, f k)),
  )

  pub formats-AreApart :
      (ls : List Level)
      → All (HasFormat ks) ls
      → ((k : String) → occurrences k (all_keys ls) ≤ occurrences k ks)
      → AreApart ls
  formats-AreApart [] p f = tt
  formats-AreApart (l ∷ ls) (p, ps) f =
      let c : (k : String) → _ = λ k. occurrences-append k (keys l.output_format) (all_keys ls) in
      (
        IsApart-from l ls p (λ k. omega (arith, c k, f k)),
        formats-AreApart ls ps (λ k. omega (arith, c k, f k)),
      )
