-- ===== src/Scan/Rounding.antt =====
-- How far a product of doubles is from the exact one.
use native.Mathlib.Nat.{div-add-mod', mod-lt}
use open_kritt.Prelude.{
  ℕ, zero, suc, ◌+◌, ◌*◌, ◌/◌, ◌%◌, ◌≤◌, ◌<◌, ◌≡◌, ap, ◌∙◌, Bool, Bool-cases, inl, inr, ◌&&◌, ◌||◌,
  ltb, nat_eq, arith,
}
use open_kritt.Scan.{round_to, unit_for, double_product}

-- Two numbers that are at most `e` apart.
abbrev pub IsNear : ℕ → ℕ → ℕ → Type 0
IsNear e a b = (a ≤ b + e) × (b ≤ a + e)

one_more : (q u : ℕ) → (q + 1) * u ≡ q * u + u
one_more q u = omega arith

round_to-IsNear : (u n : ℕ) → 0 < u → IsNear u (round_to u n) n
round_to-IsNear u n h =
    let whole = div-add-mod' n u in
    let rest = mod-lt n h in
    let more = one_more (n / u) u in
    let r = n % u in
    let q = n / u in
    let down : Bool = ltb (2 * r) u || (nat_eq (2 * r) u && nat_eq (q % 2) 0) in
    elim (Bool-cases down) [
      | inl y ↦ rw y (omega (arith, whole, rest), omega (arith, whole, rest))
      | inr n ↦ rw n (omega (arith, whole, rest, more), omega (arith, whole, rest, more))
    ]

-- The number after so many doublings.
twofold : ℕ → ℕ → ℕ
twofold zero u = u
twofold (suc fuel) u = twofold fuel (u * 2)

twofold-bound : (fuel u : ℕ) → u ≤ twofold fuel u
unfolding twofold
twofold-bound zero u = omega arith
twofold-bound (suc fuel) u = let above = twofold-bound fuel (u * 2) in omega (arith, above)

unit_for-bound :
    (fuel u n : ℕ) → 0 < u → (0 < unit_for fuel u n) × (unit_for fuel u n ≤ twofold fuel u)
unfolding unit_for twofold
unit_for-bound zero u n h = (h, omega arith)
unit_for-bound (suc fuel) u n h =
    let positive : 0 < u * 2 = omega (arith, h) in
    let (some_unit, few) = unit_for-bound fuel (u * 2) n positive in
    let above = twofold-bound fuel (u * 2) in ground (arith, h, some_unit, few, above)

unit_for-exact : (fuel n : ℕ) → n ≤ 9007199254740991 → unit_for (suc fuel) 1 n ≡ 1
unfolding unit_for
unit_for-exact fuel n h = ground (arith, h)

round_to-exact : (n : ℕ) → round_to 1 n ≡ n
round_to-exact n = ground arith

-- A product of doubles below 2 ^ 60 is within 128 of the exact one.
pub double_product-IsNear : (a b : ℕ) → IsNear 128 (double_product a b) (a * b)
unfolding twofold
double_product-IsNear a b =
    let (some_unit, few) = unit_for-bound 7 1 (a * b) (omega arith) in
    let (up, down) = round_to-IsNear (unit_for 7 1 (a * b)) (a * b) some_unit in
    (omega (arith, few, up), omega (arith, few, down))

pub double_product-exact : (a b : ℕ) → a * b ≤ 9007199254740991 → double_product a b ≡ a * b
double_product-exact a b h =
    ap (λ u. round_to u (a * b)) (unit_for-exact 6 (a * b) h) ∙ round_to-exact (a * b)
