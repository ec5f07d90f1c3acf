-- ===== src/Decimal/Rounding.antt =====
-- Rounding to the nearest: the error is at most half a unit, and the methods differ on ties only.
use native.Mathlib.Nat.{div-add-mod, mod-lt, pow-suc}
use erp_agent.Prelude.{
  ℕ, zero, suc, max, Bool-cases, ◌+◌, ◌-◌, ◌*◌, ◌/◌, ◌%◌, ◌^◌, ◌≤◌, ◌<◌, ◌≡◌, refl, ◌≢◌, arith, ◌⊎◌,
  leb, inl, inr,
}
use erp_agent.Prelude.Int.{ℤ, pos, negsuc, sub_ℕ, ◌*ℤ◌, pos_part, neg_part}
use erp_agent.Decimal.{
  Decimal, RoundingMethod, round_half_up, round_half_down, round_half_even, round_div, round_signed,
  quantize, at_scale,
}

-- Rounding is down, where twice the remainder is at most k, or up, where it is at least k.
round_div-cases :
    (m : RoundingMethod) (n k : ℕ)
    → ((round_div m n k ≡ n / k) × (2 * (n % k) ≤ k))
      ⊎ ((round_div m n k ≡ n / k + 1) × (k ≤ 2 * (n % k)))
unfolding round_div
round_div-cases round_half_up n k = ground arith
round_div-cases _ n k = ground arith

-- Rounding to the nearest misses by at most half of the divisor, whatever the method.
pub round_div_error :
    (m : RoundingMethod) (n k : ℕ)
    → 0 < k
    → (2 * (k * round_div m n k) ≤ 2 * n + k) × (2 * n ≤ 2 * (k * round_div m n k) + k)
round_div_error m n k h = elim (round_div-cases m n k) [
  | inl (e, le) ↦ rw e (omega (arith, div-add-mod n k))
  | inr (e, le) ↦ rw e (omega (arith, div-add-mod n k, mod-lt n h))
]

-- Off the ties all methods agree.
pub round_div_same :
    (m m' : RoundingMethod) (n k : ℕ) → 2 * (n % k) ≢ k → round_div m n k ≡ round_div m' n k
unfolding round_div
round_div_same round_half_up round_half_up n k h = ground arith
round_div_same _ _ n k h = ground arith

-- On a tie the three methods go up, down and to the even neighbour.
pub round_div_tie :
    (n k : ℕ)
    → 0 < k
    → 2 * (n % k) ≡ k
    → (round_div round_half_up n k ≡ n / k + 1)
      × (round_div round_half_down n k ≡ n / k)
      × (round_div round_half_even n k % 2 ≡ 0)
unfolding round_div
round_div_tie n k h e = ground arith

pub scale-quantize :
    (places : ℕ) (m : RoundingMethod) (d : Decimal) → (quantize places m d).scale ≡ places
unfolding quantize
scale-quantize places m d = ground arith

mul_one : (a : ℤ) → a *ℤ pos 1 ≡ a
unfolding ◌*ℤ◌
mul_one (pos n) = ground arith
mul_one (negsuc n) = ground arith

at_scale_lem : (s : ℕ) (d : Decimal) → at_scale s d ≡ d.coeff *ℤ pos (10 ^ (s - d.scale))
unfolding at_scale
at_scale_lem s d = refl

at_scale_self : (d : Decimal) → at_scale d.scale d ≡ d.coeff
unfolding at_scale
at_scale_self d = let e : d.scale - d.scale ≡ 0 = omega arith in rw e (mul_one d.coeff)

-- A value that has the scale already is left alone.
pub quantize_exact :
    (places : ℕ) (m : RoundingMethod) (d : Decimal) → d.scale ≡ places → quantize places m d ≡ d
unfolding quantize
quantize_exact places m d h = ground (arith, at_scale_self d)

-- Two integers that differ by at most half of `u`.
abbrev pub Near : ℤ → ℤ → ℕ → Type 0
Near a b u =
    (2 * pos_part a + 2 * neg_part b ≤ 2 * pos_part b + 2 * neg_part a + u)
    × (2 * pos_part b + 2 * neg_part a ≤ 2 * pos_part a + 2 * neg_part b + u)

mul_pos_parts :
    (a : ℤ) (k : ℕ)
    → (pos_part (a *ℤ pos k) ≡ pos_part a * k) × (neg_part (a *ℤ pos k) ≡ neg_part a * k)
unfolding ◌*ℤ◌
mul_pos_parts (pos n) k = (ground arith, ground arith)
mul_pos_parts (negsuc n) k = (ground arith, ground arith)

sub_zero_parts : (x : ℕ) → (pos_part (sub_ℕ 0 x) ≡ 0) × (neg_part (sub_ℕ 0 x) ≡ x)
sub_zero_parts x = ground arith

round_signed-Near :
    (m : RoundingMethod) (c : ℤ) (k : ℕ) → 0 < k → Near (round_signed m c k *ℤ pos k) c k
unfolding round_signed
round_signed-Near m (pos n) k h =
    let (p, q) = mul_pos_parts (pos (round_div m n k)) k in
    omega (arith, p, q, round_div_error m n k h)
round_signed-Near m (negsuc n) k h =
    let x = round_div m (n + 1) k in
    let (p, q) = mul_pos_parts (sub_ℕ 0 x) k in
    let (a, b) = sub_zero_parts x in rw (p, q, a, b) (omega (arith, round_div_error m (n + 1) k h))

pow_pos : (e : ℕ) → 0 < 10 ^ e
pow_pos zero = omega arith
pow_pos (suc e) = omega (arith, pow_pos e, pow-suc 10 e)

Near-refl : (a : ℤ) (u : ℕ) → Near a a u
Near-refl a u = (omega arith, omega arith)

-- Quantizing moves a value by at most half a unit of the scale kept; at the larger of the two
-- scales the unit is a power of ten.
pub quantize-Near :
    (places : ℕ) (m : RoundingMethod) (d : Decimal)
    → let s = max d.scale places in
      Near (at_scale s (quantize places m d)) (at_scale s d) (10 ^ (s - places))
unfolding quantize
quantize-Near places m d = elim (Bool-cases (leb d.scale places)) [
  | inl short ↦
      let e : max d.scale places ≡ places = ground arith in
      rw (e, short, at_scale_self (record { coeff = at_scale places d; scale = places }))
        (Near-refl (at_scale places d) (10 ^ (places - places)))
  | inr long ↦
      let e : max d.scale places ≡ d.scale = ground arith in
      rw (e, long, at_scale_self d, at_scale_lem)
        (round_signed-Near m d.coeff (10 ^ (d.scale - places)) (pow_pos _))
]
