-- ===== src/Decimal.antt =====
-- Python's `decimal.Decimal` as far as the program uses it: exact sums, differences and products,
-- comparison by value, and `quantize`. A value is `coeff` · 10 ^ -`scale`. The context's 28 digits
-- are not modelled, nor the sign of zero, `NaN` and the infinities.
pub mod Rounding
use erp_agent.Prelude.{
  ℕ, ◌+◌, ◌-◌, ◌*◌, ◌/◌, ◌%◌, ◌^◌, max, Bool, List, [], ◌∷◌, ltb, leb, eqb, if◌then◌else◌,
}
use erp_agent.Prelude.Int.{ℤ, pos, negsuc, sub_ℕ, ◌+ℤ◌, ◌-ℤ◌, ◌*ℤ◌, leb_ℤ}

pub record Decimal : Type 0 where
  pub coeff : ℤ
  pub scale : ℕ

-- The coefficient that the value has at a larger scale.
unfoldable pub at_scale : ℕ → Decimal → ℤ
at_scale s d = d.coeff *ℤ pos (10 ^ (s - d.scale))

abbrev pub zero_decimal : Decimal
zero_decimal = record { coeff = pos 0; scale = 0 }

unfoldable pub add : Decimal → Decimal → Decimal
add a b = let s = max a.scale b.scale in record { coeff = at_scale s a +ℤ at_scale s b; scale = s }

unfoldable pub sub : Decimal → Decimal → Decimal
sub a b = let s = max a.scale b.scale in record { coeff = at_scale s a -ℤ at_scale s b; scale = s }

unfoldable pub mul : Decimal → Decimal → Decimal
mul a b = record { coeff = a.coeff *ℤ b.coeff; scale = a.scale + b.scale }

-- `a <= b`
unfoldable pub le_decimal : Decimal → Decimal → Bool
le_decimal a b = let s = max a.scale b.scale in leb_ℤ (at_scale s a) (at_scale s b)

-- `sum(xs, Decimal("0"))` adds from the left.
unfoldable pub sum_from : Decimal → List Decimal → Decimal
sum_from acc [] = acc
sum_from acc (x ∷ xs) = sum_from (add acc x) xs

pub data RoundingMethod : Type 0 where
  round_half_up round_half_down round_half_even : RoundingMethod

-- n / k to the nearest whole number; the methods differ on ties.
unfoldable pub round_div : RoundingMethod → ℕ → ℕ → ℕ
round_div round_half_up n k = if leb k (2 * (n % k)) then n / k + 1 else n / k
round_div round_half_down n k = if ltb k (2 * (n % k)) then n / k + 1 else n / k
round_div round_half_even n k =
    if ltb k (2 * (n % k))
    then n / k + 1
    else if eqb (2 * (n % k)) k
    then n / k + (n / k) % 2
    else n / k

-- On a signed coefficient the magnitude is rounded and the sign kept.
unfoldable pub round_signed : RoundingMethod → ℤ → ℕ → ℤ
round_signed m (pos n) k = pos (round_div m n k)
round_signed m (negsuc n) k = sub_ℕ 0 (round_div m (n + 1) k)

-- `d.quantize(Decimal(1).scaleb(-places), rounding=m)`
unfoldable pub quantize : ℕ → RoundingMethod → Decimal → Decimal
quantize places m d =
    if leb d.scale places
    then record { coeff = at_scale places d; scale = places }
    else record { coeff = round_signed m d.coeff (10 ^ (d.scale - places)); scale = places }
