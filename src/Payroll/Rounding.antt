-- ===== src/Payroll/Rounding.antt =====
-- logic/payroll/rounding.py: the policy under which amounts are rounded.
use erp_agent.Prelude.{ℕ, ◌-◌, ◌^◌, max, ◌≡◌}
use erp_agent.Decimal.{Decimal, RoundingMethod, round_half_up, quantize, at_scale}
use erp_agent.Decimal.Rounding.{Near, quantize-Near, quantize_exact, scale-quantize}

pub record RoundingPolicy : Type 0 where
  pub method : RoundingMethod
  pub decimal_places : ℕ

abbrev pub default_policy : RoundingPolicy
default_policy = record { method = round_half_up; decimal_places = 2 }

unfoldable pub apply : RoundingPolicy → Decimal → Decimal
apply p value = quantize p.decimal_places p.method value

-- A rounded amount has the policy's decimal places, lies within half a unit of the last one of
-- them of the exact amount, and is not moved by rounding it again.
pub apply_nearest :
    (p : RoundingPolicy) (value : Decimal)
    → ((apply p value).scale ≡ p.decimal_places)
      × (let s = max value.scale p.decimal_places in
          Near (at_scale s (apply p value)) (at_scale s value) (10 ^ (s - p.decimal_places)))
      × (apply p (apply p value) ≡ apply p value)
unfolding apply
apply_nearest p value = (
  scale-quantize p.decimal_places p.method value,
  quantize-Near p.decimal_places p.method value,
  quantize_exact p.decimal_places p.method (quantize p.decimal_places p.method value)
      (scale-quantize p.decimal_places p.method value),
)
