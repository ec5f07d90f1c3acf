-- ===== src/Payroll/Runs/Calculator.antt =====
-- logic/payroll/calculator.py
use erp_agent.Prelude.{
  ℕ, String, Option, none, some, List, [], ◌∷◌, ◌++◌, if◌then◌else◌, elem, Result, ok, err, ◌>>=◌,
  or_raise,
}
use erp_agent.Payroll.Runs.{
  Floats, salaried, hourly, contractor, PayPeriod, weekly, biweekly, monthly, Employee, TimeRecord,
  deduction, PayslipLine, RunError, contractor_pay, time_record_required, deductions_exceed_gross,
  type_error,
}

abbrev pub periods_per_year : PayPeriod → ℕ
periods_per_year weekly = 52
periods_per_year biweekly = 26
periods_per_year monthly = 12

-- A kind of deduction: its id, its description and its rate in percent.
pub record Rate : Type 0 where
  pub id : String
  pub description : String
  pub percent : ℕ

abbrev pub mandatory_rates : List Rate
mandatory_rates =
    record { id = "income_tax"; description = "Income Tax"; percent = 20 }
    ∷ record { id = "social_security"; description = "Social Security"; percent = 8 }
    ∷ []

abbrev pub optional_rates : List Rate
optional_rates =
    record { id = "health_insurance"; description = "Health Insurance"; percent = 3 }
    ∷ record { id = "retirement_plan"; description = "Retirement Plan"; percent = 5 }
    ∷ []

abbrev pub elected : List String → List Rate → List Rate
elected elections [] = []
elected elections (r ∷ rs) =
    if elem r.id elections then r ∷ elected elections rs else elected elections rs

module _ {F : Type 0} (floats : Floats F) where
  -- `OVERTIME_MULTIPLIER` is 1.5
  abbrev pub hourly_pay : F → TimeRecord F → F
  hourly_pay rate tr =
      floats.add (floats.mul tr.regular_hours rate)
        (floats.mul (floats.mul tr.overtime_hours rate) (floats.literal 15 1))

  abbrev pub pay_of_hours : Employee F → Option (TimeRecord F) → Result RunError F
  pay_of_hours employee none = err (time_record_required employee.id)
  pay_of_hours employee (some tr) = do
    rate ← or_raise employee.hourly_rate type_error
    ok (hourly_pay rate tr)

  unfoldable pub gross_pay : Employee F → Option (TimeRecord F) → Result RunError F
  gross_pay employee time_record = elim employee.type [
    | contractor ↦ err contractor_pay
    | salaried ↦ (do
      salary ← or_raise employee.annual_salary type_error
      ok (floats.div_by salary (periods_per_year employee.pay_period)))
    | hourly ↦ pay_of_hours employee time_record
  ]

  abbrev pub amount_of : F → Rate → F
  amount_of gross r = floats.round_cents (floats.mul gross (floats.literal r.percent 2))

  abbrev pub line_of : F → Rate → PayslipLine F
  line_of gross r = record {
    description = r.description;
    amount = amount_of gross r;
    type = deduction;
  }

  -- The two loops: the lines and the total after some deductions.
  unfoldable pub deduct : F → List Rate → List (PayslipLine F) × F → List (PayslipLine F) × F
  deduct gross [] acc = acc
  deduct gross (r ∷ rs) (lines, total) =
      deduct gross rs (lines ++ line_of gross r ∷ [], floats.add total (amount_of gross r))

  unfoldable pub deduction_lines : F → List String → Result RunError (List (PayslipLine F) × F)
  unfolding deduct
  deduction_lines gross elections =
      let all_lines =
        deduct gross (elected elections optional_rates)
          (deduct gross mandatory_rates ([], floats.literal 0 0)) in
      let total = floats.round_cents all_lines.1 in
      if floats.less gross total then err deductions_exceed_gross else ok (all_lines.0, total)
