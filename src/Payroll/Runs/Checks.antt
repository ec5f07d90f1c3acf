-- ===== src/Payroll/Runs/Checks.antt =====
-- logic/payroll/validator.py. The permissions are those of the rule document.
use erp_agent.Prelude.{
  leb, String, Bool, false, not, ◌||◌, none, some, List, [], ◌∷◌, ◌++◌, if◌then◌else◌, elem, Dict,
  lookup,
}
use erp_agent.Payroll.Runs.{
  Floats, salaried, hourly, contractor, Employee, TimeRecord, PayrollRunRequest, CheckError,
  contractor_in_payroll, not_approved, negative_hours, period_backwards, appears_twice,
  below_minimum_wage,
}

abbrev pub error_if : Bool → CheckError → List CheckError
error_if b e = if b then e ∷ [] else []

unfoldable pub duplicates : List String → List String → List CheckError
duplicates seen [] = []
duplicates seen (id ∷ ids) =
    error_if (elem id seen) (appears_twice id) ++ duplicates (id ∷ seen) ids

unfoldable pub validate_run_request : PayrollRunRequest → List CheckError
unfolding duplicates
validate_run_request request =
    error_if (leb request.period_end request.period_start) period_backwards
    ++ duplicates [] request.employee_ids

unfoldable pub is_permitted : Dict (List String) → String → String → Bool
is_permitted permissions action role = elim (lookup action permissions) [
  | none ↦ false
  | some allowed ↦ elem role allowed
]

module _ {F : Type 0} (floats : Floats F) where
  unfoldable pub validate_employee : Employee F → List CheckError
  validate_employee employee = elim employee.type [
    | contractor ↦ contractor_in_payroll ∷ []
    | salaried ↦ []
    | hourly ↦ []
  ]

  abbrev pub is_negative : F → Bool
  is_negative x = floats.less x (floats.literal 0 0)

  unfoldable pub validate_time_record : TimeRecord F → Employee F → List CheckError
  validate_time_record tr employee = elim employee.type [
    | hourly ↦
        error_if (not tr.approved) (not_approved tr.employee_id)
        ++ error_if (is_negative tr.regular_hours || is_negative tr.overtime_hours)
            (negative_hours tr.employee_id)
    | salaried ↦ []
    | contractor ↦ []
  ]

  -- The minimum wage is 0 unless one is given, and no caller gives one.
  unfoldable pub validate_minimum_wage : F → List CheckError
  validate_minimum_wage net = error_if (is_negative net) below_minimum_wage
