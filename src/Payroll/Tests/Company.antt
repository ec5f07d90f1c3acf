-- ===== src/Payroll/Tests/Company.antt =====
-- The registry, the plan and the people of a small company.
use erp_agent.Prelude.{
  String, ◌≡◌, refl, false, Option, none, some, List, [], ◌∷◌, ◌==◌, if◌then◌else◌, Result, ok, err,
}
use erp_agent.Prelude.Int.{pos, ◌*ℤ◌}
use erp_agent.Decimal.{Decimal, le_decimal, at_scale}
use erp_agent.Payroll.Errors.{PayrollError}
use erp_agent.Payroll.Rounding.{default_policy}
use erp_agent.Payroll.Schemas.{Contract, resident, one_shot, ct, monthly, active, opened}
use erp_agent.Payroll.Rules.{Value, str}
use erp_agent.Payroll.Rules.Resolver.{
  RuleStackSnapshot, resolve_layers, resolve_components, resolve_decl, merge_component,
  structural_differs, component_citation,
}
use erp_agent.Payroll.Rules.Sort.{topological_sort}
use erp_agent.Payroll.Rules.Plan.{PlanStep, CalculationPlan, build}
use erp_agent.Payroll.Primitives.{
  TsuParams, ExecutionContext, PrimitiveRegistry, base_salary_primitive, tsu_contribution,
}
use erp_agent.Payroll.Tests.Stack.{resolved}

abbrev pub checked_resolved : RuleStackSnapshot
checked_resolved = record {
  statutory_path = "pt.yaml";
  cct_path = none;
  company_path = some "acme.yaml";
  resolved_components = resolved;
}

abbrev pub to_rate : Value → Option Decimal
to_rate (str s) = some (record { coeff = pos (if s == "5%" then 5 else 11); scale = 2 })
to_rate v = none

abbrev pub show_rate : Decimal → String
show_rate d = "a rate"

abbrev pub registry : PrimitiveRegistry
registry =
    ("BaseSalary", base_salary_primitive)
    ∷ ("TSUContribution", tsu_contribution to_rate show_rate)
    ∷ []

abbrev pub plan_of : Result PayrollError CalculationPlan → List PlanStep
plan_of (ok p) = p.steps
plan_of (err e) = []

abbrev pub plan : CalculationPlan
plan = record {
  employee_id = "e";
  contract_id = "k";
  period_id = "2026-01";
  company_id = "acme";
  rounding_policy = default_policy;
  steps = plan_of (build registry checked_resolved "e" "k" "2026-01" "acme" default_policy);
}

pub builds : build registry checked_resolved "e" "k" "2026-01" "acme" default_policy ≡ ok plan
unfolding resolve_layers resolve_components resolve_decl merge_component structural_differs
    component_citation build topological_sort tsu_contribution le_decimal at_scale ◌*ℤ◌
builds = refl

abbrev pub worker : Contract
worker = record {
  contract_id = "k";
  employee_id = "e";
  type = ct;
  start_date = 1;
  end_date = none;
  role_category = "clerk";
  weekly_hours = record { coeff = pos 40; scale = 0 };
  fte_percent = record { coeff = pos 1; scale = 0 };
  base_monthly_salary = record { coeff = pos 1000; scale = 0 };
  cct_reference = none;
  company_id = "acme";
  pay_frequency = monthly;
}

abbrev pub context : ExecutionContext
context = record {
  period = record {
    period_id = "2026-01";
    company_id = "acme";
    pay_frequency = monthly;
    start_date = 1;
    end_date = 31;
    pay_date = 31;
    status = opened;
  };
  contract = worker;
  employee = record {
    employee_id = "e";
    full_name = "Ana";
    tax_id = "123456789";
    social_security_id = "1";
    birth_date = 0;
    hire_date = 1;
    status = active;
    fiscal_profile = record {
      irs_table_code = "I";
      dependents = 0;
      has_disability = false;
      spouse_has_disability = false;
      residency_status = resident;
      voluntary_irs_rate = none;
    };
    current_contract_id = some "k";
    bank_iban = none;
  };
  company = record {
    company_id = "acme";
    legal_name = "Acme";
    tax_id = "500000000";
    default_rounding_policy = default_policy;
    default_subsidio_payment_mode = one_shot;
  };
  rounding_policy = default_policy;
  clock = λ i. i;
}

abbrev pub rate : TsuParams
rate = record { rate = record { coeff = pos 11; scale = 2 }; base_components = "salary" ∷ [] }
