-- ===== src/Payroll/Service.antt =====
-- logic/payroll/public/service.py over the in-memory repositories (db/repositories/memory.py). The state is
-- what the repositories and the rule loader hold.
pub mod Laws
use Prim.Native.String.{◌++◌ as text_append}
use erp_agent.Prelude.{
  ℕ, String, ◌&&◌, ◌==◌, if◌then◌else◌, Option, none, some, List, [], ◌∷◌, Dict, lookup, insert,
}
use erp_agent.Prelude.Exec.{Exec, pure, gets, lift, modify, require, ◌>>=◌, ◌>>◌}
use erp_agent.Decimal.{Decimal, zero_decimal}
use erp_agent.Payroll.Errors.{
  PayrollError, employee_not_found, contract_not_found, period_not_found, time_input_not_found,
}
use erp_agent.Payroll.Rounding.{default_policy}
use erp_agent.Payroll.Schemas.{
  Employee, FiscalProfile, active, Contract, CctReference, ContractType, PayFrequency,
  PayrollPeriod, opened, TimeInput, Company, duodecimos, validate_contract, validate_period,
}
use erp_agent.Payroll.Rules.Loader.{Files, Cache, Loading}
use erp_agent.Payroll.Rules.Snapshot.{resolve}
use erp_agent.Payroll.Rules.Plan.{CalculationPlan, build}
use erp_agent.Payroll.Primitives.{PrimitiveRegistry}
use erp_agent.Payroll.Engine.Executor.{PayslipResult, execute}

-- requests.py

pub record CreateEmployeeInput : Type 0 where
  pub employee_id : String
  pub full_name : String
  pub tax_id : String
  pub social_security_id : String
  pub birth_date : ℕ
  pub hire_date : ℕ
  pub fiscal_profile : FiscalProfile
  pub bank_iban : Option String

pub record CreateContractInput : Type 0 where
  pub contract_id : String
  pub employee_id : String
  pub type : ContractType
  pub start_date : ℕ
  pub end_date : Option ℕ
  pub role_category : String
  pub weekly_hours : Decimal
  pub fte_percent : Decimal
  pub base_monthly_salary : Decimal
  pub cct_reference : Option CctReference
  pub company_id : String
  pub pay_frequency : PayFrequency

pub record PeriodDefinition : Type 0 where
  pub period_id : String
  pub pay_frequency : PayFrequency
  pub start_date : ℕ
  pub end_date : ℕ
  pub pay_date : ℕ

pub record TimeInputDraft : Type 0 where
  pub normal_hours : Decimal
  pub meal_allowance_days : ℕ
  pub notes : String

-- A dict under pairs of keys.
abbrev pub PairDict : Type 0 → Type 0
PairDict V = List ((String × String) × V)

module _ {V : Type 0} where
  abbrev pub lookup_pair : String → String → PairDict V → Option V
  lookup_pair a b [] = none
  lookup_pair a b (((c, d), v) ∷ rest) = if a == c && b == d then some v else lookup_pair a b rest

  abbrev pub insert_pair : String → String → V → PairDict V → PairDict V
  insert_pair a b v [] = ((a, b), v) ∷ []
  insert_pair a b v (((c, d), w) ∷ rest) =
      if a == c && b == d then ((c, d), v) ∷ rest else ((c, d), w) ∷ insert_pair a b v rest

pub record Repositories : Type 0 where
  pub employees : Dict Employee
  pub contracts_by_id : Dict Contract
  pub contracts_by_employee : Dict Contract
  pub periods : Dict PayrollPeriod
  pub time_inputs : PairDict TimeInput
  pub rule_cache : Cache

abbrev pub Service : Type 0 → Type 0
Service = Exec PayrollError Repositories

unfoldable pub upsert_employee : Employee → Service Employee
upsert_employee e = do
  modify (λ s. record s { employees = insert e.employee_id e s.employees })
  pure e

unfoldable pub upsert_contract : Contract → Service Contract
upsert_contract c = do
  modify (λ s. record s {
    contracts_by_id = insert c.contract_id c s.contracts_by_id;
    contracts_by_employee = insert c.employee_id c s.contracts_by_employee;
  })
  pure c

unfoldable pub upsert_period : PayrollPeriod → Service PayrollPeriod
upsert_period p = do modify (λ s. record s { periods = insert p.period_id p s.periods }); pure p

unfoldable pub upsert_time_input : TimeInput → Service TimeInput
upsert_time_input t = do
  modify (λ s. record s { time_inputs = insert_pair t.period_id t.employee_id t s.time_inputs })
  pure t

unfoldable pub create_employee : CreateEmployeeInput → Service Employee
unfolding upsert_employee
create_employee i = upsert_employee (record {
  employee_id = i.employee_id;
  full_name = i.full_name;
  tax_id = i.tax_id;
  social_security_id = i.social_security_id;
  birth_date = i.birth_date;
  hire_date = i.hire_date;
  status = active;
  fiscal_profile = i.fiscal_profile;
  current_contract_id = none;
  bank_iban = i.bank_iban;
})

unfoldable pub get_employee : String → Service Employee
get_employee id = do
  found ← gets (λ s. lookup id s.employees)
  require found (employee_not_found id)

unfoldable pub create_contract : CreateContractInput → Service Contract
unfolding get_employee upsert_contract upsert_employee
create_contract i = do
  _ ← get_employee i.employee_id
  contract ← lift (
      validate_contract (record {
        contract_id = i.contract_id;
        employee_id = i.employee_id;
        type = i.type;
        start_date = i.start_date;
        end_date = i.end_date;
        role_category = i.role_category;
        weekly_hours = i.weekly_hours;
        fte_percent = i.fte_percent;
        base_monthly_salary = i.base_monthly_salary;
        cct_reference = i.cct_reference;
        company_id = i.company_id;
        pay_frequency = i.pay_frequency;
      }))
  saved ← upsert_contract contract
  employee ← get_employee i.employee_id
  _ ← upsert_employee (record employee { current_contract_id = some saved.contract_id })
  pure saved

unfoldable pub get_contract_for_employee : String → Service Contract
get_contract_for_employee id = do
  found ← gets (λ s. lookup id s.contracts_by_employee)
  require found (contract_not_found id)

unfoldable pub open_period : String → PeriodDefinition → Service PayrollPeriod
unfolding upsert_period
open_period company_id d = do
  period ← lift (
      validate_period (record {
        period_id = d.period_id;
        company_id = company_id;
        pay_frequency = d.pay_frequency;
        start_date = d.start_date;
        end_date = d.end_date;
        pay_date = d.pay_date;
        status = opened;
      }))
  upsert_period period

unfoldable pub get_period : String → Service PayrollPeriod
get_period id = do found ← gets (λ s. lookup id s.periods); require found (period_not_found id)

-- A time input without overtime and absences.
unfoldable pub set_time_input : String → String → TimeInputDraft → Service TimeInput
unfolding get_period get_employee upsert_time_input
set_time_input period_id employee_id draft = do
  _ ← get_period period_id
  _ ← get_employee employee_id
  upsert_time_input (record {
    period_id = period_id;
    employee_id = employee_id;
    normal_hours = draft.normal_hours;
    overtime_buckets = record {
      first_hour = zero_decimal;
      additional_hours = zero_decimal;
      weekend = zero_decimal;
      holiday = zero_decimal;
      night = zero_decimal;
    };
    absences = [];
    meal_allowance_days = draft.meal_allowance_days;
    notes = draft.notes;
  })

unfoldable pub get_time_input : String → String → Service TimeInput
get_time_input period_id employee_id = do
  found ← gets (λ s. lookup_pair period_id employee_id s.time_inputs)
  require found (time_input_not_found period_id employee_id)

-- The constructor's arguments; `title` is Python's `str.title`.
pub record Settings : Type 0 where
  pub files : Files
  pub registry : PrimitiveRegistry
  pub clock : ℕ → ℕ
  pub statutory_path : String
  pub cct_path : Option String
  pub company_path : Option String
  pub title : String → String

-- The loader works on its own part of the state.
unfoldable pub with_cache : {A : Type 0} → Loading A → Service A
with_cache load s = let (r, cache) = load s.rule_cache in (r, record s { rule_cache = cache })

module _ (settings : Settings) where
  unfoldable pub resolve_company : String → Company
  resolve_company id = record {
    company_id = id;
    legal_name = text_append (settings.title id) " Default";
    tax_id = "000000000";
    default_rounding_policy = default_policy;
    default_subsidio_payment_mode = duodecimos;
  }

  unfoldable pub build_calculation_plan : String → String → Service CalculationPlan
  unfolding with_cache
  build_calculation_plan period_id employee_id = do
    period ← get_period period_id
    employee ← get_employee employee_id
    contract ← get_contract_for_employee employee_id
    snapshot ←
        with_cache
          (resolve settings.files settings.statutory_path settings.cct_path settings.company_path)
    lift (
        build settings.registry snapshot employee.employee_id contract.contract_id period.period_id
          period.company_id (resolve_company period.company_id).default_rounding_policy)

  unfoldable pub dry_run_payslip : String → String → Service PayslipResult
  dry_run_payslip period_id employee_id = do
    period ← get_period period_id
    employee ← get_employee employee_id
    contract ← get_contract_for_employee employee_id
    _ ← get_time_input period_id employee_id
    let company = resolve_company period.company_id
    plan ← build_calculation_plan period_id employee_id
    lift (
        execute settings.registry plan (record {
          period = period;
          contract = contract;
          employee = employee;
          company = company;
          rounding_policy = company.default_rounding_policy;
          clock = settings.clock;
        }))
