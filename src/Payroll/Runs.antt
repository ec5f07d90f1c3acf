-- ===== src/Payroll/Runs.antt =====
-- logic/payroll/models.py: the records of the older payroll run. A floating point number is a value of `F`, and
-- its operations are parameters; a date is a number.
pub mod Calculator
pub mod Checks
pub mod Tables
pub mod Workflow
pub mod Done
pub mod Written
pub mod History
pub mod Moves
pub mod Ledger
pub mod Audited
pub mod Reached
mod Tests
use erp_agent.Prelude.{ℕ, String, Bool, Option, List}

-- The operations on floating point numbers; `literal c s` is c / 10^s as it is written in the source.
pub record Floats (F : Type 0) : Type 0 where
  pub literal : ℕ → ℕ → F
  pub add : F → F → F
  pub sub : F → F → F
  pub mul : F → F → F
  pub div_by : F → ℕ → F
  pub round_cents : F → F
  pub less : F → F → Bool
  pub is_zero : F → Bool

pub data EmployeeType : Type 0 where
  salaried hourly contractor : EmployeeType

pub data PayPeriod : Type 0 where
  weekly biweekly monthly : PayPeriod

pub record Employee (F : Type 0) : Type 0 where
  pub id : String
  pub name : String
  pub type : EmployeeType
  pub pay_period : PayPeriod
  pub annual_salary : Option F
  pub hourly_rate : Option F
  pub deduction_elections : List String

pub record TimeRecord (F : Type 0) : Type 0 where
  pub employee_id : String
  pub period_start : ℕ
  pub period_end : ℕ
  pub regular_hours : F
  pub overtime_hours : F
  pub approved : Bool
  pub approved_by : Option String

pub data LineType : Type 0 where
  earning deduction : LineType

pub record PayslipLine (F : Type 0) : Type 0 where
  pub description : String
  pub amount : F
  pub type : LineType

pub record Payslip (F : Type 0) : Type 0 where
  pub employee_id : String
  pub period_start : ℕ
  pub period_end : ℕ
  pub run_id : String
  pub gross_pay : F
  pub total_deductions : F
  pub net_pay : F
  pub lines : List (PayslipLine F)
  pub rule_version : String

pub data RunStatus : Type 0 where
  collect calculate review committed disbursed : RunStatus

pub record PayrollRunRequest : Type 0 where
  pub period_start : ℕ
  pub period_end : ℕ
  pub employee_ids : List String
  pub initiated_by : String

pub record PayrollRun (F : Type 0) : Type 0 where
  pub id : String
  pub status : RunStatus
  pub period_start : ℕ
  pub period_end : ℕ
  pub initiated_by : String
  pub approved_by : Option String
  pub payslips : List (Payslip F)
  pub rule_version : String

pub record AdjustmentRequest (F : Type 0) : Type 0 where
  pub original_run_id : String
  pub employee_id : String
  pub reason : String
  pub delta_gross : F
  pub requested_by : String

pub data CheckError : Type 0 where
  contractor_in_payroll : CheckError
  not_approved : String → CheckError
  negative_hours : String → CheckError
  period_backwards : CheckError
  appears_twice : String → CheckError
  below_minimum_wage : CheckError

pub data RunError : Type 0 where
  employee_exists : String → RunError
  invalid_employee : CheckError → RunError
  blocked_at_collect : List CheckError → RunError
  blocked_at_calculate : List CheckError → RunError
  contractor_pay : RunError
  time_record_required : String → RunError
  deductions_exceed_gross : RunError
  type_error : RunError
  not_permitted : (action role : String) → RunError
  run_not_found : String → RunError
  employee_not_found : String → RunError
  wrong_status : String → RunStatus → RunError
  not_adjustable : RunError
  missing_compensation : RunError
  refused : RunError
