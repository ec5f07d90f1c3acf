-- ===== src/Payroll/Sql.antt =====
-- db/models.py: the tables of the payroll engine. A primary key is the key of its table's dict, and keys are
-- compared exactly, where a collation of SQL Server may ignore case and spaces at the end. What a column
-- makes of a value is a parameter: it may refuse it, or keep another one, such as a number rounded to the
-- column's digits. A date, an integer, an enumerated word and a `Text` are kept as they are.
pub mod Repositories
pub mod Memory
pub mod Contracts
pub mod Refines
pub mod Answers
pub mod Renewed
mod Tests
use erp_agent.Prelude.{
  ℕ, String, Option, none, some, Dict, List, [], ◌∷◌, Result, ok, or_raise, ◌>>=◌,
}
use erp_agent.Decimal.{Decimal}
use erp_agent.Payroll.Errors.{PayrollError}
use erp_agent.Payroll.Schemas.{ContractType, PayFrequency, EmployeeStatus, PeriodStatus}
use erp_agent.Payroll.Service.{PairDict}

pub record EmployeeRow : Type 0 where
  pub full_name : String
  pub tax_id : String
  pub social_security_id : String
  pub birth_date : ℕ
  pub hire_date : ℕ
  pub status : EmployeeStatus
  -- JSON
  pub fiscal_profile : String
  pub current_contract_id : Option String
  pub bank_iban : Option String

pub record ContractRow : Type 0 where
  pub employee_id : String
  pub type : ContractType
  pub start_date : ℕ
  pub end_date : Option ℕ
  pub role_category : String
  pub weekly_hours : Decimal
  pub fte_percent : Decimal
  pub base_monthly_salary : Decimal
  -- JSON
  pub cct_reference : Option String
  pub company_id : String
  pub pay_frequency : PayFrequency

pub record PayrollPeriodRow : Type 0 where
  pub company_id : String
  pub pay_frequency : PayFrequency
  pub start_date : ℕ
  pub end_date : ℕ
  pub pay_date : ℕ
  pub status : PeriodStatus

pub record TimeInputRow : Type 0 where
  pub normal_hours : Decimal
  -- JSON, as is the next
  pub overtime_buckets : String
  pub absences : String
  pub meal_allowance_days : ℕ
  pub notes : String

-- All but the net pay is JSON.
pub record PayslipRow : Type 0 where
  pub gross_earnings : String
  pub deductions : String
  pub employer_contributions : String
  pub net_pay : Decimal
  pub audit : String

pub record Database : Type 0 where
  pub employees : Dict EmployeeRow
  pub contracts : Dict ContractRow
  pub periods : Dict PayrollPeriodRow
  pub time_inputs : PairDict TimeInputRow
  pub payslips : PairDict PayslipRow

pub data SqlError : Type 0 where
  -- a column refuses a value
  refused : SqlError
  -- `MultipleResultsFound`
  multiple_results : SqlError
  bad_json : SqlError
  invalid : PayrollError → SqlError

-- `varchar n` is `String(n)`, and `numeric p s` is `Numeric(p, s)`; `none` where the value is refused.
pub record ColumnTypes : Type 0 where
  pub varchar : ℕ → String → Option String
  pub numeric : ℕ → ℕ → Decimal → Option Decimal

module _ (types : ColumnTypes) where
  abbrev pub varchar : ℕ → String → Result SqlError String
  varchar n s = or_raise (types.varchar n s) refused

  abbrev pub varchar_or_null : ℕ → Option String → Result SqlError (Option String)
  varchar_or_null n none = ok none
  varchar_or_null n (some s) = do kept ← varchar n s; ok (some kept)

  abbrev pub numeric : ℕ → ℕ → Decimal → Result SqlError Decimal
  numeric p s d = or_raise (types.numeric p s d) refused

  -- A new row under its primary key, whose columns are `String(50)`: a key that is not refused is kept as it is.
  unfoldable pub keyed : {Row : Type 0} → List String → Row → Result SqlError Row
  keyed [] row = ok row
  keyed (key ∷ keys) row = do kept ← varchar 50 key; keyed keys row

  unfoldable pub store_employee : EmployeeRow → Result SqlError EmployeeRow
  store_employee row = do
    full_name ← varchar 200 row.full_name
    tax_id ← varchar 20 row.tax_id
    social_security_id ← varchar 20 row.social_security_id
    current_contract_id ← varchar_or_null 50 row.current_contract_id
    bank_iban ← varchar_or_null 34 row.bank_iban
    ok (record row {
      full_name = full_name;
      tax_id = tax_id;
      social_security_id = social_security_id;
      current_contract_id = current_contract_id;
      bank_iban = bank_iban;
    })

  unfoldable pub store_contract : ContractRow → Result SqlError ContractRow
  store_contract row = do
    employee_id ← varchar 50 row.employee_id
    role_category ← varchar 100 row.role_category
    weekly_hours ← numeric 8 2 row.weekly_hours
    fte_percent ← numeric 5 4 row.fte_percent
    base_monthly_salary ← numeric 15 2 row.base_monthly_salary
    company_id ← varchar 50 row.company_id
    ok (record row {
      employee_id = employee_id;
      role_category = role_category;
      weekly_hours = weekly_hours;
      fte_percent = fte_percent;
      base_monthly_salary = base_monthly_salary;
      company_id = company_id;
    })

  unfoldable pub store_period : PayrollPeriodRow → Result SqlError PayrollPeriodRow
  store_period row = do
    company_id ← varchar 50 row.company_id
    ok (record row { company_id = company_id })

  unfoldable pub store_time_input : TimeInputRow → Result SqlError TimeInputRow
  store_time_input row = do
    normal_hours ← numeric 8 2 row.normal_hours
    ok (record row { normal_hours = normal_hours })

  unfoldable pub store_payslip : PayslipRow → Result SqlError PayslipRow
  store_payslip row = do net_pay ← numeric 15 2 row.net_pay; ok (record row { net_pay = net_pay })
