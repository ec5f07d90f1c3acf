-- ===== src/Payroll/Schemas.antt =====
-- logic/payroll/public/schemas: the records that the engine reads and produces. A date is the day
-- number of a calendar, a timestamp a number; both are only compared.
use erp_agent.Prelude.{
  ℕ, String, Bool, false, Option, none, some, List, ltb, not, ◌&&◌, if◌then◌else◌, Result, ok, err,
}
use erp_agent.Decimal.{Decimal, zero_decimal, le_decimal}
use erp_agent.Prelude.Int.{pos}
use erp_agent.Payroll.Rounding.{RoundingPolicy}
use erp_agent.Payroll.Errors.{PayrollError, validation_error}

-- output.py

pub data Layer : Type 0 where
  statutory cct company contract : Layer

pub record RuleCitation : Type 0 where
  pub document_path : String
  pub layer : Layer
  pub component_code : Option String
  pub clause : String

pub data TaxTreatment : Type 0 where
  taxable exempt partially_exempt : TaxTreatment

pub record PayslipLine : Type 0 where
  pub component_code : String
  pub description : String
  pub amount : Decimal
  pub quantity : Option Decimal
  pub rate : Option Decimal
  pub tax_treatment : TaxTreatment
  pub exempt_amount : Decimal
  pub source_audit_ref : ℕ

-- identity.py

pub data ResidencyStatus : Type 0 where
  resident non_habitual_resident non_resident : ResidencyStatus

pub record FiscalProfile : Type 0 where
  pub irs_table_code : String
  pub dependents : ℕ
  pub has_disability : Bool
  pub spouse_has_disability : Bool
  pub residency_status : ResidencyStatus
  pub voluntary_irs_rate : Option Decimal

pub record CctReference : Type 0 where
  pub cct_id : String
  pub cct_version : String
  pub role_category_code : String

pub data SubsidioPaymentMode : Type 0 where
  one_shot duodecimos : SubsidioPaymentMode

pub record Company : Type 0 where
  pub company_id : String
  pub legal_name : String
  pub tax_id : String
  pub default_rounding_policy : RoundingPolicy
  pub default_subsidio_payment_mode : SubsidioPaymentMode

pub data ContractType : Type 0 where
  ct ctt cti part_time internship : ContractType

pub data PayFrequency : Type 0 where
  monthly biweekly weekly : PayFrequency

pub record Contract : Type 0 where
  pub contract_id : String
  pub employee_id : String
  pub type : ContractType
  pub start_date : ℕ
  pub end_date : Option ℕ
  pub role_category : String
  pub weekly_hours : Decimal
  pub fte_percent : Decimal
  pub base_monthly_salary : Decimal
  pub cct_reference : Option CctReference
  pub company_id : String
  pub pay_frequency : PayFrequency

pub data EmployeeStatus : Type 0 where
  active suspended terminated : EmployeeStatus

pub record Employee : Type 0 where
  pub employee_id : String
  pub full_name : String
  pub tax_id : String
  pub social_security_id : String
  pub birth_date : ℕ
  pub hire_date : ℕ
  pub status : EmployeeStatus
  pub fiscal_profile : FiscalProfile
  pub current_contract_id : Option String
  pub bank_iban : Option String

-- period.py

pub data PeriodStatus : Type 0 where
  opened calculated closed : PeriodStatus

pub record PayrollPeriod : Type 0 where
  pub period_id : String
  pub company_id : String
  pub pay_frequency : PayFrequency
  pub start_date : ℕ
  pub end_date : ℕ
  pub pay_date : ℕ
  pub status : PeriodStatus

pub record AbsenceEntry : Type 0 where
  pub start_date : ℕ
  pub end_date : ℕ
  pub code : String
  pub paid_percent : Option Decimal

pub record OvertimeBuckets : Type 0 where
  pub first_hour : Decimal
  pub additional_hours : Decimal
  pub weekend : Decimal
  pub holiday : Decimal
  pub night : Decimal

pub record TimeInput : Type 0 where
  pub period_id : String
  pub employee_id : String
  pub normal_hours : Decimal
  pub overtime_buckets : OvertimeBuckets
  pub absences : List AbsenceEntry
  pub meal_allowance_days : ℕ
  pub notes : String

abbrev ends_before : Option ℕ → ℕ → Bool
ends_before none start = false
ends_before (some end_date) start = ltb end_date start

-- `Contract._check_dates` and the bounds of its fields
unfoldable pub validate_contract : Contract → Result PayrollError Contract
validate_contract c =
    if not (le_decimal c.weekly_hours zero_decimal)
      && not (le_decimal c.fte_percent zero_decimal)
      && le_decimal c.fte_percent (record { coeff = pos 1; scale = 0 })
      && le_decimal zero_decimal c.base_monthly_salary
      && not (ends_before c.end_date c.start_date)
    then ok c
    else err (validation_error c.contract_id)

-- `PayrollPeriod._check_dates`
unfoldable pub validate_period : PayrollPeriod → Result PayrollError PayrollPeriod
validate_period p = if ltb p.end_date p.start_date then err (validation_error p.period_id) else ok p
