-- ===== src/Payroll/Sql/Tests.antt =====
-- An employee, a period and contracts, in memory and in the database.
use erp_agent.Prelude.{
  String, false, none, some, List, [], ◌∷◌, lookup, ok, err, All, ◌≡◌, refl, ltb, if◌then◌else◌,
}
use erp_agent.Prelude.Int.{pos, ◌*ℤ◌}
use erp_agent.Decimal.{le_decimal, at_scale}
use erp_agent.Payroll.Schemas.{
  FiscalProfile, resident, active, ct, monthly, opened, Employee, Contract, PayrollPeriod,
  validate_contract, validate_period,
}
use erp_agent.Payroll.Sql.{
  keyed, Database, multiple_results, ColumnTypes, store_employee, store_contract, store_period,
}
use erp_agent.Payroll.Sql.Repositories.{Codecs}
use erp_agent.Payroll.Sql.Repositories.Contracts.{get_for_employee}
use erp_agent.Payroll.Sql.Memory.{Upsert, employee, contract, period, all_in_memory, all_in_sql}
use erp_agent.Payroll.Sql.Refines.{IsKeepable}
use erp_agent.Payroll.Sql.Answers.{no_rows, nothing_kept, Agrees, upserts-Agrees}
use erp_agent.Payroll.Sql.Renewed.{renewed_unreadable, IsStoredContract}

abbrev profile : FiscalProfile
profile = record {
  irs_table_code = "I";
  dependents = 2;
  has_disability = false;
  spouse_has_disability = false;
  residency_status = resident;
  voluntary_irs_rate = none;
}

abbrev maria : Employee
maria = record {
  employee_id = "E1";
  full_name = "Maria Silva";
  tax_id = "501442600";
  social_security_id = "11223344556";
  birth_date = 33000;
  hire_date = 44000;
  status = active;
  fiscal_profile = profile;
  current_contract_id = some "C1";
  bank_iban = none;
}

abbrev contract_of : String → Contract
contract_of id = record {
  contract_id = id;
  employee_id = "E1";
  type = ct;
  start_date = 44000;
  end_date = none;
  role_category = "clerk";
  weekly_hours = record { coeff = pos 4000; scale = 2 };
  fte_percent = record { coeff = pos 10000; scale = 4 };
  base_monthly_salary = record { coeff = pos 120050; scale = 2 };
  cct_reference = none;
  company_id = "acme";
  pay_frequency = monthly;
}

abbrev january : PayrollPeriod
january = record {
  period_id = "2026-01";
  company_id = "acme";
  pay_frequency = monthly;
  start_date = 46000;
  end_date = 46030;
  pay_date = 46028;
  status = opened;
}

-- A profile as the JSON of its table, the other data as that of nothing; texts and numbers are kept as they
-- are, but a number of more digits behind the point is refused.
abbrev codecs : Codecs
codecs = record {
  profile = record {
    dump_json = λ p. p.irs_table_code;
    validate_json = λ s. some (record profile { irs_table_code = s });
  };
  cct = record { dump_json = λ c. "{}"; validate_json = λ s. none };
  overtime = record { dump_json = λ o. "{}"; validate_json = λ s. none };
  absences = record { dump_json = λ a. "[]"; validate_json = λ s. some [] };
  lines = record { dump_json = λ l. "[]"; validate_json = λ s. some [] };
  audit = record { dump_json = λ a. "[]"; validate_json = λ s. some [] };
}

abbrev types : ColumnTypes
types = record {
  varchar = λ n s. some s;
  numeric = λ p s d. if ltb s d.scale then none else some d;
}

abbrev upserts : List Upsert
upserts =
    employee maria ∷ contract (contract_of "C1") ∷ period january ∷ contract (contract_of "C1") ∷ []

abbrev owner : String → String
owner id = "E1"

abbrev its : String → String
its id = "C1"

valid_contract : (validate_contract (contract_of "C1")) ≡ ok (contract_of "C1")
unfolding validate_contract le_decimal at_scale ◌*ℤ◌
valid_contract = refl

valid_period : validate_period january ≡ ok january
unfolding validate_period
valid_period = refl

upserts-IsKeepable : All (IsKeepable codecs types owner its) upserts
unfolding store_employee store_contract store_period keyed
upserts-IsKeepable = (
  ((refl, refl), refl),
  (
    ((refl, refl), (valid_contract, tt), refl, refl),
    (((refl, refl), valid_period), (((refl, refl), (valid_contract, tt), refl, refl), tt)),
  ),
)

upserts-Agrees_example :
    (db : Database) × (all_in_sql codecs types upserts no_rows ≡ (ok tt, db))
    × Agrees codecs (all_in_memory upserts (nothing_kept [])) db
upserts-Agrees_example = upserts-Agrees codecs types owner its upserts [] upserts-IsKeepable

stored : (id : String) → IsStoredContract codecs types (contract_of id)
unfolding store_contract keyed
stored id = (refl, refl)

renewed_unreadable_example :
    (db : Database) × (all_in_sql codecs types
        (contract (contract_of "C1") ∷ contract (contract_of "C2") ∷ [])
        no_rows
      ≡ (ok tt, db))
    × (get_for_employee codecs "E1" db ≡ (err multiple_results, db))
    × (lookup "E1"
          (all_in_memory
            (contract (contract_of "C1") ∷ contract (contract_of "C2") ∷ [])
            (nothing_kept [])).repositories.contracts_by_employee
        ≡ some (contract_of "C2"))
renewed_unreadable_example =
    renewed_unreadable codecs types (contract_of "C1") (contract_of "C2") (nothing_kept []) no_rows
      refl refl (stored "C1") (stored "C2")
