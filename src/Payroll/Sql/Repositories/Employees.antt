-- ===== src/Payroll/Sql/Repositories/Employees.antt =====
-- db/repositories/sqlserver.py (SqlServerEmployeeRepository).
use erp_agent.Prelude.{[], ◌∷◌, String, Option, none, some, lookup, insert}
use erp_agent.Prelude.Exec.{pure, gets, ◌>>=◌, ◌>>◌}
use erp_agent.Payroll.Schemas.{Employee}
use erp_agent.Payroll.Sql.{keyed, EmployeeRow, ColumnTypes, store_employee}
use erp_agent.Payroll.Sql.Repositories.{Codecs, Sql, read_json, save}

module _ (codecs : Codecs) where
  abbrev pub employee_row : Employee → EmployeeRow
  employee_row e = record {
    full_name = e.full_name;
    tax_id = e.tax_id;
    social_security_id = e.social_security_id;
    birth_date = e.birth_date;
    hire_date = e.hire_date;
    status = e.status;
    fiscal_profile = codecs.profile.dump_json e.fiscal_profile;
    current_contract_id = e.current_contract_id;
    bank_iban = e.bank_iban;
  }

  abbrev pub assign_employee : Employee → EmployeeRow → EmployeeRow
  assign_employee e row = record row {
    full_name = e.full_name;
    tax_id = e.tax_id;
    social_security_id = e.social_security_id;
    birth_date = e.birth_date;
    hire_date = e.hire_date;
    status = e.status;
    fiscal_profile = codecs.profile.dump_json e.fiscal_profile;
    current_contract_id = e.current_contract_id;
    bank_iban = e.bank_iban;
  }

  unfoldable pub upsert_employee : ColumnTypes → Employee → Sql Employee
  unfolding save keyed
  upsert_employee types e = do
    save (λ s. lookup e.employee_id s.employees) (keyed types (e.employee_id ∷ []) (employee_row e))
        (assign_employee e) (store_employee types)
        (λ row s. record s { employees = insert e.employee_id row s.employees })
    pure e

  abbrev pub read_employee : String → Option EmployeeRow → Sql (Option Employee)
  read_employee id none = pure none
  read_employee id (some row) = do
    profile ← read_json codecs.profile row.fiscal_profile
    pure (
        some (record {
          employee_id = id;
          full_name = row.full_name;
          tax_id = row.tax_id;
          social_security_id = row.social_security_id;
          birth_date = row.birth_date;
          hire_date = row.hire_date;
          status = row.status;
          fiscal_profile = profile;
          current_contract_id = row.current_contract_id;
          bank_iban = row.bank_iban;
        }))

  unfoldable pub get_employee : String → Sql (Option Employee)
  get_employee id = do row ← gets (λ s. lookup id s.employees); read_employee id row
