-- ===== src/Payroll/Sql/Repositories/Contracts.antt =====
-- db/repositories/sqlserver.py (SqlServerContractRepository, _row_to_contract).
use erp_agent.Prelude.{
  String, ◌==◌, if◌then◌else◌, Option, none, some, [], ◌∷◌, Dict, lookup, insert,
}
use erp_agent.Prelude.Exec.{pure, raise, gets, lift, ◌>>=◌, ◌>>◌}
use erp_agent.Payroll.Schemas.{CctReference, Contract, validate_contract}
use erp_agent.Payroll.Sql.{keyed, ContractRow, multiple_results, ColumnTypes, store_contract}
use erp_agent.Payroll.Sql.Repositories.{Codecs, Sql, validated, read_json, save}

-- The rows that `get_for_employee` selects.
unfoldable pub contracts_of : String → Dict ContractRow → Dict ContractRow
contracts_of employee_id [] = []
contracts_of employee_id ((id, row) ∷ rest) =
    if employee_id == row.employee_id
    then (id, row) ∷ contracts_of employee_id rest
    else contracts_of employee_id rest

module _ (codecs : Codecs) where
  abbrev pub cct_json : Option CctReference → Option String
  cct_json none = none
  cct_json (some cct) = some (codecs.cct.dump_json cct)

  abbrev pub contract_row : Contract → ContractRow
  contract_row c = record {
    employee_id = c.employee_id;
    type = c.type;
    start_date = c.start_date;
    end_date = c.end_date;
    role_category = c.role_category;
    weekly_hours = c.weekly_hours;
    fte_percent = c.fte_percent;
    base_monthly_salary = c.base_monthly_salary;
    cct_reference = cct_json c.cct_reference;
    company_id = c.company_id;
    pay_frequency = c.pay_frequency;
  }

  abbrev pub assign_contract : Contract → ContractRow → ContractRow
  assign_contract c row = record row {
    employee_id = c.employee_id;
    type = c.type;
    start_date = c.start_date;
    end_date = c.end_date;
    role_category = c.role_category;
    weekly_hours = c.weekly_hours;
    fte_percent = c.fte_percent;
    base_monthly_salary = c.base_monthly_salary;
    cct_reference = cct_json c.cct_reference;
    company_id = c.company_id;
    pay_frequency = c.pay_frequency;
  }

  unfoldable pub upsert_contract : ColumnTypes → Contract → Sql Contract
  unfolding save keyed
  upsert_contract types c = do
    save (λ s. lookup c.contract_id s.contracts) (keyed types (c.contract_id ∷ []) (contract_row c))
        (assign_contract c) (store_contract types)
        (λ row s. record s { contracts = insert c.contract_id row s.contracts })
    pure c

  -- A column with an empty text counts as none.
  abbrev pub read_cct : Option String → Sql (Option CctReference)
  read_cct none = pure none
  read_cct (some s) =
      if s == "" then pure none else (do cct ← read_json codecs.cct s; pure (some cct))

  abbrev pub checked_contract : String → ContractRow → Option CctReference → Sql (Option Contract)
  checked_contract id row cct = do
    contract ← lift (
        validated (
          validate_contract (record {
            contract_id = id;
            employee_id = row.employee_id;
            type = row.type;
            start_date = row.start_date;
            end_date = row.end_date;
            role_category = row.role_category;
            weekly_hours = row.weekly_hours;
            fte_percent = row.fte_percent;
            base_monthly_salary = row.base_monthly_salary;
            cct_reference = cct;
            company_id = row.company_id;
            pay_frequency = row.pay_frequency;
          })))
    pure (some contract)

  abbrev pub row_to_contract : String → ContractRow → Sql (Option Contract)
  row_to_contract id row = read_cct row.cct_reference >>= checked_contract id row

  abbrev pub read_contract : String → Option ContractRow → Sql (Option Contract)
  read_contract id none = pure none
  read_contract id (some row) = row_to_contract id row

  unfoldable pub get_contract : String → Sql (Option Contract)
  get_contract id = do row ← gets (λ s. lookup id s.contracts); read_contract id row

  -- `scalar_one_or_none`
  abbrev pub read_only_contract : Dict ContractRow → Sql (Option Contract)
  read_only_contract [] = pure none
  read_only_contract ((id, row) ∷ []) = row_to_contract id row
  read_only_contract (first ∷ second ∷ rest) = raise multiple_results

  unfoldable pub get_for_employee : String → Sql (Option Contract)
  unfolding contracts_of
  get_for_employee employee_id = do
    rows ← gets (λ s. contracts_of employee_id s.contracts)
    read_only_contract rows
