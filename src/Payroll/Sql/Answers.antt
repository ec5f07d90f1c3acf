-- ===== src/Payroll/Sql/Answers.antt =====
-- What is read from the two kinds of repositories after the same upserts.
use erp_agent.Prelude.{
  String, Option, none, some, List, [], ◌∷◌, Dict, lookup, ok, All, ◌≡◌, refl, ap, ◌∙◌,
}
use erp_agent.Prelude.Exec.{◌>>=◌, ◌>>◌}
use erp_agent.Prelude.{Result}
use erp_agent.Payroll.Schemas.{CctReference, Employee, Contract, PayrollPeriod, TimeInput}
use erp_agent.Payroll.Service.{lookup_pair}
use erp_agent.Payroll.Rules.Loader.{Cache}
use erp_agent.Payroll.Engine.Executor.{PayslipResult}
use erp_agent.Payroll.Sql.{
  EmployeeRow, ContractRow, PayrollPeriodRow, TimeInputRow, PayslipRow, Database, SqlError,
  ColumnTypes,
}
use erp_agent.Payroll.Sql.Repositories.{Codecs}
use erp_agent.Payroll.Sql.Repositories.Employees.{employee_row, read_employee, get_employee}
use erp_agent.Payroll.Sql.Repositories.Contracts.{
  contract_row, read_contract, read_only_contract, row_to_contract, checked_contract, read_cct,
  cct_json, contracts_of, get_contract, get_for_employee,
}
use erp_agent.Payroll.Sql.Repositories.Periods.{period_row, read_period, get_period}
use erp_agent.Payroll.Sql.Repositories.TimeInputs.{time_input_row, read_time_input, get_time_input}
use erp_agent.Payroll.Sql.Repositories.Payslips.{payslip_row, read_payslip, get_payslip}
use erp_agent.Payroll.Sql.Memory.{
  find_payslip, Memory, Upsert, in_memory, all_in_memory, all_in_sql,
}
use erp_agent.Payroll.Sql.Refines.{IsKeepable, Refines, Refinement, step}
use erp_agent.Payroll.Sql.Refines.Rows.{
  IsReadableEmployee, IsReadableCct, IsReadableContract, IsReadablePeriod, IsReadableTimeInput,
  IsReadablePayslip, IsRowOf, IsOnlyContract,
}

abbrev pub no_rows : Database
no_rows = record { employees = []; contracts = []; periods = []; time_inputs = []; payslips = [] }

abbrev pub nothing_kept : Cache → Memory
nothing_kept cache = record {
  repositories = record {
    employees = [];
    contracts_by_id = [];
    contracts_by_employee = [];
    periods = [];
    time_inputs = [];
    rule_cache = cache;
  };
  payslips = [];
}

module _ (codecs : Codecs) where
  -- Every read of the database answers what the repositories in memory hold, and changes nothing.
  pub record Agrees (m : Memory) (db : Database) : Type 0 where
    pub employees :
        (id : String) → get_employee codecs id db ≡ (ok (lookup id m.repositories.employees), db)
    pub contracts :
        (id : String)
        → get_contract codecs id db ≡ (ok (lookup id m.repositories.contracts_by_id), db)
    pub of_employees :
        (id : String)
        → get_for_employee codecs id db ≡ (ok (lookup id m.repositories.contracts_by_employee), db)
    pub periods :
        (id : String) → get_period codecs id db ≡ (ok (lookup id m.repositories.periods), db)
    pub time_inputs :
        (period_id employee_id : String)
        → get_time_input codecs period_id employee_id db
          ≡ (ok (lookup_pair period_id employee_id m.repositories.time_inputs), db)
    pub payslips :
        (period_id employee_id : String)
        → get_payslip codecs period_id employee_id db
          ≡ (ok (find_payslip period_id employee_id m.payslips), db)

  module _ (db : Database) where
    read_employee_lem :
        (id : String) (row : Option EmployeeRow) (e : Option Employee)
        → IsRowOf
            (employee_row codecs)
            (λ x. (x.employee_id ≡ id) × IsReadableEmployee codecs x)
            row
            e
        → read_employee codecs id row db ≡ (ok e, db)
    read_employee_lem id none none h = refl
    read_employee_lem id none (some e) h = absurd h
    read_employee_lem id (some row) none h = absurd h
    read_employee_lem id (some row) (some e) (same, (key, reads)) =
        rw same (rw reads (rw (← key) refl))

    read_cct_lem :
        (c : Option CctReference)
        → IsReadableCct codecs c
        → read_cct codecs (cct_json codecs c) db ≡ (ok c, db)
    read_cct_lem none h = refl
    read_cct_lem (some c) (reads, text) = rw text (rw reads refl)

    row_to_contract_lem :
        (c : Contract)
        → IsReadableContract codecs c
        → row_to_contract codecs c.contract_id (contract_row codecs c) db ≡ (ok (some c), db)
    row_to_contract_lem c (valid, reads) =
        ap
          (λ (out : Result SqlError (Option CctReference) × Database).
            ((λ (s : Database). out)
                >>= checked_contract codecs c.contract_id (contract_row codecs c))
              db)
          (read_cct_lem c.cct_reference reads)
        ∙ rw valid refl

    read_contract_lem :
        (id : String) (row : Option ContractRow) (c : Option Contract)
        → IsRowOf
            (contract_row codecs)
            (λ x. (x.contract_id ≡ id) × IsReadableContract codecs x)
            row
            c
        → read_contract codecs id row db ≡ (ok c, db)
    read_contract_lem id none none h = refl
    read_contract_lem id none (some c) h = absurd h
    read_contract_lem id (some row) none h = absurd h
    read_contract_lem id (some row) (some c) (same, (key, valid)) =
        rw same (rw (← key) (row_to_contract_lem c valid))

    read_only_contract_lem :
        (rows : Dict ContractRow) (c : Option Contract)
        → IsOnlyContract (contract_row codecs) (IsReadableContract codecs) rows c
        → read_only_contract codecs rows db ≡ (ok c, db)
    read_only_contract_lem [] none h = refl
    read_only_contract_lem [] (some c) h = absurd h
    read_only_contract_lem ((id, row) ∷ []) none h = absurd h
    read_only_contract_lem (first ∷ second ∷ rest) c h = absurd h
    read_only_contract_lem ((id, row) ∷ []) (some c) (same, key, valid) =
        rw same (rw key (row_to_contract_lem c valid))

    read_period_lem :
        (id : String) (row : Option PayrollPeriodRow) (p : Option PayrollPeriod)
        → IsRowOf (period_row codecs) (λ x. (x.period_id ≡ id) × IsReadablePeriod codecs x) row p
        → read_period codecs id row db ≡ (ok p, db)
    read_period_lem id none none h = refl
    read_period_lem id none (some p) h = absurd h
    read_period_lem id (some row) none h = absurd h
    read_period_lem id (some row) (some p) (same, (key, valid)) =
        rw same (rw (← key) (rw valid refl))

    read_time_input_lem :
        (j k : String) (row : Option TimeInputRow) (t : Option TimeInput)
        → IsRowOf
            (time_input_row codecs)
            (λ x. (x.period_id ≡ j) × (x.employee_id ≡ k) × IsReadableTimeInput codecs x)
            row
            t
        → read_time_input codecs j k row db ≡ (ok t, db)
    read_time_input_lem j k none none h = refl
    read_time_input_lem j k none (some t) h = absurd h
    read_time_input_lem j k (some row) none h = absurd h
    read_time_input_lem j k (some row) (some t) (same, (first, second, (o, a))) =
        rw same (rw (o, a) (rw (← first) (rw (← second) refl)))

    read_payslip_lem :
        (j k : String) (row : Option PayslipRow) (p : Option PayslipResult)
        → IsRowOf
            (payslip_row codecs)
            (λ x. (x.period_id ≡ j) × (x.employee_id ≡ k) × IsReadablePayslip codecs x)
            row
            p
        → read_payslip codecs j k row db ≡ (ok p, db)
    read_payslip_lem j k none none h = refl
    read_payslip_lem j k none (some p) h = absurd h
    read_payslip_lem j k (some row) none h = absurd h
    read_payslip_lem j k (some row) (some p) (same, (first, second, (g, d, c, a))) =
        rw same (rw (g, d, c, a) (rw (← first) (rw (← second) refl)))

    Refines-Agrees :
        (types : ColumnTypes) (owner its : String → String) (m : Memory)
        → Refines codecs types owner its m db
        → Agrees m db
    unfolding get_employee get_contract get_for_employee get_period get_time_input get_payslip
        find_payslip
    Refines-Agrees types owner its m h = record {
      employees = λ id. read_employee_lem id _ _ (h.employees id);
      contracts = λ id. read_contract_lem id _ _ (h.contracts id);
      of_employees = λ id. read_only_contract_lem _ _ (h.of_employees id);
      periods = λ id. read_period_lem id _ _ (h.periods id);
      time_inputs = λ j k. read_time_input_lem j k _ _ (h.time_inputs j k);
      payslips = λ j k. read_payslip_lem j k _ _ (h.payslips j k);
    }

  module _ (types : ColumnTypes) (owner its : String → String) where
    no_rows-Refines : (cache : Cache) → Refines codecs types owner its (nothing_kept cache) no_rows
    unfolding contracts_of
    no_rows-Refines cache = record {
      employees = λ k. tt;
      contracts = λ k. tt;
      assigned = tt;
      of_employees = λ k. tt;
      periods = λ k. tt;
      time_inputs = λ j k. tt;
      payslips = λ j k. tt;
    }

    steps :
        (us : List Upsert) (m : Memory) (db : Database)
        → All (IsKeepable codecs types owner its) us
        → Refines codecs types owner its m db
        → (db' : Database) × (all_in_sql codecs types us db ≡ (ok tt, db'))
          × Refines codecs types owner its (all_in_memory us m) db'
    unfolding Refinement all_in_sql all_in_memory
    steps [] m db k h = (db, refl, h)
    steps (u ∷ us) m db (k, ks) h =
        let (db1, e1, h1) = step codecs types owner its u m db k h in
        let (db2, e2, h2) = steps us (in_memory u m) db1 ks h1 in
        (
          db2,
          ap
                (λ (out : Result SqlError (Unit {0}) × Database).
                  ((λ (s : Database). out) >> all_in_sql codecs types us) db)
                e1
              ∙ e2,
          h2,
        )

    -- Where employees and contracts are assigned to each other one to one: any upserts of contracts of their
    -- own employees, and of other values, which the columns keep as they are and whose JSON pydantic reads as
    -- it was, succeed on an empty database, and from then on every read of the database, of a contract by its
    -- employee too, answers what the repositories in memory hold after the same upserts, and changes nothing.
    pub upserts-Agrees :
        (us : List Upsert) (cache : Cache)
        → All (IsKeepable codecs types owner its) us
        → (db : Database) × (all_in_sql codecs types us no_rows ≡ (ok tt, db))
          × Agrees (all_in_memory us (nothing_kept cache)) db
    upserts-Agrees us cache k =
        let (db, e, h) = steps us (nothing_kept cache) no_rows k (no_rows-Refines cache) in
        (db, e, Refines-Agrees db types owner its _ h)
