-- ===== src/Payroll/Sql/Refines.antt =====
-- The relation between the tables and the repositories in memory, and one upsert on either side.
pub mod Rows
use erp_agent.Prelude.{
  [], ◌∷◌, String, ◌==◌, Option, none, some, Dict, lookup, insert, Result, ok, ◌≡◌, refl,
  lookup-insert, Bool-cases, inl, inr, ap,
}
use erp_agent.Prelude.Exec.{pure, gets, lift, modify, ◌>>=◌, ◌>>◌}
use erp_agent.Payroll.Schemas.{Contract, Employee, PayrollPeriod, TimeInput}
use erp_agent.Payroll.Engine.Executor.{PayslipResult}
use erp_agent.Payroll.Service.{lookup_pair, insert_pair}
use erp_agent.Payroll.Service
use erp_agent.Payroll.Sql.{
  keyed, ContractRow, Database, SqlError, ColumnTypes, store_employee, store_contract, store_period,
  store_time_input, store_payslip,
}
use erp_agent.Payroll.Sql.Repositories.{Codecs, save}
use erp_agent.Payroll.Sql.Repositories.Employees.{employee_row, assign_employee, upsert_employee}
use erp_agent.Payroll.Sql.Repositories.Contracts.{
  contract_row, contracts_of, assign_contract, upsert_contract,
}
use erp_agent.Payroll.Sql.Repositories.Periods.{period_row, assign_period, upsert_period}
use erp_agent.Payroll.Sql.Repositories.TimeInputs.{
  time_input_row, assign_time_input, upsert_time_input,
}
use erp_agent.Payroll.Sql.Repositories.Payslips.{payslip_row, assign_payslip, upsert_payslip}
use erp_agent.Payroll.Sql.Memory.{
  keep_payslip, Memory, Upsert, employee, contract, period, time_input, payslip, in_memory, in_sql,
}
use erp_agent.Payroll.Sql.Contracts.{IsAssigned, insert-IsAssigned, contracts_of-insert}
use erp_agent.Payroll.Sql.Refines.Rows.{
  Corresponds, CorrespondsPairwise, Corresponds-insert, CorrespondsPairwise-insert, IsOnlyContract,
  IsReadableEmployee, IsReadableContract, IsReadablePeriod, IsReadableTimeInput, IsReadablePayslip,
}

-- A new row that the database takes under its key and keeps as it is.
abbrev pub IsStored :
    {Row : Type 0} → Row → Result SqlError Row → (Row → Result SqlError Row) → Type 0
IsStored row fresh store = (fresh ≡ ok row) × (store row ≡ ok row)

save_lem :
    {Row : Type 0} (row : Row) (find : Database → Option Row) (fresh : Result SqlError Row)
    (assign : Row → Row) (store : Row → Result SqlError Row) (put : Row → Database → Database)
    (s : Database)
    → ((r : Row) → assign r ≡ row)
    → IsStored row fresh store
    → save find fresh assign store put s ≡ (ok tt, put row s)
unfolding save
save_lem {Row = Row} row find fresh assign store put s same (new, kept) = cases (find s)
  where
    cases :
        (found : Option Row)
        → ((gets (λ (s' : Database). found) >>= λ r.
              (lift (elim r [ none ↦ fresh | some old ↦ ok (assign old) ]) >>= λ x.
              (lift (store x) >>= λ k. modify (put k))))
            s)
          ≡ (ok tt, put row s)
    cases none = rw new (rw kept refl)
    cases (some r) = rw (same r) (rw kept refl)

pub saved :
    {Row A : Type 0} (a : A) (row : Row) (find : Database → Option Row)
    (fresh : Result SqlError Row) (assign : Row → Row) (store : Row → Result SqlError Row)
    (put : Row → Database → Database) (s : Database)
    → ((r : Row) → assign r ≡ row)
    → IsStored row fresh store
    → ((save find fresh assign store put >> pure a) >>= λ _. pure tt) s ≡ (ok tt, put row s)
saved a row find fresh assign store put s same kept =
    ap
      (λ (out : Result SqlError (Unit {0}) × Database).
        (((λ (s' : Database). out) >> pure a) >>= λ _. pure tt) s)
      (save_lem row find fresh assign store put s same kept)

module _ (codecs : Codecs) (types : ColumnTypes) (owner its : String → String) where
  -- What an upsert asks for: the columns keep its values as they are, these are readable, and a contract is
  -- that of its employee.
  abbrev pub IsKeepable : Upsert → Type 0
  IsKeepable (employee e) =
      IsStored (employee_row codecs e) (keyed types (e.employee_id ∷ []) (employee_row codecs e))
        (store_employee types)
      × IsReadableEmployee codecs e
  IsKeepable (contract c) =
      IsStored (contract_row codecs c) (keyed types (c.contract_id ∷ []) (contract_row codecs c))
        (store_contract types)
      × IsReadableContract codecs c
      × (owner c.contract_id ≡ c.employee_id)
      × (its c.employee_id ≡ c.contract_id)
  IsKeepable (period p) =
      IsStored (period_row codecs p) (keyed types (p.period_id ∷ []) (period_row codecs p))
        (store_period types)
      × IsReadablePeriod codecs p
  IsKeepable (time_input t) =
      IsStored (time_input_row codecs t)
        (keyed types (t.period_id ∷ t.employee_id ∷ []) (time_input_row codecs t))
        (store_time_input types)
      × IsReadableTimeInput codecs t
  IsKeepable (payslip p) =
      IsStored (payslip_row codecs p)
        (keyed types (p.period_id ∷ p.employee_id ∷ []) (payslip_row codecs p))
        (store_payslip types)
      × IsReadablePayslip codecs p

  pub record Refines (m : Memory) (db : Database) : Type 0 where
    pub employees :
        Corresponds
          (employee_row codecs)
          (λ k e. (e.employee_id ≡ k) × IsReadableEmployee codecs e)
          db.employees
          m.repositories.employees
    pub contracts :
        Corresponds
          (contract_row codecs)
          (λ k c. (c.contract_id ≡ k) × IsReadableContract codecs c)
          db.contracts
          m.repositories.contracts_by_id
    pub assigned : IsAssigned owner its db.contracts
    pub of_employees :
        (k : String)
        → IsOnlyContract
            (contract_row codecs)
            (IsReadableContract codecs)
            (contracts_of k db.contracts)
            (lookup k m.repositories.contracts_by_employee)
    pub periods :
        Corresponds
          (period_row codecs)
          (λ k p. (p.period_id ≡ k) × IsReadablePeriod codecs p)
          db.periods
          m.repositories.periods
    pub time_inputs :
        CorrespondsPairwise
          (time_input_row codecs)
          (λ j k t. (t.period_id ≡ j) × (t.employee_id ≡ k) × IsReadableTimeInput codecs t)
          db.time_inputs
          m.repositories.time_inputs
    pub payslips :
        CorrespondsPairwise
          (payslip_row codecs)
          (λ j k p. (p.period_id ≡ j) × (p.employee_id ≡ k) × IsReadablePayslip codecs p)
          db.payslips
          m.payslips

  IsOnlyContract-insert :
      (c : Contract) (table : Dict ContractRow) (store : Dict Contract) (k : String)
      → owner c.contract_id ≡ c.employee_id
      → its c.employee_id ≡ c.contract_id
      → IsReadableContract codecs c
      → IsAssigned owner its table
      → IsOnlyContract
          (contract_row codecs)
          (IsReadableContract codecs)
          (contracts_of k table)
          (lookup k store)
      → IsOnlyContract
          (contract_row codecs)
          (IsReadableContract codecs)
          (contracts_of k (insert c.contract_id (contract_row codecs c) table))
          (lookup k (insert c.employee_id c store))
  IsOnlyContract-insert c table store k o i v a h =
      rw
        (
          contracts_of-insert owner its k c.contract_id (contract_row codecs c) table o i a,
          lookup-insert c.employee_id k c store,
        )
        (elim (Bool-cases (k == c.employee_id)) [
          | inl same ↦ rw same (refl, refl, v)
          | inr other ↦ rw other h
        ])

  unfoldable pub Refinement : Upsert → Memory → Database → Type 0
  Refinement u m db =
      (db' : Database) × (in_sql codecs types u db ≡ (ok tt, db')) × Refines (in_memory u m) db'

  employee-Refinement :
      (e : Employee) (m : Memory) (db : Database)
      → IsKeepable (employee e)
      → Refines m db
      → Refinement (employee e) m db
  unfolding Refinement in_sql in_memory upsert_employee Service.upsert_employee
  employee-Refinement e m db (k, v) h = (
    record db { employees = insert e.employee_id (employee_row codecs e) db.employees },
    saved e (employee_row codecs e) (λ s. lookup e.employee_id s.employees)
        (keyed types (e.employee_id ∷ []) (employee_row codecs e)) (assign_employee codecs e)
        (store_employee types)
        (λ row s. record s { employees = insert e.employee_id row s.employees }) db (λ r. refl) k,
    record {
      employees = Corresponds-insert _ _ _ e _ _ (refl, v) h.employees;
      contracts = h.contracts;
      assigned = h.assigned;
      of_employees = h.of_employees;
      periods = h.periods;
      time_inputs = h.time_inputs;
      payslips = h.payslips;
    },
  )

  contract-Refinement :
      (c : Contract) (m : Memory) (db : Database)
      → IsKeepable (contract c)
      → Refines m db
      → Refinement (contract c) m db
  unfolding Refinement in_sql in_memory upsert_contract Service.upsert_contract
  contract-Refinement c m db (k, v, o, i) h = (
    record db { contracts = insert c.contract_id (contract_row codecs c) db.contracts },
    saved c (contract_row codecs c) (λ s. lookup c.contract_id s.contracts)
        (keyed types (c.contract_id ∷ []) (contract_row codecs c)) (assign_contract codecs c)
        (store_contract types)
        (λ row s. record s { contracts = insert c.contract_id row s.contracts }) db (λ r. refl) k,
    record {
      employees = h.employees;
      contracts = Corresponds-insert _ _ _ c _ _ (refl, v) h.contracts;
      assigned = insert-IsAssigned owner its _ _ _ o i h.assigned;
      of_employees = λ j. IsOnlyContract-insert c _ _ j o i v h.assigned (h.of_employees j);
      periods = h.periods;
      time_inputs = h.time_inputs;
      payslips = h.payslips;
    },
  )

  period-Refinement :
      (p : PayrollPeriod) (m : Memory) (db : Database)
      → IsKeepable (period p)
      → Refines m db
      → Refinement (period p) m db
  unfolding Refinement in_sql in_memory upsert_period Service.upsert_period
  period-Refinement p m db (k, v) h = (
    record db { periods = insert p.period_id (period_row codecs p) db.periods },
    saved p (period_row codecs p) (λ s. lookup p.period_id s.periods)
        (keyed types (p.period_id ∷ []) (period_row codecs p)) (assign_period codecs p)
        (store_period types) (λ row s. record s { periods = insert p.period_id row s.periods }) db
        (λ r. refl) k,
    record {
      employees = h.employees;
      contracts = h.contracts;
      assigned = h.assigned;
      of_employees = h.of_employees;
      periods = Corresponds-insert _ _ _ p _ _ (refl, v) h.periods;
      time_inputs = h.time_inputs;
      payslips = h.payslips;
    },
  )

  time_input-Refinement :
      (t : TimeInput) (m : Memory) (db : Database)
      → IsKeepable (time_input t)
      → Refines m db
      → Refinement (time_input t) m db
  unfolding Refinement in_sql in_memory upsert_time_input Service.upsert_time_input
  time_input-Refinement t m db (k, v) h = (
    record db {
      time_inputs = insert_pair t.period_id t.employee_id (time_input_row codecs t) db.time_inputs;
    },
    saved t (time_input_row codecs t) (λ s. lookup_pair t.period_id t.employee_id s.time_inputs)
        (keyed types (t.period_id ∷ t.employee_id ∷ []) (time_input_row codecs t))
        (assign_time_input codecs t) (store_time_input types)
        (λ row s. record s {
          time_inputs = insert_pair t.period_id t.employee_id row s.time_inputs;
        })
        db (λ r. refl) k,
    record {
      employees = h.employees;
      contracts = h.contracts;
      assigned = h.assigned;
      of_employees = h.of_employees;
      periods = h.periods;
      time_inputs = CorrespondsPairwise-insert _ _ _ _ t _ _ (refl, refl, v) h.time_inputs;
      payslips = h.payslips;
    },
  )

  payslip-Refinement :
      (p : PayslipResult) (m : Memory) (db : Database)
      → IsKeepable (payslip p)
      → Refines m db
      → Refinement (payslip p) m db
  unfolding Refinement in_sql in_memory upsert_payslip keep_payslip
  payslip-Refinement p m db (k, v) h = (
    record db {
      payslips = insert_pair p.period_id p.employee_id (payslip_row codecs p) db.payslips;
    },
    saved p (payslip_row codecs p) (λ s. lookup_pair p.period_id p.employee_id s.payslips)
        (keyed types (p.period_id ∷ p.employee_id ∷ []) (payslip_row codecs p))
        (assign_payslip codecs p) (store_payslip types)
        (λ row s. record s { payslips = insert_pair p.period_id p.employee_id row s.payslips }) db
        (λ r. refl) k,
    record {
      employees = h.employees;
      contracts = h.contracts;
      assigned = h.assigned;
      of_employees = h.of_employees;
      periods = h.periods;
      time_inputs = h.time_inputs;
      payslips = CorrespondsPairwise-insert _ _ _ _ p _ _ (refl, refl, v) h.payslips;
    },
  )

  pub step :
      (u : Upsert) (m : Memory) (db : Database) → IsKeepable u → Refines m db → Refinement u m db
  step (employee e) = employee-Refinement e
  step (contract c) = contract-Refinement c
  step (period p) = period-Refinement p
  step (time_input t) = time_input-Refinement t
  step (payslip p) = payslip-Refinement p
