-- ===== src/Payroll/Sql/Memory.antt =====
-- The in-memory repositories (db/repositories/memory.py) together, the one of payslips among them, and the same
-- upserts in memory and in the database.
use erp_agent.Prelude.{String, Option, List, [], ◌∷◌}
use erp_agent.Prelude.Exec.{pure, ◌>>=◌, ◌>>◌}
use erp_agent.Payroll.Schemas.{Employee, Contract, PayrollPeriod, TimeInput}
use erp_agent.Payroll.Service.{PairDict, lookup_pair, insert_pair, Repositories}
use erp_agent.Payroll.Service
use erp_agent.Payroll.Engine.Executor.{PayslipResult}
use erp_agent.Payroll.Sql.{ColumnTypes}
use erp_agent.Payroll.Sql.Repositories.{Codecs, Sql}
use erp_agent.Payroll.Sql.Repositories.Employees.{upsert_employee}
use erp_agent.Payroll.Sql.Repositories.Contracts.{upsert_contract}
use erp_agent.Payroll.Sql.Repositories.Periods.{upsert_period}
use erp_agent.Payroll.Sql.Repositories.TimeInputs.{upsert_time_input}
use erp_agent.Payroll.Sql.Repositories.Payslips.{upsert_payslip}

-- InMemoryPayslipRepository
abbrev pub PayslipStore : Type 0
PayslipStore = PairDict PayslipResult

unfoldable pub keep_payslip : PayslipResult → PayslipStore → PayslipStore
keep_payslip p store = insert_pair p.period_id p.employee_id p store

unfoldable pub find_payslip : String → String → PayslipStore → Option PayslipResult
find_payslip period_id employee_id store = lookup_pair period_id employee_id store

pub record Memory : Type 0 where
  pub repositories : Repositories
  pub payslips : PayslipStore

pub data Upsert : Type 0 where
  employee : Employee → Upsert
  contract : Contract → Upsert
  period : PayrollPeriod → Upsert
  time_input : TimeInput → Upsert
  payslip : PayslipResult → Upsert

unfoldable pub in_memory : Upsert → Memory → Memory
unfolding keep_payslip Service.upsert_employee Service.upsert_contract Service.upsert_period
    Service.upsert_time_input
in_memory (employee e) m = record m { repositories = (Service.upsert_employee e m.repositories).1 }
in_memory (contract c) m = record m { repositories = (Service.upsert_contract c m.repositories).1 }
in_memory (period p) m = record m { repositories = (Service.upsert_period p m.repositories).1 }
in_memory (time_input t) m = record m {
  repositories = (Service.upsert_time_input t m.repositories).1;
}
in_memory (payslip p) m = record m { payslips = keep_payslip p m.payslips }

unfoldable pub all_in_memory : List Upsert → Memory → Memory
unfolding in_memory
all_in_memory [] m = m
all_in_memory (u ∷ us) m = all_in_memory us (in_memory u m)

module _ (codecs : Codecs) (types : ColumnTypes) where
  unfoldable pub in_sql : Upsert → Sql (Unit {0})
  in_sql (employee e) = do _ ← upsert_employee codecs types e; pure tt
  in_sql (contract c) = do _ ← upsert_contract codecs types c; pure tt
  in_sql (period p) = do _ ← upsert_period codecs types p; pure tt
  in_sql (time_input t) = do _ ← upsert_time_input codecs types t; pure tt
  in_sql (payslip p) = do _ ← upsert_payslip codecs types p; pure tt

  unfoldable pub all_in_sql : List Upsert → Sql (Unit {0})
  all_in_sql [] = pure tt
  all_in_sql (u ∷ us) = do in_sql u; all_in_sql us
