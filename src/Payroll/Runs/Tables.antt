-- ===== src/Payroll/Runs/Tables.antt =====
-- db/repositories/payroll_runs.py, employees.py and audit.py. The tables that they name are not in db/models.py:
-- a row is taken to hold what is written into it, the payslips and lines of a run in their order. A `flush`
-- that the database refuses is a parameter, but a key that is there is refused in any case.
use erp_agent.Prelude.{
  String, Bool, Option, none, some, List, [], ◌∷◌, ◌++◌, if◌then◌else◌, is_some, Dict, lookup,
  insert, contains, values, Result, ok, err,
}
use erp_agent.Prelude.Exec.{Exec, pure, raise, gets, lift, modify, require, ◌>>=◌, ◌>>◌}
use erp_agent.Payroll.Runs.{
  Floats, EmployeeType, salaried, hourly, contractor, Employee, RunStatus, PayrollRun, RunError,
  refused, run_not_found, employee_not_found, missing_compensation,
}

pub data Details (F : Type 0) : Type 0 where
  no_details : Details F
  of_employee : (name : String) (type : EmployeeType) → Details F
  of_payslip : (employee_id : String) (gross net : F) → Details F
  of_adjustment : (delta_gross : F) (reason : String) → Details F

pub record AuditEntry (F : Type 0) : Type 0 where
  pub user_id : String
  pub action : String
  pub entity_type : String
  pub entity_id : String
  pub rule_applied : String
  pub rule_version : String
  pub details : Details F

pub record Tables (F : Type 0) : Type 0 where
  pub employees : Dict (Employee F)
  pub runs : Dict (PayrollRun F)
  pub audit : List (AuditEntry F)

abbrev pub Db : Type 0 → Type 0 → Type 0
Db F = Exec RunError (Tables F)

module _ {F : Type 0} (floats : Floats F) (refuses : Tables F → Bool) where
  -- `self.db.flush()`
  unfoldable pub flush : Db F (Unit {0})
  flush = do refusing ← gets refuses; if refusing then raise refused else pure tt

  -- AuditRepository.log
  unfoldable pub log : AuditEntry F → Db F (Unit {0})
  unfolding flush
  log entry = do modify (λ s. record s { audit = s.audit ++ entry ∷ [] }); flush

  -- EmployeeRepository

  -- `float(x) if x else None`
  abbrev pub if_not_zero : Option F → Option F
  if_not_zero none = none
  if_not_zero (some x) = if floats.is_zero x then none else some x

  -- `Employee._check_compensation`
  unfoldable pub check_compensation : Employee F → Result RunError (Employee F)
  check_compensation e = elim e.type [
    | salaried ↦ if is_some e.annual_salary then ok e else err missing_compensation
    | hourly ↦ if is_some e.hourly_rate then ok e else err missing_compensation
    | contractor ↦ ok e
  ]

  abbrev pub row_of : Employee F → Employee F
  row_of employee = record employee {
    annual_salary = if_not_zero employee.annual_salary;
    hourly_rate = if_not_zero employee.hourly_rate;
  }

  abbrev pub add_row : Employee F → Tables F → Tables F
  add_row row s = record s { employees = insert row.id row s.employees }

  unfoldable pub create_row : Employee F → Db F (Employee F)
  unfolding flush check_compensation
  create_row employee = do
    modify (add_row (row_of employee))
    flush
    lift (check_compensation (row_of employee))

  unfoldable pub get_row : String → Db F (Employee F)
  unfolding check_compensation
  get_row id = do
    found ← gets (λ s. lookup id s.employees)
    row ← require found (employee_not_found id)
    lift (check_compensation row)

  unfoldable pub employee_exists_in : String → Tables F → Bool
  employee_exists_in id s = contains id s.employees

  -- `list`, by the time of creation
  unfoldable pub check_all : List (Employee F) → Result RunError (List (Employee F))
  unfolding check_compensation
  check_all [] = ok []
  check_all (e ∷ es) = elim (check_compensation e) [
    | err error ↦ err error
    | ok row ↦ elim (check_all es) [ err error ↦ err error | ok rows ↦ ok (row ∷ rows) ]
  ]

  unfoldable pub list_rows : Db F (List (Employee F))
  unfolding check_all
  list_rows = do rows ← gets (λ s. values s.employees); lift (check_all rows)

  -- PayrollRunRepository

  unfoldable pub create_run : PayrollRun F → Db F (Unit {0})
  unfolding flush
  create_run run = do
    taken ← gets (λ s. contains run.id s.runs)
    if taken then raise refused else pure tt
    modify (λ s. record s { runs = insert run.id run s.runs })
    flush

  unfoldable pub get_run : String → Db F (PayrollRun F)
  get_run id = do found ← gets (λ s. lookup id s.runs); require found (run_not_found id)

  abbrev pub approver : Option String → Option String → Option String
  approver none old = old
  approver (some user) old = some user

  unfoldable pub update_status : String → RunStatus → Option String → Db F (PayrollRun F)
  unfolding get_run flush
  update_status id status approved_by = do
    row ← get_run id
    modify (λ s. record s {
      runs =
          insert id
            (record row { status = status; approved_by = approver approved_by row.approved_by })
            s.runs;
    })
    flush
    get_run id
