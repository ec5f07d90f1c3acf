-- ===== src/Payroll/Runs/Workflow.antt =====
-- logic/payroll/engine.py, and the session of a request (db/database.py, get_db). A `uuid4` is an argument, and
-- a role is checked against the permissions of the rule document.
use Prim.Native.String.{◌++◌ as text_append}
use erp_agent.Prelude.{
  String, Bool, true, false, ◌||◌, not, Option, none, some, List, [], ◌∷◌, ◌++◌, if◌then◌else◌,
  Dict, lookup, insert, Result, ok, err,
}
use erp_agent.Prelude.Exec.{pure, raise, gets, lift, ◌>>=◌, ◌>>◌}
use erp_agent.Payroll.Runs.{
  Floats, Employee, TimeRecord, earning, PayslipLine, Payslip, RunStatus, collect, calculate,
  review, committed, disbursed, PayrollRunRequest, PayrollRun, AdjustmentRequest, CheckError,
  RunError, employee_exists, invalid_employee, blocked_at_collect, blocked_at_calculate,
  not_permitted, wrong_status, not_adjustable,
}
use erp_agent.Payroll.Runs.Calculator.{gross_pay, deduction_lines}
use erp_agent.Payroll.Runs.Checks.{
  validate_run_request, is_permitted, validate_employee, validate_time_record,
  validate_minimum_wage,
}
use erp_agent.Payroll.Runs.Tables.{
  no_details, of_employee, of_payslip, of_adjustment, AuditEntry, Tables, Db, log, create_row,
  get_row, employee_exists_in, list_rows, create_run, get_run, update_status,
}

abbrev pub is_review : RunStatus → Bool
is_review s = elim s [
  | review ↦ true
  | collect ↦ false
  | calculate ↦ false
  | committed ↦ false
  | disbursed ↦ false
]

abbrev pub is_committed : RunStatus → Bool
is_committed s = elim s [
  | committed ↦ true
  | collect ↦ false
  | calculate ↦ false
  | review ↦ false
  | disbursed ↦ false
]

abbrev pub is_disbursed : RunStatus → Bool
is_disbursed s = elim s [
  | disbursed ↦ true
  | collect ↦ false
  | calculate ↦ false
  | review ↦ false
  | committed ↦ false
]

abbrev pub raise_unless : {F : Type 0} → Bool → RunError → Db F (Unit {0})
raise_unless passes error = if passes then pure tt else raise error

-- `_raise_if_errors`
abbrev pub raise_if_errors :
    {F : Type 0} → List CheckError → (List CheckError → RunError) → Db F (Unit {0})
raise_if_errors [] blocked = pure tt
raise_if_errors (e ∷ es) blocked = raise (blocked (e ∷ es))

-- A session that is closed with no commit leaves the database as it was.
unfoldable pub in_session : {F A : Type 0} → Db F A → Db F A
in_session operation s =
    let (r, s') = operation s in elim r [ ok a ↦ (ok a, s') | err e ↦ (err e, s) ]

-- `{tr.employee_id: tr for tr in time_records}`
unfoldable pub record_map :
    {F : Type 0} → List (TimeRecord F) → Dict (TimeRecord F) → Dict (TimeRecord F)
record_map [] m = m
record_map (tr ∷ trs) m = record_map trs (insert tr.employee_id tr m)

module _ {F : Type 0} (floats : Floats F) (permissions : Dict (List String))
    (refuses : Tables F → Bool) where
  abbrev pub creation : Employee F → AuditEntry F
  creation created = record {
    user_id = "system";
    action = "create";
    entity_type = "employee";
    entity_id = created.id;
    rule_applied = "payroll.yaml §employee_types";
    rule_version = "1.0.0";
    details = of_employee created.name created.type;
  }

  abbrev pub log_creation : Employee F → Db F (Employee F)
  log_creation created = do log floats refuses (creation created); pure created

  abbrev pub check_employee : Employee F → Result RunError (Unit {0})
  check_employee employee = elim (validate_employee floats employee) [
    | [] ↦ ok tt
    | e ∷ es ↦ err (invalid_employee e)
  ]

  unfoldable pub create_employee : Employee F → Db F (Employee F)
  create_employee employee = do
    exists ← gets (employee_exists_in floats refuses employee.id)
    raise_unless (not exists) (employee_exists employee.id)
    lift (check_employee employee)
    created ← create_row floats refuses employee
    log_creation created

  unfoldable pub get_employee : String → Db F (Employee F)
  get_employee id = get_row floats refuses id

  unfoldable pub list_employees : Db F (List (Employee F))
  list_employees = list_rows floats refuses

  abbrev pub record_errors : Option (TimeRecord F) → Employee F → List CheckError
  record_errors none employee = []
  record_errors (some tr) employee = validate_time_record floats tr employee

  unfoldable pub employees_errors : List (Employee F) → List CheckError
  employees_errors [] = []
  employees_errors (e ∷ es) = validate_employee floats e ++ employees_errors es

  unfoldable pub records_errors : Dict (TimeRecord F) → List (Employee F) → List CheckError
  records_errors records [] = []
  records_errors records (e ∷ es) =
      record_errors (lookup e.id records) e ++ records_errors records es

  -- Step 1.
  unfoldable pub collect_errors :
      PayrollRunRequest → List (Employee F) → Dict (TimeRecord F) → List CheckError
  unfolding employees_errors records_errors
  collect_errors request employees records =
      validate_run_request request
      ++ (employees_errors employees ++ records_errors records employees)

  unfoldable pub payslip_of :
      PayrollRunRequest → String → Employee F → F → List (PayslipLine F) × F → Payslip F
  payslip_of request run_id employee gross (ded_lines, total_deductions) = record {
    employee_id = employee.id;
    period_start = request.period_start;
    period_end = request.period_end;
    run_id = run_id;
    gross_pay = floats.round_cents gross;
    total_deductions = total_deductions;
    net_pay = floats.round_cents (floats.sub gross total_deductions);
    lines =
        record { description = "Gross Pay"; amount = floats.round_cents gross; type = earning }
        ∷ ded_lines;
    rule_version = "1.0.0";
  }

  -- The loop of step 2: the payslips, and the errors of their net pays.
  unfoldable pub payslips_of :
      PayrollRunRequest
      → String
      → Dict (TimeRecord F)
      → List (Employee F)
      → Db F (List (Payslip F) × List CheckError)
  unfolding payslip_of
  payslips_of request run_id records [] = pure ([], [])
  payslips_of request run_id records (e ∷ es) = do
    gross ← lift (gross_pay floats e (lookup e.id records))
    deductions ← lift (deduction_lines floats gross e.deduction_elections)
    let slip = payslip_of request run_id e gross deductions
    rest ← payslips_of request run_id records es
    pure (slip ∷ rest.0, validate_minimum_wage floats slip.net_pay ++ rest.1)

  abbrev pub initiation : PayrollRunRequest → String → AuditEntry F
  initiation request run_id = record {
    user_id = request.initiated_by;
    action = "initiate";
    entity_type = "payroll_run";
    entity_id = run_id;
    rule_applied = "payroll.yaml §payroll_run";
    rule_version = "1.0.0";
    details = no_details;
  }

  abbrev pub run_of : PayrollRunRequest → String → List (Payslip F) → PayrollRun F
  run_of request run_id payslips = record {
    id = run_id;
    status = review;
    period_start = request.period_start;
    period_end = request.period_end;
    initiated_by = request.initiated_by;
    approved_by = none;
    payslips = payslips;
    rule_version = "1.0.0";
  }

  abbrev pub persist_run : PayrollRunRequest → String → PayrollRun F → Db F (PayrollRun F)
  persist_run request run_id run = do
    create_run floats refuses run
    log floats refuses (initiation request run_id)
    pure run

  abbrev pub keep_calculated :
      PayrollRunRequest → String → List (Payslip F) × List CheckError → Db F (PayrollRun F)
  keep_calculated request run_id calculated = do
    raise_if_errors calculated.1 blocked_at_calculate
    persist_run request run_id (run_of request run_id calculated.0)

  unfoldable pub initiate_run :
      PayrollRunRequest → List (Employee F) → List (TimeRecord F) → String → Db F (PayrollRun F)
  unfolding record_map collect_errors payslips_of
  initiate_run request employees time_records run_id = do
    let records = record_map time_records []
    raise_if_errors (collect_errors request employees records) blocked_at_collect
    calculated ← payslips_of request run_id records employees
    keep_calculated request run_id calculated

  abbrev pub approval : String → String → AuditEntry F
  approval run_id approved_by = record {
    user_id = approved_by;
    action = "approve";
    entity_type = "payroll_run";
    entity_id = run_id;
    rule_applied = "payroll.yaml §payroll_run.step3";
    rule_version = "1.0.0";
    details = no_details;
  }

  abbrev pub log_approval : String → String → PayrollRun F → Db F (PayrollRun F)
  log_approval run_id approved_by updated = do
    log floats refuses (approval run_id approved_by)
    pure updated

  abbrev pub approve_found : String → String → PayrollRun F → Db F (PayrollRun F)
  approve_found run_id approved_by run = do
    raise_unless (is_review run.status) (wrong_status run_id run.status)
    updated ← update_status floats refuses run_id committed (some approved_by)
    log_approval run_id approved_by updated

  unfoldable pub approve_run : String → String → String → Db F (PayrollRun F)
  approve_run run_id approved_by role = do
    raise_unless (is_permitted permissions "approve_payroll_run" role)
        (not_permitted "approve_payroll_run" role)
    run ← get_run floats refuses run_id
    approve_found run_id approved_by run

  abbrev pub disbursement : String → Payslip F → AuditEntry F
  disbursement run_id slip = record {
    user_id = "system";
    action = "disburse";
    entity_type = "payslip";
    entity_id = text_append run_id (text_append "/" slip.employee_id);
    rule_applied = "payroll.yaml §payroll_run.step4";
    rule_version = slip.rule_version;
    details = of_payslip slip.employee_id slip.gross_pay slip.net_pay;
  }

  unfoldable pub log_payslips : String → List (Payslip F) → Db F (Unit {0})
  log_payslips run_id [] = pure tt
  log_payslips run_id (slip ∷ slips) = do
    log floats refuses (disbursement run_id slip)
    log_payslips run_id slips

  abbrev pub disburse_found : String → PayrollRun F → Db F (PayrollRun F)
  disburse_found run_id run = do
    raise_unless (is_committed run.status) (wrong_status run_id run.status)
    log_payslips run_id run.payslips
    update_status floats refuses run_id disbursed none

  unfoldable pub commit_run : String → Db F (PayrollRun F)
  unfolding log_payslips
  commit_run run_id = do run ← get_run floats refuses run_id; disburse_found run_id run

  -- What the answer says of an adjustment, beside fixed texts.
  pub record Adjustment : Type 0 where
    pub adjustment_id : String
    pub original_run_id : String
    pub employee_id : String
    pub delta_gross : F
    pub reason : String

  abbrev pub adjustment_request : AdjustmentRequest F → AuditEntry F
  adjustment_request request = record {
    user_id = request.requested_by;
    action = "adjustment_requested";
    entity_type = "payroll_run";
    entity_id = request.original_run_id;
    rule_applied = "payroll.yaml §adjustments";
    rule_version = "1.0.0";
    details = of_adjustment request.delta_gross request.reason;
  }

  abbrev pub adjust_found : AdjustmentRequest F → String → PayrollRun F → Db F Adjustment
  adjust_found request adj_id original = do
    raise_unless (is_committed original.status || is_disbursed original.status) not_adjustable
    log floats refuses (adjustment_request request)
    pure (record {
      adjustment_id = adj_id;
      original_run_id = request.original_run_id;
      employee_id = request.employee_id;
      delta_gross = request.delta_gross;
      reason = request.reason;
    })

  unfoldable pub create_adjustment : AdjustmentRequest F → String → String → Db F Adjustment
  create_adjustment request role adj_id = do
    raise_unless (is_permitted permissions "create_adjustment" role)
        (not_permitted "create_adjustment" role)
    original ← get_run floats refuses request.original_run_id
    adjust_found request adj_id original
