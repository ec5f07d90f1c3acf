-- ===== src/Payroll/Runs/Tests.antt =====
-- A run of one salaried employee, with whole numbers in place of floating point ones.
use erp_agent.Prelude.{
  ℕ, ◌+◌, ◌-◌, ◌*◌, ◌/◌, String, Bool, false, Option, none, some, List, [], ◌∷◌, Dict, lookup, ltb,
  eqb, length, err, ◌≡◌, refl, ◌⊎◌,
}
use erp_agent.Payroll.Runs.{
  Floats, salaried, monthly, Employee, Payslip, RunStatus, review, disbursed, PayrollRunRequest,
  PayrollRun, missing_compensation,
}
use erp_agent.Payroll.Runs.Calculator.{gross_pay, deduction_lines, deduct}
use erp_agent.Payroll.Runs.Checks.{
  validate_run_request, duplicates, is_permitted, validate_employee, validate_minimum_wage,
}
use erp_agent.Payroll.Runs.Tables.{
  Tables, flush, log, create_row, check_compensation, create_run, get_run, update_status,
  employee_exists_in,
}
use erp_agent.Payroll.Runs.Workflow.{
  in_session, record_map, employees_errors, records_errors, collect_errors, payslip_of, payslips_of,
  create_employee, initiate_run, approve_run, log_payslips, commit_run,
}
use erp_agent.Payroll.Runs.History.{
  Request, initiate, approve, commit, after, after_all, empty_tables, disbursements,
}
use erp_agent.Payroll.Runs.Audited.{IsAudited}
use erp_agent.Payroll.Runs.Reached.{after_all-IsAudited}
use erp_agent.Payroll.Runs.Moves.{Moves, after-moves}

abbrev whole : Floats ℕ
whole = record {
  literal = λ c s. c;
  add = λ a b. a + b;
  sub = λ a b. a - b;
  mul = λ a b. a * b / 100;
  div_by = λ a n. a / n;
  round_cents = λ a. a;
  less = ltb;
  is_zero = λ a. eqb a 0;
}

abbrev permissions : Dict (List String)
permissions =
    ("approve_payroll_run", "finance_director" ∷ []) ∷ ("create_adjustment", "hr_manager" ∷ []) ∷ []

abbrev never : Tables ℕ → Bool
never s = false

abbrev ana : Employee ℕ
ana = record {
  id = "EMP001";
  name = "Ana";
  type = salaried;
  pay_period = monthly;
  annual_salary = some 24000;
  hourly_rate = none;
  deduction_elections = "health_insurance" ∷ [];
}

abbrev january : PayrollRunRequest
january = record {
  period_start = 1;
  period_end = 31;
  employee_ids = "EMP001" ∷ [];
  initiated_by = "rita";
}

abbrev requests : List (Request ℕ)
requests =
    initiate january (ana ∷ []) [] "r1"
    ∷ approve "r1" "rui" "hr_manager"
    ∷ approve "r1" "rui" "finance_director"
    ∷ approve "r1" "eva" "finance_director"
    ∷ commit "r1"
    ∷ commit "r1"
    ∷ []

-- 20, 8 and 3 percent of 2000 are deducted.
abbrev nets : List (Payslip ℕ) → List ℕ
nets [] = []
nets (p ∷ ps) = p.net_pay ∷ nets ps

abbrev net_of : Option (PayrollRun ℕ) → List ℕ
net_of none = []
net_of (some r) = nets r.payslips

abbrev run_in : Tables ℕ → Option (PayrollRun ℕ)
run_in s = lookup "r1" s.runs

abbrev seen : Option (PayrollRun ℕ) → Option (RunStatus × Option String)
seen none = none
seen (some r) = some (r.status, r.approved_by)

initiated_pay :
    net_of
      (run_in (after whole permissions never (initiate january (ana ∷ []) [] "r1") empty_tables))
    ≡ 1380 ∷ []
unfolding after in_session initiate_run record_map collect_errors employees_errors records_errors
    validate_run_request duplicates validate_employee payslips_of payslip_of gross_pay
    deduction_lines deduct validate_minimum_wage create_run log flush
initiated_pay = refl

-- The second approval and the second commit are refused.
run_of_requests :
    (seen (run_in (after_all whole permissions never requests empty_tables))
      ≡ some (disbursed, some "rui"))
    × (disbursements (after_all whole permissions never requests empty_tables).audit ≡ 1)
    × (length (after_all whole permissions never requests empty_tables).audit ≡ 3)
unfolding after_all after in_session initiate_run record_map collect_errors employees_errors
    records_errors validate_run_request duplicates validate_employee payslips_of payslip_of
    gross_pay deduction_lines deduct validate_minimum_wage create_run log flush approve_run
    is_permitted get_run update_status commit_run log_payslips disbursements
run_of_requests = (refl, refl, refl)

-- A salary of zero is stored as none, and the row is refused when it is read back.
unpaid_refused :
    (create_employee whole permissions never (record ana { annual_salary = some 0 }) empty_tables).0
    ≡ err missing_compensation
unfolding create_employee employee_exists_in validate_employee create_row check_compensation flush
    log
unpaid_refused = refl

abbrev waiting : PayrollRun ℕ
waiting = record {
  id = "r1";
  status = review;
  period_start = 1;
  period_end = 31;
  initiated_by = "rita";
  approved_by = none;
  payslips = [];
  rule_version = "1.0.0";
}

abbrev one_waiting : Tables ℕ
one_waiting = record { employees = []; runs = ("r1", waiting) ∷ []; audit = [] }

after-moves_example :
    (new : PayrollRun ℕ) × (lookup "r1"
        (after whole permissions never (approve "r1" "rui" "finance_director") one_waiting).runs
      ≡ some new)
    × ((new ≡ waiting)
        ⊎ Moves whole permissions never "r1" waiting new (approve "r1" "rui" "finance_director"))
after-moves_example =
    after-moves whole permissions never (approve "r1" "rui" "finance_director") one_waiting "r1"
      waiting refl

after_all-IsAudited_example : IsAudited (after_all whole permissions never requests empty_tables)
after_all-IsAudited_example = after_all-IsAudited whole permissions never requests
