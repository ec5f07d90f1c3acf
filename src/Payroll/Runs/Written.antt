-- ===== src/Payroll/Runs/Written.antt =====
-- logic/payroll/engine.py: what each operation that succeeds has written.
use erp_agent.Prelude.{
  String, Bool, true, false, not, ◌||◌, none, some, List, [], ◌∷◌, ◌++◌, Dict, lookup, contains,
  Result, ok, ◌≡◌, refl, sym, ap, ◌∙◌, map, inl, inr, Bool-cases,
}
use mathlib.Core.Path.{subst}
use erp_agent.Prelude.Exec.{
  pure, modify, lift, Preserves, Preserves-bind, Preserves-pure, Preserves-lift, Preserves-modify,
  Preserves-then, >>=-ends, lift-then, ◌>>=◌, ◌>>◌,
}
use erp_agent.Payroll.Runs.{
  Floats, Employee, TimeRecord, PayslipLine, Payslip, committed, disbursed, PayrollRunRequest,
  PayrollRun, AdjustmentRequest, RunError, CheckError, employee_exists, blocked_at_collect,
  blocked_at_calculate, wrong_status, not_adjustable,
}
use erp_agent.Payroll.Runs.Calculator.{gross_pay, deduction_lines}
use erp_agent.Payroll.Runs.Checks.{is_permitted, validate_minimum_wage}
use erp_agent.Payroll.Runs.Tables.{
  Tables, Db, flush, employee_exists_in, log, get_run, update_status, create_row, row_of, add_row,
  check_compensation,
}
use erp_agent.Payroll.Runs.Workflow.{
  is_review, is_committed, is_disbursed, raise_if_errors, record_map, collect_errors, payslip_of,
  payslips_of, creation, log_creation, check_employee, initiation, run_of, persist_run,
  keep_calculated, create_employee, log_approval, approve_found, disburse_found, adjustment_request,
  adjust_found, initiate_run, approval, approve_run, disbursement, log_payslips, commit_run,
  create_adjustment,
}
use erp_agent.Payroll.Runs.Done.{
  Ends, with_entry, with_run, raise_unless-then, log-then, get_run-then, set_status,
  update_status-then, create_run-then, log_payslips-then, some-injective,
}

module _ {F : Type 0} (floats : Floats F) (permissions : Dict (List String))
    (refuses : Tables F → Bool) where
  stays :
      {B : Type 0} {b c : B} {s s' : Tables F}
      → ◌≡◌ {A = Result RunError B × Tables F} (ok c, s) (ok b, s')
      → s' ≡ s
  stays h = ap (λ p. p.1) (sym h)

  flush-Unchanged :
      (s t : Tables F)
      → (t.runs ≡ s.runs) × (t.audit ≡ s.audit)
      → ((flush floats refuses t).1.runs ≡ s.runs) × ((flush floats refuses t).1.audit ≡ s.audit)
  unfolding flush
  flush-Unchanged s t h = elim (Bool-cases (refuses t)) [ inl e ↦ rw e h | inr e ↦ rw e h ]

  with_pure :
      {B : Type 0} {b : B} {s' : Tables F} (m : Db F B) (s : Tables F)
      → Ends m s b s'
      → Ends (m >>= pure) s b s'
  with_pure {b = b} {s' = s'} m s h =
      ap (λ (out : Result RunError _ × Tables F). ((λ (t : Tables F). out) >>= pure) s) h

  raise_if_errors-then :
      {B : Type 0} {b : B} {s' : Tables F} (es : List CheckError)
      (blocked : List CheckError → RunError) (k : Db F B) (s : Tables F)
      → Ends (raise_if_errors es blocked >> k) s b s'
      → Ends k s b s'
  raise_if_errors-then [] blocked k s h = h
  raise_if_errors-then (e ∷ es) blocked k s h = cc

  payslips_of-Unchanged :
      (s : Tables F) (request : PayrollRunRequest) (id : String) (records : Dict (TimeRecord F))
      (employees : List (Employee F))
      → Preserves (λ t. t ≡ s) (payslips_of floats permissions refuses request id records employees)
  unfolding payslips_of
  payslips_of-Unchanged s request id records [] = Preserves-pure _
  payslips_of-Unchanged s request id records (e ∷ es) =
      Preserves-bind {A = F} (Preserves-lift (gross_pay floats e (lookup e.id records))) (λ gross.
        Preserves-bind {A = List (PayslipLine F) × F}
          (Preserves-lift (deduction_lines floats gross e.deduction_elections))
          (λ deductions. Preserves-bind (payslips_of-Unchanged s request id records es) (λ rest.
            Preserves-pure (
              payslip_of floats permissions refuses request id e gross deductions ∷ rest.0,
              validate_minimum_wage floats
                    (payslip_of floats permissions refuses request id e gross deductions).net_pay
                  ++ rest.1,
            ))))

  -- Nothing but the table of employees is written.
  create_row-Unchanged :
      (s : Tables F) (employee : Employee F)
      → Preserves
          (λ t. (t.runs ≡ s.runs) × (t.audit ≡ s.audit))
          (create_row floats refuses employee)
  unfolding create_row
  create_row-Unchanged s employee =
      let row = row_of floats refuses employee in
      Preserves-then {m = modify (add_row floats refuses row)}
        (Preserves-modify (add_row floats refuses row) (λ t h. h))
        (Preserves-then {m = flush floats refuses} (record { at = flush-Unchanged s })
          (Preserves-lift (check_compensation floats refuses row)))

  pub approve_run-done :
      (id by role : String) (s s' : Tables F) (run : PayrollRun F)
      → Ends (approve_run floats permissions refuses id by role) s run s'
      → (r : PayrollRun F) × (lookup id s.runs ≡ some r)
        × (is_permitted permissions "approve_payroll_run" role ≡ true)
        × (is_review r.status ≡ true)
        × (s'
            ≡ with_entry
                (approval floats permissions refuses id by)
                (with_run id (set_status floats refuses committed (some by) r) s))
  unfolding approve_run
  approve_run-done id by role s s' run h =
      let entry = approval floats permissions refuses id by in
      let found_then = approve_found floats permissions refuses id by in
      let write = update_status floats refuses id committed (some by) in
      let finish = log_approval floats permissions refuses id by in
      let (permitted, h1) =
        raise_unless-then (is_permitted permissions "approve_payroll_run" role) _
          (get_run floats refuses id >>= found_then) s h in
      let (r, found, h2) = get_run-then floats refuses id found_then s h1 in
      let (reviewed, h3) =
        raise_unless-then (is_review r.status) (wrong_status id r.status) (write >>= finish) s h2 in
      let (r', found', h4) = update_status-then floats refuses id committed (some by) finish s h3 in
      let new = set_status floats refuses committed (some by) r' in
      let h5 = log-then floats refuses entry (pure new) (with_run id new s) h4 in
      (
        r,
        found,
        permitted,
        reviewed,
        stays h5
            ∙ ap
                (λ x.
                  with_entry entry
                    (with_run id (set_status floats refuses committed (some by) x) s))
                (some-injective (sym found' ∙ found)),
      )

  pub commit_run-done :
      (id : String) (s s' : Tables F) (run : PayrollRun F)
      → Ends (commit_run floats permissions refuses id) s run s'
      → (r : PayrollRun F) × (lookup id s.runs ≡ some r)
        × (is_committed r.status ≡ true)
        × (s'
            ≡ with_run id (set_status floats refuses disbursed none r) (record s {
              audit = s.audit ++ map (disbursement floats permissions refuses id) r.payslips;
            }))
  unfolding commit_run
  commit_run-done id s s' run h =
      let found_then = disburse_found floats permissions refuses id in
      let write = update_status floats refuses id disbursed none in
      let (r, found, h1) = get_run-then floats refuses id found_then s h in
      let (approved, h2) =
        raise_unless-then (is_committed r.status) (wrong_status id r.status)
          (log_payslips floats permissions refuses id r.payslips >> write) s h1 in
      let h3 = log_payslips-then floats refuses permissions id r.payslips write s h2 in
      let logged = record s {
        audit = s.audit ++ map (disbursement floats permissions refuses id) r.payslips;
      } in
      let (r', found', h4) =
        update_status-then floats refuses id disbursed none pure logged
          (with_pure write logged h3) in
      (
        r,
        found,
        approved,
        stays h4
            ∙ ap (λ x. with_run id (set_status floats refuses disbursed none x) logged)
                (some-injective (sym found' ∙ found)),
      )

  pub create_adjustment-done :
      (request : AdjustmentRequest F) (role adj_id : String) (s s' : Tables F) (a : _)
      → Ends (create_adjustment floats permissions refuses request role adj_id) s a s'
      → s' ≡ with_entry (adjustment_request floats permissions refuses request) s
  unfolding create_adjustment
  create_adjustment-done request role adj_id s s' a h =
      let found_then = adjust_found floats permissions refuses request adj_id in
      let (permitted, h1) =
        raise_unless-then (is_permitted permissions "create_adjustment" role) _
          (get_run floats refuses request.original_run_id >>= found_then) s h in
      let (r, found, h2) = get_run-then floats refuses request.original_run_id found_then s h1 in
      let (status, h3) =
        raise_unless-then (is_committed r.status || is_disbursed r.status) not_adjustable
          (log floats refuses (adjustment_request floats permissions refuses request) >> pure _) s
          h2 in
      stays (
        log-then floats refuses (adjustment_request floats permissions refuses request) (pure _) s
          h3)

  pub initiate_run-done :
      (request : PayrollRunRequest) (employees : List (Employee F)) (records : List (TimeRecord F))
      (id : String) (s s' : Tables F) (run : PayrollRun F)
      → Ends (initiate_run floats permissions refuses request employees records id) s run s'
      → (payslips : List (Payslip F)) × (contains id s.runs ≡ false)
        × (s'
            ≡ with_entry
                (initiation floats permissions refuses request id)
                (with_run id (run_of floats permissions refuses request id payslips) s))
  unfolding initiate_run
  initiate_run-done request employees records id s s' run h =
      let calculation =
        payslips_of floats permissions refuses request id (record_map records []) employees in
      let keep = keep_calculated floats permissions refuses request id in
      let h1 =
        raise_if_errors-then
          (collect_errors floats permissions refuses request employees (record_map records []))
          blocked_at_collect (calculation >>= keep) s h in
      let (calculated, t, e2, h2) = >>=-ends calculation keep s h1 in
      let same : t ≡ s =
        sym (ap (λ p. p.1) e2)
        ∙ (payslips_of-Unchanged s request id (record_map records []) employees).at s refl in
      let new = run_of floats permissions refuses request id (calculated.0) in
      let entry = initiation floats permissions refuses request id in
      let h3 =
        raise_if_errors-then (calculated.1) blocked_at_calculate
          (persist_run floats permissions refuses request id new) t h2 in
      let (free, h4) =
        create_run-then floats refuses new (log floats refuses entry >> pure new) t h3 in
      let h5 = log-then floats refuses entry (pure new) (with_run id new t) h4 in
      (
        calculated.0,
        subst (λ x. contains id x.runs ≡ false) same free,
        stays h5 ∙ ap (λ x. with_entry entry (with_run id new x)) same,
      )

  pub create_employee-done :
      (employee : Employee F) (s s' : Tables F) (created : Employee F)
      → Ends (create_employee floats permissions refuses employee) s created s'
      → (row : Employee F) × (t : Tables F) × (t.runs ≡ s.runs)
        × (t.audit ≡ s.audit)
        × (s' ≡ with_entry (creation floats permissions refuses row) t)
  unfolding create_employee
  create_employee-done employee s s' created h =
      let write = create_row floats refuses employee in
      let finish = log_creation floats permissions refuses in
      let (fresh, h1) =
        raise_unless-then (not (employee_exists_in floats refuses employee.id s))
          (employee_exists employee.id)
          (lift (check_employee floats permissions refuses employee) >> (write >>= finish)) s h in
      let (u, checked, h2) =
        lift-then (check_employee floats permissions refuses employee) (λ v. write >>= finish) s
          h1 in
      let (row, t, e3, h3) = >>=-ends write finish s h2 in
      let (runs, audit) = (create_row-Unchanged s employee).at s (refl, refl) in
      let after = ap (λ p. p.1) e3 in
      (
        row,
        t,
        ap (λ x. x.runs) (sym after) ∙ runs,
        ap (λ x. x.audit) (sym after) ∙ audit,
        stays (log-then floats refuses (creation floats permissions refuses row) (pure row) t h3),
      )
