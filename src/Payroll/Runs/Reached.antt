-- ===== src/Payroll/Runs/Reached.antt =====
-- logic/payroll/engine.py: after any requests the runs and the audit log agree.
use erp_agent.Prelude.{
  suc, String, Bool, true, false, ◌||◌, ◌==◌, Option, none, some, List, [], ◌∷◌, ◌++◌, Dict, lookup,
  insert, contains, map, ◌≡◌, refl, sym, ap, arith, eq_iff, eq_refl, is_some, lookup-insert,
  Bool-cases, inl, inr,
}
use mathlib.Core.Path.{subst}
use erp_agent.Payroll.Runs.{Floats, Payslip, committed, disbursed, PayrollRun}
use erp_agent.Payroll.Runs.Tables.{AuditEntry, Tables}
use erp_agent.Payroll.Runs.Workflow.{
  is_review, is_committed, is_disbursed, disbursement, approval, initiation, creation,
  adjustment_request, run_of, create_employee, initiate_run, approve_run, commit_run,
  create_adjustment,
}
use erp_agent.Payroll.Runs.Done.{with_entry, with_run, set_status}
use erp_agent.Payroll.Runs.Written.{
  approve_run-done, commit_run-done, create_adjustment-done, initiate_run-done,
  create_employee-done,
}
use erp_agent.Payroll.Runs.Ledger.{
  entries-other, entries-counted, approver_of-other, approver_of-approved, disbursements-snoc,
  all_due-insert, all_due-replace, entries-append_disbursements, approver_of-append_disbursements,
  disbursements-append_disbursements,
}
use erp_agent.Payroll.Runs.Audited.{
  AccountsIn, IsAudited, Approvals-approved, Approvals-disbursed, not_disbursed, other-IsAudited,
  Accounts-updated, in_session_ind,
}
use erp_agent.Payroll.Runs.History.{
  Request, create, initiate, approve, commit, adjust, after, after_all, empty_tables, is_entry,
  entries, approver_of, disbursements, due, all_due,
}

module _ {F : Type 0} (floats : Floats F) (permissions : Dict (List String))
    (refuses : Tables F → Bool) where
  own_entry :
      (action : String) (id : String) (e : AuditEntry F)
      → (action == e.action) ≡ true
      → e.entity_id ≡ id
      → is_entry action id e ≡ true
  own_entry action id e a own = rw a (rw own (eq_refl id))

  due_none : (r : PayrollRun F) → is_disbursed r.status ≡ false → due r ≡ 0
  due_none r h = rw h refl

  or_true : (a : Bool) → (a || true) ≡ true
  or_true true = refl
  or_true false = refl

  same_tables : (s t : Tables F) → t.runs ≡ s.runs → t.audit ≡ s.audit → IsAudited s → IsAudited t
  same_tables s t runs audit h = record {
    accounts = λ id. rw (runs, audit) (h.accounts id);
    paid = rw (runs, audit) h.paid;
  }

  known :
      (id : String) (found : Option (PayrollRun F)) (s : Tables F)
      → lookup id s.runs ≡ found
      → IsAudited s
      → AccountsIn found id s.audit
  known id found s e h = subst (λ x. AccountsIn x id s.audit) e (h.accounts id)

  missing_of : (o : Option (PayrollRun F)) → is_some o ≡ false → o ≡ none
  missing_of none h = refl
  missing_of (some r) h = cc

  approved-IsAudited :
      (id by : String) (r : PayrollRun F) (s : Tables F)
      → lookup id s.runs ≡ some r
      → is_review r.status ≡ true
      → IsAudited s
      → IsAudited (
          with_entry
            (approval floats permissions refuses id by)
            (with_run id (set_status floats refuses committed (some by) r) s))
  approved-IsAudited id by r s found reviewed h =
      let e = approval floats permissions refuses id by in
      let new = set_status floats refuses committed (some by) r in
      let (once, approvals, user) = known id (some r) s found h in
      let (approvals', user') =
        Approvals-approved r.status (entries "approve" id s.audit) (approver_of id s.audit) by
          reviewed approvals in
      record {
        accounts = Accounts-updated id new e refl s h (
            rw
              (
                entries-other "initiate" id s.audit e refl,
                entries-counted "approve" id s.audit e (own_entry "approve" id e refl refl),
                approver_of-approved id s.audit e (own_entry "approve" id e refl refl),
              )
              (once, approvals', user'));
        paid = omega (
          arith,
          disbursements-snoc s.audit e,
          all_due-replace id r new s.runs found,
          due_none r (not_disbursed r.status (rw reviewed refl)),
          h.paid,
        );
      }

  initiated-IsAudited :
      (request : _) (id : String) (payslips : List (Payslip F)) (s : Tables F)
      → contains id s.runs ≡ false
      → IsAudited s
      → IsAudited (
          with_entry
            (initiation floats permissions refuses request id)
            (with_run id (run_of floats permissions refuses request id payslips) s))
  initiated-IsAudited request id payslips s fresh h =
      let e = initiation floats permissions refuses request id in
      let new = run_of floats permissions refuses request id payslips in
      let missing = missing_of (lookup id s.runs) fresh in
      let (never, unapproved, nobody) = known id none s missing h in
      record {
        accounts = Accounts-updated id new e refl s h (
            rw
              (
                entries-counted "initiate" id s.audit e (own_entry "initiate" id e refl refl),
                entries-other "approve" id s.audit e refl,
                approver_of-other id s.audit e refl,
              )
              (ap suc never, (unapproved, nobody), sym nobody));
        paid =
            omega
              (arith, disbursements-snoc s.audit e, all_due-insert id new s.runs missing, h.paid);
      }

  -- Disbursements are entries of no approval and no initiation.
  AccountsIn-disbursed :
      (id : String) (new : PayrollRun F) (slips : List (Payslip F)) (s : Tables F)
      → IsAudited s
      → AccountsIn (some new) id s.audit
      → (j : String)
      → AccountsIn
          (lookup j (insert id new s.runs))
          j
          (s.audit ++ map (disbursement floats permissions refuses id) slips)
  AccountsIn-disbursed id new slips s h k j =
      rw
        (
          lookup-insert id j new s.runs,
          entries-append_disbursements floats permissions refuses "initiate" j id s.audit slips
              refl,
          entries-append_disbursements floats permissions refuses "approve" j id s.audit slips refl,
          approver_of-append_disbursements floats permissions refuses j id s.audit slips,
        )
        (elim (Bool-cases (j == id)) [
          | inl same ↦
              rw same (subst (λ x. AccountsIn (some new) x s.audit) (sym ((eq_iff j id).0 same)) k)
          | inr other ↦ rw other (h.accounts j)
        ])

  disbursed-IsAudited :
      (id : String) (r : PayrollRun F) (s : Tables F)
      → lookup id s.runs ≡ some r
      → is_committed r.status ≡ true
      → IsAudited s
      → IsAudited (
          with_run id (set_status floats refuses disbursed none r) (record s {
            audit = s.audit ++ map (disbursement floats permissions refuses id) r.payslips;
          }))
  disbursed-IsAudited id r s found approved h =
      let new = set_status floats refuses disbursed none r in
      let (once, approvals, user) = known id (some r) s found h in
      record {
        accounts = λ j.
            AccountsIn-disbursed id new r.payslips s h
              (
                once,
                Approvals-disbursed r.status (entries "approve" id s.audit) (approver_of id s.audit)
                    approved approvals,
                user,
              )
              j;
        paid = omega (
          arith,
          disbursements-append_disbursements floats permissions refuses id s.audit r.payslips,
          all_due-replace id r new s.runs found,
          due_none r (not_disbursed r.status (rw approved (or_true (is_review r.status)))),
          h.paid,
        );
      }

  after-IsAudited :
      (r : Request F) (s : Tables F)
      → IsAudited s
      → IsAudited (after floats permissions refuses r s)
  unfolding after
  after-IsAudited (create employee) s h =
      in_session_ind IsAudited (create_employee floats permissions refuses employee) s h
        (λ b s' run.
          let (row, t, runs, audit, e) =
            create_employee-done floats permissions refuses employee s s' b run in
          subst IsAudited (sym e) (
            other-IsAudited (creation floats permissions refuses row) t refl refl refl
              (same_tables s t runs audit h)))
  after-IsAudited (initiate request employees records id) s h =
      in_session_ind IsAudited
        (initiate_run floats permissions refuses request employees records id) s h
        (λ b s' run.
          let (payslips, fresh, e) =
            initiate_run-done floats permissions refuses request employees records id s s' b run in
          subst IsAudited (sym e) (initiated-IsAudited request id payslips s fresh h))
  after-IsAudited (approve id by role) s h =
      in_session_ind IsAudited (approve_run floats permissions refuses id by role) s h (λ b s' run.
        let (r, found, permitted, reviewed, e) =
          approve_run-done floats permissions refuses id by role s s' b run in
        subst IsAudited (sym e) (approved-IsAudited id by r s found reviewed h))
  after-IsAudited (commit id) s h =
      in_session_ind IsAudited (commit_run floats permissions refuses id) s h (λ b s' run.
        let (r, found, approved, e) = commit_run-done floats permissions refuses id s s' b run in
        subst IsAudited (sym e) (disbursed-IsAudited id r s found approved h))
  after-IsAudited (adjust request role adjustment_id) s h =
      in_session_ind IsAudited
        (create_adjustment floats permissions refuses request role adjustment_id) s h
        (λ b s' run.
          subst IsAudited
            (sym (
              create_adjustment-done floats permissions refuses request role adjustment_id s s' b
                run))
            (other-IsAudited (adjustment_request floats permissions refuses request) s refl refl
              refl h))

  kept-IsAudited :
      (rs : List (Request F)) (s : Tables F)
      → IsAudited s
      → IsAudited (after_all floats permissions refuses rs s)
  unfolding after_all
  kept-IsAudited [] s h = h
  kept-IsAudited (r ∷ rs) s h =
      kept-IsAudited rs (after floats permissions refuses r s) (after-IsAudited r s h)

  empty-IsAudited : IsAudited {F = F} empty_tables
  unfolding entries approver_of disbursements all_due
  empty-IsAudited = record { accounts = λ id. (refl, refl, refl); paid = refl }

  -- After any requests to an empty database, whatever flushes it refuses: a run that is there was initiated by
  -- one entry of the audit log, is under review with no approval, or is committed or disbursed with a single
  -- one, and its approver is the user of that entry; for a run that is not there the log has neither. The
  -- log has as many disbursements as the disbursed runs have payslips.
  pub after_all-IsAudited :
      (rs : List (Request F)) → IsAudited (after_all floats permissions refuses rs empty_tables)
  after_all-IsAudited rs = kept-IsAudited rs empty_tables empty-IsAudited
