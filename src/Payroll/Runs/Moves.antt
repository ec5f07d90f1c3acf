-- ===== src/Payroll/Runs/Moves.antt =====
-- logic/payroll/engine.py: what a request may change of a run that is there.
use erp_agent.Prelude.{
  String, Bool, true, false, ◌==◌, Option, none, some, List, Dict, lookup, insert, contains, ◌≡◌,
  refl, sym, ap, ◌∙◌, is_some, eq_iff, lookup-insert, Bool-cases, inl, inr, ◌⊎◌,
}
use mathlib.Core.Path.{subst}
use erp_agent.Payroll.Runs.{
  Floats, committed, disbursed, PayrollRun, Employee, TimeRecord, PayrollRunRequest,
  AdjustmentRequest,
}
use erp_agent.Payroll.Runs.Checks.{is_permitted}
use erp_agent.Payroll.Runs.Tables.{Tables}
use erp_agent.Payroll.Runs.Workflow.{
  is_review, is_committed, create_employee, initiate_run, approve_run, commit_run,
  create_adjustment,
}
use erp_agent.Payroll.Runs.Done.{set_status, some-injective}
use erp_agent.Payroll.Runs.Written.{
  approve_run-done, commit_run-done, create_adjustment-done, initiate_run-done,
  create_employee-done,
}
use erp_agent.Payroll.Runs.Audited.{in_session_ind}
use erp_agent.Payroll.Runs.History.{Request, create, initiate, approve, commit, adjust, after}

module _ {F : Type 0} (floats : Floats F) (permissions : Dict (List String))
    (refuses : Tables F → Bool) where
  -- How a request may move a run: an approval by a role with the permission takes it from review to committed,
  -- and a commit from committed to disbursed. All else of the run stays.
  pub data Moves (id : String) (old new : PayrollRun F) : Request F → Type 0 where
    approved :
        (by role : String)
        → (is_permitted permissions "approve_payroll_run" role ≡ true)
        → (is_review old.status ≡ true)
        → (new ≡ record old { status = committed; approved_by = some by })
        → Moves id old new (approve id by role)
    paid_out :
        (is_committed old.status ≡ true)
        → (new ≡ record old { status = disbursed })
        → Moves id old new (commit id)

  abbrev MayMove : Request F → String → PayrollRun F → Tables F → Type 0
  MayMove request id old s =
      (new : PayrollRun F) × (lookup id s.runs ≡ some new)
      × ((new ≡ old) ⊎ Moves id old new request)

  absent : (o : Option (PayrollRun F)) (r : PayrollRun F) → is_some o ≡ false → o ≡ some r → ⊥
  absent none r h e = cc
  absent (some x) r h e = cc

  same_run :
      (run_id id : String) (r old : PayrollRun F) (runs : Dict (PayrollRun F))
      → id ≡ run_id
      → lookup run_id runs ≡ some r
      → lookup id runs ≡ some old
      → r ≡ old
  same_run run_id id r old runs same there found =
      some-injective (sym there ∙ (ap (λ x. lookup x runs) (sym same) ∙ found))

  -- A run was put into the table: under another id, or in place of this one.
  put :
      (request : Request F) (run_id id : String) (old put_run : PayrollRun F)
      (runs : Dict (PayrollRun F))
      → lookup id runs ≡ some old
      → ((id ≡ run_id) → Moves id old put_run request)
      → (new : PayrollRun F) × (lookup id (insert run_id put_run runs) ≡ some new)
        × ((new ≡ old) ⊎ Moves id old new request)
  put request run_id id old put_run runs found move = elim (Bool-cases (id == run_id)) [
    | inl same ↦ (
      put_run,
      rw (lookup-insert run_id id put_run runs) (rw same refl),
      inr (move ((eq_iff id run_id).0 same)),
    )
    | inr other ↦ (old, rw (lookup-insert run_id id put_run runs) (rw other found), inl refl)
  ]

  create-moves :
      (employee : Employee F) (s : Tables F) (id : String) (old : PayrollRun F)
      → lookup id s.runs ≡ some old
      → MayMove (create employee) id old (after floats permissions refuses (create employee) s)
  unfolding after
  create-moves employee s id old found =
      in_session_ind (MayMove (create employee) id old)
        (create_employee floats permissions refuses employee) s (old, found, inl refl)
        (λ b s' run.
          let (row, t, runs, audit, e) =
            create_employee-done floats permissions refuses employee s s' b run in
          (
            old,
            ap (λ (x : Tables F). lookup id x.runs) e ∙ (ap (lookup id) runs ∙ found),
            inl refl,
          ))

  initiate-moves :
      (request : PayrollRunRequest) (employees : List (Employee F)) (records : List (TimeRecord F))
      (run_id : String) (s : Tables F) (id : String) (old : PayrollRun F)
      → lookup id s.runs ≡ some old
      → MayMove
          (initiate request employees records run_id)
          id
          old
          (after floats permissions refuses (initiate request employees records run_id) s)
  unfolding after
  initiate-moves request employees records run_id s id old found =
      in_session_ind (MayMove (initiate request employees records run_id) id old)
        (initiate_run floats permissions refuses request employees records run_id) s
        (old, found, inl refl)
        (λ b s' run.
          let (payslips, fresh, e) =
            initiate_run-done floats permissions refuses request employees records run_id s s' b
              run in
          subst (MayMove (initiate request employees records run_id) id old) (sym e) (
            put _ run_id id old _ s.runs found (λ same. absurd (
              absent (lookup id s.runs) old
                (subst (λ x. contains x s.runs ≡ false) (sym same) fresh) found))))

  approve-moves :
      (run_id : String) (by : String) (role : String) (s : Tables F) (id : String)
      (old : PayrollRun F)
      → lookup id s.runs ≡ some old
      → MayMove
          (approve run_id by role)
          id
          old
          (after floats permissions refuses (approve run_id by role) s)
  unfolding after
  approve-moves run_id by role s id old found =
      in_session_ind (MayMove (approve run_id by role) id old)
        (approve_run floats permissions refuses run_id by role) s (old, found, inl refl)
        (λ b s' run.
          let (r, there, permitted, reviewed, e) =
            approve_run-done floats permissions refuses run_id by role s s' b run in
          subst (MayMove (approve run_id by role) id old) (sym e) (
            put _ run_id id old _ s.runs found (λ same.
              let r_is_old = same_run run_id id r old s.runs same there found in
              subst
                (λ x.
                  Moves id old (set_status floats refuses committed (some by) r)
                    (approve x by role))
                same
                (approved by role permitted
                  (subst (λ x. is_review x.status ≡ true) r_is_old reviewed)
                  (ap (set_status floats refuses committed (some by)) r_is_old)))))

  commit-moves :
      (run_id : String) (s : Tables F) (id : String) (old : PayrollRun F)
      → lookup id s.runs ≡ some old
      → MayMove (commit run_id) id old (after floats permissions refuses (commit run_id) s)
  unfolding after
  commit-moves run_id s id old found =
      in_session_ind (MayMove (commit run_id) id old) (commit_run floats permissions refuses run_id)
        s (old, found, inl refl)
        (λ b s' run.
          let (r, there, ready, e) = commit_run-done floats permissions refuses run_id s s' b run in
          subst (MayMove (commit run_id) id old) (sym e) (
            put _ run_id id old _ s.runs found (λ same.
              let r_is_old = same_run run_id id r old s.runs same there found in
              subst (λ x. Moves id old (set_status floats refuses disbursed none r) (commit x)) same
                (paid_out (subst (λ x. is_committed x.status ≡ true) r_is_old ready)
                  (ap (set_status floats refuses disbursed none) r_is_old)))))

  adjust-moves :
      (request : AdjustmentRequest F) (role : String) (adjustment_id : String) (s : Tables F)
      (id : String) (old : PayrollRun F)
      → lookup id s.runs ≡ some old
      → MayMove
          (adjust request role adjustment_id)
          id
          old
          (after floats permissions refuses (adjust request role adjustment_id) s)
  unfolding after
  adjust-moves request role adjustment_id s id old found =
      in_session_ind (MayMove (adjust request role adjustment_id) id old)
        (create_adjustment floats permissions refuses request role adjustment_id) s
        (old, found, inl refl)
        (λ b s' run. (
          old,
          ap (λ (x : Tables F). lookup id x.runs)
                (create_adjustment-done floats permissions refuses request role adjustment_id s s' b
                  run)
              ∙ found,
          inl refl,
        ))

  -- Whatever is requested of any database, a run that is there stays, with its payslips, its period and its
  -- initiator, and only its status and its approver may change: from review to committed by an approval of
  -- this run, with a role that the rule document permits, whose user is the approver from then on; or from
  -- committed to disbursed by a commit of this run.
  pub after-moves :
      (request : Request F) (s : Tables F) (id : String) (old : PayrollRun F)
      → lookup id s.runs ≡ some old
      → (new : PayrollRun F) × (lookup id (after floats permissions refuses request s).runs
          ≡ some new)
        × ((new ≡ old) ⊎ Moves id old new request)
  after-moves (create employee) = create-moves employee
  after-moves (initiate request employees records run_id) =
      initiate-moves request employees records run_id
  after-moves (approve run_id by role) = approve-moves run_id by role
  after-moves (commit run_id) = commit-moves run_id
  after-moves (adjust request role adjustment_id) = adjust-moves request role adjustment_id
