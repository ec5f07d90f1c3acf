-- ===== src/Payroll/Runs/Ledger.antt =====
-- logic/payroll/engine.py: entries added to the audit log, and runs added to the table.
use erp_agent.Prelude.{
  suc, ◌+◌, String, Bool, true, false, ◌==◌, Option, none, some, List, [], ◌∷◌, ◌++◌, if◌then◌else◌,
  Dict, lookup, insert, length, map, ◌≡◌, refl, arith,
}
use erp_agent.Payroll.Runs.{Floats, Payslip, PayrollRun}
use erp_agent.Payroll.Runs.Tables.{AuditEntry, Tables}
use erp_agent.Payroll.Runs.Workflow.{disbursement}
use erp_agent.Payroll.Runs.History.{is_entry, entries, approver_of, disbursements, due, all_due}

abbrev pub first_of : Option String → String → Option String
first_of none by = some by
first_of (some u) by = some u

module _ {F : Type 0} where
  pub entries-snoc :
      (action id : String) (es : List (AuditEntry F)) (e : AuditEntry F)
      → entries action id (es ++ e ∷ [])
        ≡ (if is_entry action id e then suc (entries action id es) else entries action id es)
  unfolding entries
  entries-snoc action id [] e = refl
  entries-snoc action id (x ∷ es) e = ground (arith, entries-snoc action id es e)

  pub approver_of-snoc :
      (id : String) (es : List (AuditEntry F)) (e : AuditEntry F)
      → approver_of id (es ++ e ∷ []) ≡ elim (approver_of id es) [
        | some u ↦ some u
        | none ↦ if is_entry "approve" id e then some e.user_id else none
      ]
  unfolding approver_of
  approver_of-snoc id [] e = ground arith
  approver_of-snoc id (x ∷ es) e = ground (arith, approver_of-snoc id es e)

  pub disbursements-snoc :
      (es : List (AuditEntry F)) (e : AuditEntry F)
      → disbursements (es ++ e ∷ [])
        ≡ (if "disburse" == e.action then suc (disbursements es) else disbursements es)
  unfolding disbursements
  disbursements-snoc [] e = refl
  disbursements-snoc (x ∷ es) e = ground (arith, disbursements-snoc es e)

  -- An entry that is not counted.
  pub entries-other :
      (action id : String) (es : List (AuditEntry F)) (e : AuditEntry F)
      → is_entry action id e ≡ false
      → entries action id (es ++ e ∷ []) ≡ entries action id es
  entries-other action id es e h = rw (entries-snoc action id es e) (rw h refl)

  pub entries-counted :
      (action id : String) (es : List (AuditEntry F)) (e : AuditEntry F)
      → is_entry action id e ≡ true
      → entries action id (es ++ e ∷ []) ≡ suc (entries action id es)
  entries-counted action id es e h = rw (entries-snoc action id es e) (rw h refl)

  pub approver_of-other :
      (id : String) (es : List (AuditEntry F)) (e : AuditEntry F)
      → is_entry "approve" id e ≡ false
      → approver_of id (es ++ e ∷ []) ≡ approver_of id es
  approver_of-other id es e h = ground (arith, approver_of-snoc id es e)

  pub approver_of-approved :
      (id : String) (es : List (AuditEntry F)) (e : AuditEntry F)
      → is_entry "approve" id e ≡ true
      → approver_of id (es ++ e ∷ []) ≡ first_of (approver_of id es) e.user_id
  approver_of-approved id es e h = ground (arith, approver_of-snoc id es e)

  pub all_due-insert :
      (id : String) (r : PayrollRun F) (runs : Dict (PayrollRun F))
      → lookup id runs ≡ none
      → all_due (insert id r runs) ≡ all_due runs + due r
  unfolding all_due
  all_due-insert id r [] h = omega arith
  all_due-insert id r ((j, x) ∷ runs) h = ground (arith, all_due-insert id r runs)

  pub all_due-replace :
      (id : String) (old new : PayrollRun F) (runs : Dict (PayrollRun F))
      → lookup id runs ≡ some old
      → all_due (insert id new runs) + due old ≡ all_due runs + due new
  unfolding all_due
  all_due-replace id old new [] h = cc
  all_due-replace id old new ((j, x) ∷ runs) h = ground (arith, all_due-replace id old new runs)

  module _ (floats : Floats F) (permissions : Dict (List String)) (refuses : Tables F → Bool) where
    pub entries-append_disbursements :
        (action id run_id : String) (es : List (AuditEntry F)) (slips : List (Payslip F))
        → (action == "disburse") ≡ false
        → entries action id (es ++ map (disbursement floats permissions refuses run_id) slips)
          ≡ entries action id es
    unfolding entries
    entries-append_disbursements action id run_id [] [] h = refl
    entries-append_disbursements action id run_id [] (p ∷ slips) h =
        rw h (entries-append_disbursements action id run_id [] slips h)
    entries-append_disbursements action id run_id (e ∷ es) slips h =
        ground (arith, entries-append_disbursements action id run_id es slips h)

    pub approver_of-append_disbursements :
        (id run_id : String) (es : List (AuditEntry F)) (slips : List (Payslip F))
        → approver_of id (es ++ map (disbursement floats permissions refuses run_id) slips)
          ≡ approver_of id es
    unfolding approver_of
    approver_of-append_disbursements id run_id [] [] = refl
    approver_of-append_disbursements id run_id [] (p ∷ slips) =
        approver_of-append_disbursements id run_id [] slips
    approver_of-append_disbursements id run_id (e ∷ es) slips =
        ground (arith, approver_of-append_disbursements id run_id es slips)

    pub disbursements-append_disbursements :
        (run_id : String) (es : List (AuditEntry F)) (slips : List (Payslip F))
        → disbursements (es ++ map (disbursement floats permissions refuses run_id) slips)
          ≡ disbursements es + length slips
    unfolding disbursements
    disbursements-append_disbursements run_id [] [] = refl
    disbursements-append_disbursements run_id [] (p ∷ slips) =
        omega (arith, disbursements-append_disbursements run_id [] slips)
    disbursements-append_disbursements run_id (e ∷ es) slips =
        ground (arith, disbursements-append_disbursements run_id es slips)
