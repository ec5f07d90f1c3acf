-- ===== src/Payroll/Runs/History.antt =====
-- logic/payroll/engine.py: requests over time, each in a session of its own, and what the audit log says of a run.
use erp_agent.Prelude.{
  ℕ, suc, ◌+◌, String, Bool, ◌&&◌, ◌==◌, Option, none, some, List, [], ◌∷◌, if◌then◌else◌, Dict,
  length,
}
use erp_agent.Payroll.Runs.{
  Floats, Employee, TimeRecord, PayrollRunRequest, PayrollRun, AdjustmentRequest,
}
use erp_agent.Payroll.Runs.Tables.{AuditEntry, Tables}
use erp_agent.Payroll.Runs.Workflow.{
  is_disbursed, in_session, create_employee, initiate_run, approve_run, commit_run,
  create_adjustment,
}

-- A request that may write, with the identifiers that are drawn for it.
pub data Request (F : Type 0) : Type 0 where
  create : Employee F → Request F
  initiate :
      PayrollRunRequest → List (Employee F) → List (TimeRecord F) → (run_id : String) → Request F
  approve : (run_id approved_by role : String) → Request F
  commit : (run_id : String) → Request F
  adjust : AdjustmentRequest F → (role adjustment_id : String) → Request F

module _ {F : Type 0} (floats : Floats F) (permissions : Dict (List String))
    (refuses : Tables F → Bool) where
  unfoldable pub after : Request F → Tables F → Tables F
  unfolding in_session
  after (create employee) s = (in_session (create_employee floats permissions refuses employee) s).1
  after (initiate request employees records run_id) s =
      (in_session (initiate_run floats permissions refuses request employees records run_id) s).1
  after (approve run_id by role) s =
      (in_session (approve_run floats permissions refuses run_id by role) s).1
  after (commit run_id) s = (in_session (commit_run floats permissions refuses run_id) s).1
  after (adjust request role adjustment_id) s =
      (in_session (create_adjustment floats permissions refuses request role adjustment_id) s).1

  unfoldable pub after_all : List (Request F) → Tables F → Tables F
  after_all [] s = s
  after_all (r ∷ rs) s = after_all rs (after r s)

module _ {F : Type 0} where
  abbrev pub empty_tables : Tables F
  empty_tables = record { employees = []; runs = []; audit = [] }

  abbrev pub is_entry : String → String → AuditEntry F → Bool
  is_entry action id e = action == e.action && id == e.entity_id

  -- How many entries of an action there are for an entity.
  unfoldable pub entries : String → String → List (AuditEntry F) → ℕ
  entries action id [] = 0
  entries action id (e ∷ es) =
      let rest = entries action id es in if is_entry action id e then suc rest else rest

  -- Who stands in the first approval of a run.
  unfoldable pub approver_of : String → List (AuditEntry F) → Option String
  approver_of id [] = none
  approver_of id (e ∷ es) =
      let rest = approver_of id es in if is_entry "approve" id e then some e.user_id else rest

  unfoldable pub disbursements : List (AuditEntry F) → ℕ
  disbursements [] = 0
  disbursements (e ∷ es) =
      let rest = disbursements es in if "disburse" == e.action then suc rest else rest

  abbrev pub due : PayrollRun F → ℕ
  due r = if is_disbursed r.status then length r.payslips else 0

  -- How many payslips the disbursed runs have.
  unfoldable pub all_due : Dict (PayrollRun F) → ℕ
  all_due [] = 0
  all_due ((id, r) ∷ rest) = due r + all_due rest
