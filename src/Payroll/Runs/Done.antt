-- ===== src/Payroll/Runs/Done.antt =====
-- logic/payroll/engine.py: the steps that an operation which succeeds has come through.
use erp_agent.Prelude.{
  String, Bool, true, false, Option, some, List, [], ◌∷◌, ◌++◌, if◌then◌else◌, Dict, lookup, insert,
  contains, Result, ok, ◌≡◌, refl, map, append_assoc, append-nil, sym, ◌∙◌, lookup-insert_self,
}
use mathlib.Core.Path.{subst}
use erp_agent.Prelude.Exec.{pure, raise, require-then, >>=_assoc, modify, ◌>>=◌, ◌>>◌}
use erp_agent.Payroll.Runs.{
  Floats, Payslip, RunStatus, PayrollRun, RunError, refused, run_not_found,
}
use erp_agent.Payroll.Runs.Tables.{
  AuditEntry, Tables, Db, flush, log, get_run, update_status, approver, create_run,
}
use erp_agent.Payroll.Runs.Workflow.{raise_unless, disbursement, log_payslips}

pub some-injective : {A : Type 0} {a b : A} → some a ≡ some b → a ≡ b
some-injective h = cc

module _ {F : Type 0} where
  abbrev pub Ends : {B : Type 0} → Db F B → Tables F → B → Tables F → Type 0
  Ends {B} m s b s' = ◌≡◌ {A = Result RunError B × Tables F} (m s) (ok b, s')

  abbrev pub with_entry : AuditEntry F → Tables F → Tables F
  with_entry e s = record s { audit = s.audit ++ e ∷ [] }

  abbrev pub with_run : String → PayrollRun F → Tables F → Tables F
  with_run id r s = record s { runs = insert id r s.runs }

  pub raise_unless-then :
      {B : Type 0} {b : B} {s' : Tables F} (passes : Bool) (e : RunError) (k : Db F B)
      (s : Tables F)
      → Ends (raise_unless passes e >> k) s b s'
      → (passes ≡ true) × Ends k s b s'
  raise_unless-then true e k s h = (refl, h)
  raise_unless-then false e k s h = cc

  module _ (floats : Floats F) (refuses : Tables F → Bool) where
    taken-then :
        {B : Type 0} {b : B} {s' : Tables F} (taken : Bool) (k : Db F B) (s : Tables F)
        → Ends ((if taken then raise refused else pure tt) >> k) s b s'
        → (taken ≡ false) × Ends k s b s'
    taken-then false k s h = (refl, h)
    taken-then true k s h = cc

    flush-then :
        {B : Type 0} {b : B} {s' : Tables F} (k : Db F B) (s : Tables F)
        → Ends (flush floats refuses >> k) s b s'
        → Ends k s b s'
    unfolding flush
    flush-then k s h = (taken-then (refuses s) k s h).1

    pub log-then :
        {B : Type 0} {b : B} {s' : Tables F} (e : AuditEntry F) (k : Db F B) (s : Tables F)
        → Ends (log floats refuses e >> k) s b s'
        → Ends k (with_entry e s) b s'
    unfolding log
    log-then e k s h = flush-then k (with_entry e s) h

    pub get_run-then :
        {B : Type 0} {b : B} {s' : Tables F} (id : String) (k : PayrollRun F → Db F B)
        (s : Tables F)
        → Ends (get_run floats refuses id >>= k) s b s'
        → (r : PayrollRun F) × (lookup id s.runs ≡ some r) × Ends (k r) s b s'
    unfolding get_run
    get_run-then id k s h = require-then (lookup id s.runs) (run_not_found id) k s h

    abbrev pub set_status : RunStatus → Option String → PayrollRun F → PayrollRun F
    set_status status by r = record r {
      status = status;
      approved_by = approver floats refuses by r.approved_by;
    }

    pub update_status-then :
        {B : Type 0} {b : B} {s' : Tables F} (id : String) (status : RunStatus) (by : Option String)
        (k : PayrollRun F → Db F B) (s : Tables F)
        → Ends (update_status floats refuses id status by >>= k) s b s'
        → (r : PayrollRun F) × (lookup id s.runs ≡ some r)
          × Ends (k (set_status status by r)) (with_run id (set_status status by r) s) b s'
    unfolding update_status flush get_run
    update_status-then {b = b} {s' = s'} id status by k s h =
        let write = λ (r : PayrollRun F). (do
          modify (with_run id (set_status status by r))
          flush floats refuses
          get_run floats refuses id) in
        let (r, found, h1) =
          get_run-then id (λ r'. write r' >>= k) s
            (sym (>>=_assoc (get_run floats refuses id) write k s) ∙ h) in
        let new = set_status status by r in
        let after = with_run id new s in
        let h2 =
          flush-then (get_run floats refuses id >>= k) after (
            sym (>>=_assoc (flush floats refuses) (λ u. get_run floats refuses id) k after) ∙ h1) in
        let (r', found', h3) = get_run-then id k after h2 in
        (
          r,
          found,
          subst (λ x. Ends (k x) after b s')
              (some-injective (sym found' ∙ lookup-insert_self id new s.runs)) h3,
        )

    pub create_run-then :
        {B : Type 0} {b : B} {s' : Tables F} (run : PayrollRun F) (k : Db F B) (s : Tables F)
        → Ends (create_run floats refuses run >> k) s b s'
        → (contains run.id s.runs ≡ false) × Ends k (with_run run.id run s) b s'
    unfolding create_run
    create_run-then run k s h =
        let write = (modify (with_run run.id run) >> flush floats refuses) in
        let (free, h1) = taken-then (contains run.id s.runs) (write >> k) s (
          sym (
            >>=_assoc (if contains run.id s.runs then raise refused else pure tt) (λ u. write)
              (λ u. k) s)
          ∙ h) in
        (free, flush-then k (with_run run.id run s) h1)

    pub log_payslips-then :
        {B : Type 0} {b : B} {s' : Tables F} (permissions : Dict (List String)) (id : String)
        (slips : List (Payslip F)) (k : Db F B) (s : Tables F)
        → Ends (log_payslips floats permissions refuses id slips >> k) s b s'
        → Ends k
            (record s { audit = s.audit ++ map (disbursement floats permissions refuses id) slips })
            b
            s'
    unfolding log_payslips
    log_payslips-then {b = b} {s' = s'} permissions id [] k s h =
        subst (λ a. Ends k (record s { audit = a }) b s') (sym (append-nil s.audit)) h
    log_payslips-then {b = b} {s' = s'} permissions id (slip ∷ slips) k s h =
        let e = disbursement floats permissions refuses id slip in
        let rest = log_payslips floats permissions refuses id slips in
        let h1 =
          log-then e (rest >> k) s
            (sym (>>=_assoc (log floats refuses e) (λ u. rest) (λ u. k) s) ∙ h) in
        subst (λ a. Ends k (record s { audit = a }) b s') (append_assoc s.audit (e ∷ []) _)
          (log_payslips-then permissions id slips k (with_entry e s) h1)
