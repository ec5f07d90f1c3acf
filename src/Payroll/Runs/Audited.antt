-- ===== src/Payroll/Runs/Audited.antt =====
-- logic/payroll/engine.py: the runs and the audit log agree, whatever is requested.
use erp_agent.Prelude.{
  ℕ, suc, String, Bool, true, false, ◌&&◌, ◌||◌, ◌==◌, Option, none, some, [], ◌∷◌, ◌++◌, List,
  lookup, insert, Result, ok, err, ◌≡◌, refl, sym, ap, ◌∙◌, eq_iff, lookup-insert, Bool-cases, inl,
  inr,
}
use mathlib.Core.Path.{subst}
use erp_agent.Payroll.Runs.{
  RunStatus, collect, calculate, review, committed, disbursed, PayrollRun, RunError,
}
use erp_agent.Payroll.Runs.Tables.{AuditEntry, Tables, Db}
use erp_agent.Payroll.Runs.Workflow.{in_session, is_review, is_committed, is_disbursed}
use erp_agent.Payroll.Runs.Done.{Ends, with_entry}
use erp_agent.Payroll.Runs.Ledger.{first_of, entries-other, approver_of-other, disbursements-snoc}
use erp_agent.Payroll.Runs.History.{is_entry, entries, approver_of, disbursements, all_due}

abbrev pub IsSome : Option String → Type 0
IsSome none = ⊥
IsSome (some u) = Unit {0}

-- A run under review has no approval, and one that went on has a single one.
abbrev pub Approvals : RunStatus → ℕ → Option String → Type 0
Approvals collect a u = ⊥
Approvals calculate a u = ⊥
Approvals review a u = (a ≡ 0) × (u ≡ none)
Approvals committed a u = (a ≡ 1) × IsSome u
Approvals disbursed a u = (a ≡ 1) × IsSome u

pub Approvals-approved :
    (st : RunStatus) (a : ℕ) (u : Option String) (by : String)
    → is_review st ≡ true
    → Approvals st a u
    → Approvals committed (suc a) (first_of u by) × (some by ≡ first_of u by)
Approvals-approved review a u by h (none_yet, nobody) = rw nobody ((ap suc none_yet, tt), refl)
Approvals-approved collect a u by h k = absurd k
Approvals-approved calculate a u by h k = absurd k
Approvals-approved committed a u by h k = cc
Approvals-approved disbursed a u by h k = cc

pub Approvals-disbursed :
    (st : RunStatus) (a : ℕ) (u : Option String)
    → is_committed st ≡ true
    → Approvals st a u
    → Approvals disbursed a u
Approvals-disbursed committed a u h k = k
Approvals-disbursed collect a u h k = absurd k
Approvals-disbursed calculate a u h k = absurd k
Approvals-disbursed review a u h k = cc
Approvals-disbursed disbursed a u h k = cc

pub not_disbursed :
    (st : RunStatus) → (is_review st || is_committed st) ≡ true → is_disbursed st ≡ false
not_disbursed committed h = refl
not_disbursed review h = refl
not_disbursed collect h = cc
not_disbursed calculate h = cc
not_disbursed disbursed h = cc

and_false : (a : Bool) → (a && false) ≡ false
and_false true = refl
and_false false = refl

module _ {F : Type 0} where
  -- What the log says of a run: how often it was initiated and approved, and by whom.
  abbrev pub Accounts : Option (PayrollRun F) → ℕ → ℕ → Option String → Type 0
  Accounts none i a u = (i ≡ 0) × (a ≡ 0) × (u ≡ none)
  Accounts (some r) i a u = (i ≡ 1) × Approvals r.status a u × (r.approved_by ≡ u)

  abbrev pub AccountsIn : Option (PayrollRun F) → String → List (AuditEntry F) → Type 0
  AccountsIn run id log =
      Accounts run (entries "initiate" id log) (entries "approve" id log) (approver_of id log)

  pub record IsAudited (s : Tables F) : Type 0 where
    pub accounts : (id : String) → AccountsIn (lookup id s.runs) id s.audit
    pub paid : disbursements s.audit ≡ all_due s.runs

  pub in_session_ind :
      {B : Type 0} (P : Tables F → Type 0) (op : Db F B) (s : Tables F)
      → P s
      → ((b : B) (s' : Tables F) → Ends op s b s' → P s')
      → P (in_session op s).1
  unfolding in_session
  in_session_ind {B = B} P op s p k = cases (op s) refl
    where
      cases : (out : Result RunError B × Tables F) → op s ≡ out → P (in_session (λ t. out) s).1
      cases (ok b, s') e = k b s' e
      cases (err x, s') e = p

  -- An entry of another kind.
  pub other-IsAudited :
      (e : AuditEntry F) (s : Tables F)
      → ("initiate" == e.action) ≡ false
      → ("approve" == e.action) ≡ false
      → ("disburse" == e.action) ≡ false
      → IsAudited s
      → IsAudited (with_entry e s)
  other-IsAudited e s i a d h = record {
    accounts = λ id.
        rw
          (
            entries-other "initiate" id s.audit e (rw i refl),
            entries-other "approve" id s.audit e (rw a refl),
            approver_of-other id s.audit e (rw a refl),
          )
          (h.accounts id);
    paid = disbursements-snoc s.audit e ∙ rw d h.paid;
  }

  -- The accounts of one run change, by an entry for it, and of no other.
  module _ (id : String) (new : PayrollRun F) (e : AuditEntry F) (own : e.entity_id ≡ id)
      (s : Tables F) where
    not_own : (action j : String) → (j == id) ≡ false → is_entry action j e ≡ false
    not_own action j h = rw own (rw h (and_false (action == e.action)))

    pub Accounts-updated :
        IsAudited s
        → AccountsIn (some new) id (s.audit ++ e ∷ [])
        → (j : String) → AccountsIn (lookup j (insert id new s.runs)) j (s.audit ++ e ∷ [])
    Accounts-updated h k j = rw (lookup-insert id j new s.runs) (elim (Bool-cases (j == id)) [
      | inl same ↦
          rw same (
            subst (λ x. AccountsIn (some new) x (s.audit ++ e ∷ [])) (sym ((eq_iff j id).0 same)) k)
      | inr other ↦ rw other (
          rw
            (
              entries-other "initiate" j s.audit e (not_own "initiate" j other),
              entries-other "approve" j s.audit e (not_own "approve" j other),
              approver_of-other j s.audit e (not_own "approve" j other),
            )
            (h.accounts j))
    ])
