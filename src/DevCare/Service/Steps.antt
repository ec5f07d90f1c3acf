-- ===== src/DevCare/Service/Steps.antt =====
-- The service over time: turns, forms, commits and changes of the history, in any order.
pub mod Staged
use mathlib.Core.Path.{subst}
use erp_agent.Prelude.{
  String, true, Option, none, some, [], ◌∷◌, erase, Result, ok, err, ◌≡◌, refl, sym, ◌∙◌, arith,
  All, All_elim,
}
use erp_agent.DevCare.Rules.{
  Scalar, Record, EntityRule, RegistryError, get_rule, ValidationResult, valid, invalid,
}
use erp_agent.DevCare.Validator.{validate}
use erp_agent.DevCare.Writes.{Database, WriteError, check_columns, execute}
use erp_agent.DevCare.Writes.Failures.{IsRefusal, is_operation, execute-IsRefusal}
use erp_agent.DevCare.Pending.{StagedChange, PendingChangeStore}
use erp_agent.DevCare.Service.{
  State, Env, CommitAnswer, failed, Failure, reader_failed, write_failed, keep_change, stage_result,
  validate_and_stage, fetch_before, settle, as_failure, execute_under, execute_change,
  commit_staged, commit_change,
}
use erp_agent.DevCare.Service.Turn.{Model, stream_turn}
use erp_agent.DevCare.Service.Preserved.{stream_turn-OfState}
use erp_agent.DevCare.Service.Commit.{IsTaken, commit_change_taken}
use erp_agent.DevCare.Service.Steps.Staged.{IsExecutable, AreExecutable, Reach, Reach-AreExecutable}

-- Why a commit may fail: the row could not be read before, or the write was refused.
pub data IsExcused : Failure → Type 0 where
  unread : IsExcused reader_failed
  refusal : (e : WriteError) → IsRefusal e → IsExcused (write_failed e)

module _ (env : Env)
    (known : (entity : String) (rule : EntityRule)
      → get_rule entity env.registry ≡ ok rule
      → All (λ o. is_operation o ≡ true) rule.operations)
    (staged : StagedChange) (can : IsExecutable env staged) where
  undeclared-check_columns : check_columns can.rule staged.change ≡ none
  undeclared-check_columns = ground (arith, can.declared)

  answer_failed :
      (operator : String) (before : Option Record) (out : Result Failure (Option Scalar))
      (db : Database) (s : State) (e : Failure)
      → (settle env operator staged before out db s).0 ≡ failed e
      → out ≡ err e
  unfolding settle
  answer_failed operator before (ok pk) db s e h = cc
  answer_failed operator before (err x) db s e h = cc

  as_failure_err :
      (out : Result WriteError (Option Scalar) × Database) (e : Failure)
      → (as_failure env out).0 ≡ err e
      → (x : WriteError) × (out.0 ≡ err x) × (e ≡ write_failed x)
  as_failure_err (ok pk, db) e h = cc
  as_failure_err (err x, db) e h = (x, refl, cc)

  execute_change-IsExcused :
      (db : Database) (e : Failure) → (execute_change env staged.change db).0 ≡ err e → IsExcused e
  unfolding execute_change
  execute_change-IsExcused db e h =
      let (x, failed_with, same) =
        as_failure_err (execute env.session can.rule staged.change db) e
          (subst (λ r. (execute_under env staged.change r db).0 ≡ err e) can.registered h) in
      subst IsExcused (sym same) (
        refusal x (
          execute-IsRefusal env.session can.rule staged.change db
            (All_elim (λ o. is_operation o ≡ true) can.rule.operations staged.change.operation
              (known staged.change.entity can.rule can.registered) can.permitted)
            undeclared-check_columns x failed_with))

  commit_staged-IsExcused :
      (operator : String) (o : Option (Option Record)) (s : State) (e : Failure)
      → (commit_staged env operator staged o s).0 ≡ failed e
      → IsExcused e
  unfolding commit_staged
  commit_staged-IsExcused operator none s e h =
      subst IsExcused
        (ground (arith, answer_failed operator none (err reader_failed) s.database s e h)) unread
  commit_staged-IsExcused operator (some before) s e h =
      execute_change-IsExcused s.database e
        (answer_failed operator before (execute_change env staged.change s.database).0 _ s e h)

no_items : {env : Env} (items : PendingChangeStore) → items ≡ [] → AreExecutable env items
no_items [] e j w l = cc
no_items (i ∷ items) e j w l = cc

-- The operations of the rules being create, update and delete: after any turns, forms, commits and changes of the
-- history from a start with nothing staged, a commit of a staged change fails only because its row could not be
-- read, the database refused the write, or an update set no column. Its rule is still there, its operation is
-- known, and its columns are those that the rule declares.
pub Reach-IsExcused :
    (env : Env)
    → ((entity : String) (rule : EntityRule)
        → get_rule entity env.registry ≡ ok rule
        → All (λ o. is_operation o ≡ true) rule.operations)
    → (start s : State) → start.pending ≡ []
    → Reach env start s
    → (conversation_id session_id operator change_id : String) (staged : StagedChange)
    → IsTaken conversation_id session_id change_id staged s
    → (e : Failure)
    → (commit_change env conversation_id session_id operator change_id s).0 ≡ failed e
    → IsExcused e
Reach-IsExcused env known start s empty r c sid operator k staged taken e h =
    let can = Reach-AreExecutable env (no_items start.pending empty) r k staged taken.1 in
    commit_staged-IsExcused env known staged can operator
      (fetch_before env staged.change s.database) (record s { pending = erase k s.pending }) e
      (subst (λ (out : CommitAnswer × State). out.0 ≡ failed e)
        (commit_change_taken env c sid operator k staged s taken) h)

-- A model that only reads.
abbrev pub IsReadOnly : Model → Type 0
IsReadOnly model = (sql : String) (db : Database) → (model.run_sql sql db).1 ≡ db

abbrev IsUnwritten : State → State → Type 0
IsUnwritten s t = (t.database ≡ s.database) × (t.audit ≡ s.audit)

stage_result-IsUnwritten :
    (env : Env) (conversation_id entity : String) (r : Result RegistryError ValidationResult)
    (s : State)
    → IsUnwritten s (stage_result env conversation_id entity r s).1
unfolding keep_change
stage_result-IsUnwritten env c entity (err e) s = (refl, refl)
stage_result-IsUnwritten env c entity (ok (invalid vs doc version)) s = (refl, refl)
stage_result-IsUnwritten env c entity (ok (valid change doc version)) s = (refl, refl)

-- Where the SQL of the tool `lookup` only reads, nothing that the model replies writes: whatever tools a turn uses,
-- the database and the audit log are as before it, so that only a commit writes.
pub stream_turn_unwritten :
    (env : Env) (model : Model)
    → IsReadOnly model
    → (conversation_id session_id user_message : String) (s : State)
    → ((stream_turn env model conversation_id session_id user_message s).0.database ≡ s.database)
      × ((stream_turn env model conversation_id session_id user_message s).0.audit ≡ s.audit)
unfolding validate_and_stage
stream_turn_unwritten env model reads c sid m s =
    stream_turn-OfState env model (IsUnwritten s) (λ sql t (d, a). (reads sql t.database ∙ d, a))
      (λ c' e o f pk t (d, a).
        let out =
          stage_result-IsUnwritten env c' e (validate (env.world t.database) env.registry e o f pk)
            t in
        (out.0 ∙ d, out.1 ∙ a))
      (λ h t k. k) c sid m s (refl, refl)
