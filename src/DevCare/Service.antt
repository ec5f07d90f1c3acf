-- ===== src/DevCare/Service.antt =====
-- logic/devcare/service.py: staging and commit of a change. Queries, the clock and drawn ids are parameters;
-- a reader that raises is modelled where the code catches it, in the commit.
pub mod Turn
pub mod Preserved
pub mod Ends
pub mod Commit
pub mod Steps
use erp_agent.Prelude.{
  String, Bool, Option, none, some, List, [], ◌∷◌, ◌==◌, if◌then◌else◌, Result, ok, err,
}
use erp_agent.Chat.History.{Store, ConversationDetail, get_conversation}
use erp_agent.DevCare.Rules.{
  Scalar, Record, RegistryError, Registry, EntityRule, get_rule, NormalizedChange, Violation,
  ValidationResult, valid, invalid,
}
use erp_agent.DevCare.Validator.{World, row_of_key, validate}
use erp_agent.DevCare.Writes.{Database, WriteError, Session, execute}
use erp_agent.DevCare.Pending.{
  StagedChange, PendingChangeStore, stage, pop, AuditEntry, audit_entry, append_entry,
}

pub record State : Type 0 where
  pub history : Store
  pub pending : PendingChangeStore
  pub database : Database
  pub audit : List AuditEntry

-- What the service is given: `world` reads the database, `reachable` says whether a read before a commit
-- succeeds, and `writable` whether the audit log takes an entry.
pub record Env : Type 0 where
  pub registry : Registry
  pub world : Database → World
  pub reachable : Database → Bool
  pub session : Session
  pub writable : AuditEntry → Bool
  pub clock : String
  pub draw_id : PendingChangeStore → String

pub record PendingBlock : Type 0 where
  pub change_id : String
  pub entity : String
  pub operation : String
  pub table : String
  pub primary_key_column : String
  pub target_pk : Option Scalar
  pub columns : Record

pub data Failure : Type 0 where
  reader_failed : Failure
  unknown_rule : RegistryError → Failure
  write_failed : WriteError → Failure

pub data CommitAnswer : Type 0 where
  done : (primary_key : Option Scalar) (operation entity : String) → CommitAnswer
  no_conversation : CommitAnswer
  no_change : CommitAnswer
  failed : Failure → CommitAnswer

pub data StageAnswer : Type 0 where
  staged_as : PendingBlock → StageAnswer
  refused_for : List Violation → StageAnswer
  unknown_entity : String → StageAnswer

abbrev pub when_owned {ℓ} : {A : Type ℓ} → Option ConversationDetail → A → A → A
when_owned none refusal answer = refusal
when_owned (some c) refusal answer = answer

module _ (env : Env) where
  unfoldable pub keep_change : String → ValidationResult → State → StageAnswer × State
  keep_change conversation_id (invalid viols doc version) s = (refused_for viols, s)
  keep_change conversation_id (valid change doc version) s =
      let change_id = env.draw_id s.pending in
      (
        staged_as (record {
          change_id = change_id;
          entity = change.entity;
          operation = change.operation;
          table = change.table;
          primary_key_column = change.primary_key;
          target_pk = change.target_pk;
          columns = change.columns;
        }),
        record s {
          pending =
              stage change_id
                (record {
                  conversation_id = conversation_id;
                  change = change;
                  rule_doc = doc;
                  rule_version = version;
                })
                s.pending;
        },
      )

  abbrev pub stage_result :
      String → String → Result RegistryError ValidationResult → State → StageAnswer × State
  stage_result conversation_id entity (err e) s = (unknown_entity entity, s)
  stage_result conversation_id entity (ok result) s = keep_change conversation_id result s

  unfoldable pub validate_and_stage :
      String → String → String → Record → Option Scalar → State → StageAnswer × State
  unfolding keep_change
  validate_and_stage conversation_id entity operation fields target_pk s =
      stage_result conversation_id entity
        (validate (env.world s.database) env.registry entity operation fields target_pk) s

  abbrev pub answered : StageAnswer × State → Option StageAnswer × State
  answered (a, s) = (some a, s)

  -- No answer means that the conversation was not found.
  unfoldable pub stage_change :
      String
      → String
      → String
      → String
      → Record
      → Option Scalar
      → State
      → Option StageAnswer × State
  unfolding validate_and_stage
  stage_change conversation_id session_id entity operation fields target_pk s =
      when_owned (get_conversation conversation_id session_id s.history) (none, s)
        (answered (validate_and_stage conversation_id entity operation fields target_pk s))

  abbrev pub first_of : List Record → Option Record
  first_of [] = none
  first_of (row ∷ rows) = some row

  -- The target's row; none where the reader raises.
  unfoldable pub fetch_before : NormalizedChange → Database → Option (Option Record)
  fetch_before change db =
      if change.operation == "create"
      then some none
      else if env.reachable db
      then some (
          first_of
            ((env.world db).read (row_of_key change.table change.primary_key change.target_pk)))
      else none

  abbrev pub as_failure :
      Result WriteError (Option Scalar) × Database → Result Failure (Option Scalar) × Database
  as_failure (ok pk, db) = (ok pk, db)
  as_failure (err e, db) = (err (write_failed e), db)

  abbrev pub execute_under :
      NormalizedChange
      → Result RegistryError EntityRule
      → Database
      → Result Failure (Option Scalar) × Database
  execute_under change (err e) db = (err (unknown_rule e), db)
  execute_under change (ok rule) db = as_failure (execute env.session rule change db)

  unfoldable pub execute_change :
      NormalizedChange → Database → Result Failure (Option Scalar) × Database
  unfolding get_rule
  execute_change change db = execute_under change (get_rule change.entity env.registry) db

  unfoldable pub settle :
      String
      → StagedChange
      → Option Record
      → Result Failure (Option Scalar)
      → Database
      → State
      → CommitAnswer × State
  settle operator staged before (ok pk) db s = (
    done pk staged.change.operation staged.change.entity,
    record s {
      database = db;
      audit =
          append_entry env.writable (audit_entry env.clock operator staged pk before "ok") s.audit;
    },
  )
  settle operator staged before (err e) db s = (
    failed e,
    record s {
      database = db;
      audit =
          append_entry env.writable
            (audit_entry env.clock operator staged staged.change.target_pk before "error") s.audit;
    },
  )

  unfoldable pub commit_staged :
      String → StagedChange → Option (Option Record) → State → CommitAnswer × State
  unfolding settle execute_change
  commit_staged operator staged none s =
      settle operator staged none (err reader_failed) s.database s
  commit_staged operator staged (some before) s =
      let out = execute_change staged.change s.database in
      settle operator staged before out.0 out.1 s

  abbrev pub commit_popped : String → Option StagedChange → State → CommitAnswer × State
  commit_popped operator none s = (no_change, s)
  commit_popped operator (some staged) s =
      commit_staged operator staged (fetch_before staged.change s.database) s

  unfoldable pub commit_change : String → String → String → String → State → CommitAnswer × State
  unfolding commit_staged fetch_before
  commit_change conversation_id session_id operator change_id s =
      let popped = pop conversation_id change_id s.pending in
      when_owned (get_conversation conversation_id session_id s.history) (no_conversation, s)
        (commit_popped operator popped.0 (record s { pending = popped.1 }))
