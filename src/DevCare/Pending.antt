-- ===== src/DevCare/Pending.antt =====
-- logic/devcare/pending.py and audit_writer.py: changes that wait for the operator's confirmation, and the
-- entries of the audit log.
use erp_agent.Prelude.{
  ℕ, String, Option, none, some, List, [], ◌∷◌, ◌++◌, Bool, ◌==◌, if◌then◌else◌, Dict, lookup,
  insert, erase,
}
use erp_agent.DevCare.Rules.{Scalar, Record, NormalizedChange}

pub record StagedChange : Type 0 where
  pub conversation_id : String
  pub change : NormalizedChange
  pub rule_doc : String
  pub rule_version : ℕ

abbrev pub PendingChangeStore : Type 0
PendingChangeStore = Dict StagedChange

-- The id was drawn at random.
unfoldable pub stage : String → StagedChange → PendingChangeStore → PendingChangeStore
stage change_id staged items = insert change_id staged items

abbrev pub pop_found :
    String
    → String
    → Option StagedChange
    → PendingChangeStore
    → Option StagedChange × PendingChangeStore
pop_found conversation_id change_id none items = (none, items)
pop_found conversation_id change_id (some staged) items =
    if staged.conversation_id == conversation_id
    then (some staged, erase change_id items)
    else (none, items)

-- Only the conversation that staged a change takes it.
unfoldable pub pop : String → String → PendingChangeStore → Option StagedChange × PendingChangeStore
pop conversation_id change_id items =
    pop_found conversation_id change_id (lookup change_id items) items

pub record AuditEntry : Type 0 where
  pub ts : String
  pub operator : String
  pub entity : String
  pub operation : String
  pub table : String
  pub primary_key : Option Scalar
  pub before : Option Record
  pub after : Option Record
  pub rule_doc : String
  pub rule_version : ℕ
  pub status : String

-- `AuditWriter.record`
unfoldable pub audit_entry :
    String → String → StagedChange → Option Scalar → Option Record → String → AuditEntry
audit_entry ts operator staged primary_key before status = record {
  ts = ts;
  operator = operator;
  entity = staged.change.entity;
  operation = staged.change.operation;
  table = staged.change.table;
  primary_key = primary_key;
  before = before;
  after = if staged.change.operation == "delete" then none else some staged.change.columns;
  rule_doc = staged.rule_doc;
  rule_version = staged.rule_version;
  status = status;
}

-- `AuditLog.append`: an entry that cannot be written is dropped, and nothing is raised.
unfoldable pub append_entry : (AuditEntry → Bool) → AuditEntry → List AuditEntry → List AuditEntry
append_entry writable entry log = if writable entry then log ++ entry ∷ [] else log
