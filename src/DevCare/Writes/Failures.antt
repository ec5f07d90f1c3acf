-- ===== src/DevCare/Writes/Failures.antt =====
-- Why the write of a checked change can fail.
use mathlib.Core.Path.{subst}
use erp_agent.Prelude.{
  String, Bool, true, ◌||◌, Option, none, some, List, [], Result, ok, err, ◌==◌, is_empty, ◌≡◌,
  arith, Bool-cases, inl, inr, insert,
}
use erp_agent.Prelude.Exec.{pure, ◌>>◌}
use erp_agent.DevCare.Rules.{Scalar, int, Record, SoftDelete, EntityRule, NormalizedChange}
use erp_agent.DevCare.Writes.{
  Database, WriteError, refused, nothing_to_set, Session, Writing, statement, create, stamped,
  update_rows, update_change, deleting, delete_change, operate, transaction, check_columns, execute,
}

-- The database's own refusal, and an update that sets no column.
pub data IsRefusal : WriteError → Type 0 where
  by_database : IsRefusal refused
  without_columns : IsRefusal nothing_to_set

-- A write that fails in no other way.
abbrev Fails : {A : Type 0} → Result WriteError A × Database → Type 0
Fails (ok a, db) = Unit
Fails (err e, db) = IsRefusal e

abbrev pub is_operation : String → Bool
is_operation o = o == "create" || o == "update" || o == "delete"

module _ (session : Session) where
  Fails-statement :
      (table : String) (rows : List Record) (db : Database)
      → Fails (statement session table rows db)
  unfolding statement
  Fails-statement table rows db = elim (Bool-cases (session.allows (insert table rows db))) [
    | inl e ↦ rw e tt
    | inr e ↦ rw e by_database
  ]

  Fails-then :
      {A : Type 0} (m : Writing (Unit {0})) (a : A) (db : Database)
      → Fails (m db)
      → Fails ((m >> pure a) db)
  Fails-then {A} m a db h = cases (m db) h
    where
      cases :
          (out : Result WriteError (Unit {0}) × Database)
          → Fails out
          → Fails (((λ (d : Database). out) >> pure a) db)
      cases (ok u, d) k = tt
      cases (err e, d) k = k

  Fails-transaction :
      {A : Type 0} (m : Writing A) (db : Database) → Fails (m db) → Fails (transaction m db)
  Fails-transaction {A} m db h = cases (m db) h
    where
      cases :
          (out : Result WriteError A × Database)
          → Fails out
          → Fails (transaction (λ (d : Database). out) db)
      cases (ok u, d) k = tt
      cases (err e, d) k = k

  module _ (rule : EntityRule) (change : NormalizedChange) (db : Database) where
    Fails-update_rows :
        (key : Option Scalar) (sets : Record) → Fails (update_rows session rule key sets db)
    unfolding update_rows
    Fails-update_rows key sets = Fails-statement _ _ db

    Fails-update_change : Fails (update_change session rule change db)
    unfolding update_change
    Fails-update_change = elim (Bool-cases (is_empty (stamped session rule change.columns))) [
      | inl e ↦ rw e without_columns
      | inr e ↦ rw e (Fails-update_rows change.target_pk (stamped session rule change.columns))
    ]

    Fails-deleting : (soft : Option SoftDelete) → Fails (deleting session rule change soft db)
    unfolding deleting
    Fails-deleting none = Fails-statement _ _ db
    Fails-deleting (some soft) =
        Fails-update_rows change.target_pk
          (stamped session rule (insert soft.column (int soft.deleted_value) []))

    Fails-operate : is_operation change.operation ≡ true → Fails (operate session rule change db)
    unfolding operate create delete_change
    Fails-operate h = elim (Bool-cases (change.operation == "create")) [
      | inl c ↦ rw c (Fails-then (statement session rule.table _) _ db (Fails-statement _ _ db))
      | inr nc ↦ elim (Bool-cases (change.operation == "update")) [
        | inl u ↦
            rw (nc, u)
              (Fails-then (update_change session rule change) change.target_pk db
                Fails-update_change)
        | inr nu ↦ elim (Bool-cases (change.operation == "delete")) [
          | inl d ↦
              rw (nc, nu, d)
                (Fails-then (deleting session rule change rule.soft_delete) change.target_pk db
                  (Fails-deleting rule.soft_delete))
          | inr nd ↦ ground (arith, h, nc, nu, nd)
        ]
      ]
    ]

    refusal :
        {A : Type 0} (out : Result WriteError A × Database) (e : WriteError)
        → Fails out
        → out.0 ≡ err e
        → IsRefusal e
    refusal (ok a, d) e h same = cc
    refusal (err x, d) e h same = subst IsRefusal (cc) h

    -- The executor fails a change whose operation and columns are right for those reasons only.
    pub execute-IsRefusal :
        is_operation change.operation ≡ true
        → check_columns rule change ≡ none
        → (e : WriteError) → (execute session rule change db).0 ≡ err e
        → IsRefusal e
    unfolding execute
    execute-IsRefusal known declared e h =
        refusal (execute session rule change db) e
          (rw declared (Fails-transaction (operate session rule change) db (Fails-operate known))) h
