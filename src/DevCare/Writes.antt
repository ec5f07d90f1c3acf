-- ===== src/DevCare/Writes.antt =====
-- logic/devcare/write_executor.py: the transaction of one change. The database is its tables' rows; what it
-- refuses and the clock are parameters. Keys are integers, and no column is named `_pk`.
pub mod Confined
pub mod Failures
use erp_agent.Prelude.{
  String, Bool, false, not, Option, none, some, List, [], ◌∷◌, ◌++◌, ◌==◌, ◌||◌, if◌then◌else◌,
  elem, is_empty, keep, map, Dict, lookup, insert, update, keys, ok, err,
}
use erp_agent.Prelude.Exec.{Exec, pure, raise, ◌>>=◌, ◌>>◌}
use erp_agent.Prelude.Int.{ℤ, pos, ◌+ℤ◌, leb_ℤ}
use erp_agent.DevCare.Rules.{
  Scalar, int, text, Record, scalar_eq, FieldRule, SoftDelete, EntityRule, NormalizedChange,
}

-- Rows by table, under the fixed prefix.
abbrev pub Database : Type 0
Database = Dict (List Record)

pub data WriteError : Type 0 where
  undeclared_column : String → WriteError
  nothing_to_set : WriteError
  unknown_operation : String → WriteError
  refused : WriteError

-- `allows` is the database's own checks of what a statement would leave.
pub record Session : Type 0 where
  pub now : String
  pub operator_key : ℤ
  pub allows : Database → Bool

abbrev pub Writing : Type 0 → Type 0
Writing = Exec WriteError Database

abbrev pub rows_of : Option (List Record) → List Record
rows_of none = []
rows_of (some rows) = rows

abbrev pub rows_in : String → Database → List Record
rows_in table db = rows_of (lookup table db)

abbrev pub columns_of : Dict FieldRule → List String
columns_of [] = []
columns_of ((name, fr) ∷ rest) = fr.column ∷ columns_of rest

abbrev pub first_outside : List String → List String → Option String
first_outside allowed [] = none
first_outside allowed (key ∷ rest) =
    if elem key allowed then first_outside allowed rest else some key

-- The first column that no field of the rule declares.
unfoldable pub undeclared : EntityRule → Record → Option String
undeclared rule columns = first_outside (columns_of rule.fields) (keys columns)

-- `row[column] = value` where the rule names such a column
abbrev pub put_if : Option String → Scalar → Record → Record
put_if none v row = row
put_if (some column) v row = if column == "" then row else insert column v row

abbrev pub is_value : Scalar → Option Scalar → Bool
is_value v none = false
is_value v (some w) = scalar_eq w v

-- WHERE primary_key = :_pk; a key of None is NULL
unfoldable pub has_key : String → Option Scalar → Record → Bool
has_key pk none row = false
has_key pk (some key) row = is_value key (lookup pk row)

abbrev pub larger : Option Scalar → Option ℤ → Option ℤ
larger (some (int n)) none = some n
larger (some (int n)) (some m) = some (if leb_ℤ m n then n else m)
larger v best = best

abbrev pub max_key : String → List Record → Option ℤ
max_key pk [] = none
max_key pk (row ∷ rows) = larger (lookup pk row) (max_key pk rows)

-- COALESCE(MAX(primary_key), 0) + 1
unfoldable pub next_key : String → List Record → ℤ
next_key pk rows = elim (max_key pk rows) [ none ↦ pos 1 | some n ↦ n +ℤ pos 1 ]

abbrev pub set_row : String → Option Scalar → Record → Record → Record
set_row pk key sets row = if has_key pk key row then update row sets else row

abbrev pub transaction : {A : Type 0} → Writing A → Writing A
transaction body db =
    let (r, after) = body db in elim r [ ok a ↦ (ok a, after) | err e ↦ (err e, db) ]

abbrev pub has_columns : String → Bool
has_columns operation = operation == "create" || operation == "update"

abbrev pub check_columns : EntityRule → NormalizedChange → Option String
check_columns rule change =
    if has_columns change.operation then undeclared rule change.columns else none

abbrev pub when_declared : Option String → Writing (Option Scalar) → Writing (Option Scalar)
when_declared none body = body
when_declared (some column) body = raise (undeclared_column column)

module _ (session : Session) where
  -- A statement that leaves `rows` in the table.
  unfoldable pub statement : String → List Record → Writing (Unit {0})
  statement table rows db =
      let next = insert table rows db in
      if session.allows next then (ok tt, next) else (err refused, db)

  abbrev pub put_active : Option SoftDelete → Record → Record
  put_active none row = row
  put_active (some soft) row = insert soft.column (int soft.active_value) row

  unfoldable pub new_row : EntityRule → ℤ → Record → Record
  new_row rule key columns =
      update
        (put_if rule.audit_columns.created_by (int session.operator_key) (
          put_if rule.audit_columns.created_at (text session.now) (
            put_active rule.soft_delete
              (update (insert rule.primary_key (int key) []) rule.create_defaults))))
        columns

  unfoldable pub create : EntityRule → NormalizedChange → Writing (Option Scalar)
  unfolding next_key new_row statement
  create rule change db =
      (let rows = rows_in rule.table db in
          let key = next_key rule.primary_key rows in
          do
            statement rule.table (rows ++ new_row rule key change.columns ∷ [])
            pure (some (int key)))
        db

  unfoldable pub stamped : EntityRule → Record → Record
  stamped rule sets =
      put_if rule.audit_columns.updated_by (int session.operator_key)
        (put_if rule.audit_columns.updated_at (text session.now) sets)

  -- UPDATE ... SET ... WHERE primary_key = :_pk
  unfoldable pub update_rows : EntityRule → Option Scalar → Record → Writing (Unit {0})
  unfolding statement
  update_rows rule key sets db =
      statement rule.table (map (set_row rule.primary_key key sets) (rows_in rule.table db)) db

  unfoldable pub update_change : EntityRule → NormalizedChange → Writing (Unit {0})
  unfolding stamped update_rows
  update_change rule change =
      let sets = stamped rule change.columns in
      if is_empty sets then raise nothing_to_set else update_rows rule change.target_pk sets

  unfoldable pub deleting : EntityRule → NormalizedChange → Option SoftDelete → Writing (Unit {0})
  unfolding statement stamped update_rows
  deleting rule change none db =
      statement rule.table
        (keep (λ row. not (has_key rule.primary_key change.target_pk row)) (rows_in rule.table db))
        db
  deleting rule change (some soft) db =
      update_rows rule change.target_pk
        (stamped rule (insert soft.column (int soft.deleted_value) [])) db

  unfoldable pub delete_change : EntityRule → NormalizedChange → Writing (Unit {0})
  unfolding deleting
  delete_change rule change = deleting rule change rule.soft_delete

  unfoldable pub operate : EntityRule → NormalizedChange → Writing (Option Scalar)
  unfolding create update_change delete_change
  operate rule change =
      if change.operation == "create"
      then create rule change
      else if change.operation == "update"
      then update_change rule change >> pure change.target_pk
      else if change.operation == "delete"
      then delete_change rule change >> pure change.target_pk
      else raise (unknown_operation change.operation)

  unfoldable pub execute : EntityRule → NormalizedChange → Writing (Option Scalar)
  unfolding operate
  execute rule change =
      when_declared (check_columns rule change) (transaction (operate rule change))
