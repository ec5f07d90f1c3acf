-- ===== src/DevCare/Writes/Confined.antt =====
-- What a change leaves of the database.
pub mod Rows
use mathlib.Core.Path.{subst}
use erp_agent.Prelude.{
  String, is_empty, Bool, true, false, Option, none, some, List, [], ◌∷◌, ◌++◌, ◌==◌, if◌then◌else◌,
  elem, map, lookup, contains, insert, update, keys, Result, ok, err, ◌≡◌, ◌≢◌, refl, sym, ap, ◌∙◌,
  inl, inr, arith, eq_iff, lookup-insert, elem-keys, Bool-cases, Option-cases, All,
}
use erp_agent.Prelude.Exec.{pure, raise, ◌>>◌}
use erp_agent.Prelude.Int.{ℤ}
use erp_agent.DevCare.Rules.{Scalar, int, Record, SoftDelete, EntityRule, NormalizedChange}
use erp_agent.DevCare.Writes.{
  Database, WriteError, refused, unknown_operation, undeclared_column, nothing_to_set, Session,
  rows_in, columns_of, undeclared, statement, put_active, new_row, create, stamped, update_rows,
  update_change, delete_change, deleting, operate, transaction, check_columns, when_declared,
  execute,
}
use erp_agent.DevCare.Writes.Confined.Rows.{
  keyless, lookup-update-other, first_outside-elem, contains-put_if, lookup-put_if, keyless-map,
  map-lookup-set_row, next_key_new,
}

abbrev pub soft_column : Option SoftDelete → Option String
soft_column none = none
soft_column (some soft) = some soft.column

-- No write of the rule sets the primary key, but for the key of a new row.
pub record IsKeyFree (rule : EntityRule) : Type 0 where
  pub fields : elem rule.primary_key (columns_of rule.fields) ≡ false
  pub defaults : contains rule.primary_key rule.create_defaults ≡ false
  pub soft : soft_column rule.soft_delete ≢ some rule.primary_key
  pub created_at : rule.audit_columns.created_at ≢ some rule.primary_key
  pub created_by : rule.audit_columns.created_by ≢ some rule.primary_key
  pub updated_at : rule.audit_columns.updated_at ≢ some rule.primary_key
  pub updated_by : rule.audit_columns.updated_by ≢ some rule.primary_key

-- What may come of a change: nothing; one more row with a new key; or the same rows but for those of the
-- target key, which are gone only where the rule deletes rows.
pub data IsEffect (rule : EntityRule) (change : NormalizedChange) (db : Database)
    (outcome : Result WriteError (Option Scalar)) (after : Database) : Type 0 where
  rolled_back :
      (e : WriteError) → outcome ≡ err e → after ≡ db → IsEffect rule change db outcome after
  created :
      (row : Record) (n : ℤ)
      → change.operation ≡ "create"
      → outcome ≡ ok (some (int n))
      → lookup rule.primary_key row ≡ some (int n)
      → All (λ r. lookup rule.primary_key r ≢ some (int n)) (rows_in rule.table db)
      → after ≡ insert rule.table (rows_in rule.table db ++ row ∷ []) db
      → IsEffect rule change db outcome after
  changed :
      (rows : List Record)
      → outcome ≡ ok change.target_pk
      → keyless rule.primary_key change.target_pk rows
        ≡ keyless rule.primary_key change.target_pk (rows_in rule.table db)
      → map (lookup rule.primary_key) rows ≡ map (lookup rule.primary_key) (rows_in rule.table db)
      → after ≡ insert rule.table rows db
      → IsEffect rule change db outcome after
  removed :
      change.operation ≡ "delete"
      → rule.soft_delete ≡ none
      → outcome ≡ ok change.target_pk
      → after
        ≡ insert rule.table (keyless rule.primary_key change.target_pk (rows_in rule.table db)) db
      → IsEffect rule change db outcome after

module _ (session : Session) (rule : EntityRule) (free : IsKeyFree rule) where
  contains-stamped :
      (sets : Record)
      → contains rule.primary_key sets ≡ false
      → contains rule.primary_key (stamped session rule sets) ≡ false
  unfolding stamped
  contains-stamped sets h =
      contains-put_if _ rule.audit_columns.updated_by _ _ free.updated_by
        (contains-put_if _ rule.audit_columns.updated_at _ sets free.updated_at h)

  lookup-put_active :
      (soft : Option SoftDelete) (row : Record)
      → soft_column soft ≢ some rule.primary_key
      → lookup rule.primary_key (put_active session soft row) ≡ lookup rule.primary_key row
  lookup-put_active none row n = refl
  lookup-put_active (some s) row n = ground (
    arith,
    lookup-insert s.column rule.primary_key (int s.active_value) row,
    eq_iff rule.primary_key s.column,
  )

  lookup-new_row :
      (n : ℤ) (columns : Record)
      → contains rule.primary_key columns ≡ false
      → lookup rule.primary_key (new_row session rule n columns) ≡ some (int n)
  unfolding new_row
  lookup-new_row n columns h =
      lookup-update-other rule.primary_key _ columns h
      ∙ lookup-put_if rule.primary_key rule.audit_columns.created_by _ _ free.created_by
      ∙ lookup-put_if rule.primary_key rule.audit_columns.created_at _ _ free.created_at
      ∙ lookup-put_active rule.soft_delete _ free.soft
      ∙ lookup-update-other rule.primary_key _ rule.create_defaults free.defaults
      ∙ ground (arith, eq_iff rule.primary_key rule.primary_key)

  module _ (change : NormalizedChange) (db : Database) where
    abbrev Effect : Result WriteError (Option Scalar) × Database → Type 0
    Effect out = IsEffect rule change db out.0 out.1

    -- A refused statement leaves the database; one that stands leaves its rows.
    after_statement :
        (rows : List Record) (value : Option Scalar)
        → Effect (ok value, insert rule.table rows db)
        → Effect (transaction (statement session rule.table rows >> pure value) db)
    unfolding statement
    after_statement rows value h = settle (session.allows (insert rule.table rows db))
      where
        settle :
            (b : Bool)
            → Effect (
                transaction
                  ((λ d. if b then (ok tt, insert rule.table rows db) else (err refused, db))
                    >> pure value)
                  db)
        settle true = h
        settle false = rolled_back refused refl refl

    update_rows-IsEffect :
        (sets : Record)
        → contains rule.primary_key sets ≡ false
        → Effect (
            transaction
              (update_rows session rule change.target_pk sets >> pure change.target_pk)
              db)
    unfolding update_rows
    update_rows-IsEffect sets h = after_statement _ _ (
        changed _ refl
          (keyless-map rule.primary_key change.target_pk sets h (rows_in rule.table db))
          (map-lookup-set_row rule.primary_key change.target_pk sets h (rows_in rule.table db))
          refl)

    create-IsEffect :
        change.operation ≡ "create"
        → contains rule.primary_key change.columns ≡ false
        → Effect (transaction (create session rule change) db)
    unfolding create
    create-IsEffect op h = after_statement _ _ (
        created _ _ op refl (lookup-new_row _ change.columns h)
          (next_key_new rule.primary_key (rows_in rule.table db)) refl)

    update_change-IsEffect :
        contains rule.primary_key change.columns ≡ false
        → Effect (transaction (update_change session rule change >> pure change.target_pk) db)
    unfolding update_change
    update_change-IsEffect h = elim (Bool-cases (is_empty (stamped session rule change.columns))) [
      | inl e ↦
          subst
            (λ b. Effect (
              transaction
                ((if b
                    then raise nothing_to_set
                    else update_rows session rule change.target_pk
                        (stamped session rule change.columns))
                  >> pure change.target_pk)
                db))
            (sym e) (rolled_back nothing_to_set refl refl)
      | inr e ↦
          subst
            (λ b. Effect (
              transaction
                ((if b
                    then raise nothing_to_set
                    else update_rows session rule change.target_pk
                        (stamped session rule change.columns))
                  >> pure change.target_pk)
                db))
            (sym e)
            (update_rows-IsEffect (stamped session rule change.columns)
              (contains-stamped change.columns h))
    ]

    delete_change-IsEffect :
        change.operation ≡ "delete"
        → Effect (transaction (delete_change session rule change >> pure change.target_pk) db)
    unfolding delete_change
    delete_change-IsEffect op = remove rule.soft_delete refl
      where
        remove :
            (soft : Option SoftDelete)
            → rule.soft_delete ≡ soft
            → Effect (transaction (deleting session rule change soft >> pure change.target_pk) db)
        remove none e = after_statement _ _ (removed op e refl refl)
        remove (some soft) e = update_rows-IsEffect _ (
            contains-stamped _
              (ground (arith, eq_iff rule.primary_key soft.column, free.soft, ap soft_column e)))

    contains_of_declared :
        undeclared rule change.columns ≡ none → contains rule.primary_key change.columns ≡ false
    unfolding undeclared
    contains_of_declared h =
        sym (elem-keys rule.primary_key change.columns)
        ∙ first_outside-elem rule.primary_key (columns_of rule.fields) (keys change.columns) h
            free.fields

    operate-IsEffect :
        check_columns rule change ≡ none → Effect (transaction (operate session rule change) db)
    unfolding operate
    operate-IsEffect h = elim (Bool-cases (change.operation == "create")) [
      | inl c ↦ rw c (
          create-IsEffect ((eq_iff change.operation "create").0 c)
            (contains_of_declared (ground arith)))
      | inr nc ↦ elim (Bool-cases (change.operation == "update")) [
        | inl u ↦ rw (nc, u) (update_change-IsEffect (contains_of_declared (ground arith)))
        | inr nu ↦ elim (Bool-cases (change.operation == "delete")) [
          | inl d ↦ rw (nc, nu, d) (delete_change-IsEffect ((eq_iff change.operation "delete").0 d))
          | inr nd ↦ rw (nc, nu, nd) (rolled_back (unknown_operation change.operation) refl refl)
        ]
      ]
    ]

-- In a rule none of whose writes sets the primary key, a change of any kind, allowed or not, either fails and
-- leaves the database as it was; or creates one row more, under a key that no row of the table had, at the end of
-- the table; or deletes the rows of the target key, only where it is a delete under a rule with no soft delete;
-- or keeps every row with its key and leaves every row of another key as it was. No other table changes.
pub execute-IsEffect :
    (session : Session) (rule : EntityRule) (change : NormalizedChange) (db : Database)
    → IsKeyFree rule
    → IsEffect rule change db (execute session rule change db).0 (execute session rule change db).1
unfolding execute
execute-IsEffect session rule change db free = elim (Option-cases (check_columns rule change)) [
  | inl n ↦
      subst
        (λ o.
          Effect session rule free change db
            (when_declared o (transaction (operate session rule change)) db))
        (sym n) (operate-IsEffect session rule free change db n)
  | inr (column, s) ↦
      subst
        (λ o.
          Effect session rule free change db
            (when_declared o (transaction (operate session rule change)) db))
        (sym s) (rolled_back (undeclared_column column) refl refl)
]
