-- ===== src/Bills/Executor.antt =====
-- logic/bills/write_executor.py: the transaction that writes a plan. A database is its tables' rows, and a
-- table that is missing has none; what the database refuses, the clock and the audit row's statement are parameters.
pub mod Rows
pub mod Keys
pub mod Written
pub mod Atomic
pub mod Whole
use Prim.Native.String.{◌++◌ as text_append}
use erp_agent.Prelude.{
  ℕ, suc, max, String, Bool, true, false, Option, none, some, List, [], ◌∷◌, ◌++◌, ◌==◌,
  if◌then◌else◌, elem, Dict, lookup, insert, update, values, ok, err,
}
use erp_agent.Prelude.Exec.{Exec, pure, raise, gets, require, ◌>>=◌, ◌>>◌}
use erp_agent.Bills.Rules.{Cell, int, text, FieldRule, PurchaseInvoiceRule, MatchTargetRule}
use erp_agent.Bills.Models.{MatchResult, matched, ambiguous, new, LinePlan, WritePlan}

pub data WriteError : Type 0 where
  undeclared_column : String → WriteError
  not_resolvable : String → WriteError
  refused : String → WriteError
  no_tipo_doc : String → WriteError
  key_error : String → WriteError
  audit_failed : WriteError
  attribute_error : WriteError

abbrev pub Record : Type 0
Record = Dict Cell

-- Rows by the full name of their table.
abbrev pub Database : Type 0
Database = Dict (List Record)

pub record WriteResult : Type 0 where
  pub document_chave : ℕ
  pub supplier_chave : ℕ
  pub line_chaves : List ℕ
  pub created_supplier : Bool
  pub created_articles : List ℕ

abbrev pub Writing : Type 0 → Type 0
Writing = Exec WriteError Database

-- `accepts` is the database's own checks of a row, `now` the clock at a statement.
pub record Session : Type 0 where
  pub table_prefix : String
  pub operator_key : ℕ
  pub now : Database → String
  pub accepts : String → Record → Database → Bool
  pub audit_insert : WritePlan → WriteResult → Writing (Unit {0})

abbrev pub number_of : Option Cell → ℕ
number_of (some (int n)) = n
number_of c = 0

-- COALESCE(MAX(Chave), 0)
unfoldable pub max_chave : List Record → ℕ
max_chave [] = 0
max_chave (row ∷ rows) = max (number_of (lookup "Chave" row)) (max_chave rows)

abbrev pub rows_of : Option (List Record) → List Record
rows_of none = []
rows_of (some rows) = rows

unfoldable pub check_columns : List String → Record → Writing (Unit {0})
check_columns allowed [] = pure tt
check_columns allowed ((key, c) ∷ row) =
    if elem key allowed then check_columns allowed row else raise (undeclared_column key)

unfoldable pub check_lines : List String → List LinePlan → Writing (Unit {0})
unfolding check_columns
check_lines allowed [] = pure tt
check_lines allowed (l ∷ ls) = do check_columns allowed l.columns; check_lines allowed ls

unfoldable pub check_new : List String → MatchResult → Writing (Unit {0})
unfolding check_columns
check_new allowed m = elim m.status [
  | matched ↦ pure tt
  | ambiguous ↦ pure tt
  | new ↦ elim m.proposed_new [ none ↦ pure tt | some row ↦ check_columns allowed row ]
]

unfoldable pub check_articles : List String → List LinePlan → Writing (Unit {0})
unfolding check_new
check_articles allowed [] = pure tt
check_articles allowed (l ∷ ls) = do check_new allowed l.article; check_articles allowed ls

abbrev pub columns_of : List FieldRule → List String
columns_of [] = []
columns_of (f ∷ fs) = f.column ∷ columns_of fs

-- The checks before any write.
unfoldable pub whitelist : PurchaseInvoiceRule → WritePlan → Writing (Unit {0})
unfolding check_columns check_lines check_new check_articles
whitelist rule plan = do
  check_columns (columns_of (values rule.header.fields)) plan.header
  check_lines (columns_of (values rule.lines.fields)) plan.lines
  check_new rule.matching.supplier.create_columns plan.supplier
  check_articles rule.matching.article.create_columns plan.lines

-- The key of the first document type with the code.
unfoldable pub tipo_doc_of : String → List Record → Option ℕ
tipo_doc_of c [] = none
tipo_doc_of c (row ∷ rows) =
    let rest = tipo_doc_of c rows in
    elim (lookup "Codigo" row) [
      | none ↦ rest
      | some (text s) ↦ if s == c then some (number_of (lookup "Chave" row)) else rest
      | some v ↦ rest
    ]

-- `if name: header[name] = value`
abbrev pub set_named : Option String → Cell → Record → Record
set_named none v row = row
set_named (some name) v row = if name == "" then row else insert name v row

module _ (session : Session) where
  abbrev pub full_name : String → String
  full_name table = text_append session.table_prefix table

  unfoldable pub next_key : String → Writing ℕ
  unfolding max_chave
  next_key table = gets (λ db. suc (max_chave (rows_of (lookup (full_name table) db))))

  unfoldable pub insert_row : String → Record → Writing (Unit {0})
  insert_row table row db =
      if session.accepts (full_name table) row db
      then (ok tt, insert (full_name table) (rows_of (lookup (full_name table) db) ++ row ∷ []) db)
      else (err (refused table), db)

  -- A new record: a fresh key, the defaults, the proposed columns, and the two audit columns last.
  unfoldable pub create_entity : String → Record → Record → Writing (ℕ × Bool)
  unfolding next_key insert_row
  create_entity table defaults proposed = do
    pk ← next_key table
    now ← gets session.now
    insert_row table (
        insert "OC" (int session.operator_key)
          (insert "DC" (text now) (update (update (("Chave", int pk) ∷ []) defaults) proposed)))
    pure (pk, true)

  unfoldable pub create_confirmed : Bool → Option Record → String → Record → Writing (ℕ × Bool)
  unfolding create_entity
  create_confirmed true (some proposed) table defaults = create_entity table defaults proposed
  create_confirmed confirmed proposed table defaults = raise (not_resolvable table)

  unfoldable pub resolve_entity : MatchResult → MatchTargetRule → Writing (ℕ × Bool)
  unfolding create_confirmed
  resolve_entity m target = elim m.status [
    | matched ↦ elim m.chave [
      | none ↦ raise (not_resolvable target.table)
      | some k ↦ pure (k, false)
    ]
    | ambiguous ↦ raise (not_resolvable target.table)
    | new ↦
        create_confirmed m.confirmed m.proposed_new target.table (update [] target.create_defaults)
  ]

  module _ (rule : PurchaseInvoiceRule) where
    -- The header row: the plan's columns first, the computed ones last.
    unfoldable pub header_row : Record → ℕ → ℕ → String → ℕ → String → Record
    header_row columns doc_pk tipo_doc supplier_column supplier_chave now =
        let row =
          update
            (insert supplier_column (int supplier_chave)
              (insert "TipoDoc" (int tipo_doc) (insert "Chave" (int doc_pk) columns)))
            rule.header.draft_defaults in
        set_named (lookup "created_by" rule.header.audit_columns) (int session.operator_key)
          (set_named (lookup "created_at" rule.header.audit_columns) (text now) row)

    unfoldable pub write_header : WritePlan → ℕ → Writing ℕ
    unfolding header_row next_key insert_row
    write_header plan supplier_chave = do
      found ←
          gets (λ db.
            tipo_doc_of rule.header.tipo_doc.code (rows_of (lookup (full_name "TiposDoc") db)))
      tipo_doc ← require found (no_tipo_doc rule.header.tipo_doc.code)
      doc_pk ← next_key rule.header.table
      field ← require (lookup "supplier" rule.header.fields) (key_error "supplier")
      now ← gets session.now
      insert_row rule.header.table
          (header_row plan.header doc_pk tipo_doc field.column supplier_chave now)
      pure doc_pk

    unfoldable pub line_row : Record → ℕ → ℕ → String → ℕ → Record
    line_row columns line_pk doc_pk article_column art_chave =
        insert article_column (int art_chave)
          (insert rule.lines.parent_fk (int doc_pk) (insert "Chave" (int line_pk) columns))

    -- The body of the loop over the lines.
    unfoldable pub write_line : ℕ → LinePlan → Writing (ℕ × (ℕ × Bool))
    unfolding resolve_entity next_key line_row insert_row
    write_line doc_pk l = do
      article ← resolve_entity l.article rule.matching.article
      line_pk ← next_key rule.lines.table
      field ← require (lookup "article" rule.lines.fields) (key_error "article")
      insert_row rule.lines.table (line_row l.columns line_pk doc_pk field.column article.0)
      pure (line_pk, article)

    -- The keys of the lines, and of the articles that were created.
    unfoldable pub write_lines : ℕ → List LinePlan → Writing (List ℕ × List ℕ)
    unfolding write_line
    write_lines doc_pk [] = pure ([], [])
    write_lines doc_pk (l ∷ ls) = do
      line ← write_line doc_pk l
      rest ← write_lines doc_pk ls
      pure (line.0 ∷ rest.0, if line.1.1 then line.1.0 ∷ rest.1 else rest.1)

    unfoldable pub write_document : WritePlan → Writing WriteResult
    unfolding resolve_entity write_header write_lines
    write_document plan = do
      supplier ← resolve_entity plan.supplier rule.matching.supplier
      doc_pk ← write_header plan supplier.0
      lines ← write_lines doc_pk plan.lines
      let result : WriteResult = record {
        document_chave = doc_pk;
        supplier_chave = supplier.0;
        line_chaves = lines.0;
        created_supplier = supplier.1;
        created_articles = lines.1;
      }
      session.audit_insert plan result
      pure result

    -- `with self._factory() as session`: an exception rolls everything back.
    unfoldable pub transaction : Writing WriteResult → Writing WriteResult
    transaction body db =
        let (r, db') = body db in elim r [ ok a ↦ (ok a, db') | err e ↦ (err e, db) ]

    unfoldable pub write_plan : WritePlan → Writing WriteResult
    unfolding whitelist write_document transaction
    write_plan plan = do whitelist rule plan; transaction (write_document plan)
