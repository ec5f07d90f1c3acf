-- ===== src/Bills/Executor/Rows.antt =====
-- What a write does to the tables: it appends rows, all of them or none.
use mathlib.Core.Path.{subst}
use erp_agent.Prelude.{
  ℕ, ◌≡◌, refl, sym, ap, ◌∙◌, inl, inr, String, Bool, true, false, Option, none, some, List, [],
  ◌∷◌, ◌++◌, ◌==◌, eq_iff, eq_refl, if◌then◌else◌, append_assoc, append-nil, Bool-cases, lookup,
  insert, update, lookup-insert, Result, ok, err,
}
use erp_agent.Prelude.Exec.{pure, raise, gets, require, ◌>>=◌}
use erp_agent.Bills.Rules.{int, text, PurchaseInvoiceRule, MatchTargetRule}
use erp_agent.Bills.Models.{MatchResult, MatchStatus, matched, ambiguous, new, LinePlan, WritePlan}
use erp_agent.Bills.Executor.{
  WriteError, not_resolvable, no_tipo_doc, key_error, tipo_doc_of, Record, Database, WriteResult,
  Writing, Session, rows_of, full_name, next_key, insert_row, create_entity, create_confirmed,
  resolve_entity, header_row, write_header, line_row, write_line, write_lines, write_document,
}

-- Every table has the rows it had, and perhaps more behind them.
abbrev pub Extends : Database → Database → Type 0
Extends db db' =
    (table : String)
    → (more : List Record) × (rows_of (lookup table db') ≡ rows_of (lookup table db) ++ more)

pub Extends-refl : (db : Database) → Extends db db
Extends-refl db table = ([], sym (append-nil _))

pub Extends-trans : (a b c : Database) → Extends a b → Extends b c → Extends a c
Extends-trans a b c f g table =
    let (m, e) = f table in
    let (n, e') = g table in
    (m ++ n, e' ∙ ap (λ r. r ++ n) e ∙ append_assoc (rows_of (lookup table a)) m n)

-- A method that only appends rows, whether it returns or raises.
pub record Appends {A : Type 0} (m : Writing A) : Type 0 where
  pub at : (db : Database) → Extends db (m db).1

grown_by :
    {A B : Type 0} (f : A → Writing B) (db : Database) (r : Result WriteError A) (db' : Database)
    → Extends db db'
    → ((a : A) → Appends (f a))
    → Extends db (((λ s. (r, s)) >>= f) db').1
grown_by f db (ok a) db' g k = Extends-trans db db' _ g ((k a).at db')
grown_by f db (err e) db' g k = g

pub >>=-Appends :
    {A B : Type 0} (m : Writing A) (f : A → Writing B)
    → Appends m
    → ((a : A) → Appends (f a))
    → Appends (m >>= f)
>>=-Appends m f h k = record { at = λ db. grown_by f db (m db).0 (m db).1 (h.at db) k }

pure-Appends : {A : Type 0} (a : A) → Appends (pure a)
pure-Appends a = record { at = Extends-refl }

raise-Appends : (A : Type 0) (e : WriteError) → Appends (raise {A = A} e)
raise-Appends A e = record { at = Extends-refl }

gets-Appends : {A : Type 0} (f : Database → A) → Appends (gets f)
gets-Appends f = record { at = Extends-refl }

require-Appends : {A : Type 0} (o : Option A) (e : WriteError) → Appends (require o e)
require-Appends none e = record { at = Extends-refl }
require-Appends (some a) e = record { at = Extends-refl }

-- A row put behind those of its table.
own_row :
    (t : String) (row : Record) (db : Database)
    → rows_of (if t == t then some (rows_of (lookup t db) ++ row ∷ []) else lookup t db)
      ≡ rows_of (lookup t db) ++ row ∷ []
own_row t row db = rw (eq_refl t) refl

appended :
    (t : String) (row : Record) (db : Database)
    → Extends db (insert t (rows_of (lookup t db) ++ row ∷ []) db)
appended t row db table = elim (Bool-cases (table == t)) [
  | inl same ↦ (
    row ∷ [],
    subst
        (λ x.
          rows_of (lookup x (insert t (rows_of (lookup t db) ++ row ∷ []) db))
          ≡ rows_of (lookup x db) ++ row ∷ [])
        (sym ((eq_iff table t).0 same))
        (ap rows_of (lookup-insert t t (rows_of (lookup t db) ++ row ∷ []) db) ∙ own_row t row db),
  )
  | inr other ↦ (
    [],
    ap rows_of (lookup-insert t table (rows_of (lookup t db) ++ row ∷ []) db)
        ∙ subst
            (λ b.
              rows_of (if b then some (rows_of (lookup t db) ++ row ∷ []) else lookup table db)
              ≡ rows_of (lookup table db) ++ [])
            (sym other) (sym (append-nil _)),
  )
]

module _ (session : Session) where
  insert_row-Appends : (table : String) (row : Record) → Appends (insert_row session table row)
  unfolding insert_row
  insert_row-Appends table row = record {
    at = λ db. elim (Bool-cases (session.accepts (full_name session table) row db)) [
      | inl fits ↦ rw fits (appended (full_name session table) row db)
      | inr misfits ↦ rw misfits (Extends-refl db)
    ];
  }

  next_key-Appends : (table : String) → Appends (next_key session table)
  unfolding next_key
  next_key-Appends table = record { at = Extends-refl }

  create_entity-Appends :
      (table : String) (defaults proposed : Record)
      → Appends (create_entity session table defaults proposed)
  unfolding create_entity
  create_entity-Appends table defaults proposed =
      let new_row : ℕ → String → Record = λ pk now.
        insert "OC" (int session.operator_key)
          (insert "DC" (text now) (update (update (("Chave", int pk) ∷ []) defaults) proposed)) in
      >>=-Appends _ _ (next_key-Appends table) λ pk.
        >>=-Appends _ _ (gets-Appends session.now) λ now.
          >>=-Appends _ _ (insert_row-Appends table (new_row pk now))
            λ _. pure-Appends {A = ℕ × Bool} (pk, true)

  create_confirmed-Appends :
      (b : Bool) (o : Option Record) (table : String) (defaults : Record)
      → Appends (create_confirmed session b o table defaults)
  unfolding create_confirmed
  create_confirmed-Appends true (some proposed) table defaults =
      create_entity-Appends table defaults proposed
  create_confirmed-Appends true none table defaults = raise-Appends _ (not_resolvable table)
  create_confirmed-Appends false o table defaults = raise-Appends _ (not_resolvable table)

  resolve_status-Appends :
      (s : MatchStatus) (chave : Option ℕ) (m : MatchResult) (target : MatchTargetRule)
      → Appends {A = ℕ × Bool} (elim s [
        | matched ↦ elim chave [
          | none ↦ raise (not_resolvable target.table)
          | some k ↦ pure (k, false)
        ]
        | ambiguous ↦ raise (not_resolvable target.table)
        | new ↦
            create_confirmed session m.confirmed m.proposed_new target.table
              (update [] target.create_defaults)
      ])
  resolve_status-Appends matched none m target = raise-Appends _ (not_resolvable target.table)
  resolve_status-Appends matched (some k) m target = pure-Appends {A = ℕ × Bool} (k, false)
  resolve_status-Appends ambiguous chave m target = raise-Appends _ (not_resolvable target.table)
  resolve_status-Appends new chave m target =
      create_confirmed-Appends m.confirmed m.proposed_new target.table
        (update [] target.create_defaults)

  resolve_entity-Appends :
      (m : MatchResult) (target : MatchTargetRule) → Appends (resolve_entity session m target)
  unfolding resolve_entity
  resolve_entity-Appends m target = resolve_status-Appends m.status m.chave m target

  module _ (rule : PurchaseInvoiceRule) where
    write_header-Appends : (plan : WritePlan) (k : ℕ) → Appends (write_header session rule plan k)
    unfolding write_header
    write_header-Appends plan k =
        >>=-Appends _ _
          (gets-Appends (λ db.
            tipo_doc_of rule.header.tipo_doc.code
              (rows_of (lookup (full_name session "TiposDoc") db))))
          λ found.
            >>=-Appends _ _ (require-Appends found (no_tipo_doc rule.header.tipo_doc.code))
              λ tipo_doc. >>=-Appends _ _ (next_key-Appends rule.header.table) λ doc_pk.
                >>=-Appends _ _
                  (require-Appends (lookup "supplier" rule.header.fields) (key_error "supplier"))
                  λ field. >>=-Appends _ _ (gets-Appends session.now) λ now.
                    >>=-Appends _ _
                      (insert_row-Appends rule.header.table
                        (header_row session rule plan.header doc_pk tipo_doc field.column k now))
                      λ _. pure-Appends doc_pk

    write_line-Appends : (doc_pk : ℕ) (l : LinePlan) → Appends (write_line session rule doc_pk l)
    unfolding write_line
    write_line-Appends doc_pk l =
        >>=-Appends _ _ (resolve_entity-Appends l.article rule.matching.article) λ article.
          >>=-Appends _ _ (next_key-Appends rule.lines.table) λ line_pk.
            >>=-Appends _ _
              (require-Appends (lookup "article" rule.lines.fields) (key_error "article"))
              λ field.
                >>=-Appends _ _
                  (insert_row-Appends rule.lines.table
                    (line_row session rule l.columns line_pk doc_pk field.column article.0))
                  λ _. pure-Appends {A = ℕ × (ℕ × Bool)} (line_pk, article)

    pub write_lines-Appends :
        (doc_pk : ℕ) (ls : List LinePlan) → Appends (write_lines session rule doc_pk ls)
    unfolding write_lines
    write_lines-Appends doc_pk [] = pure-Appends {A = List ℕ × List ℕ} ([], [])
    write_lines-Appends doc_pk (l ∷ ls) = >>=-Appends _ _ (write_line-Appends doc_pk l) λ line.
        >>=-Appends _ _ (write_lines-Appends doc_pk ls) λ rest.
          pure-Appends {A = List ℕ × List ℕ}
            (line.0 ∷ rest.0, if line.1.1 then line.1.0 ∷ rest.1 else rest.1)

    pub write_document-Appends :
        ((plan : WritePlan) (result : WriteResult) → Appends (session.audit_insert plan result))
        → (plan : WritePlan) → Appends (write_document session rule plan)
    unfolding write_document
    write_document-Appends audit plan =
        >>=-Appends _ _ (resolve_entity-Appends plan.supplier rule.matching.supplier) λ supplier.
          >>=-Appends _ _ (write_header-Appends plan supplier.0) λ doc_pk.
            >>=-Appends _ _ (write_lines-Appends doc_pk plan.lines) λ lines.
              let result : WriteResult = record {
                document_chave = doc_pk;
                supplier_chave = supplier.0;
                line_chaves = lines.0;
                created_supplier = supplier.1;
                created_articles = lines.1;
              } in
              >>=-Appends _ _ (audit plan result) λ _. pure-Appends result
