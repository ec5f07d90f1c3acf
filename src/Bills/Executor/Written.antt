-- ===== src/Bills/Executor/Written.antt =====
-- What a write that succeeds has written: which rows, in which tables, and nothing else.
use mathlib.Core.Path.{subst}
use erp_agent.Prelude.{
  ℕ, suc, ◌≡◌, refl, String, Bool, true, false, Option, none, some, [], ◌∷◌, ◌++◌, lookup, insert,
  update, if◌then◌else◌, Result, ok, err,
}
use erp_agent.Prelude.Exec.{pure, raise, gets, require, ◌>>=◌, ◌>>◌, >>=-ends, require-then}
use erp_agent.Bills.Rules.{int, text, FieldRule, PurchaseInvoiceRule, MatchTargetRule}
use erp_agent.Bills.Models.{MatchResult, MatchStatus, matched, ambiguous, new, LinePlan, WritePlan}
use erp_agent.Bills.Executor.{
  WriteError, not_resolvable, refused, no_tipo_doc, key_error, Writing, Record, Database, Session,
  rows_of, full_name, max_chave, tipo_doc_of, set_named, next_key, insert_row, create_entity,
  create_confirmed, resolve_entity, header_row, write_header, line_row, write_line,
}

pub returned :
    {A : Type 0} (P : A → Database → Type 0) (a b : A) (s t : Database)
    → P a s
    → ◌≡◌ {A = Result WriteError A × Database} (ok a, s) (ok b, t)
    → P b t
returned P a b s t p e = subst (λ x. P x t) (value a b s t e) (subst (P a) (state a b s t e) p)
  where
    value :
        {A : Type 0} (a b : A) (s t : Database)
        → ◌≡◌ {A = Result WriteError A × Database} (ok a, s) (ok b, t)
        → a ≡ b
    value a b s t e = cc

    state :
        {A : Type 0} (a b : A) (s t : Database)
        → ◌≡◌ {A = Result WriteError A × Database} (ok a, s) (ok b, t)
        → s ≡ t
    state a b s t e = cc

module _ (session : Session) where
  -- The one change is a row behind those of its table.
  abbrev pub IsAdded : String → Record → Database → Database → Type 0
  IsAdded table row db after =
      after
      ≡ insert (full_name session table) (rows_of (lookup (full_name session table) db) ++ row ∷ [])
          db

  -- The key above all keys of the table.
  abbrev pub next_of : String → Database → ℕ
  next_of table db = suc (max_chave (rows_of (lookup (full_name session table) db)))

  -- The record that a match names: a row that is there, or a new one, which the operator has confirmed.
  pub data IsResolved (m : MatchResult) (target : MatchTargetRule) (key : ℕ) (created : Bool)
      (db after : Database) : Type 0 where
    existing :
        m.status ≡ matched
        → m.chave ≡ some key
        → created ≡ false
        → after ≡ db
        → IsResolved m target key created db after
    inserted :
        (proposed : Record)
        → m.status ≡ new
        → m.confirmed ≡ true
        → m.proposed_new ≡ some proposed
        → created ≡ true
        → key ≡ next_of target.table db
        → IsAdded target.table
            (insert "OC" (int session.operator_key) (
              insert "DC" (text (session.now db)) (
                update
                  (update (("Chave", int key) ∷ []) (update [] target.create_defaults))
                  proposed)))
            db
            after
        → IsResolved m target key created db after

  insert_row-IsAdded :
      (table : String) (row : Record) (db after : Database)
      → ◌≡◌ {A = Result WriteError (Unit {0}) × Database}
          (insert_row session table row db)
          (ok tt, after)
      → IsAdded table row db after
  unfolding insert_row
  insert_row-IsAdded table row db after h =
      by_check (session.accepts (full_name session table) row db) h
    where
      by_check :
          (b : Bool)
          → ◌≡◌ {A = Result WriteError (Unit {0}) × Database}
              (if b
                then (
                  ok tt,
                  insert
                      (full_name session table)
                      (rows_of (lookup (full_name session table) db) ++ row ∷ [])
                      db,
                )
                else (err (refused table), db))
              (ok tt, after)
          → IsAdded table row db after
      by_check true e = cc
      by_check false e = cc

  module _ (m : MatchResult) (target : MatchTargetRule) (db : Database) where
    abbrev Resolved : ℕ × Bool → Database → Type 0
    Resolved r after = IsResolved m target r.0 r.1 db after

    create_entity-IsResolved :
        (proposed : Record) (r : ℕ × Bool) (after : Database)
        → m.status ≡ new
        → m.confirmed ≡ true
        → m.proposed_new ≡ some proposed
        → ◌≡◌ {A = Result WriteError (ℕ × Bool) × Database}
            (create_entity session target.table (update [] target.create_defaults) proposed db)
            (ok r, after)
        → Resolved r after
    unfolding create_entity next_key
    create_entity-IsResolved proposed r after s c p h =
        let row : Record = insert "OC" (int session.operator_key) (
          insert "DC" (text (session.now db)) (
            update
              (update (("Chave", int (next_of target.table db)) ∷ [])
                (update [] target.create_defaults))
              proposed)) in
        let (_, t, wrote, last) =
          >>=-ends (insert_row session target.table row) (λ x. pure (next_of target.table db, true))
            db h in
        returned Resolved _ r t after
          (inserted proposed s c p refl refl (insert_row-IsAdded _ _ db t wrote)) last

    by_confirmed :
        (b : Bool) (o : Option Record) (r : ℕ × Bool) (after : Database)
        → m.status ≡ new
        → m.confirmed ≡ b
        → m.proposed_new ≡ o
        → ◌≡◌ {A = Result WriteError (ℕ × Bool) × Database}
            (create_confirmed session b o target.table (update [] target.create_defaults) db)
            (ok r, after)
        → Resolved r after
    unfolding create_confirmed
    by_confirmed true (some proposed) r after s c p h =
        create_entity-IsResolved proposed r after s c p h
    by_confirmed true none r after s c p h = cc
    by_confirmed false o r after s c p h = cc

    by_status :
        (s : MatchStatus) (chave : Option ℕ) (r : ℕ × Bool) (after : Database)
        → m.status ≡ s
        → m.chave ≡ chave
        → ◌≡◌ {A = Result WriteError (ℕ × Bool) × Database}
            ((λ (w : Writing (ℕ × Bool)). w db)
              (elim s [
                | matched ↦ elim chave [
                  | none ↦ raise (not_resolvable target.table)
                  | some k ↦ pure (k, false)
                ]
                | ambiguous ↦ raise (not_resolvable target.table)
                | new ↦
                    create_confirmed session m.confirmed m.proposed_new target.table
                      (update [] target.create_defaults)
              ]))
            (ok r, after)
        → Resolved r after
    by_status matched none r after s c h = cc
    by_status matched (some k) r after s c h =
        returned Resolved (k, false) r db after (existing s c refl refl) h
    by_status ambiguous chave r after s c h = cc
    by_status new chave r after s c h =
        by_confirmed m.confirmed m.proposed_new r after s refl refl h

    pub resolve_entity-IsResolved :
        (r : ℕ × Bool) (after : Database)
        → ◌≡◌ {A = Result WriteError (ℕ × Bool) × Database}
            (resolve_entity session m target db)
            (ok r, after)
        → Resolved r after
    unfolding resolve_entity
    resolve_entity-IsResolved r after h = by_status m.status m.chave r after refl refl h

  module _ (rule : PurchaseInvoiceRule) where
    -- The document: one row of the header's table, with the plan's columns, the keys and the rule's values.
    pub record IsHeaderWritten (columns : Record) (supplier_chave doc_pk : ℕ) (db after : Database)
        : Type 0 where
      pub tipo_doc : ℕ
      pub type_found :
          tipo_doc_of rule.header.tipo_doc.code (rows_of (lookup (full_name session "TiposDoc") db))
          ≡ some tipo_doc
      pub field : FieldRule
      pub field_found : lookup "supplier" rule.header.fields ≡ some field
      pub keyed : doc_pk ≡ next_of rule.header.table db
      pub added :
          IsAdded rule.header.table
            (set_named (lookup "created_by" rule.header.audit_columns) (int session.operator_key) (
              set_named (lookup "created_at" rule.header.audit_columns) (text (session.now db)) (
                update
                  (insert field.column
                    (int supplier_chave)
                    (insert "TipoDoc" (int tipo_doc) (insert "Chave" (int doc_pk) columns)))
                  rule.header.draft_defaults)))
            db
            after

    pub write_header-IsHeaderWritten :
        (plan : WritePlan) (supplier_chave doc_pk : ℕ) (db after : Database)
        → ◌≡◌ {A = Result WriteError ℕ × Database}
            (write_header session rule plan supplier_chave db)
            (ok doc_pk, after)
        → IsHeaderWritten plan.header supplier_chave doc_pk db after
    unfolding write_header next_key header_row
    write_header-IsHeaderWritten plan supplier_chave doc_pk db after h =
        let key = next_of rule.header.table db in
        let row : ℕ → FieldRule → Record = λ tipo field.
          header_row session rule plan.header key tipo field.column supplier_chave
            (session.now db) in
        let rest : ℕ → FieldRule → Writing ℕ =
          λ tipo field. insert_row session rule.header.table (row tipo field) >> pure key in
        let (tipo, type_found, h1) =
          require-then
            (tipo_doc_of rule.header.tipo_doc.code
              (rows_of (lookup (full_name session "TiposDoc") db)))
            (no_tipo_doc rule.header.tipo_doc.code)
            (λ t. next_key session rule.header.table >>= λ doc.
              (require (lookup "supplier" rule.header.fields) (key_error "supplier") >>= λ field.
              (gets session.now >>= λ now.
              (insert_row session rule.header.table
                  (header_row session rule plan.header doc t field.column supplier_chave now)
                >> pure doc))))
            db h in
        let (field, field_found, h2) =
          require-then (lookup "supplier" rule.header.fields) (key_error "supplier")
            (λ field d.
              (insert_row session rule.header.table (
                    header_row session rule plan.header key tipo field.column supplier_chave
                      (session.now d))
                  >> pure key)
                d)
            db h1 in
        let (_, t, wrote, last) =
          >>=-ends (insert_row session rule.header.table (row tipo field)) (λ x. pure key) db h2 in
        returned (λ doc s. IsHeaderWritten plan.header supplier_chave doc db s) key doc_pk t after
          (record {
            tipo_doc = tipo;
            type_found = type_found;
            field = field;
            field_found = field_found;
            keyed = refl;
            added = insert_row-IsAdded rule.header.table (row tipo field) db t wrote;
          })
          last

    -- A line: its article, and then one row of the lines' table with its columns and the two keys.
    pub record IsLineWritten (doc_pk : ℕ) (l : LinePlan) (line_pk article : ℕ) (created : Bool)
        (db after : Database) : Type 0 where
      pub between : Database
      pub resolved : IsResolved l.article rule.matching.article article created db between
      pub field : FieldRule
      pub field_found : lookup "article" rule.lines.fields ≡ some field
      pub keyed : line_pk ≡ next_of rule.lines.table between
      pub added :
          IsAdded rule.lines.table
            (insert field.column
              (int article)
              (insert rule.lines.parent_fk (int doc_pk) (insert "Chave" (int line_pk) l.columns)))
            between
            after

    pub write_line-IsLineWritten :
        (doc_pk : ℕ) (l : LinePlan) (r : ℕ × (ℕ × Bool)) (db after : Database)
        → ◌≡◌ {A = Result WriteError (ℕ × (ℕ × Bool)) × Database}
            (write_line session rule doc_pk l db)
            (ok r, after)
        → IsLineWritten doc_pk l r.0 r.1.0 r.1.1 db after
    unfolding write_line next_key line_row
    write_line-IsLineWritten doc_pk l r db after h =
        let row : ℕ → FieldRule → ℕ → Record = λ line_pk field article.
          line_row session rule l.columns line_pk doc_pk field.column article in
        let (article, between, found, h1) =
          >>=-ends (resolve_entity session l.article rule.matching.article)
            (λ article. next_key session rule.lines.table >>= λ line_pk.
              (require (lookup "article" rule.lines.fields) (key_error "article") >>= λ field.
              (insert_row session rule.lines.table (row line_pk field article.0)
                >> pure (line_pk, article))))
            db h in
        let line_pk = next_of rule.lines.table between in
        let (field, field_found, h2) =
          require-then (lookup "article" rule.lines.fields) (key_error "article")
            (λ field.
              insert_row session rule.lines.table (row line_pk field article.0)
              >> pure (line_pk, article))
            between h1 in
        let (_, t, wrote, last) =
          >>=-ends (insert_row session rule.lines.table (row line_pk field article.0))
            (λ x. pure (line_pk, article)) between h2 in
        returned {A = ℕ × (ℕ × Bool)} (λ x s. IsLineWritten doc_pk l x.0 x.1.0 x.1.1 db s)
          (line_pk, article) r t after
          (record {
            between = between;
            resolved =
                resolve_entity-IsResolved l.article rule.matching.article db article between found;
            field = field;
            field_found = field_found;
            keyed = refl;
            added =
                insert_row-IsAdded rule.lines.table (row line_pk field article.0) between t wrote;
          })
          last
