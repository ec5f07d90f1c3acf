-- ===== src/Bills/Executor/Atomic.antt =====
-- The checks before a write, and what becomes of the database when a plan is written.
use erp_agent.Prelude.{
  ◌≡◌, refl, ap, ◌∙◌, ◌⊎◌, inl, inr, String, true, Option, none, some, List, [], ◌∷◌, elem, All,
  Bool-cases, keys, values, Result, ok, err,
}
use erp_agent.Prelude.Exec.{pure, ◌>>=◌, ◌>>◌}
use erp_agent.Bills.Rules.{PurchaseInvoiceRule}
use erp_agent.Bills.Models.{MatchStatus, MatchResult, matched, ambiguous, new, LinePlan, WritePlan}
use erp_agent.Bills.Executor.{
  WriteError, undeclared_column, Record, Database, WriteResult, Writing, Session, check_columns,
  check_lines, check_new, check_articles, whitelist, columns_of, write_document, transaction,
  write_plan,
}
use erp_agent.Bills.Executor.Rows.{Extends, Appends, write_document-Appends}

abbrev pub IsDeclared : List String → Record → Type 0
IsDeclared allowed row = All (λ k. elem k allowed ≡ true) (keys row)

abbrev IsDeclaredFor : List String → MatchStatus → Option Record → Type 0
IsDeclaredFor allowed new (some row) = IsDeclared allowed row
IsDeclaredFor allowed s o = Unit

-- The columns of a record that is to be created are declared.
abbrev pub IsNewDeclared : List String → MatchResult → Type 0
IsNewDeclared allowed m = IsDeclaredFor allowed m.status m.proposed_new

-- A check changes nothing; it raises, or what it checks holds.
pub record IsCheck (P : Type 0) (m : Writing (Unit {0})) : Type 0 where
  pub at : (db : Database) → ((e : WriteError) × (m db ≡ (err e, db))) ⊎ ((m db ≡ (ok tt, db)) × P)

after :
    {A B : Type 0} (f : A → Writing B)
    → Result WriteError A × Database
    → Result WriteError B × Database
after f (ok a, db) = f a db
after f (err e, db) = (err e, db)

>>=-after :
    {A B : Type 0} (m : Writing A) (f : A → Writing B) (db : Database)
    (r : Result WriteError A × Database)
    → m db ≡ r
    → (m >>= f) db ≡ after f r
unfolding after
>>=-after {A = A} {B = B} m f db (ok a, db') h =
    ap (λ (s : Result WriteError A × Database). ((λ x. s) >>= f) db) h
>>=-after {A = A} {B = B} m f db (err e, db') h =
    ap (λ (s : Result WriteError A × Database). ((λ x. s) >>= f) db) h

>>-IsCheck :
    {P Q : Type 0} (m k : Writing (Unit {0})) → IsCheck P m → IsCheck Q k → IsCheck (P × Q) (m >> k)
unfolding after
>>-IsCheck m k h g = record {
  at = λ db. elim (h.at db) [
    | inl (e, r) ↦ inl (e, >>=-after m (λ _. k) db (err e, db) r)
    | inr (r, p) ↦ elim (g.at db) [
      | inl (e, s) ↦ inl (e, >>=-after m (λ _. k) db (ok tt, db) r ∙ s)
      | inr (s, q) ↦ inr (>>=-after m (λ _. k) db (ok tt, db) r ∙ s, (p, q))
    ]
  ];
}

check_columns-IsCheck :
    (allowed : List String) (row : Record)
    → IsCheck (IsDeclared allowed row) (check_columns allowed row)
unfolding check_columns
check_columns-IsCheck allowed [] = record { at = λ db. inr (refl, tt) }
check_columns-IsCheck allowed ((key, c) ∷ row) = elim (Bool-cases (elem key allowed)) [
  | inl known ↦ record {
    at = λ db. elim ((check_columns-IsCheck allowed row).at db) [
      | inl (e, r) ↦ inl (e, rw (known, r) refl)
      | inr (r, p) ↦ inr (rw (known, r) refl, (known, p))
    ];
  }
  | inr unknown ↦ record { at = λ db. inl (undeclared_column key, rw unknown refl) }
]

check_lines-IsCheck :
    (allowed : List String) (ls : List LinePlan)
    → IsCheck (All (λ l. IsDeclared allowed l.columns) ls) (check_lines allowed ls)
unfolding check_lines
check_lines-IsCheck allowed [] = record { at = λ db. inr (refl, tt) }
check_lines-IsCheck allowed (l ∷ ls) =
    >>-IsCheck (check_columns allowed l.columns) (check_lines allowed ls)
      (check_columns-IsCheck allowed l.columns) (check_lines-IsCheck allowed ls)

by_status-IsCheck :
    (allowed : List String) (s : MatchStatus) (o : Option Record)
    → IsCheck (IsDeclaredFor allowed s o) (elim s [
      | matched ↦ pure tt
      | ambiguous ↦ pure tt
      | new ↦ elim o [ none ↦ pure tt | some row ↦ check_columns allowed row ]
    ])
by_status-IsCheck allowed matched o = record { at = λ db. inr (refl, tt) }
by_status-IsCheck allowed ambiguous o = record { at = λ db. inr (refl, tt) }
by_status-IsCheck allowed new none = record { at = λ db. inr (refl, tt) }
by_status-IsCheck allowed new (some row) = check_columns-IsCheck allowed row

check_new-IsCheck :
    (allowed : List String) (m : MatchResult)
    → IsCheck (IsNewDeclared allowed m) (check_new allowed m)
unfolding check_new
check_new-IsCheck allowed m = by_status-IsCheck allowed m.status m.proposed_new

check_articles-IsCheck :
    (allowed : List String) (ls : List LinePlan)
    → IsCheck (All (λ l. IsNewDeclared allowed l.article) ls) (check_articles allowed ls)
unfolding check_articles
check_articles-IsCheck allowed [] = record { at = λ db. inr (refl, tt) }
check_articles-IsCheck allowed (l ∷ ls) =
    >>-IsCheck (check_new allowed l.article) (check_articles allowed ls)
      (check_new-IsCheck allowed l.article) (check_articles-IsCheck allowed ls)

-- Every column that the plan names is declared by the rule document.
abbrev pub IsWhitelisted : PurchaseInvoiceRule → WritePlan → Type 0
IsWhitelisted rule plan =
    IsDeclared (columns_of (values rule.header.fields)) plan.header
    × (All (λ l. IsDeclared (columns_of (values rule.lines.fields)) l.columns) plan.lines
        × (IsNewDeclared rule.matching.supplier.create_columns plan.supplier
            × All (λ l. IsNewDeclared rule.matching.article.create_columns l.article) plan.lines))

pub whitelist-IsCheck :
    (rule : PurchaseInvoiceRule) (plan : WritePlan)
    → IsCheck (IsWhitelisted rule plan) (whitelist rule plan)
unfolding whitelist
whitelist-IsCheck rule plan =
    let header = columns_of (values rule.header.fields) in
    let line = columns_of (values rule.lines.fields) in
    let supplier = rule.matching.supplier.create_columns in
    let article = rule.matching.article.create_columns in
    >>-IsCheck _ _ (check_columns-IsCheck header plan.header) (
      >>-IsCheck _ _ (check_lines-IsCheck line plan.lines) (
        >>-IsCheck _ _ (check_new-IsCheck supplier plan.supplier)
          (check_articles-IsCheck article plan.lines)))

-- A run that changed nothing and raised, or one that appended rows.
abbrev pub IsAllOrNothing : Database → Result WriteError WriteResult × Database → Type 0
IsAllOrNothing db (r, db') =
    ((e : WriteError) × (r ≡ err e) × (db' ≡ db))
    ⊎ ((result : WriteResult) × (r ≡ ok result) × Extends db db')

transaction_step :
    (db : Database) (r : Result WriteError WriteResult) (db' : Database)
    → Extends db db'
    → IsAllOrNothing db (elim r [ ok a ↦ (ok a, db') | err e ↦ (err e, db) ])
transaction_step db (ok a) db' g = inr (a, refl, g)
transaction_step db (err e) db' g = inl (e, refl, refl)

pair_eq : {A B : Type 0} {a a' : A} {b b' : B} → a ≡ a' → b ≡ b' → ◌≡◌ {A = A × B} (a, b) (a', b')
pair_eq h k = cc

-- Writing a plan either raises and leaves the database as it was, or it succeeds, and then every column
-- that the plan names is declared by the rule document and each table has its old rows, unchanged and in
-- place, with the new ones behind them. The audit row's statement is assumed to append rows only.
pub write_plan-atomic :
    (session : Session) (rule : PurchaseInvoiceRule) (plan : WritePlan) (db : Database)
    → ((p : WritePlan) (result : WriteResult) → Appends (session.audit_insert p result))
    → ((e : WriteError) × (write_plan session rule plan db ≡ (err e, db)))
      ⊎ (IsWhitelisted rule plan
          × ((result : WriteResult) × (db' : Database) × (write_plan session rule plan db
                ≡ (ok result, db'))
              × Extends db db'))
unfolding write_plan transaction after
write_plan-atomic session rule plan db audit =
    let body = transaction session rule (write_document session rule plan) in
    elim ((whitelist-IsCheck rule plan).at db) [
      | inl (e, r) ↦ inl (e, >>=-after (whitelist rule plan) (λ _. body) db (err e, db) r)
      | inr (r, declared) ↦
          let runs = >>=-after (whitelist rule plan) (λ _. body) db (ok tt, db) r in
          let grown = (write_document-Appends session rule audit plan).at db in
          elim (transaction_step db (write_document session rule plan db).0
            (write_document session rule plan db).1 grown) [
              | inl (e, k, same) ↦ inl (e, runs ∙ pair_eq k same)
              | inr (result, k, g) ↦ inr (declared, (result, _, runs ∙ pair_eq k refl, g))
            ]
    ]
