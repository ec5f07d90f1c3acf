-- ===== src/Bills/Executor/Whole.antt =====
-- A plan whose write succeeds has been written whole.
use mathlib.Core.Path.{subst}
use erp_agent.Prelude.{
  ℕ, ◌≡◌, refl, sym, ap, ◌∙◌, Bool, List, [], ◌∷◌, if◌then◌else◌, inl, inr, Result, ok, err,
}
use erp_agent.Prelude.Exec.{pure, ◌>>=◌, ◌>>◌, >>=-ends}
use erp_agent.Bills.Rules.{PurchaseInvoiceRule}
use erp_agent.Bills.Models.{LinePlan, WritePlan}
use erp_agent.Bills.Executor.{
  WriteError, Database, WriteResult, Writing, Session, resolve_entity, write_header, write_line,
  write_lines, write_document, whitelist, transaction, write_plan,
}
use erp_agent.Bills.Executor.Written.{
  IsResolved, IsHeaderWritten, IsLineWritten, returned, resolve_entity-IsResolved,
  write_header-IsHeaderWritten, write_line-IsLineWritten,
}
use erp_agent.Bills.Executor.Atomic.{whitelist-IsCheck}

module _ (session : Session) (rule : PurchaseInvoiceRule) where
  -- The lines one after the other, with their keys and the keys of the articles that were created.
  abbrev pub AreLinesWritten : ℕ → List LinePlan → List ℕ × List ℕ → Database → Database → Type 0
  AreLinesWritten doc_pk [] r db after = (r.0 ≡ []) × (r.1 ≡ []) × (after ≡ db)
  AreLinesWritten doc_pk (l ∷ ls) r db after =
      (line_pk article : ℕ) × (created : Bool) × (rest : List ℕ × List ℕ) × (between : Database)
      × IsLineWritten session rule doc_pk l line_pk article created db between
      × AreLinesWritten doc_pk ls rest between after
      × (r.0 ≡ line_pk ∷ rest.0)
      × (r.1 ≡ (if created then article ∷ rest.1 else rest.1))

  -- The supplier, the document's row, the rows of its lines and the audit row, in this order, and nothing else.
  pub record IsWritten (plan : WritePlan) (result : WriteResult) (db after : Database)
      : Type 0 where
    pub with_supplier : Database
    pub with_header : Database
    pub with_lines : Database
    pub supplier :
        IsResolved session plan.supplier rule.matching.supplier result.supplier_chave
          result.created_supplier db with_supplier
    pub header :
        IsHeaderWritten session rule plan.header result.supplier_chave result.document_chave
          with_supplier with_header
    pub lines :
        AreLinesWritten result.document_chave plan.lines
          (result.line_chaves, result.created_articles)
          with_header
          with_lines
    pub audited :
        ◌≡◌ {A = Result WriteError (Unit {0}) × Database}
          (session.audit_insert plan result with_lines)
          (ok tt, after)

  write_lines-AreLinesWritten :
      (doc_pk : ℕ) (ls : List LinePlan) (r : List ℕ × List ℕ) (db after : Database)
      → ◌≡◌ {A = Result WriteError (List ℕ × List ℕ) × Database}
          (write_lines session rule doc_pk ls db)
          (ok r, after)
      → AreLinesWritten doc_pk ls r db after
  unfolding write_lines
  write_lines-AreLinesWritten doc_pk [] r db after h =
      returned {A = List ℕ × List ℕ} (λ x s. AreLinesWritten doc_pk [] x db s) ([], []) r db after
        (refl, refl, refl) h
  write_lines-AreLinesWritten doc_pk (l ∷ ls) r db after h =
      let keys : ℕ × (ℕ × Bool) → List ℕ × List ℕ → List ℕ × List ℕ =
        λ line rest. (line.0 ∷ rest.0, if line.1.1 then line.1.0 ∷ rest.1 else rest.1) in
      let (line, between, first, h1) =
        >>=-ends (write_line session rule doc_pk l)
          (λ line. write_lines session rule doc_pk ls >>= λ rest. pure (keys line rest)) db h in
      let (rest, t, later, last) =
        >>=-ends (write_lines session rule doc_pk ls) (λ rest. pure (keys line rest)) between h1 in
      returned {A = List ℕ × List ℕ} (λ x s. AreLinesWritten doc_pk (l ∷ ls) x db s)
        (keys line rest) r t after
        (
          line.0,
          line.1.0,
          line.1.1,
          rest,
          between,
          write_line-IsLineWritten session rule doc_pk l line db between first,
          write_lines-AreLinesWritten doc_pk ls rest between t later,
          refl,
          refl,
        )
        last

  write_document-IsWritten :
      (plan : WritePlan) (result : WriteResult) (db after : Database)
      → ◌≡◌ {A = Result WriteError WriteResult × Database}
          (write_document session rule plan db)
          (ok result, after)
      → IsWritten plan result db after
  unfolding write_document
  write_document-IsWritten plan result db after h =
      let report : ℕ × Bool → ℕ → List ℕ × List ℕ → WriteResult = λ supplier doc_pk lines. record {
        document_chave = doc_pk;
        supplier_chave = supplier.0;
        line_chaves = lines.0;
        created_supplier = supplier.1;
        created_articles = lines.1;
      } in
      let finish : ℕ × Bool → ℕ → List ℕ × List ℕ → Writing WriteResult = λ supplier doc_pk lines.
        session.audit_insert plan (report supplier doc_pk lines)
        >> pure (report supplier doc_pk lines) in
      let (supplier, a, e1, h1) =
        >>=-ends (resolve_entity session plan.supplier rule.matching.supplier)
          (λ supplier. write_header session rule plan supplier.0 >>= λ doc_pk.
            (write_lines session rule doc_pk plan.lines >>= λ lines. finish supplier doc_pk lines))
          db h in
      let (doc_pk, b, e2, h2) =
        >>=-ends (write_header session rule plan supplier.0)
          (λ doc_pk.
            write_lines session rule doc_pk plan.lines >>= λ lines. finish supplier doc_pk lines)
          a h1 in
      let (lines, c, e3, h3) =
        >>=-ends (write_lines session rule doc_pk plan.lines)
          (λ lines. finish supplier doc_pk lines) b h2 in
      let (x, d, e4, last) =
        >>=-ends (session.audit_insert plan (report supplier doc_pk lines))
          (λ u. pure (report supplier doc_pk lines)) c h3 in
      returned (λ r s. IsWritten plan r db s) (report supplier doc_pk lines) result d after
        (record {
          with_supplier = a;
          with_header = b;
          with_lines = c;
          supplier =
              resolve_entity-IsResolved session plan.supplier rule.matching.supplier db supplier a
                e1;
          header = write_header-IsHeaderWritten session rule plan supplier.0 doc_pk a b e2;
          lines = write_lines-AreLinesWritten doc_pk plan.lines lines b c e3;
          audited = e4;
        })
        last

  by_transaction :
      (out : Result WriteError WriteResult × Database) (result : WriteResult) (db after : Database)
      → ◌≡◌ {A = Result WriteError WriteResult × Database}
          (elim out.0 [ ok a ↦ (ok a, out.1) | err e ↦ (err e, db) ])
          (ok result, after)
      → ◌≡◌ {A = Result WriteError WriteResult × Database} out (ok result, after)
  by_transaction (ok a, s) result db after h = h
  by_transaction (err e, s) result db after h = cc

  pub write_plan-IsWritten :
      (plan : WritePlan) (result : WriteResult) (db after : Database)
      → ◌≡◌ {A = Result WriteError WriteResult × Database}
          (write_plan session rule plan db)
          (ok result, after)
      → IsWritten plan result db after
  unfolding write_plan transaction
  write_plan-IsWritten plan result db after h =
      let body = transaction session rule (write_document session rule plan) in
      let (x, t, checked, h1) = >>=-ends (whitelist rule plan) (λ x. body) db h in
      let written =
        write_document-IsWritten plan result t after
          (by_transaction (write_document session rule plan t) result t after h1) in
      elim ((whitelist-IsCheck rule plan).at db) [
        | inl (e, r) ↦ cc (sym checked ∙ r)
        | inr (r, declared) ↦
            subst (λ s. IsWritten plan result s after)
              (ap (λ (out : Result WriteError (Unit {0}) × Database). out.1) (sym checked ∙ r))
              written
      ]
