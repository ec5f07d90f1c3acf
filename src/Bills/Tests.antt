-- ===== src/Bills/Tests.antt =====
-- A bill of one line, staged and committed.
use erp_agent.Prelude.{
  ℕ, ◌<◌, All, lookup, arith, false, Result, ◌≡◌, refl, ◌⊎◌, String, true, none, some, List, [],
  ◌∷◌, ok, err,
}
use erp_agent.Bills.Rules.{null, int, text, PurchaseInvoiceRule, MatchTargetRule}
use erp_agent.Bills.Models.{BillLine, MatchResult, new, BillProposal, WritePlan}
use erp_agent.Bills.Qr.{AtQr}
use erp_agent.Bills.TaxId.{pt_nif_is_valid, digits_valid, weighted_sum, check_digit}
use erp_agent.Bills.TaxId.CheckDigit.{digits_valid-misread}
use erp_agent.Bills.Matching.{match_supplier, match_line, Reader}
use erp_agent.Bills.Fields.{
  build_header, attribute, build_lines, bill_value, line_value, FieldValue, Violation,
}
use erp_agent.Bills.Executor.{
  next_key, rows_of, tipo_doc_of, Database, Session, WriteError, WriteResult, write_plan,
}
use erp_agent.Bills.Executor.Keys.{key_of, next_key-fresh}
use erp_agent.Bills.Executor.Rows.{Appends, Extends, Extends-refl}
use erp_agent.Bills.Executor.Atomic.{IsWhitelisted, write_plan-atomic}
use erp_agent.Bills.Service.{Backend, plan_item, no_staged_plan, commit, rematch, stage}
use erp_agent.Bills.Service.Staging.{IsStaged, IsNotStaged, stage-outcome}
use erp_agent.Bills.Service.Rematch.{IsRematched, AreRematched, rematch-IsRematched}
use erp_agent.Bills.Service.Commit.{IsSettled, commit_once, commit-atomic}

abbrev target : String → MatchTargetRule
target table = record {
  table = table;
  tipo = none;
  match_on = "Nome" ∷ [];
  create = true;
  create_defaults = ("Tipo", int 2) ∷ [];
  create_columns = "Nome" ∷ "NCont" ∷ [];
}

abbrev rule : PurchaseInvoiceRule
rule = record {
  document = "purchase_invoice";
  version = 1;
  header = record {
    table = "Doc001";
    primary_key = "Chave";
    tipo_doc = record { code = "FC" };
    draft_defaults = ("Estado", int 0) ∷ [];
    audit_columns = ("created_at", "DC") ∷ [];
    fields =
        ("supplier", record { column = "Entidade"; source = "supplier.match"; required = true })
        ∷ ("number", record { column = "VRef"; source = "bill.number"; required = true })
        ∷ [];
  };
  lines = record {
    table = "LinDoc001";
    parent_fk = "Doc";
    fields =
        ("article", record { column = "Artigo"; source = "line.match"; required = true })
        ∷ ("description", record { column = "Descr"; source = "line.description"; required = true })
        ∷ [];
  };
  matching = record { supplier = target "Entidades"; article = target "Artigos" };
}

abbrev reader : Reader
reader = record { read = λ q. []; lower = λ s. s; table_prefix = "dbo." }

abbrev confirmed_new : MatchResult
confirmed_new = record {
  status = new;
  chave = none;
  label = none;
  candidates = [];
  proposed_new = some (("Nome", text "Acme") ∷ []);
  confirmed = true;
}

abbrev line : BillLine
line = record {
  description = "Paper";
  quantity = none;
  unit_price = none;
  vat_rate = none;
  total = none;
}

abbrev proposal : BillProposal
proposal = record {
  proposal_id = "b1";
  bill = record {
    supplier_name = "Acme";
    supplier_tax_id = none;
    buyer_tax_id = none;
    number = some "A/1";
    issue_date = none;
    due_date = none;
    currency = none;
    net_total = none;
    vat_total = none;
    gross_total = none;
    lines = line ∷ [];
  };
  supplier_match = confirmed_new;
  line_matches = confirmed_new ∷ [];
  warnings = [];
}

abbrev show : FieldValue → String
show v = "a value"

stage-outcome_example :
    ((p : BillProposal) × (◌≡◌ {A = Result (List Violation) BillProposal} (ok proposal) (ok p))
      × IsStaged "b1" (rematch reader rule p) (stage reader rule show "b1" (ok proposal) []))
    ⊎ IsNotStaged "b1" (stage reader rule show "b1" (ok proposal) [])
stage-outcome_example = stage-outcome reader rule show "b1" (ok proposal) []

rematch-IsRematched_example :
    let after = rematch reader rule proposal in
    (after.bill ≡ proposal.bill)
    × (after.warnings ≡ proposal.warnings)
    × IsRematched proposal.supplier_match
        (match_supplier reader rule proposal.bill)
        after.supplier_match
    × AreRematched
        (match_line reader rule)
        proposal.bill.lines
        proposal.line_matches
        after.line_matches
    × (rematch reader rule after ≡ after)
rematch-IsRematched_example = rematch-IsRematched reader rule proposal

abbrev plan : WritePlan
plan = record {
  proposal_id = "b1";
  supplier = confirmed_new;
  header = ("VRef", text "A/1") ∷ [];
  lines = record { article = confirmed_new; columns = ("Descr", text "Paper") ∷ [] } ∷ [];
  rule_doc = "purchase_invoice";
  rule_version = 1;
}

abbrev session : Session
session = record {
  table_prefix = "dbo.";
  operator_key = 7;
  now = λ db. "2026-01-01T00:00:00Z";
  accepts = λ table row db. true;
  audit_insert = λ p result db. (ok tt, db);
}

abbrev database : Database
database =
    ("dbo.TiposDoc", (("Chave", int 5) ∷ ("Codigo", text "FC") ∷ []) ∷ [])
    ∷ ("dbo.Doc001", (("Chave", int 41) ∷ []) ∷ [])
    ∷ []

abbrev record_failure : WritePlan → Database → Database
record_failure p db = db

abbrev backend : Backend
backend = record { pending = ("b1:plan", plan_item plan) ∷ []; database = database }

audit-Appends : (p : WritePlan) (result : WriteResult) → Appends (session.audit_insert p result)
audit-Appends p result = record { at = Extends-refl }

write_plan-atomic_example :
    ((e : WriteError) × (write_plan session rule plan database ≡ (err e, database)))
    ⊎ (IsWhitelisted rule plan
        × ((result : WriteResult) × (db : Database) × (write_plan session rule plan database
              ≡ (ok result, db))
            × Extends database db))
write_plan-atomic_example = write_plan-atomic session rule plan database audit-Appends

commit_once_example :
    let after = (commit session rule record_failure "b1" backend).1 in
    ((commit session rule record_failure "b1" after).0 ≡ ok no_staged_plan)
    × ((commit session rule record_failure "b1" after).1.database ≡ after.database)
commit_once_example = commit_once session rule record_failure "b1" backend

commit-atomic_example :
    IsSettled session rule record_failure plan database
      (commit session rule record_failure "b1" backend)
commit-atomic_example =
    commit-atomic session rule record_failure "b1" plan backend audit-Appends refl

abbrev qr : AtQr
qr = record {
  supplier_tax_id = some "502267583";
  buyer_tax_id = none;
  doc_type = some "FT";
  status = some "N";
  issue_date = none;
  number = some "A/1";
  net_total = none;
  vat_total = none;
  gross_total = none;
}

-- 502667583 with its fourth digit misread as 2
valid_number : digits_valid (5 ∷ 0 ∷ 2 ∷ 6 ∷ 6 ∷ 7 ∷ 5 ∷ 8 ∷ 3 ∷ []) ≡ some true
unfolding digits_valid weighted_sum check_digit
valid_number = refl

digits_valid-misread_example : digits_valid (5 ∷ 0 ∷ 2 ∷ 2 ∷ 6 ∷ 7 ∷ 5 ∷ 8 ∷ 3 ∷ []) ≡ some false
digits_valid-misread_example =
    digits_valid-misread 5 0 2 6 6 7 5 8 3 3 2 (omega arith) (omega arith) (omega arith)
      (omega arith) (omega arith) (omega arith) (omega arith) (omega arith) (omega arith)
      (omega arith) (omega arith) valid_number (omega arith)

-- The plan is written: a supplier and an article are created, and the document follows number 41.
writes :
    (write_plan session rule plan database).0
    ≡ ok (record {
      document_chave = 42;
      supplier_chave = 1;
      line_chaves = 1 ∷ [];
      created_supplier = true;
      created_articles = 1 ∷ [];
    })
unfolding write_plan tipo_doc_of
writes = refl

-- The proposal is staged, with the records that the edited bill proposes.
abbrev rematched : WritePlan
rematched = record plan {
  supplier = record confirmed_new {
    proposed_new = some (("Nome", text "Acme") ∷ ("NCont", null) ∷ []);
  };
  header = ("VRef", text "a value") ∷ [];
  lines =
      record {
        article = record confirmed_new { proposed_new = some (("Nome", text "Paper") ∷ []) };
        columns = ("Descr", text "a value") ∷ [];
      }
      ∷ [];
}

stages :
    lookup "b1:plan" (stage reader rule show "b1" (ok proposal) []).1 ≡ some (plan_item rematched)
unfolding stage build_header attribute build_lines pt_nif_is_valid match_supplier match_line
    bill_value line_value
stages = refl

next_key-fresh_example :
    (k : ℕ) × (next_key session "Doc001" database ≡ (ok k, database))
    × All (λ row. key_of row < k) (rows_of (lookup "dbo.Doc001" database))
next_key-fresh_example = next_key-fresh session "Doc001" database
