-- ===== src/Bills/Service.antt =====
-- logic/bills/service.py and pending.py: staging a reviewed proposal and committing the staged plan.
-- A bill comes extracted (Bills/Extract); the check of the posted JSON is a parameter.
pub mod Staging
pub mod Rematch
pub mod Commit
use Prim.Native.String.{◌++◌ as text_append}
use erp_agent.Prelude.{
  ℕ, suc, String, Bool, true, false, not, ◌||◌, Option, none, some, List, [], ◌∷◌, ◌++◌, ◌==◌, eqb,
  if◌then◌else◌, is_empty, is_some, length, Dict, lookup, insert, erase, Result, ok, err,
}
use erp_agent.Prelude.Exec.{Exec, pure, raise, lift, modify, ◌>>=◌, ◌>>◌}
use erp_agent.Bills.Rules.{PurchaseInvoiceRule}
use erp_agent.Bills.Models.{
  BillLine, Bill, MatchResult, matched, ambiguous, new, Warning, tax_id_cleared, duplicate_ref,
  BillProposal, LinePlan, WritePlan, arithmetic_warnings,
}
use erp_agent.Bills.Fields.{
  Violation, StageError, FieldValue, bad_tax_id, line_count, supplier_unconfirmed,
  supplier_unpicked, article_unconfirmed, article_unpicked, build_header, build_lines,
}
use erp_agent.Bills.TaxId.{pt_nif_is_valid}
use erp_agent.Bills.Matching.{Reader, by_ref, match_supplier, match_line}
use erp_agent.Bills.Executor.{
  WriteError, attribute_error, WriteResult, Database, Session, Record, write_plan,
}

-- The pending store holds proposals and plans under one kind of key.
pub data Item : Type 0 where
  proposal_item : BillProposal → Item
  plan_item : WritePlan → Item

abbrev pub Pending : Type 0
Pending = Dict Item

abbrev pub plan_key : String → String
plan_key proposal_id = text_append proposal_id ":plan"

pub data StageOutcome : Type 0 where
  rejected : List Violation → StageOutcome
  staged : WritePlan → List Warning → StageOutcome

-- A fresh match has not been confirmed; where it is still new, the operator's tick is carried across.
unfoldable pub keep_confirmation : MatchResult → MatchResult → MatchResult
keep_confirmation old fresh = elim fresh.status [
  | matched ↦ fresh
  | ambiguous ↦ fresh
  | new ↦ record fresh { confirmed = old.confirmed }
]

-- Only what was new is matched again.
unfoldable pub rematch_one : MatchResult → MatchResult → MatchResult
unfolding keep_confirmation
rematch_one old fresh = elim old.status [
  | matched ↦ old
  | ambiguous ↦ old
  | new ↦ keep_confirmation old fresh
]

abbrev pub is_false : Option Bool → Bool
is_false (some false) = true
is_false o = false

module _ (reader : Reader) (rule : PurchaseInvoiceRule) where
  unfoldable pub rematch_lines : List BillLine → List MatchResult → List MatchResult
  unfolding rematch_one
  rematch_lines (line ∷ lines) (lm ∷ matches) =
      rematch_one lm (match_line reader rule line) ∷ rematch_lines lines matches
  rematch_lines lines matches = matches

  unfoldable pub rematch : BillProposal → BillProposal
  unfolding rematch_one rematch_lines
  rematch proposal = record proposal {
    supplier_match = rematch_one proposal.supplier_match (match_supplier reader rule proposal.bill);
    line_matches = rematch_lines proposal.bill.lines proposal.line_matches;
  }

  unfoldable pub duplicate_warnings : Bill → List Warning
  duplicate_warnings bill = elim bill.number [
    | none ↦ []
    | some number ↦
        if number == ""
          || is_empty
              (reader.read (by_ref (text_append reader.table_prefix rule.header.table) number))
        then []
        else duplicate_ref number ∷ []
  ]

  unfoldable pub match_lines : List BillLine → List MatchResult
  match_lines [] = []
  match_lines (l ∷ ls) = match_line reader rule l ∷ match_lines ls

  -- What `upload` makes of an extracted bill.
  unfoldable pub upload : String → Bill → List Warning → Exec StageError Pending BillProposal
  unfolding match_lines
  upload proposal_id extracted qr_warnings = do
    let bad = is_false (pt_nif_is_valid extracted.supplier_tax_id)
    let bill = if bad then record extracted { supplier_tax_id = none } else extracted
    let cleared = if bad then tax_id_cleared extracted.supplier_tax_id ∷ [] else []
    let proposal : BillProposal = record {
      proposal_id = proposal_id;
      bill = bill;
      supplier_match = match_supplier reader rule bill;
      line_matches = match_lines bill.lines;
      warnings = cleared ++ (qr_warnings ++ arithmetic_warnings bill);
    }
    modify (insert proposal_id (proposal_item proposal))
    pure proposal

-- A record that is new and was not confirmed, and one of which no candidate was picked.
abbrev pub is_unconfirmed : MatchResult → Bool
is_unconfirmed m = elim m.status [ new ↦ not m.confirmed | matched ↦ false | ambiguous ↦ false ]

abbrev pub is_unpicked : MatchResult → Bool
is_unpicked m = elim m.status [ ambiguous ↦ not (is_some m.chave) | matched ↦ false | new ↦ false ]

abbrev pub violation_if : Bool → Violation → List Violation
violation_if b v = if b then v ∷ [] else []

-- The loop over the line matches; `i` is the index.
unfoldable pub gate_lines : ℕ → List MatchResult → List Violation
gate_lines i [] = []
gate_lines i (m ∷ ms) =
    violation_if (is_unconfirmed m) (article_unconfirmed i)
    ++ (violation_if (is_unpicked m) (article_unpicked i) ++ gate_lines (suc i) ms)

-- The checks of the proposal before its columns are built.
unfoldable pub gate : BillProposal → List Violation
unfolding gate_lines
gate p =
    violation_if (is_false (pt_nif_is_valid p.bill.supplier_tax_id))
      (bad_tax_id p.bill.supplier_tax_id)
    ++ (violation_if (not (eqb (length p.bill.lines) (length p.line_matches))) line_count
        ++ (violation_if (is_unconfirmed p.supplier_match) supplier_unconfirmed
            ++ (gate_lines 0 p.line_matches
                ++ violation_if (is_unpicked p.supplier_match) supplier_unpicked)))

module _ (reader : Reader) (rule : PurchaseInvoiceRule) (show : FieldValue → String) where
  -- The end of `stage`: a plan, unless there are violations.
  unfoldable pub keep_plan :
      String
      → BillProposal
      → Record
      → List LinePlan
      → List Violation
      → Exec StageError Pending StageOutcome
  keep_plan proposal_id p header lines (v ∷ vs) = pure (rejected (v ∷ vs))
  keep_plan proposal_id p header lines [] = do
    let plan : WritePlan = record {
      proposal_id = proposal_id;
      supplier = p.supplier_match;
      header = header;
      lines = lines;
      rule_doc = rule.document;
      rule_version = rule.version;
    }
    modify (insert (plan_key proposal_id) (plan_item plan))
    pure (staged plan (duplicate_warnings reader rule p.bill ++ p.warnings))

  -- `stage` from the valid proposal on, matched again.
  unfoldable pub stage_proposal : String → BillProposal → Exec StageError Pending StageOutcome
  unfolding gate keep_plan
  stage_proposal proposal_id p = do
    modify (insert proposal_id (proposal_item p))
    (header, hv) ← lift (build_header show rule p.bill)
    (lines, lv) ← lift (build_lines show rule p.bill.lines p.line_matches)
    keep_plan proposal_id p header lines (gate p ++ (hv ++ lv))

  -- `posted` is what the schema makes of the posted JSON: a proposal, or the errors it reports.
  unfoldable pub stage :
      String → Result (List Violation) BillProposal → Exec StageError Pending StageOutcome
  unfolding stage_proposal rematch
  stage proposal_id posted = do
    modify (erase (plan_key proposal_id))
    elim posted [
      | err violations ↦ pure (rejected violations)
      | ok proposal ↦ stage_proposal proposal_id (rematch reader rule proposal)
    ]

pub record Backend : Type 0 where
  pub pending : Pending
  pub database : Database

pub data CommitOutcome : Type 0 where
  no_staged_plan : CommitOutcome
  committed : WriteResult → CommitOutcome
  failed : WriteError → CommitOutcome

-- `record_failure` is the audit's own transaction after a failed write.
module _ (session : Session) (rule : PurchaseInvoiceRule)
    (record_failure : WritePlan → Database → Database) where
  -- After the write: the proposal is forgotten, or the failure is recorded.
  unfoldable pub settle :
      String
      → WritePlan
      → Pending
      → Result WriteError WriteResult × Database
      → Result WriteError CommitOutcome × Backend
  settle proposal_id plan pending (ok result, database) =
      (ok (committed result), record { pending = erase proposal_id pending; database = database })
  settle proposal_id plan pending (err e, database) =
      (ok (failed e), record { pending = pending; database = record_failure plan database })

  unfoldable pub commit_plan : String → WritePlan → Exec WriteError Backend CommitOutcome
  unfolding settle
  commit_plan proposal_id plan b =
      settle proposal_id plan b.pending (write_plan session rule plan b.database)

  -- A proposal that stands under the plan's key has no header: the write and then the audit of its
  -- failure raise.
  unfoldable pub commit_item : String → Option Item → Exec WriteError Backend CommitOutcome
  unfolding commit_plan
  commit_item proposal_id none = pure no_staged_plan
  commit_item proposal_id (some (plan_item plan)) = commit_plan proposal_id plan
  commit_item proposal_id (some (proposal_item p)) = raise attribute_error

  unfoldable pub commit : String → Exec WriteError Backend CommitOutcome
  unfolding commit_item
  commit proposal_id b =
      commit_item proposal_id (lookup (plan_key proposal_id) b.pending)
        (record b { pending = erase (plan_key proposal_id) b.pending })
