-- ===== src/Bills/Matching.antt =====
-- logic/bills/matching.py: which supplier or article of the database a bill names. The database answers
-- queries; that, and lower case, are parameters.
use Prim.Native.String.{◌++◌ as text_append}
use erp_agent.Prelude.{
  ℕ, String, false, Option, none, some, List, [], ◌∷◌, ◌==◌, if◌then◌else◌, map, Dict,
}
use erp_agent.Prelude.Int.{pos}
use erp_agent.Bills.Rules.{Cell, text, null, PurchaseInvoiceRule}
use erp_agent.Bills.Models.{BillLine, Bill, Candidate, MatchResult, matched, ambiguous, new}

-- The three SELECT statements; a table's name has the prefix.
pub data Query : Type 0 where
  by_tax_id : (table tax_id : String) → Query
  by_name : (table pattern : String) → Query
  by_ref : (table ref : String) → Query

pub record Row : Type 0 where
  pub chave : ℕ
  pub nome : Option String

pub record Reader : Type 0 where
  pub read : Query → List Row
  pub lower : String → String
  pub table_prefix : String

-- `str(r["Nome"])`
abbrev pub name_text : Option String → String
name_text none = "None"
name_text (some s) = s

abbrev pub text_or_null : Option String → Cell
text_or_null none = null
text_or_null (some s) = text s

unfoldable pub supplier_proposal : Bill → Dict Cell
supplier_proposal bill =
    ("Nome", text bill.supplier_name) ∷ ("NCont", text_or_null bill.supplier_tax_id) ∷ []

unfoldable pub line_proposal : BillLine → Dict Cell
line_proposal line = ("Nome", text line.description) ∷ []

unfoldable pub matched_row : Row → MatchResult
matched_row row = record {
  status = matched;
  chave = some row.chave;
  label = row.nome;
  candidates = [];
  proposed_new = none;
  confirmed = false;
}

unfoldable pub candidate_of : Row → Candidate
candidate_of row = record {
  chave = row.chave;
  label = name_text row.nome;
  score = record { coeff = pos 10; scale = 1 };
}

-- `Matcher._resolve`
unfoldable pub resolve_rows : List Row → Dict Cell → MatchResult
unfolding matched_row candidate_of
resolve_rows (row ∷ []) proposed = matched_row row
resolve_rows (r ∷ s ∷ rows) proposed = record {
  status = ambiguous;
  chave = none;
  label = none;
  candidates = map candidate_of (r ∷ s ∷ rows);
  proposed_new = none;
  confirmed = false;
}
resolve_rows [] proposed = record {
  status = new;
  chave = none;
  label = none;
  candidates = [];
  proposed_new = some proposed;
  confirmed = false;
}

module _ (reader : Reader) (rule : PurchaseInvoiceRule) where
  unfoldable pub like_pattern : String → String
  like_pattern name = text_append "%" (text_append (reader.lower name) "%")

  unfoldable pub match_by_name : Bill → MatchResult
  unfolding resolve_rows like_pattern supplier_proposal
  match_by_name bill =
      resolve_rows
        (reader.read (
          by_name (text_append reader.table_prefix rule.matching.supplier.table)
            (like_pattern bill.supplier_name)))
        (supplier_proposal bill)

  -- One row with the tax number is taken; any other number of them falls through to the name.
  unfoldable pub unique_or_by_name : List Row → Bill → MatchResult
  unfolding match_by_name
  unique_or_by_name (row ∷ []) bill = matched_row row
  unique_or_by_name rows bill = match_by_name bill

  unfoldable pub match_supplier : Bill → MatchResult
  unfolding unique_or_by_name
  match_supplier bill = elim bill.supplier_tax_id [
    | none ↦ match_by_name bill
    | some tax_id ↦
        if tax_id == ""
        then match_by_name bill
        else unique_or_by_name
            (reader.read
              (by_tax_id (text_append reader.table_prefix rule.matching.supplier.table) tax_id))
            bill
  ]

  unfoldable pub match_line : BillLine → MatchResult
  unfolding resolve_rows like_pattern line_proposal
  match_line line =
      resolve_rows
        (reader.read (
          by_name (text_append reader.table_prefix rule.matching.article.table)
            (like_pattern line.description)))
        (line_proposal line)
