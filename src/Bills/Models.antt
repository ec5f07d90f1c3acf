-- ===== src/Bills/Models.antt =====
-- logic/bills/models.py: bills, match results, proposals and write plans, and the arithmetic warnings of a
-- bill. `Bill.confidence` is left out: nothing reads it. A warning is kept as its data.
use erp_agent.Prelude.{
  ℕ, ◌+◌, String, Bool, not, Option, none, some, List, [], ◌∷◌, ◌++◌, if◌then◌else◌, Dict,
}
use erp_agent.Prelude.Int.{pos, negsuc}
use erp_agent.Decimal.{Decimal, add, sub, sum_from, zero_decimal, le_decimal}
use erp_agent.Bills.Rules.{Cell}

pub record BillLine : Type 0 where
  pub description : String
  pub quantity : Option Decimal
  pub unit_price : Option Decimal
  pub vat_rate : Option Decimal
  pub total : Option Decimal

pub record Bill : Type 0 where
  pub supplier_name : String
  pub supplier_tax_id : Option String
  pub buyer_tax_id : Option String
  pub number : Option String
  pub issue_date : Option ℕ
  pub due_date : Option ℕ
  pub currency : Option String
  pub net_total : Option Decimal
  pub vat_total : Option Decimal
  pub gross_total : Option Decimal
  pub lines : List BillLine

pub record Candidate : Type 0 where
  pub chave : ℕ
  pub label : String
  pub score : Decimal

pub data MatchStatus : Type 0 where
  matched ambiguous new : MatchStatus

pub record MatchResult : Type 0 where
  pub status : MatchStatus
  pub chave : Option ℕ
  pub label : Option String
  pub candidates : List Candidate
  pub proposed_new : Option (Dict Cell)
  pub confirmed : Bool

pub data Warning : Type 0 where
  gross_mismatch : (gross net vat : Decimal) → Warning
  lines_mismatch : (summed net : Decimal) → Warning
  tax_id_cleared : Option String → Warning
  duplicate_ref : String → Warning
  -- what the reading of the QR code reported
  qr_warning : String → Warning

pub record BillProposal : Type 0 where
  pub proposal_id : String
  pub bill : Bill
  pub supplier_match : MatchResult
  pub line_matches : List MatchResult
  pub warnings : List Warning

pub record LinePlan : Type 0 where
  pub article : MatchResult
  pub columns : Dict Cell

pub record WritePlan : Type 0 where
  pub proposal_id : String
  pub supplier : MatchResult
  pub header : Dict Cell
  pub lines : List LinePlan
  pub rule_doc : String
  pub rule_version : ℕ

-- `_TOL`, 0.02
abbrev pub tolerance : Decimal
tolerance = record { coeff = pos 2; scale = 2 }

unfoldable pub abs_decimal : Decimal → Decimal
abs_decimal d = elim d.coeff [
  | pos n ↦ d
  | negsuc n ↦ record { coeff = pos (n + 1); scale = d.scale }
]

-- `abs(a - b) > _TOL`
unfoldable pub apart : Decimal → Decimal → Bool
unfolding abs_decimal
apart a b = not (le_decimal (abs_decimal (sub a b)) tolerance)

unfoldable pub gross_warnings : Option Decimal → Option Decimal → Option Decimal → List Warning
unfolding apart
gross_warnings (some net) (some vat) (some gross) =
    if apart (add net vat) gross then gross_mismatch gross net vat ∷ [] else []
gross_warnings net vat gross = []

-- The totals of the lines that have one.
unfoldable pub line_totals : List BillLine → List Decimal
line_totals [] = []
line_totals (l ∷ ls) = let rest = line_totals ls in elim l.total [ none ↦ rest | some t ↦ t ∷ rest ]

unfoldable pub lines_warnings : List Decimal → Option Decimal → List Warning
unfolding apart
lines_warnings (t ∷ ts) (some net) =
    let summed = sum_from zero_decimal (t ∷ ts) in
    if apart summed net then lines_mismatch summed net ∷ [] else []
lines_warnings totals net = []

unfoldable pub arithmetic_warnings : Bill → List Warning
unfolding gross_warnings lines_warnings line_totals
arithmetic_warnings bill =
    gross_warnings bill.net_total bill.vat_total bill.gross_total
    ++ lines_warnings (line_totals bill.lines) bill.net_total
