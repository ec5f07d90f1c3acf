-- ===== src/Bills/Qr.antt =====
-- logic/bills/extract/at_qr.py: the fields of the tax authority's QR code, laid over an extracted bill. The
-- split of the payload into fields, and the reading of a finite number and of a date, are parameters.
pub mod Merge
use erp_agent.Prelude.{
  ℕ, String, Bool, not, ◌&&◌, Option, none, some, List, [], ◌∷◌, ◌++◌, ◌==◌, eqb, if◌then◌else◌,
  contains, elem, Dict, lookup,
}
use erp_agent.Decimal.{Decimal, zero_decimal, sub, sum_from, le_decimal}
use erp_agent.Bills.Models.{Bill}

pub record AtQr : Type 0 where
  pub supplier_tax_id : Option String
  pub buyer_tax_id : Option String
  pub doc_type : Option String
  pub status : Option String
  pub issue_date : Option ℕ
  pub number : Option String
  pub net_total : Option Decimal
  pub vat_total : Option Decimal
  pub gross_total : Option Decimal

-- `_BASE_KEYS`
abbrev pub base_keys : List String
base_keys =
    "I2" ∷ "I3" ∷ "I5" ∷ "I7" ∷ "J2" ∷ "J3" ∷ "J5" ∷ "J7" ∷ "K2" ∷ "K3" ∷ "K5" ∷ "K7" ∷ "L" ∷ []

-- `value or None` on texts
abbrev pub text_or_none : Option String → Option String
text_or_none none = none
text_or_none (some s) = if s == "" then none else some s

abbrev pub chain : {A B : Type 0} → Option A → (A → Option B) → Option B
chain none f = none
chain (some a) f = f a

module _ (read_decimal : String → Option Decimal) (read_date : String → Option ℕ) where
  unfoldable pub bases : List String → Dict String → List Decimal
  bases [] fields = []
  bases (k ∷ ks) fields =
      let rest = bases ks fields in
      elim (chain (lookup k fields) read_decimal) [ none ↦ rest | some d ↦ d ∷ rest ]

  -- `_net`, by the bases that the payload has
  unfoldable pub net_of : List Decimal → Option Decimal → Option Decimal → Option Decimal
  net_of (d ∷ ds) vat gross = some (sum_from zero_decimal (d ∷ ds))
  net_of [] (some vat) (some gross) = some (sub gross vat)
  net_of [] vat gross = none

  -- `parse`, from the fields of the payload
  unfoldable pub parse_fields : Dict String → Option AtQr
  unfolding bases net_of
  parse_fields fields =
      let vat = chain (lookup "N" fields) read_decimal in
      let gross = chain (lookup "O" fields) read_decimal in
      if contains "A" fields && contains "O" fields
      then some (record {
        supplier_tax_id = text_or_none (lookup "A" fields);
        buyer_tax_id = text_or_none (lookup "B" fields);
        doc_type = text_or_none (lookup "D" fields);
        status = text_or_none (lookup "E" fields);
        issue_date = chain (lookup "F" fields) read_date;
        number = text_or_none (lookup "G" fields);
        net_total = net_of (bases base_keys fields) vat gross;
        vat_total = vat;
        gross_total = gross;
      })
      else none

-- A warning is kept as its data; the name is the field's.
pub data QrWarning : Type 0 where
  disagrees : String → QrWarning
  document_status : String → QrWarning
  document_type : String → QrWarning

-- `a != b` on numbers
abbrev pub differs : Decimal → Decimal → Bool
differs a b = not (le_decimal a b && le_decimal b a)

-- The QR's value where it carries one.
unfoldable pub merged_value : {A : Type 0} → Option A → Option A → Option A
merged_value (some v) old = some v
merged_value none old = old

module _ {A : Type 0} (unequal : A → A → Bool) where
  unfoldable pub disagreement : String → Option A → Option A → List QrWarning
  disagreement name (some v) (some old) = if unequal old v then disagrees name ∷ [] else []
  disagreement name v old = []

abbrev pub text_differs : String → String → Bool
text_differs a b = not (a == b)

abbrev pub day_differs : ℕ → ℕ → Bool
day_differs a b = not (eqb a b)

unfoldable pub status_warnings : Option String → List QrWarning
status_warnings none = []
status_warnings (some s) = if s == "N" then [] else document_status s ∷ []

unfoldable pub type_warnings : Option String → List QrWarning
type_warnings none = []
type_warnings (some s) = if elem s ("FT" ∷ "FS" ∷ "FR" ∷ []) then [] else document_type s ∷ []

unfoldable pub merge_warnings : Bill → AtQr → List QrWarning
unfolding disagreement status_warnings type_warnings
merge_warnings bill qr =
    disagreement text_differs "supplier_tax_id" qr.supplier_tax_id bill.supplier_tax_id
    ++ (disagreement text_differs "buyer_tax_id" qr.buyer_tax_id bill.buyer_tax_id
        ++ (disagreement text_differs "number" qr.number bill.number
            ++ (disagreement day_differs "issue_date" qr.issue_date bill.issue_date
                ++ (disagreement differs "net_total" qr.net_total bill.net_total
                    ++ (disagreement differs "vat_total" qr.vat_total bill.vat_total
                        ++ (disagreement differs "gross_total" qr.gross_total bill.gross_total
                            ++ (status_warnings qr.status ++ type_warnings qr.doc_type)))))))

unfoldable pub merge : Bill → AtQr → Bill × List QrWarning
unfolding merged_value merge_warnings
merge bill qr = (
  record bill {
    supplier_tax_id = merged_value qr.supplier_tax_id bill.supplier_tax_id;
    buyer_tax_id = merged_value qr.buyer_tax_id bill.buyer_tax_id;
    number = merged_value qr.number bill.number;
    issue_date = merged_value qr.issue_date bill.issue_date;
    net_total = merged_value qr.net_total bill.net_total;
    vat_total = merged_value qr.vat_total bill.vat_total;
    gross_total = merged_value qr.gross_total bill.gross_total;
  },
  merge_warnings bill qr,
)
