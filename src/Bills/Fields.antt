-- ===== src/Bills/Fields.antt =====
-- logic/bills/service.py: the columns of a header and of its lines, from the fields that the rule document
-- maps. A field's source names a scalar attribute; printing its value is a parameter.
use Prim.Native.String.{len, slice}
use package.text.Mathlib.Text.{find?}
use erp_agent.Prelude.{
  ℕ, ◌+◌, ◌-◌, String, Bool, true, false, ◌&&◌, Option, none, some, List, [], ◌∷◌, ◌++◌, ◌==◌,
  if◌then◌else◌, Dict, insert, Result, ok, err,
}
use erp_agent.Decimal.{Decimal}
use erp_agent.Bills.Rules.{text, FieldRule, PurchaseInvoiceRule}
use erp_agent.Bills.Models.{BillLine, Bill, MatchResult, LinePlan}
use erp_agent.Bills.Executor.{Record}

pub data Violation : Type 0 where
  invalid_field : (field message : String) → Violation
  bad_tax_id : Option String → Violation
  line_count : Violation
  supplier_unconfirmed : Violation
  supplier_unpicked : Violation
  article_unconfirmed : ℕ → Violation
  article_unpicked : ℕ → Violation
  header_required : String → Violation
  line_required : String → Violation

pub data StageError : Type 0 where
  -- `source.split(".", 1)[1]` on a source without a dot
  index_error : String → StageError

-- `source.endswith(suffix)`
abbrev pub ends_with : String → String → Bool
ends_with s suffix = slice s (len s - len suffix) (len s) == suffix

-- `source.split(".", 1)[1]`
unfoldable pub attribute : String → Result StageError String
attribute source = elim (find? source ".") [
  | none ↦ err (index_error source)
  | some i ↦ ok (slice source (i + 1) (len source))
]

-- The value of a scalar attribute.
pub data FieldValue : Type 0 where
  text_value : String → FieldValue
  decimal_value : Decimal → FieldValue
  date_value : ℕ → FieldValue

abbrev pub option_map : {A B : Type 0} → (A → B) → Option A → Option B
option_map f none = none
option_map f (some a) = some (f a)

-- `getattr(bill, name, None)` on the scalar fields
unfoldable pub bill_value : Bill → String → Option FieldValue
bill_value bill name =
    if name == "supplier_name"
    then some (text_value bill.supplier_name)
    else if name == "supplier_tax_id"
    then option_map text_value bill.supplier_tax_id
    else if name == "buyer_tax_id"
    then option_map text_value bill.buyer_tax_id
    else if name == "number"
    then option_map text_value bill.number
    else if name == "issue_date"
    then option_map date_value bill.issue_date
    else if name == "due_date"
    then option_map date_value bill.due_date
    else if name == "currency"
    then option_map text_value bill.currency
    else if name == "net_total"
    then option_map decimal_value bill.net_total
    else if name == "vat_total"
    then option_map decimal_value bill.vat_total
    else if name == "gross_total"
    then option_map decimal_value bill.gross_total
    else none

unfoldable pub line_value : BillLine → String → Option FieldValue
line_value line name =
    if name == "description"
    then some (text_value line.description)
    else if name == "quantity"
    then option_map decimal_value line.quantity
    else if name == "unit_price"
    then option_map decimal_value line.unit_price
    else if name == "vat_rate"
    then option_map decimal_value line.vat_rate
    else if name == "total"
    then option_map decimal_value line.total
    else none

-- `val is None or val == ""`
abbrev pub is_blank : Option FieldValue → Bool
is_blank none = true
is_blank (some (text_value s)) = s == ""
is_blank (some v) = false

module _ (show : FieldValue → String) where
  -- The columns and violations after one field; `violation` says what a required field that is blank gets.
  unfoldable pub put_field :
      FieldRule → Option FieldValue → Violation → Record × List Violation → Record × List Violation
  put_field rule value violation (cols, violations) =
      if rule.required && is_blank value then (cols, violations ++ violation ∷ []) else elim value [
        | none ↦ (cols, violations)
        | some v ↦ (insert rule.column (text (show v)) cols, violations)
      ]

  -- The loop of `_build_header` and of `_build_line`: fields that `skip` are resolved by the executor.
  unfoldable pub build_fields :
      (String → Bool)
      → (String → Option FieldValue)
      → (String → Violation)
      → Dict FieldRule
      → Record × List Violation
      → Result StageError (Record × List Violation)
  unfolding put_field
  build_fields skip value violation [] built = ok built
  build_fields skip value violation ((name, rule) ∷ fields) built =
      if skip rule.source
      then build_fields skip value violation fields built
      else elim (attribute rule.source) [
        | ok attr ↦
            build_fields skip value violation fields
              (put_field rule (value attr) (violation name) built)
        | err e ↦ err e
      ]

  unfoldable pub build_header :
      PurchaseInvoiceRule → Bill → Result StageError (Record × List Violation)
  unfolding build_fields
  build_header rule bill =
      build_fields (λ s. ends_with s ".match") (bill_value bill) header_required rule.header.fields
        ([], [])

  unfoldable pub build_line :
      PurchaseInvoiceRule → BillLine → Result StageError (Record × List Violation)
  unfolding build_fields
  build_line rule line =
      build_fields (λ s. s == "line.match") (line_value line) line_required rule.lines.fields
        ([], [])

  unfoldable pub build_lines :
      PurchaseInvoiceRule
      → List BillLine
      → List MatchResult
      → Result StageError (List LinePlan × List Violation)
  unfolding build_line
  build_lines rule (line ∷ lines) (lm ∷ matches) =
      let rest = build_lines rule lines matches in
      elim (build_line rule line) [
        | err e ↦ err e
        | ok (cols, lv) ↦ elim rest [
          | err e ↦ err e
          | ok (plans, violations) ↦
              ok (record { article = lm; columns = cols } ∷ plans, lv ++ violations)
        ]
      ]
  build_lines rule lines matches = ok ([], [])
