-- ===== src/Bills/Qr/Merge.antt =====
-- What it means that a merge reports nothing.
use erp_agent.Prelude.{◌≡◌, String, true, Option, none, some, [], ◌∷◌, elem, ◌⊎◌}
use erp_agent.Decimal.{Decimal, le_decimal}
use erp_agent.Bills.Models.{Bill}
use erp_agent.Bills.Qr.{AtQr}

-- What the extraction had read stands.
abbrev pub IsKept : {A : Type 0} → Option A → Option A → Type 0
IsKept none after = Unit
IsKept (some a) after = after ≡ some a

-- The number that the extraction had read stands, perhaps with more or fewer zeros at its end.
abbrev pub IsKeptNumber : Option Decimal → Option Decimal → Type 0
IsKeptNumber none after = Unit
IsKeptNumber (some a) after =
    (after ≡ some a)
    ⊎ ((b : Decimal) × (after ≡ some b) × (le_decimal a b ≡ true) × (le_decimal b a ≡ true))

-- What the QR code does not carry.
abbrev pub AreLeft : Bill → Bill → Type 0
AreLeft bill after =
    (after.supplier_name ≡ bill.supplier_name)
    × (after.due_date ≡ bill.due_date)
    × (after.currency ≡ bill.currency)
    × (after.lines ≡ bill.lines)

-- The document is neither cancelled nor of another type than an invoice, as far as the QR says.
abbrev IsNormal : Option String → Type 0
IsNormal none = Unit
IsNormal (some s) = s ≡ "N"

abbrev IsInvoice : Option String → Type 0
IsInvoice none = Unit
IsInvoice (some t) = elem t ("FT" ∷ "FS" ∷ "FR" ∷ []) ≡ true

abbrev pub IsOrdinary : AtQr → Type 0
IsOrdinary qr = IsNormal qr.status × IsInvoice qr.doc_type
