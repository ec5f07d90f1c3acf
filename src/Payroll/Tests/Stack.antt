-- ===== src/Payroll/Tests/Stack.antt =====
-- A small rule stack: a locked salary and a contribution that the company lowers.
use erp_agent.Prelude.{String, ◌≡◌, refl, true, false, none, List, [], ◌∷◌, Result, ok, err}
use erp_agent.Prelude.Int.{pos}
use erp_agent.Decimal.{Decimal}
use erp_agent.Payroll.Errors.{PayrollError}
use erp_agent.Payroll.Schemas.{statutory, company}
use erp_agent.Payroll.Rules.{
  str, seq, nil, cons, earning, deduction, gross, pre_tax_deduction, ComponentDecl, RuleDocument,
}
use erp_agent.Payroll.Rules.Resolver.{
  ResolvedComponent, Resolved, LayerDoc, resolve_layers, resolve_components, resolve_decl,
  merge_component, structural_differs, component_citation,
}

-- 12.345, rounded to cents
abbrev pub amount : Decimal
amount = record { coeff = pos 12345; scale = 3 }

abbrev pub salary : ComponentDecl
salary = record {
  type = earning;
  phase = gross;
  primitive = "BaseSalary";
  parameters = [];
  inputs_required = [];
  taxable = true;
  subject_to_tsu = true;
  disabled = false;
  locked = true;
  clause = none;
}

abbrev pub tsu : ComponentDecl
tsu = record {
  type = deduction;
  phase = pre_tax_deduction;
  primitive = "TSUContribution";
  parameters = ("rate", str "11%") ∷ ("base_components", seq (cons (str "salary") nil)) ∷ [];
  inputs_required = "salary" ∷ [];
  taxable = false;
  subject_to_tsu = false;
  disabled = false;
  locked = false;
  clause = none;
}

abbrev pub lower_tsu : ComponentDecl
lower_tsu = record tsu { parameters = ("rate", str "5%") ∷ [] }

-- A document that declares one component.
abbrev pub document_of : String → ComponentDecl → RuleDocument
document_of code decl = record {
  metadata = record { jurisdiction = "PT"; effective_from = "2026-01-01"; version = "1" };
  components = (code, decl) ∷ [];
}

abbrev pub statutory_document : RuleDocument
statutory_document = record {
  metadata = record { jurisdiction = "PT"; effective_from = "2026-01-01"; version = "1" };
  components = ("tsu", tsu) ∷ ("salary", salary) ∷ [];
}

abbrev pub layers : List LayerDoc
layers =
    record { layer = statutory; path = "pt.yaml"; document = statutory_document }
    ∷ record { layer = company; path = "acme.yaml"; document = document_of "tsu" lower_tsu }
    ∷ []

abbrev pub resolved_of : Result PayrollError Resolved → Resolved
resolved_of (ok r) = r
resolved_of (err e) = []

abbrev pub resolved : Resolved
resolved = resolved_of (resolve_layers layers [])

pub resolves : resolve_layers layers [] ≡ ok resolved
unfolding resolve_layers resolve_components resolve_decl merge_component structural_differs
    component_citation
resolves = refl

abbrev pub salary_component : ResolvedComponent
salary_component = record {
  component_code = "salary";
  type = earning;
  phase = gross;
  primitive = "BaseSalary";
  parameters = [];
  inputs_required = [];
  taxable = true;
  subject_to_tsu = true;
  locked = true;
  citations = component_citation statutory "pt.yaml" "salary" ∷ [];
}
