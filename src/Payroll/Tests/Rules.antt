-- ===== src/Payroll/Tests/Rules.antt =====
-- Loading and resolving a small rule stack.
use erp_agent.Prelude.{
  String, ◌≡◌, refl, false, Option, none, some, List, [], ◌∷◌, arith, ◌==◌, if◌then◌else◌, ◌++◌,
  lookup, ok,
}
use erp_agent.Payroll.Schemas.{statutory, company, RuleCitation}
use erp_agent.Payroll.Rules.{ComponentDecl}
use erp_agent.Payroll.Rules.Resolver.{
  ResolvedComponent, Resolved, LayerDoc, resolve_layers, resolve_components, resolve_decl,
  merge_component, structural_differs, component_citation,
}
use erp_agent.Payroll.Rules.Resolver.Pointwise.{stack_effect, resolve_layers-lookup}
use erp_agent.Payroll.Rules.Resolver.Locks.{IsSameRule, resolve_layers-locked}
use erp_agent.Payroll.Rules.Resolver.Citations.{IsRising, resolve_layers-cited}
use erp_agent.Payroll.Engine.Audit.{select_primary_citation}
use erp_agent.Payroll.Tests.Stack.{
  lower_tsu, statutory_document, document_of, layers, resolved_of, resolved, resolves,
  salary_component,
}

resolve_layers-lookup_example : stack_effect "tsu" layers none ≡ ok (lookup "tsu" resolved)
resolve_layers-lookup_example =
    resolve_layers-lookup "tsu" layers [] resolved ((refl, (refl, tt)), ((refl, tt), tt)) resolves

-- The stack above a salary that is locked.
abbrev statutory_layer : List LayerDoc
statutory_layer = record { layer = statutory; path = "pt.yaml"; document = statutory_document } ∷ []

abbrev company_layer : List LayerDoc
company_layer =
    record { layer = company; path = "acme.yaml"; document = document_of "tsu" lower_tsu } ∷ []

abbrev locked_stack : Resolved
locked_stack = ("salary", salary_component) ∷ []

abbrev above : Resolved
above = resolved_of (resolve_layers company_layer locked_stack)

resolves_above : resolve_layers company_layer locked_stack ≡ ok above
unfolding resolve_layers resolve_components resolve_decl merge_component structural_differs
    component_citation
resolves_above = refl

no_salary : (d : ComponentDecl) → ◌≡◌ {A = Option ComponentDecl} none (some d) → d.disabled ≡ false
no_salary d h = cc

resolve_layers-locked_example :
    (c : ResolvedComponent) × (lookup "salary" above ≡ some c) × IsSameRule salary_component c
resolve_layers-locked_example =
    resolve_layers-locked "salary" company_layer locked_stack above salary_component
      ((refl, tt), tt) resolves_above refl refl (no_salary, tt)

abbrev component_at : String → Resolved → ResolvedComponent
component_at code [] = salary_component
component_at code ((k, c) ∷ r) = if code == k then c else component_at code r

abbrev tsu_component : ResolvedComponent
tsu_component = component_at "tsu" resolved

finds_tsu : lookup "tsu" resolved ≡ some tsu_component
unfolding resolve_layers resolve_components resolve_decl merge_component structural_differs
    component_citation
finds_tsu = refl

resolve_layers-cited_example :
    (front : List RuleCitation) × (last : RuleCitation) × (tsu_component.citations
      ≡ front ++ last ∷ [])
    × (select_primary_citation tsu_component.citations ≡ ok last)
    × IsRising tsu_component.citations
resolve_layers-cited_example =
    resolve_layers-cited layers resolved "tsu" tsu_component ((refl, (refl, tt)), ((refl, tt), tt))
      (omega arith, (omega arith, tt)) resolves finds_tsu
