-- ===== src/Payroll/Rules/Plan.antt =====
-- logic/payroll/rules/plan.py: `CalculationPlanBuilder.build`, the checks of a resolved stack and the
-- steps of its plan, phase by phase.
pub mod Find
pub mod Build
pub mod Correct
pub mod Steps
use erp_agent.Prelude.{
  ℕ, String, not, List, [], ◌∷◌, ◌++◌, if◌then◌else◌, is_empty, elem, keep, length, lookup, keys,
  values, Result, ok, ◌>>=◌, ◌>>◌, raise_if, or_raise,
}
use erp_agent.Payroll.Errors.{
  PayrollError, unresolved_dependency, unknown_primitive, parameter_schema_invalid,
}
use erp_agent.Payroll.Rounding.{RoundingPolicy}
use erp_agent.Payroll.Schemas.{RuleCitation}
use erp_agent.Payroll.Rules.{
  Params, Phase, input, gross, pre_tax_deduction, tax, post_tax, phase_eq,
}
use erp_agent.Payroll.Rules.Resolver.{ResolvedComponent, RuleStackSnapshot}
use erp_agent.Payroll.Rules.Sort.{topological_sort}
use erp_agent.Payroll.Primitives.{PrimitiveRegistry}

abbrev pub phase_order : List Phase
phase_order = input ∷ gross ∷ pre_tax_deduction ∷ tax ∷ post_tax ∷ Phase.employer_contribution ∷ []

pub record PlanStep : Type 0 where
  pub index : ℕ
  pub phase : Phase
  pub component_code : String
  pub primitive_name : String
  pub parameters : Params
  pub inputs_required : List String
  pub citations : List RuleCitation

pub record CalculationPlan : Type 0 where
  pub employee_id : String
  pub contract_id : String
  pub period_id : String
  pub company_id : String
  pub rounding_policy : RoundingPolicy
  pub steps : List PlanStep

unfoldable pub check_inputs : List String → String → List String → Result PayrollError (Unit {0})
check_inputs all_codes code [] = ok tt
check_inputs all_codes code (dep ∷ deps) = do
  raise_if (not (elem dep all_codes)) (unresolved_dependency code dep)
  check_inputs all_codes code deps

-- The body of the first loop of `build`.
unfoldable pub check_component :
    PrimitiveRegistry → List String → ResolvedComponent → Result PayrollError (Unit {0})
unfolding check_inputs
check_component registry all_codes comp = do
  check_inputs all_codes comp.component_code comp.inputs_required
  primitive ← or_raise (lookup comp.primitive registry) (unknown_primitive comp.primitive)
  raise_if (not (primitive.parameters_valid comp.parameters))
      (parameter_schema_invalid comp.component_code)

unfoldable pub check_components :
    PrimitiveRegistry → List String → List ResolvedComponent → Result PayrollError (Unit {0})
unfolding check_component
check_components registry all_codes [] = ok tt
check_components registry all_codes (c ∷ cs) =
    check_component registry all_codes c >> check_components registry all_codes cs

unfoldable pub step_of : ℕ → Phase → ResolvedComponent → PlanStep
step_of index phase comp = record {
  index = index;
  phase = phase;
  component_code = comp.component_code;
  primitive_name = comp.primitive;
  parameters = comp.parameters;
  inputs_required = comp.inputs_required;
  citations = comp.citations;
}

unfoldable pub append_steps : Phase → List ResolvedComponent → List PlanStep → List PlanStep
unfolding step_of
append_steps phase [] steps = steps
append_steps phase (c ∷ cs) steps =
    append_steps phase cs (steps ++ step_of (length steps) phase c ∷ [])

abbrev pub of_phase : Phase → List ResolvedComponent → List ResolvedComponent
of_phase phase = keep (λ c. phase_eq c.phase phase)

unfoldable pub phase_steps :
    Phase → List ResolvedComponent → List PlanStep → Result PayrollError (List PlanStep)
unfolding append_steps
phase_steps phase comps steps =
    let in_phase = of_phase phase comps in
    if is_empty in_phase
    then ok steps
    else (topological_sort in_phase >>= λ sorted. ok (append_steps phase sorted steps))

unfoldable pub build_steps :
    List Phase → List ResolvedComponent → List PlanStep → Result PayrollError (List PlanStep)
unfolding phase_steps
build_steps [] comps steps = ok steps
build_steps (phase ∷ phases) comps steps = do
  steps' ← phase_steps phase comps steps
  build_steps phases comps steps'

unfoldable pub build :
    PrimitiveRegistry
    → RuleStackSnapshot
    → String
    → String
    → String
    → String
    → RoundingPolicy
    → Result PayrollError CalculationPlan
unfolding check_components build_steps
build registry snapshot employee_id contract_id period_id company_id rounding_policy = do
  let comps = values snapshot.resolved_components
  check_components registry (keys snapshot.resolved_components) comps
  steps ← build_steps phase_order comps []
  ok (record {
    employee_id = employee_id;
    contract_id = contract_id;
    period_id = period_id;
    company_id = company_id;
    rounding_policy = rounding_policy;
    steps = steps;
  })
