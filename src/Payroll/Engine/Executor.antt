-- ===== src/Payroll/Engine/Executor.antt =====
-- logic/payroll/engine/executor.py: the run of a plan into a payslip and its audit trail.
pub mod Trail
use erp_agent.Prelude.{
  ℕ, String, not, none, some, List, [], ◌∷◌, ◌++◌, ◌==◌, if◌then◌else◌, length, map, Dict, lookup,
  insert, Result, ok, ◌>>=◌, ◌>>◌, raise_if,
}
use erp_agent.Decimal.{Decimal, zero_decimal, sub, sum_from}
use erp_agent.Payroll.Errors.{PayrollError, validation_error}
use erp_agent.Payroll.Rounding.{apply}
use erp_agent.Payroll.Schemas.{RuleCitation, PayslipLine}
use erp_agent.Payroll.Rules.{Phase, input, gross, pre_tax_deduction, tax, post_tax}
use erp_agent.Payroll.Rules.Plan.{PlanStep, CalculationPlan}
use erp_agent.Payroll.Primitives.{
  Primitive, PrimitiveRegistry, PrimitiveResult, ExecutionContext, get_primitive,
}
use erp_agent.Payroll.Engine.Audit.{select_primary_citation}

-- The dumps of inputs and output to JSON are kept as the values that are dumped.
pub record AuditTrailEntry : Type 0 where
  pub step_index : ℕ
  pub primitive : String
  pub inputs_snapshot : Dict Decimal
  pub output : PrimitiveResult
  pub rule_citation : RuleCitation
  pub timestamp : ℕ

pub record PayslipResult : Type 0 where
  pub period_id : String
  pub employee_id : String
  pub gross_earnings : List PayslipLine
  pub deductions : List PayslipLine
  pub employer_contributions : List PayslipLine
  pub net_pay : Decimal
  pub audit : List AuditTrailEntry

-- The local variables of `execute`.
pub record Run : Type 0 where
  pub gross_earnings : List PayslipLine
  pub deductions : List PayslipLine
  pub employer_contributions : List PayslipLine
  pub audit : List AuditTrailEntry
  pub produced : Dict Decimal

abbrev pub empty_run : Run
empty_run = record {
  gross_earnings = [];
  deductions = [];
  employer_contributions = [];
  audit = [];
  produced = [];
}

-- `{code: produced[code] for code in inputs_required if code in produced}`
unfoldable pub pick_inputs : List String → Dict Decimal → Dict Decimal → Dict Decimal
pick_inputs [] produced payload = payload
pick_inputs (code ∷ codes) produced payload =
    pick_inputs codes produced
      (elim (lookup code produced) [ none ↦ payload | some v ↦ insert code v payload ])

unfoldable pub build_inputs : PlanStep → Primitive → Dict Decimal → Dict Decimal
unfolding pick_inputs
build_inputs step primitive produced =
    if primitive.has_component_values then pick_inputs step.inputs_required produced [] else []

unfoldable pub line_of : PlanStep → PrimitiveResult → PayslipLine
line_of step result = record {
  component_code = step.component_code;
  description = if result.notes == "" then step.component_code else result.notes;
  amount = result.amount;
  quantity = result.quantity;
  rate = result.rate;
  tax_treatment = result.tax_treatment;
  exempt_amount = result.exempt_amount;
  source_audit_ref = step.index;
}

unfoldable pub route_line : Phase → PayslipLine → Run → Run
route_line gross line run = record run { gross_earnings = run.gross_earnings ++ line ∷ [] }
route_line pre_tax_deduction line run = record run { deductions = run.deductions ++ line ∷ [] }
route_line tax line run = record run { deductions = run.deductions ++ line ∷ [] }
route_line post_tax line run = record run { deductions = run.deductions ++ line ∷ [] }
route_line Phase.employer_contribution line run = record run {
  employer_contributions = run.employer_contributions ++ line ∷ [];
}
route_line input line run = run

-- What a step that has its result and its citation adds to the run.
unfoldable pub record_step :
    PlanStep → ExecutionContext → Dict Decimal → PrimitiveResult → RuleCitation → Run → Run
unfolding line_of route_line
record_step step context inputs result citation run =
    let entry : AuditTrailEntry = record {
      step_index = step.index;
      primitive = step.primitive_name;
      inputs_snapshot = inputs;
      output = result;
      rule_citation = citation;
      timestamp = context.clock (length run.audit);
    } in
    let run' =
      route_line step.phase (line_of step result)
        (record run { audit = run.audit ++ entry ∷ [] }) in
    record run' { produced = insert step.component_code result.amount run'.produced }

unfoldable pub run_step :
    PrimitiveRegistry → ExecutionContext → PlanStep → Run → Result PayrollError Run
unfolding build_inputs record_step
run_step registry context step run = do
  primitive ← get_primitive registry step.primitive_name
  raise_if (not (primitive.parameters_valid step.parameters)) (validation_error step.component_code)
  result ← primitive.execute step.parameters (build_inputs step primitive run.produced) context
  citation ← select_primary_citation step.citations
  ok (record_step step context (build_inputs step primitive run.produced) result citation run)

unfoldable pub run_steps :
    PrimitiveRegistry → ExecutionContext → List PlanStep → Run → Result PayrollError Run
unfolding run_step
run_steps registry context [] run = ok run
run_steps registry context (step ∷ steps) run = do
  run' ← run_step registry context step run
  run_steps registry context steps run'

abbrev pub amount_of : PayslipLine → Decimal
amount_of line = line.amount

unfoldable pub total : List PayslipLine → Decimal
total lines = sum_from zero_decimal (map amount_of lines)

unfoldable pub execute :
    PrimitiveRegistry → CalculationPlan → ExecutionContext → Result PayrollError PayslipResult
unfolding run_steps total
execute registry plan context = do
  run ← run_steps registry context plan.steps empty_run
  ok (record {
    period_id = plan.period_id;
    employee_id = plan.employee_id;
    gross_earnings = run.gross_earnings;
    deductions = run.deductions;
    employer_contributions = run.employer_contributions;
    net_pay = apply context.rounding_policy (sub (total run.gross_earnings) (total run.deductions));
    audit = run.audit;
  })
