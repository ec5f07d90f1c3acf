-- ===== src/Payroll/Engine/Executor/Trail.antt =====
-- The audit trail accounts for every step and for every line of the payslip.
use mathlib.Core.Path.{subst}
use erp_agent.Prelude.{
  ◌≡◌, refl, sym, ap, ◌∙◌, Bool, true, false, not, List, [], ◌∷◌, ◌++◌, map, ◌==◌, if◌then◌else◌,
  append_assoc, append-nil, length, Dict, ok, >>=-eq-ok, ok-injective, raise_if, Bool-cases, inl,
  inr,
}
use erp_agent.Decimal.{Decimal, sub, add, sum_from, zero_decimal}
use erp_agent.Payroll.Errors.{validation_error}
use erp_agent.Payroll.Rounding.{apply}
use erp_agent.Payroll.Schemas.{PayslipLine, RuleCitation}
use erp_agent.Payroll.Rules.{Phase, input, gross, pre_tax_deduction, tax, post_tax}
use erp_agent.Payroll.Rules.Plan.{PlanStep, CalculationPlan}
use erp_agent.Payroll.Primitives.{
  PrimitiveRegistry, ExecutionContext, PrimitiveResult, get_primitive,
}
use erp_agent.Payroll.Engine.Audit.{select_primary_citation}
use erp_agent.Payroll.Engine.Executor.{
  AuditTrailEntry, PayslipResult, Run, empty_run, build_inputs, line_of, route_line, record_step,
  run_step, run_steps, total, amount_of, execute,
}

abbrev pub is_gross : Phase → Bool
is_gross gross = true
is_gross _ = false

abbrev pub is_deduction : Phase → Bool
is_deduction pre_tax_deduction = true
is_deduction tax = true
is_deduction post_tax = true
is_deduction _ = false

abbrev pub is_employer : Phase → Bool
is_employer Phase.employer_contribution = true
is_employer _ = false

-- The entry is that of the step.
abbrev pub IsEntryOf : PlanStep → AuditTrailEntry → Type 0
IsEntryOf s e =
    (e.step_index ≡ s.index)
    × (e.primitive ≡ s.primitive_name)
    × (select_primary_citation s.citations ≡ ok e.rule_citation)

-- One entry for each step, in order.
abbrev pub IsTrailOf : List PlanStep → List AuditTrailEntry → Type 0
IsTrailOf [] [] = Unit
IsTrailOf [] (e ∷ es) = ⊥
IsTrailOf (s ∷ ss) [] = ⊥
IsTrailOf (s ∷ ss) (e ∷ es) = IsEntryOf s e × IsTrailOf ss es

-- The line of a step: its code and index, and the figures of the result that its entry records.
abbrev pub recorded_line : PlanStep → PrimitiveResult → PayslipLine
recorded_line s output = record {
  component_code = s.component_code;
  description = if output.notes == "" then s.component_code else output.notes;
  amount = output.amount;
  quantity = output.quantity;
  rate = output.rate;
  tax_treatment = output.tax_treatment;
  exempt_amount = output.exempt_amount;
  source_audit_ref = s.index;
}

-- The amounts that the entries record of the steps in the chosen phases, added up in order.
pub recorded_total : (Phase → Bool) → Decimal → List PlanStep → List AuditTrailEntry → Decimal
recorded_total p acc (s ∷ ss) (e ∷ es) =
    if p s.phase
    then recorded_total p (add acc e.output.amount) ss es
    else recorded_total p acc ss es
recorded_total p acc [] es = acc
recorded_total p acc (s ∷ ss) [] = acc

-- The lines of the steps in the chosen phases, with the results that the entries record.
pub lines_of : (Phase → Bool) → List PlanStep → List AuditTrailEntry → List PayslipLine
lines_of p (s ∷ ss) (e ∷ es) =
    if p s.phase then recorded_line s e.output ∷ lines_of p ss es else lines_of p ss es
lines_of p [] es = []
lines_of p (s ∷ ss) [] = []

-- From one state of the run to a later one.
pub record IsExtended (steps : List PlanStep) (added : List AuditTrailEntry) (run run' : Run)
    : Type 0 where
  pub trail : IsTrailOf steps added
  pub audit : run'.audit ≡ run.audit ++ added
  pub gross_earnings : run'.gross_earnings ≡ run.gross_earnings ++ lines_of is_gross steps added
  pub deductions : run'.deductions ≡ run.deductions ++ lines_of is_deduction steps added
  pub employer_contributions :
      run'.employer_contributions ≡ run.employer_contributions ++ lines_of is_employer steps added

-- Where a line goes.
route_line-fields :
    (p : Phase) (line : PayslipLine) (run : Run)
    → ((route_line p line run).gross_earnings
        ≡ run.gross_earnings ++ (if is_gross p then line ∷ [] else []))
      × ((route_line p line run).deductions
          ≡ run.deductions ++ (if is_deduction p then line ∷ [] else []))
      × ((route_line p line run).employer_contributions
          ≡ run.employer_contributions ++ (if is_employer p then line ∷ [] else []))
      × ((route_line p line run).audit ≡ run.audit)
unfolding route_line
route_line-fields gross line run = (refl, sym (append-nil _), sym (append-nil _), refl)
route_line-fields pre_tax_deduction line run = (sym (append-nil _), refl, sym (append-nil _), refl)
route_line-fields tax line run = (sym (append-nil _), refl, sym (append-nil _), refl)
route_line-fields post_tax line run = (sym (append-nil _), refl, sym (append-nil _), refl)
route_line-fields Phase.employer_contribution line run =
    (sym (append-nil _), sym (append-nil _), refl, refl)
route_line-fields input line run =
    (sym (append-nil _), sym (append-nil _), sym (append-nil _), refl)

record_step-IsExtended :
    (s : PlanStep) (context : ExecutionContext) (inputs : Dict Decimal) (result : PrimitiveResult)
    (citation : RuleCitation) (run : Run)
    → select_primary_citation s.citations ≡ ok citation
    → (e : AuditTrailEntry) × IsExtended
        (s ∷ [])
        (e ∷ [])
        run
        (record_step s context inputs result citation run)
unfolding record_step lines_of line_of
record_step-IsExtended s context inputs result citation run h =
    let e : AuditTrailEntry = record {
      step_index = s.index;
      primitive = s.primitive_name;
      inputs_snapshot = inputs;
      output = result;
      rule_citation = citation;
      timestamp = context.clock (length run.audit);
    } in
    let (g, d, c, a) =
      route_line-fields s.phase (line_of s result) (record run { audit = run.audit ++ e ∷ [] }) in
    (
      e,
      record {
        trail = ((refl, refl, h), tt);
        audit = a;
        gross_earnings = g;
        deductions = d;
        employer_contributions = c;
      },
    )

run_step-IsExtended :
    (registry : PrimitiveRegistry) (context : ExecutionContext) (s : PlanStep) (run run' : Run)
    → run_step registry context s run ≡ ok run'
    → (e : AuditTrailEntry) × IsExtended (s ∷ []) (e ∷ []) run run'
unfolding run_step
run_step-IsExtended registry context s run run' h =
    let (p, _, h1) = >>=-eq-ok (get_primitive registry s.primitive_name) _ h in
    let (_, _, h2) =
      >>=-eq-ok
        (raise_if (not (p.parameters_valid s.parameters)) (validation_error s.component_code)) _
        h1 in
    let inputs = build_inputs s p run.produced in
    let (result, _, h3) = >>=-eq-ok (p.execute s.parameters inputs context) _ h2 in
    let (citation, cited, h4) = >>=-eq-ok (select_primary_citation s.citations) _ h3 in
    subst (λ r. (e : AuditTrailEntry) × IsExtended (s ∷ []) (e ∷ []) run r) (ok-injective h4)
      (record_step-IsExtended s context inputs result citation run cited)

lines_of-cons :
    (p : Phase → Bool) (s : PlanStep) (ss : List PlanStep) (e : AuditTrailEntry)
    (es : List AuditTrailEntry)
    → lines_of p (s ∷ ss) (e ∷ es) ≡ lines_of p (s ∷ []) (e ∷ []) ++ lines_of p ss es
unfolding lines_of
lines_of-cons p s ss e es = elim (Bool-cases (p s.phase)) [ inl y ↦ rw y | inr n ↦ rw n ]

IsExtended-cons :
    (s : PlanStep) (ss : List PlanStep) (e : AuditTrailEntry) (es : List AuditTrailEntry)
    (a b c : Run)
    → IsExtended (s ∷ []) (e ∷ []) a b
    → IsExtended ss es b c
    → IsExtended (s ∷ ss) (e ∷ es) a c
IsExtended-cons s ss e es a b c f g = record {
  trail = (f.trail.0, g.trail);
  audit = g.audit ∙ ap (λ t. t ++ es) f.audit ∙ append_assoc a.audit (e ∷ []) es;
  gross_earnings =
      g.gross_earnings
      ∙ ap (λ t. t ++ lines_of is_gross ss es) f.gross_earnings
      ∙ append_assoc a.gross_earnings (lines_of is_gross (s ∷ []) (e ∷ []))
          (lines_of is_gross ss es)
      ∙ ap (λ t. a.gross_earnings ++ t) (sym (lines_of-cons is_gross s ss e es));
  deductions =
      g.deductions
      ∙ ap (λ t. t ++ lines_of is_deduction ss es) f.deductions
      ∙ append_assoc a.deductions (lines_of is_deduction (s ∷ []) (e ∷ []))
          (lines_of is_deduction ss es)
      ∙ ap (λ t. a.deductions ++ t) (sym (lines_of-cons is_deduction s ss e es));
  employer_contributions =
      g.employer_contributions
      ∙ ap (λ t. t ++ lines_of is_employer ss es) f.employer_contributions
      ∙ append_assoc a.employer_contributions (lines_of is_employer (s ∷ []) (e ∷ []))
          (lines_of is_employer ss es)
      ∙ ap (λ t. a.employer_contributions ++ t) (sym (lines_of-cons is_employer s ss e es));
}

run_steps-IsExtended :
    (registry : PrimitiveRegistry) (context : ExecutionContext) (steps : List PlanStep)
    (run run' : Run)
    → run_steps registry context steps run ≡ ok run'
    → (es : List AuditTrailEntry) × IsExtended steps es run run'
unfolding run_steps lines_of
run_steps-IsExtended registry context [] run run' h =
    let same = ok-injective h in
    (
      [],
      record {
        trail = tt;
        audit = ap (λ r. r.audit) (sym same) ∙ sym (append-nil _);
        gross_earnings = ap (λ r. r.gross_earnings) (sym same) ∙ sym (append-nil _);
        deductions = ap (λ r. r.deductions) (sym same) ∙ sym (append-nil _);
        employer_contributions = ap (λ r. r.employer_contributions) (sym same) ∙ sym (append-nil _);
      },
    )
run_steps-IsExtended registry context (s ∷ ss) run run' h =
    let (mid, first, later) = >>=-eq-ok (run_step registry context s run) _ h in
    let (e, f) = run_step-IsExtended registry context s run mid first in
    let (es, g) = run_steps-IsExtended registry context ss mid run' later in
    (e ∷ es, IsExtended-cons s ss e es run mid run' f g)

sum_from-recorded_total :
    (p : Phase → Bool) (acc : Decimal) (ss : List PlanStep) (es : List AuditTrailEntry)
    → sum_from acc (map amount_of (lines_of p ss es)) ≡ recorded_total p acc ss es
unfolding lines_of recorded_total sum_from
sum_from-recorded_total p acc [] es = refl
sum_from-recorded_total p acc (s ∷ ss) [] = refl
sum_from-recorded_total p acc (s ∷ ss) (e ∷ es) = elim (Bool-cases (p s.phase)) [
  | inl y ↦ rw y (sum_from-recorded_total p (add acc e.output.amount) ss es)
  | inr n ↦ rw n (sum_from-recorded_total p acc ss es)
]

total-recorded_total :
    (p : Phase → Bool) (ss : List PlanStep) (es : List AuditTrailEntry)
    → total (lines_of p ss es) ≡ recorded_total p zero_decimal ss es
unfolding total
total-recorded_total p ss es = sum_from-recorded_total p zero_decimal ss es

-- The lists of the payslip are exactly the lines that the trail accounts for.
pub record IsAccounted (steps : List PlanStep) (slip : PayslipResult) : Type 0 where
  pub trail : IsTrailOf steps slip.audit
  pub gross_earnings : slip.gross_earnings ≡ lines_of is_gross steps slip.audit
  pub deductions : slip.deductions ≡ lines_of is_deduction steps slip.audit
  pub employer_contributions : slip.employer_contributions ≡ lines_of is_employer steps slip.audit

-- A payslip has one audit entry for each step of the plan, in order, with the step's index, primitive and
-- primary citation; its three lists hold exactly the lines of the steps in the phases that belong there,
-- each with its step's code and the figures that its entry records; and the net pay is the rounded
-- difference of the amounts that the entries of the gross steps and of the deductions record, each added
-- up in order, whatever the employer contributes.
pub execute-IsAccounted :
    (registry : PrimitiveRegistry) (plan : CalculationPlan) (context : ExecutionContext)
    (slip : PayslipResult)
    → execute registry plan context ≡ ok slip
    → IsAccounted plan.steps slip
      × (slip.net_pay
          ≡ apply context.rounding_policy (
              sub
                (recorded_total is_gross zero_decimal plan.steps slip.audit)
                (recorded_total is_deduction zero_decimal plan.steps slip.audit)))
unfolding execute
execute-IsAccounted registry plan context slip h =
    let (run, ran, done) = >>=-eq-ok (run_steps registry context plan.steps empty_run) _ h in
    let (es, x) = run_steps-IsExtended registry context plan.steps empty_run run ran in
    subst
      (λ r.
        IsAccounted plan.steps r
        × (r.net_pay
            ≡ apply context.rounding_policy (
                sub (recorded_total is_gross zero_decimal plan.steps r.audit)
                  (recorded_total is_deduction zero_decimal plan.steps r.audit))))
      (ok-injective done)
      (
        record {
          trail = subst (IsTrailOf plan.steps) (sym x.audit) x.trail;
          gross_earnings = rw x.audit x.gross_earnings;
          deductions = rw x.audit x.deductions;
          employer_contributions = rw x.audit x.employer_contributions;
        },
        rw
            (
              x.audit,
              x.gross_earnings,
              x.deductions,
              total-recorded_total is_gross plan.steps es,
              total-recorded_total is_deduction plan.steps es,
            )
            refl,
      )
