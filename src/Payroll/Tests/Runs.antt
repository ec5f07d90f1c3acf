-- ===== src/Payroll/Tests/Runs.antt =====
-- Running the plan of a small stack.
use erp_agent.Prelude.{
  String, ◌≡◌, refl, true, none, some, List, [], ◌∷◌, ◌⊎◌, ◌-◌, ◌^◌, contains, lookup, elem, All,
  Result, ok, err,
}
use erp_agent.Prelude.Int.{pos, ◌*ℤ◌, ◌-ℤ◌, ◌+ℤ◌}
use erp_agent.Decimal.{
  zero_decimal, quantize, add, round_signed, round_div, le_decimal, sub, at_scale, zero_decimal,
  sum_from, mul,
}
use erp_agent.Decimal.Rounding.{Near}
use erp_agent.Payroll.Errors.{PayrollError, value_error, tsu_missing_base_component}
use erp_agent.Payroll.Rounding.{default_policy, apply, apply_nearest}
use erp_agent.Payroll.Schemas.{company, RuleCitation}
use erp_agent.Payroll.Rules.Resolver.{
  resolve_layers, resolve_components, resolve_decl, merge_component, structural_differs,
  component_citation,
}
use erp_agent.Payroll.Rules.Sort.{topological_sort}
use erp_agent.Payroll.Rules.Plan.{build}
use erp_agent.Payroll.Primitives.{
  get_primitive, tsu_base, base_salary, PrimitiveResult, tsu_contribution, tsu_execute,
}
use erp_agent.Payroll.Primitives.Laws.{amounts_of, tsu_execute_total}
use erp_agent.Payroll.Engine.Audit.{
  IsFirstHighest, select_primary_citation, select_primary_citation_first,
}
use erp_agent.Payroll.Engine.Executor.{PayslipResult, execute}
use erp_agent.Payroll.Engine.Executor.Trail.{
  IsAccounted, execute-IsAccounted, recorded_total, is_gross, is_deduction,
}
use erp_agent.Payroll.Tests.Stack.{amount}
use erp_agent.Payroll.Tests.Company.{to_rate, show_rate, registry, plan, context, rate}

apply_nearest_example :
    ((apply default_policy amount).scale ≡ 2)
    × Near (at_scale 3 (apply default_policy amount)) (at_scale 3 amount) (10 ^ (3 - 2))
    × (apply default_policy (apply default_policy amount) ≡ apply default_policy amount)
apply_nearest_example = apply_nearest default_policy amount

tsu_execute_total_example :
    ((missing : String) × (elem missing ("salary" ∷ []) ≡ true)
      × (lookup missing (("salary", amount) ∷ []) ≡ none)
      × (tsu_execute to_rate show_rate rate (("salary", amount) ∷ []) context
          ≡ err (tsu_missing_base_component missing)))
    ⊎ (All (λ c. contains c (("salary", amount) ∷ []) ≡ true) ("salary" ∷ [])
        × ((result : PrimitiveResult) × (tsu_execute to_rate show_rate rate
                (("salary", amount) ∷ [])
                context
              ≡ ok result)
            × (result.amount
                ≡ apply default_policy (
                    mul
                      (sum_from zero_decimal (amounts_of ("salary" ∷ []) (("salary", amount) ∷ [])))
                      rate.rate))
            × (result.rate ≡ some rate.rate)))
tsu_execute_total_example =
    tsu_execute_total to_rate show_rate rate (("salary", amount) ∷ []) context

abbrev slip_of : Result PayrollError PayslipResult → PayslipResult
slip_of (ok s) = s
slip_of (err e) = record {
  period_id = "";
  employee_id = "";
  gross_earnings = [];
  deductions = [];
  employer_contributions = [];
  net_pay = zero_decimal;
  audit = [];
}

abbrev slip : PayslipResult
slip = slip_of (execute registry plan context)

executes : execute registry plan context ≡ ok slip
unfolding resolve_layers resolve_components resolve_decl merge_component structural_differs
    component_citation build topological_sort tsu_contribution le_decimal at_scale ◌*ℤ◌ execute
    select_primary_citation get_primitive tsu_base
executes = refl

-- 1000 less 5 % of it
pays : slip.net_pay ≡ record { coeff = pos 95000; scale = 2 }
unfolding resolve_layers resolve_components resolve_decl merge_component structural_differs
    component_citation build topological_sort tsu_contribution le_decimal at_scale ◌*ℤ◌ execute
    select_primary_citation get_primitive tsu_base apply quantize sub sum_from add base_salary mul
    ◌-ℤ◌ ◌+ℤ◌ round_signed round_div
pays = refl

execute-IsAccounted_example :
    IsAccounted plan.steps slip
    × (slip.net_pay
        ≡ apply default_policy (
            sub
              (recorded_total is_gross zero_decimal plan.steps slip.audit)
              (recorded_total is_deduction zero_decimal plan.steps slip.audit)))
execute-IsAccounted_example = execute-IsAccounted registry plan context slip executes

abbrev two_citations : List RuleCitation
two_citations =
    component_citation company "acme.yaml" "tsu"
    ∷ component_citation company "other.yaml" "tsu"
    ∷ []

select_primary_citation_first_example :
    ((two_citations ≡ []) × (select_primary_citation two_citations ≡ err value_error))
    ⊎ ((best : RuleCitation) × (select_primary_citation two_citations ≡ ok best)
        × IsFirstHighest best two_citations)
select_primary_citation_first_example = select_primary_citation_first two_citations
