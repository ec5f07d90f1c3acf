-- ===== src/Payroll/Primitives/Laws.antt =====
-- The social security contribution against its definition as a rate on a sum.
use erp_agent.Prelude.{
  String, ◌≡◌, refl, true, Option, none, some, List, [], ◌∷◌, arith, ◌⊎◌, inl, inr, Option-cases,
  All, contains, Dict, lookup, eq_refl, ok, err, elem,
}
use erp_agent.Decimal.{Decimal, zero_decimal, add, mul, sum_from}
use erp_agent.Payroll.Errors.{tsu_missing_base_component}
use erp_agent.Payroll.Rounding.{apply}
use erp_agent.Payroll.Rules.{Value}
use erp_agent.Payroll.Primitives.{
  PrimitiveResult, ExecutionContext, TsuParams, tsu_base, tsu_result, tsu_execute,
}

-- The amounts of the components that are there.
pub amounts_of : List String → Dict Decimal → List Decimal
amounts_of [] d = []
amounts_of (c ∷ cs) d = elim (lookup c d) [ none ↦ amounts_of cs d | some v ↦ v ∷ amounts_of cs d ]

tsu_base_total :
    (codes : List String) (d : Dict Decimal) (acc : Decimal)
    → ((missing : String) × (elem missing codes ≡ true)
        × (lookup missing d ≡ none)
        × (tsu_base codes d acc ≡ err (tsu_missing_base_component missing)))
      ⊎ (All (λ c. contains c d ≡ true) codes
          × (tsu_base codes d acc ≡ ok (sum_from acc (amounts_of codes d))))
unfolding tsu_base amounts_of sum_from
tsu_base_total [] d acc = inr (tt, refl)
tsu_base_total (c ∷ cs) d acc = elim (Option-cases (lookup c d)) [
  | inl gone ↦ inl (c, rw (eq_refl c), gone, rw gone)
  | inr (v, there) ↦ elim (tsu_base_total cs d (add acc v)) [
    | inl (missing, m, a, e) ↦ inl (missing, ground arith, a, rw there e)
    | inr (all, e) ↦ inr ((rw there, all), rw (there, amounts_of) e)
  ]
]

-- The contribution succeeds exactly when every base component has an amount: it is then the rounded
-- product of the rate and the sum of those amounts, and otherwise the error names a base component
-- that has none.
pub tsu_execute_total :
    (to_decimal : Value → Option Decimal) (show_decimal : Decimal → String) (params : TsuParams)
    (d : Dict Decimal) (context : ExecutionContext)
    → ((missing : String) × (elem missing params.base_components ≡ true)
        × (lookup missing d ≡ none)
        × (tsu_execute to_decimal show_decimal params d context
            ≡ err (tsu_missing_base_component missing)))
      ⊎ (All (λ c. contains c d ≡ true) params.base_components
          × ((result : PrimitiveResult) × (tsu_execute to_decimal show_decimal params d context
                ≡ ok result)
              × (result.amount
                  ≡ apply context.rounding_policy (
                      mul
                        (sum_from zero_decimal (amounts_of params.base_components d))
                        params.rate))
              × (result.rate ≡ some params.rate)))
unfolding tsu_execute
tsu_execute_total to_decimal show_decimal params d context =
    elim (tsu_base_total params.base_components d zero_decimal) [
      | inl (missing, m, a, e) ↦ inl (missing, m, a, rw e)
      | inr (all, e) ↦ inr (
        all,
        (
          tsu_result to_decimal show_decimal params
              (sum_from zero_decimal (amounts_of params.base_components d)) context,
          rw e,
          refl,
          refl,
        ),
      )
    ]
