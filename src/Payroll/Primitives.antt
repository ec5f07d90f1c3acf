-- ===== src/Payroll/Primitives.antt =====
-- logic/payroll/primitives: the interface of a calculation primitive, the registry, and the two
-- primitives of the program. Pydantic's reading of a value as a `Decimal` and Python's printing of one
-- are parameters.
pub mod Laws
use Prim.Native.String.{◌++◌ as text_append}
use erp_agent.Prelude.{
  ℕ, String, Bool, true, ◌&&◌, not, Option, none, some, List, [], ◌∷◌, if◌then◌else◌, is_some,
  is_empty, Dict, lookup, contains, insert, Result, ok, ◌>>=◌, ◌>>◌, raise_if, or_raise,
}
use erp_agent.Prelude.Int.{pos}
use erp_agent.Decimal.{Decimal, zero_decimal, add, mul, le_decimal}
use erp_agent.Payroll.Errors.{
  PayrollError, tsu_missing_base_component, key_error, validation_error, value_error,
}
use erp_agent.Payroll.Rounding.{RoundingPolicy, apply}
use erp_agent.Payroll.Schemas.{
  Company, Contract, Employee, PayrollPeriod, RuleCitation, TaxTreatment, taxable,
}
use erp_agent.Payroll.Rules.{Value, Values, str, seq, nil, cons, Params}

pub record PrimitiveResult : Type 0 where
  pub amount : Decimal
  pub quantity : Option Decimal
  pub rate : Option Decimal
  pub tax_treatment : TaxTreatment
  pub exempt_amount : Decimal
  pub breakdown : List Params
  pub notes : String
  pub citations : List RuleCitation

-- The clock is the sequence of its readings: `clock i` is the i-th call of `now()`.
pub record ExecutionContext : Type 0 where
  pub period : PayrollPeriod
  pub contract : Contract
  pub employee : Employee
  pub company : Company
  pub rounding_policy : RoundingPolicy
  pub clock : ℕ → ℕ

-- `parameters_valid` is `parameter_schema.model_validate`, and `has_component_values` says whether the
-- input schema has that field. `execute` takes the parameters as they stand in the plan.
pub record Primitive : Type 0 where
  pub parameters_valid : Params → Bool
  pub has_component_values : Bool
  pub execute : Params → Dict Decimal → ExecutionContext → Result PayrollError PrimitiveResult

abbrev pub PrimitiveRegistry : Type 0
PrimitiveRegistry = Dict Primitive

unfoldable pub register :
    String → Primitive → PrimitiveRegistry → Result PayrollError PrimitiveRegistry
register name primitive registry = do
  raise_if (contains name registry) value_error
  ok (insert name primitive registry)

unfoldable pub get_primitive : PrimitiveRegistry → String → Result PayrollError Primitive
get_primitive registry name = or_raise (lookup name registry) (key_error name)

-- BaseSalary.execute
unfoldable pub base_salary : ExecutionContext → PrimitiveResult
base_salary context = record {
  amount = apply context.rounding_policy context.contract.base_monthly_salary;
  quantity = none;
  rate = none;
  tax_treatment = taxable;
  exempt_amount = zero_decimal;
  breakdown = [];
  notes = text_append "Base monthly salary per contract " context.contract.contract_id;
  citations = [];
}

abbrev pub base_salary_primitive : Primitive
base_salary_primitive = record {
  parameters_valid = λ _. true;
  has_component_values = not true;
  execute = λ params inputs context. ok (base_salary context);
}

pub record TsuParams : Type 0 where
  pub rate : Decimal
  pub base_components : List String

-- A list of texts; anything else in it is refused.
unfoldable pub to_texts : Values → Option (List String)
to_texts nil = some []
to_texts (cons (str s) vs) = elim (to_texts vs) [ none ↦ none | some ts ↦ some (s ∷ ts) ]
to_texts (cons v vs) = none

unfoldable pub to_text_list : Option Value → Option (List String)
unfolding to_texts
to_text_list (some (seq vs)) = to_texts vs
to_text_list o = none

abbrev pub one_decimal : Decimal
one_decimal = record { coeff = pos 1; scale = 0 }

-- `ge=0, le=1` on the rate and `min_length=1` on the components
unfoldable pub bounded_params : Option Decimal → Option (List String) → Option TsuParams
bounded_params none components = none
bounded_params (some rate) none = none
bounded_params (some rate) (some components) =
    if le_decimal zero_decimal rate && le_decimal rate one_decimal && not (is_empty components)
    then some (record { rate = rate; base_components = components })
    else none

-- The loop of TSUContribution.execute
unfoldable pub tsu_base : List String → Dict Decimal → Decimal → Result PayrollError Decimal
tsu_base [] component_values base = ok base
tsu_base (code ∷ codes) component_values base = do
  value ← or_raise (lookup code component_values) (tsu_missing_base_component code)
  tsu_base codes component_values (add base value)

unfoldable pub join : String → List String → String
join sep [] = ""
join sep (x ∷ []) = x
join sep (x ∷ xs) = text_append x (text_append sep (join sep xs))

module _ (to_decimal : Value → Option Decimal) (show_decimal : Decimal → String) where
  -- TSUContributionParams
  unfoldable pub tsu_params : Params → Option TsuParams
  unfolding bounded_params to_text_list
  tsu_params p =
      let rate : Option Decimal = elim (lookup "rate" p) [ none ↦ none | some v ↦ to_decimal v ] in
      bounded_params rate (to_text_list (lookup "base_components" p))

  unfoldable pub tsu_result : TsuParams → Decimal → ExecutionContext → PrimitiveResult
  tsu_result params base context = record {
    amount = apply context.rounding_policy (mul base params.rate);
    quantity = none;
    rate = some params.rate;
    tax_treatment = taxable;
    exempt_amount = zero_decimal;
    breakdown = [];
    notes = text_append "TSU = " (
        text_append (show_decimal params.rate)
          (text_append " * sum(" (text_append (join ", " params.base_components) ")")));
    citations = [];
  }

  unfoldable pub tsu_execute :
      TsuParams → Dict Decimal → ExecutionContext → Result PayrollError PrimitiveResult
  unfolding tsu_result
  tsu_execute params component_values context = do
    base ← tsu_base params.base_components component_values zero_decimal
    ok (tsu_result params base context)

  unfoldable pub tsu_contribution : Primitive
  unfolding tsu_params tsu_execute
  tsu_contribution = record {
    parameters_valid = λ p. is_some (tsu_params p);
    has_component_values = true;
    execute = λ p inputs context. do
      params ← or_raise (tsu_params p) (validation_error "TSUContribution")
      tsu_execute params inputs context;
  }
