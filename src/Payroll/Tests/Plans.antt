-- ===== src/Payroll/Tests/Plans.antt =====
-- Sorting and planning small stacks.
use mathlib.Core.Path.{subst}
use erp_agent.Prelude.{
  sym, ℕ, ◌≤◌, ◌<◌, String, ◌≡◌, refl, Bool, true, false, none, some, List, [], ◌∷◌, arith, eq_iff,
  ◌⊎◌, ◌==◌, if◌then◌else◌, contains, keys, values, elem, All, ok, err, inl, inr,
}
use erp_agent.Payroll.Errors.{cyclic_dependency}
use erp_agent.Payroll.Rounding.{default_policy}
use erp_agent.Payroll.Rules.{phase_rank}
use erp_agent.Payroll.Rules.Resolver.{
  ResolvedComponent, resolve_layers, resolve_components, resolve_decl, merge_component,
  structural_differs, component_citation,
}
use erp_agent.Payroll.Rules.Sort.{index_by_code, topological_sort}
use erp_agent.Payroll.Rules.Sort.Outcome.{IsCycle, Needs}
use erp_agent.Payroll.Rules.Sort.Order.{
  IsSorted, topological_sort_outcome, topological_sort_acyclic,
}
use erp_agent.Payroll.Rules.Plan.Steps.{IsReady}
use erp_agent.Payroll.Rules.Plan.Find.{find}
use erp_agent.Payroll.Rules.Plan.Correct.{
  All_of_find, IsWellKeyed, IsPlan, IsChecked, build-IsPlan, build-IsReady,
}
use erp_agent.Payroll.Tests.Stack.{resolved, salary_component}
use erp_agent.Payroll.Tests.Company.{checked_resolved, registry, plan, builds}

-- Two components of a phase that need each other.
abbrev salary_of : String → List String → ResolvedComponent
salary_of code deps = record salary_component { component_code = code; inputs_required = deps }

abbrev knot : List ResolvedComponent
knot = salary_of "a" ("b" ∷ []) ∷ salary_of "b" ("a" ∷ []) ∷ []

topological_sort_outcome_example :
    ((out : List ResolvedComponent) × (topological_sort knot ≡ ok out) × IsSorted knot out)
    ⊎ ((path : List String) × (topological_sort knot ≡ err (cyclic_dependency path))
        × IsCycle (index_by_code knot []) path)
topological_sort_outcome_example = topological_sort_outcome knot (refl, (refl, tt))

abbrev chain : List ResolvedComponent
chain = salary_of "a" ("b" ∷ []) ∷ salary_of "b" [] ∷ []

abbrev height : String → ℕ
height code = if code == "a" then 1 else 0

only_a_needs :
    (is_a is_b : Bool) (b : String) (c : ResolvedComponent)
    → (if is_a
        then some (salary_of "a" ("b" ∷ []))
        else if is_b
        then some (salary_of "b" [])
        else none)
      ≡ some c
    → elem b c.inputs_required ≡ true
    → (is_a ≡ true) × ((b == "b") ≡ true)
only_a_needs true is_b b c h m =
    let same : "b" ∷ [] ≡ c.inputs_required = cc in
    let m' : elem b ("b" ∷ []) ≡ true = subst (λ l. elem b l ≡ true) (sym same) m in
    (refl, ground (arith, m'))
only_a_needs false true b c h m =
    let same : [] ≡ c.inputs_required = cc in cc (subst (λ l. elem b l ≡ true) (sym same) m)
only_a_needs false false b c h m = cc

height_falls :
    (a b : String)
    → Needs (index_by_code chain []) a b
    → contains b (index_by_code chain []) ≡ true
    → height b < height a
unfolding index_by_code
height_falls a b (c, found, m) k =
    let (is_a, is_b) = only_a_needs (a == "a") (a == "b") b c found m in
    subst (λ x. height x < height a) (sym ((eq_iff b "b").0 is_b))
      (subst (λ x. 0 < (if x then 1 else 0)) (sym is_a) (omega arith))

topological_sort_acyclic_example :
    (out : List ResolvedComponent) × (topological_sort chain ≡ ok out) × IsSorted chain out
topological_sort_acyclic_example =
    topological_sort_acyclic chain height (refl, (refl, tt)) height_falls

keyed : IsWellKeyed checked_resolved
unfolding resolve_layers resolve_components resolve_decl merge_component
keyed = ((refl, (refl, tt)), refl)

build-IsPlan_example :
    IsPlan (values resolved) plan.steps × All (IsChecked registry (keys resolved)) (values resolved)
build-IsPlan_example =
    build-IsPlan registry checked_resolved "e" "k" "2026-01" "acme" default_policy plan keyed builds

no_later_phase :
    (c cd : ResolvedComponent) (d : String)
    → find c.component_code (values resolved) ≡ some c
    → elem d c.inputs_required ≡ true
    → find d (values resolved) ≡ some cd
    → phase_rank cd.phase ≤ phase_rank c.phase
unfolding resolve_layers resolve_components resolve_decl merge_component structural_differs
    component_citation
no_later_phase c cd d found m there =
    let low =
      All_of_find (λ x. phase_rank x.phase ≤ 2) d cd (values resolved)
        (omega arith, (omega arith, tt)) there in
    let last =
      All_of_find (λ x. (phase_rank x.phase ≡ 2) ⊎ (x.inputs_required ≡ [])) c.component_code c
        (values resolved) (inl refl, (inr refl, tt)) found in
    elim last [
      | inl second ↦ omega (arith, low, second)
      | inr alone ↦ cc (subst (λ l. elem d l ≡ true) alone m)
    ]

build-IsReady_example : IsReady [] plan.steps
build-IsReady_example =
    build-IsReady registry checked_resolved "e" "k" "2026-01" "acme" default_policy plan keyed
      builds no_later_phase
