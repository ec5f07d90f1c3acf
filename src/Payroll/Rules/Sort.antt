-- ===== src/Payroll/Rules/Sort.antt =====
-- logic/payroll/rules/plan.py: `_topological_sort`, a depth-first search. The depth of its recursion
-- is bounded by the number of codes, since no code stands twice on the stack.
pub mod Outcome
pub mod Order
use erp_agent.Prelude.{
  ℕ, zero, suc, String, none, some, List, [], ◌∷◌, ◌++◌, if◌then◌else◌, elem, length, Dict, lookup,
  insert, Result, ok, err, ◌>>=◌,
}
use erp_agent.Payroll.Errors.{PayrollError, cyclic_dependency, recursion_error}
use erp_agent.Payroll.Rules.Resolver.{ResolvedComponent}

pub record Search : Type 0 where
  pub visited : List String
  pub ordered : List ResolvedComponent

abbrev pub ByCode : Type 0
ByCode = Dict ResolvedComponent

-- `{c.component_code: c for c in components}`
unfoldable pub index_by_code : List ResolvedComponent → ByCode → ByCode
index_by_code [] d = d
index_by_code (c ∷ cs) d = index_by_code cs (insert c.component_code c d)

-- The loop over the dependencies; `visit` is the recursive call.
unfoldable pub visit_inputs :
    (ResolvedComponent → Search → Result PayrollError Search)
    → ByCode
    → List String
    → Search
    → Result PayrollError Search
visit_inputs visit by_code [] st = ok st
visit_inputs visit by_code (dep ∷ deps) st = elim (lookup dep by_code) [
  | none ↦ visit_inputs visit by_code deps st
  | some c ↦ visit c st >>= λ st'. visit_inputs visit by_code deps st'
]

unfoldable pub finish : ResolvedComponent → Search → Search
finish c st = record {
  visited = st.visited ++ c.component_code ∷ [];
  ordered = st.ordered ++ c ∷ [];
}

unfoldable pub visit :
    ℕ → ByCode → List String → ResolvedComponent → Search → Result PayrollError Search
unfolding visit_inputs finish
visit zero by_code stack c st = err recursion_error
visit (suc fuel) by_code stack c st =
    if elem c.component_code st.visited
    then ok st
    else if elem c.component_code stack
    then err (cyclic_dependency (stack ++ c.component_code ∷ []))
    else (visit_inputs (visit fuel by_code (stack ++ c.component_code ∷ [])) by_code
          c.inputs_required st
        >>= λ st'. ok (finish c st'))

unfoldable pub visit_all : ℕ → ByCode → List ResolvedComponent → Search → Result PayrollError Search
unfolding visit
visit_all fuel by_code [] st = ok st
visit_all fuel by_code (c ∷ cs) st =
    visit fuel by_code [] c st >>= λ st'. visit_all fuel by_code cs st'

unfoldable pub topological_sort :
    List ResolvedComponent → Result PayrollError (List ResolvedComponent)
unfolding index_by_code visit_all
topological_sort components =
    let by_code = index_by_code components [] in
    visit_all (suc (length by_code)) by_code components (record { visited = []; ordered = [] })
    >>= λ st. ok st.ordered
