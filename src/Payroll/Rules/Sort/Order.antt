-- ===== src/Payroll/Rules/Sort/Order.antt =====
-- The sort of one phase: its result is an order of the same components with dependencies first, and it
-- fails on cycles only.
use mathlib.Core.Path.{subst}
use erp_agent.Prelude.{
  ℕ, suc, ◌<◌, String, ◌≡◌, refl, sym, ap, ◌∙◌, true, false, ◌||◌, some, List, [], ◌∷◌, arith, ◌==◌,
  eq_iff, eq_refl, ◌⊎◌, inl, inr, Bool-cases, is_some, All, All_elim, elem, Distinct, length,
  length-keys, lookup, insert, lookup-insert, keys, contains, ok, err, ◌>>=◌,
}
use erp_agent.Payroll.Errors.{cyclic_dependency}
use erp_agent.Payroll.Rules.Resolver.{ResolvedComponent}
use erp_agent.Payroll.Rules.Sort.{Search, ByCode, index_by_code, visit_all, topological_sort}
use erp_agent.Payroll.Rules.Sort.Outcome.{
  codes, Respects, IsSearch, Needs, IsPathTo, IsCycle, IsKeyed, Fails, Visited, visit-outcome,
  IsGrown-trans, IsGrown-refl,
}

insert-IsKeyed :
    (c : ResolvedComponent) (d : ByCode) → IsKeyed d → IsKeyed (insert c.component_code c d)
insert-IsKeyed c d h k x e =
    ground (arith, lookup-insert c.component_code k c d, h k x, eq_iff k c.component_code)

index_by_code-IsKeyed :
    (cs : List ResolvedComponent) (d : ByCode) → IsKeyed d → IsKeyed (index_by_code cs d)
unfolding index_by_code
index_by_code-IsKeyed [] d h = h
index_by_code-IsKeyed (c ∷ cs) d h =
    index_by_code-IsKeyed cs (insert c.component_code c d) (insert-IsKeyed c d h)

lookup-index_by_code_other :
    (k : String) (cs : List ResolvedComponent) (d : ByCode)
    → elem k (codes cs) ≡ false
    → lookup k (index_by_code cs d) ≡ lookup k d
unfolding index_by_code
lookup-index_by_code_other k [] d h = refl
lookup-index_by_code_other k (c ∷ cs) d h =
    lookup-index_by_code_other k cs (insert c.component_code c d) (ground arith)
    ∙ lookup-insert c.component_code k c d
    ∙ ground arith

lookup-index_by_code :
    (cs : List ResolvedComponent) (d : ByCode)
    → Distinct (codes cs)
    → All (λ c. lookup c.component_code (index_by_code cs d) ≡ some c) cs
unfolding index_by_code
lookup-index_by_code [] d u = tt
lookup-index_by_code (c ∷ cs) d (fresh, u) = (
  lookup-index_by_code_other c.component_code cs (insert c.component_code c d) fresh
      ∙ lookup-insert c.component_code c.component_code c d
      ∙ rw (eq_refl c.component_code),
  lookup-index_by_code cs (insert c.component_code c d) u,
)

contains-index_by_code :
    (k : String) (cs : List ResolvedComponent) (d : ByCode)
    → contains k (index_by_code cs d) ≡ elem k (codes cs) || contains k d
unfolding index_by_code
contains-index_by_code k [] d = refl
contains-index_by_code k (c ∷ cs) d =
    contains-index_by_code k cs (insert c.component_code c d)
    ∙ ground (arith, lookup-insert c.component_code k c d)

module _ (by : ByCode) (keyed : IsKeyed by) (fuel : ℕ) (enough : length (keys by) < fuel) where
  visit_all-outcome :
      (cs : List ResolvedComponent) (st : Search)
      → All (λ c. lookup c.component_code by ≡ some c) cs
      → IsSearch by st
      → Visited by [] st (visit_all fuel by cs st) (codes cs) ⊎ Fails by (visit_all fuel by cs st)
  unfolding visit_all
  visit_all-outcome [] st a h = inl (st, refl, h, IsGrown-refl [] st, tt)
  visit_all-outcome (c ∷ cs) st (found, a) h =
      elim (visit-outcome by keyed fuel [] c st found h tt tt tt (omega arith)) [
        | inl (st1, e1, h1, g1, (here, _)) ↦
            subst
              (λ r.
                Visited by [] st (r >>= λ s. visit_all fuel by cs s) (c.component_code ∷ codes cs)
                ⊎ Fails by (r >>= λ s. visit_all fuel by cs s))
              (sym e1)
              (elim (visit_all-outcome cs st1 a h1) [
                | inl (st2, e2, h2, g2, all) ↦ inl (
                  st2,
                  e2,
                  h2,
                  IsGrown-trans [] st st1 st2 g1 g2,
                  ((λ k. g2.kept c.component_code (here k)), all),
                )
                | inr fails ↦ inr fails
              ])
        | inr (path, e, cycle) ↦ inr (path, ap (λ r. r >>= λ s. visit_all fuel by cs s) e, cycle)
      ]

contains_of_indexed :
    (by : ByCode) (cs : List ResolvedComponent) (d : String)
    → All (λ c. lookup c.component_code by ≡ some c) cs
    → elem d (codes cs) ≡ true
    → contains d by ≡ true
contains_of_indexed by [] d a m = cc
contains_of_indexed by (c ∷ cs) d (p, a) m = elim (Bool-cases (d == c.component_code)) [
  | inl same ↦
      subst (λ t. contains t by ≡ true) (sym ((eq_iff d c.component_code).0 same)) (ap is_some p)
  | inr other ↦ contains_of_indexed by cs d a (ground arith)
]

-- The result of a successful sort: the same codes, each once, every component as it was given, and behind
-- those of the same phase that it depends on.
pub record IsSorted (components out : List ResolvedComponent) : Type 0 where
  pub respects : Respects (index_by_code components []) [] out
  pub distinct : Distinct (codes out)
  pub complete : (d : String) → elem d (codes components) ≡ true → elem d (codes out) ≡ true
  pub only : (d : String) → elem d (codes out) ≡ true → elem d (codes components) ≡ true
  pub indexed : All (λ c. lookup c.component_code (index_by_code components []) ≡ some c) out

IsSorted-intro :
    (components : List ResolvedComponent) (st : Search)
    → Distinct (codes components)
    → IsSearch (index_by_code components []) st
    → All
        (λ d. contains d (index_by_code components []) ≡ true → elem d st.visited ≡ true)
        (codes components)
    → IsSorted components st.ordered
IsSorted-intro components st u h all =
    let by = index_by_code components [] in
    record {
      respects = h.respects;
      distinct = subst Distinct h.synced h.distinct;
      complete = λ d m. rw h.synced at (
          All_elim (λ x. contains x by ≡ true → elem x st.visited ≡ true) (codes components) d all m
            (contains-index_by_code d components [] ∙ rw m));
      only = λ d m.
          let there = contains_of_indexed by st.ordered d h.indexed m in
          ground (arith, contains-index_by_code d components []);
      indexed = h.indexed;
    }

-- On components with different codes the sort either returns an order of exactly these components in
-- which each stands behind its dependencies among them, or it raises the error that names a cycle of
-- dependencies; it never runs out of depth.
pub topological_sort_outcome :
    (components : List ResolvedComponent)
    → Distinct (codes components)
    → ((out : List ResolvedComponent) × (topological_sort components ≡ ok out)
        × IsSorted components out)
      ⊎ ((path : List String) × (topological_sort components ≡ err (cyclic_dependency path))
          × IsCycle (index_by_code components []) path)
unfolding topological_sort
topological_sort_outcome components u =
    let by = index_by_code components [] in
    let start : Search = record { visited = []; ordered = [] } in
    let fuel = suc (length by) in
    let keyed = index_by_code-IsKeyed components [] (λ d c e. cc) in
    elim (visit_all-outcome by keyed fuel (omega (arith, length-keys by)) components start
      (lookup-index_by_code components [] u)
      (record { synced = refl; distinct = tt; respects = tt; indexed = tt })) [
        | inl (st, e, h, g, all) ↦
            inl (
              st.ordered,
              ap (λ r. r >>= λ s. ok s.ordered) e,
              IsSorted-intro components st u h all,
            )
        | inr (path, e, cycle) ↦ inr (path, ap (λ r. r >>= λ s. ok s.ordered) e, cycle)
      ]

-- Where a number falls along every dependency, no path of needs returns to its start.
module _ (by : ByCode) (rank : String → ℕ)
    (falls : (a b : String) → Needs by a b → contains b by ≡ true → rank b < rank a) where
  path_contains :
      (a : String) (path : List String) (end : String)
      → IsPathTo by (a ∷ path) end
      → contains a by ≡ true
  path_contains a [] end (c, e, m) = ap is_some e
  path_contains a (b ∷ path) end ((c, e, m), later) = ap is_some e

  path_rank :
      (path : List String) (end : String)
      → contains end by ≡ true
      → IsPathTo by path end
      → All (λ a. rank end < rank a) path
  path_rank [] end h p = tt
  path_rank (a ∷ []) end h p = (falls a end p h, tt)
  path_rank (a ∷ b ∷ path) end h (here, later) =
      let rest = path_rank (b ∷ path) end h later in
      let step = falls a b here (path_contains b path end later) in
      (omega (arith, rest.0, step), rest)

  path_contains_end :
      (path : List String) (end : String)
      → IsPathTo by path end
      → elem end path ≡ true
      → contains end by ≡ true
  path_contains_end [] end p m = cc
  path_contains_end (a ∷ []) end p m =
      let same = (eq_iff end a).0 (ground arith) in
      subst (λ t. contains t by ≡ true) (sym same) (ap is_some p.1)
  path_contains_end (a ∷ b ∷ path) end (here, later) m = elim (Bool-cases (end == a)) [
    | inl same ↦ subst (λ t. contains t by ≡ true) (sym ((eq_iff end a).0 same)) (ap is_some here.1)
    | inr other ↦ path_contains_end (b ∷ path) end later (ground arith)
  ]

  no_cycle : (path : List String) → IsCycle by path → ⊥
  no_cycle path (front, end, e, p, m) =
      let higher =
        All_elim (λ a. rank end < rank a) front end
          (path_rank front end (path_contains_end front end p m) p) m in
      absurd (omega (arith, higher))

-- On components with different codes: if some number falls along every dependency among them, the sort
-- succeeds, with an order of exactly these components in which each stands behind its dependencies.
pub topological_sort_acyclic :
    (components : List ResolvedComponent) (rank : String → ℕ)
    → Distinct (codes components)
    → ((a b : String)
        → Needs (index_by_code components []) a b
        → contains b (index_by_code components []) ≡ true
        → rank b < rank a)
    → (out : List ResolvedComponent) × (topological_sort components ≡ ok out)
      × IsSorted components out
topological_sort_acyclic components rank u falls = elim (topological_sort_outcome components u) [
  | inl done ↦ done
  | inr (path, e, cycle) ↦ absurd (no_cycle (index_by_code components []) rank falls path cycle)
]
