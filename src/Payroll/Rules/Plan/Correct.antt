-- ===== src/Payroll/Rules/Plan/Correct.antt =====
-- What `build` checks and what the plan that it returns is.
use mathlib.Core.Path.{subst}
use erp_agent.Prelude.{
  ℕ, suc, ◌≤◌, ◌<◌, String, ◌≡◌, refl, sym, ap, ◌∙◌, true, not, some, List, [], ◌∷◌, arith, ◌==◌,
  if◌then◌else◌, inl, inr, Bool-cases, Option-cases, is_some, is_empty, All, All_elim, elem,
  Distinct, lookup, keys, values, ok, ◌>>=◌, >>=-eq-ok, ok-injective, raise_if, or_raise,
  or_raise-eq-ok,
}
use erp_agent.Payroll.Errors.{unresolved_dependency, unknown_primitive}
use erp_agent.Payroll.Rounding.{RoundingPolicy}
use erp_agent.Payroll.Rules.{Phase, phase_rank}
use erp_agent.Payroll.Rules.Resolver.{ResolvedComponent, RuleStackSnapshot}
use erp_agent.Payroll.Rules.Sort.{topological_sort}
use erp_agent.Payroll.Rules.Sort.Outcome.{codes}
use erp_agent.Payroll.Rules.Sort.Order.{topological_sort_outcome}
use erp_agent.Payroll.Rules.Plan.{
  PlanStep, CalculationPlan, phase_order, append_steps, of_phase, phase_steps, build_steps,
  check_inputs, check_component, check_components, build,
}
use erp_agent.Payroll.Rules.Plan.Find.{find, find-code, elem-codes, Distinct-codes-keep}
use erp_agent.Payroll.Rules.Plan.Steps.{
  step_codes, append_steps-eq-number, IsNumbered, IsPhased, IsReady,
}
use erp_agent.Payroll.Rules.Plan.Build.{
  IsStepOf, IsPlanned, NeedsNoLater, added-IsPlanned, added-IsReady, some_eq,
}
use erp_agent.Payroll.Primitives.{Primitive, PrimitiveRegistry}

-- What `build` has checked of a component.
pub record IsChecked (registry : PrimitiveRegistry) (all_codes : List String)
    (c : ResolvedComponent) : Type 0 where
  pub inputs : All (λ d. elem d all_codes ≡ true) c.inputs_required
  pub primitive : Primitive
  pub registered : lookup c.primitive registry ≡ some primitive
  pub valid : primitive.parameters_valid c.parameters ≡ true

check_inputs-eq-ok :
    (all_codes : List String) (code : String) (deps : List String)
    → check_inputs all_codes code deps ≡ ok tt
    → All (λ d. elem d all_codes ≡ true) deps
unfolding check_inputs
check_inputs-eq-ok all_codes code [] h = tt
check_inputs-eq-ok all_codes code (d ∷ ds) h =
    let (_, here, later) =
      >>=-eq-ok (raise_if (not (elem d all_codes)) (unresolved_dependency code d)) _ h in
    (ground arith, check_inputs-eq-ok all_codes code ds later)

check_component-eq-ok :
    (registry : PrimitiveRegistry) (all_codes : List String) (c : ResolvedComponent)
    → check_component registry all_codes c ≡ ok tt
    → IsChecked registry all_codes c
unfolding check_component
check_component-eq-ok registry all_codes c h =
    let (_, ins, rest) =
      >>=-eq-ok (check_inputs all_codes c.component_code c.inputs_required) _ h in
    let (p, found, last) =
      >>=-eq-ok (or_raise (lookup c.primitive registry) (unknown_primitive c.primitive)) _ rest in
    record {
      inputs = check_inputs-eq-ok all_codes c.component_code c.inputs_required ins;
      primitive = p;
      registered =
          or_raise-eq-ok (lookup c.primitive registry) (unknown_primitive c.primitive) p found;
      valid = ground arith;
    }

pub check_components-eq-ok :
    (registry : PrimitiveRegistry) (all_codes : List String) (cs : List ResolvedComponent)
    → check_components registry all_codes cs ≡ ok tt
    → All (IsChecked registry all_codes) cs
unfolding check_components
check_components-eq-ok registry all_codes [] h = tt
check_components-eq-ok registry all_codes (c ∷ cs) h =
    let (_, here, later) = >>=-eq-ok (check_component registry all_codes c) _ h in
    (
      check_component-eq-ok registry all_codes c here,
      check_components-eq-ok registry all_codes cs later,
    )

skip_empty :
    (phase : Phase) (cs : List ResolvedComponent) (steps : List PlanStep)
    → (if is_empty cs
        then ok steps
        else (topological_sort cs >>= λ s. ok (append_steps phase s steps)))
      ≡ (topological_sort cs >>= λ s. ok (append_steps phase s steps))
unfolding topological_sort append_steps
skip_empty phase [] steps = refl
skip_empty phase (c ∷ cs) steps = refl

module _ (comps : List ResolvedComponent) (u : Distinct (codes comps)) where
  phase_steps-IsPlanned :
      (b : ℕ) (phase : Phase) (steps steps' : List PlanStep)
      → phase_rank phase ≡ b
      → IsPlanned comps b steps
      → phase_steps phase comps steps ≡ ok steps'
      → IsPlanned comps (suc b) steps' × (NeedsNoLater comps → IsReady [] steps → IsReady [] steps')
  unfolding phase_steps
  phase_steps-IsPlanned b phase steps steps' e h run =
      let cs = of_phase phase comps in
      let (out, sorts, done) =
        >>=-eq-ok (topological_sort cs) _ (sym (skip_empty phase cs steps) ∙ run) in
      elim (topological_sort_outcome cs (Distinct-codes-keep _ comps u)) [
        | inl (out', sorts', sorted) ↦
            let same = ok-injective (sym sorts' ∙ sorts) in
            let whole =
              sym (append_steps-eq-number phase out' steps)
              ∙ ap (λ t. append_steps phase t steps) same
              ∙ ok-injective done in
            subst
              (λ t.
                IsPlanned comps (suc b) t × (NeedsNoLater comps → IsReady [] steps → IsReady [] t))
              whole
              (
                added-IsPlanned comps u phase b steps h e out' sorted,
                added-IsReady comps u phase b steps h e out' sorted,
              )
        | inr (path, fails, cycle) ↦ cc
      ]

  -- The phases that are left, from the one of rank `b` on.
  Continues : ℕ → List Phase → Type 0
  Continues b [] = b ≡ 6
  Continues b (p ∷ ps) = (phase_rank p ≡ b) × Continues (suc b) ps

  build_steps-IsPlanned :
      (b : ℕ) (phases : List Phase) (steps steps' : List PlanStep)
      → Continues b phases
      → IsPlanned comps b steps
      → build_steps phases comps steps ≡ ok steps'
      → IsPlanned comps 6 steps' × (NeedsNoLater comps → IsReady [] steps → IsReady [] steps')
  unfolding build_steps Continues
  build_steps-IsPlanned b [] steps steps' e h run =
      let same = ok-injective run in
      subst (λ t. IsPlanned comps 6 t × (NeedsNoLater comps → IsReady [] steps → IsReady [] t)) same
        (subst (λ n. IsPlanned comps n steps) e h, (λ n r. r))
  build_steps-IsPlanned b (p ∷ ps) steps steps' (e, es) h run =
      let (mid, first, later) = >>=-eq-ok (phase_steps p comps steps) _ run in
      let (h1, r1) = phase_steps-IsPlanned b p steps mid e h first in
      let (h2, r2) = build_steps-IsPlanned (suc b) ps mid steps' es h1 later in
      (h2, λ n r. r2 n (r1 n r))

  start-IsPlanned : IsPlanned comps 0 []
  start-IsPlanned = record {
    numbered = tt;
    phased = tt;
    below = tt;
    distinct = tt;
    complete = λ c f lt. elim lt [ ];
    faithful = tt;
  }

  pub all_steps-IsPlanned :
      (steps : List PlanStep)
      → build_steps phase_order comps [] ≡ ok steps
      → IsPlanned comps 6 steps × (NeedsNoLater comps → IsReady [] steps)
  unfolding Continues
  all_steps-IsPlanned steps run =
      let (h, r) =
        build_steps-IsPlanned 0 phase_order [] steps
          (refl, (refl, (refl, (refl, (refl, (refl, refl)))))) start-IsPlanned run in
      (h, λ n. r n tt)

-- The snapshot's dict has different keys, and each holds the component of that code.
abbrev pub IsWellKeyed : RuleStackSnapshot → Type 0
IsWellKeyed s =
    Distinct (keys s.resolved_components)
    × (codes (values s.resolved_components) ≡ keys s.resolved_components)

-- A plan of the components: steps numbered from zero, phases in order, no code twice, each step with the
-- data of the component of its code, and a step for every component.
pub record IsPlan (comps : List ResolvedComponent) (steps : List PlanStep) : Type 0 where
  pub numbered : IsNumbered 0 steps
  pub phased : IsPhased 0 steps
  pub distinct : Distinct (step_codes steps)
  pub faithful : All (IsStepOf comps) steps
  pub complete :
      (code : String) → elem code (codes comps) ≡ true → elem code (step_codes steps) ≡ true

phase_rank-lt : (p : Phase) → phase_rank p < 6
phase_rank-lt p = ground arith

IsPlan-intro :
    (comps : List ResolvedComponent) (steps : List PlanStep)
    → IsPlanned comps 6 steps
    → IsPlan comps steps
IsPlan-intro comps steps h = record {
  numbered = h.numbered;
  phased = h.phased;
  distinct = h.distinct;
  faithful = h.faithful;
  complete = λ code m. elim (Option-cases (find code comps)) [
    | inl absent ↦ cc (sym m ∙ elem-codes code comps ∙ ap is_some absent)
    | inr (c, found) ↦
        let same = find-code code c comps found in
        subst (λ t. elem t (step_codes steps) ≡ true) same
          (h.complete c (subst (λ t. find t comps ≡ some c) (sym same) found)
            (phase_rank-lt c.phase))
  ];
}

pub All_of_find :
    (P : ResolvedComponent → Type 0) (k : String) (c : ResolvedComponent)
    (cs : List ResolvedComponent)
    → All P cs
    → find k cs ≡ some c
    → P c
All_of_find P k c [] a h = cc
All_of_find P k c (x ∷ cs) (p, a) h = elim (Bool-cases (k == x.component_code)) [
  | inl same ↦ subst P (some_eq x c (ground arith)) p
  | inr other ↦ All_of_find P k c cs a (ground arith)
]

module _ (registry : PrimitiveRegistry) (snapshot : RuleStackSnapshot)
    (employee_id contract_id period_id company_id : String) (policy : RoundingPolicy)
    (plan : CalculationPlan) (keyed : IsWellKeyed snapshot)
    (built : build registry snapshot employee_id contract_id period_id company_id policy
      ≡ ok plan) where
  build-parts :
      All
        (IsChecked registry (keys snapshot.resolved_components))
        (values snapshot.resolved_components)
      × IsPlanned (values snapshot.resolved_components) 6 plan.steps
      × (NeedsNoLater (values snapshot.resolved_components) → IsReady [] plan.steps)
  unfolding build
  build-parts =
      let comps = values snapshot.resolved_components in
      let (_, checks, rest) =
        >>=-eq-ok (check_components registry (keys snapshot.resolved_components) comps) _ built in
      let (steps, run, e) = >>=-eq-ok (build_steps phase_order comps []) _ rest in
      let same : steps ≡ plan.steps = ap (λ p. p.steps) (ok-injective e) in
      let u = subst Distinct (sym keyed.1) keyed.0 in
      let (h, r) = all_steps-IsPlanned comps u steps run in
      (
        check_components-eq-ok registry (keys snapshot.resolved_components) comps checks,
        subst (IsPlanned comps 6) same h,
        λ n. subst (IsReady []) same (r n),
      )

  -- Of a snapshot that holds components under their own codes, each once: a plan that `build` returns has a
  -- step for every component of the snapshot and for nothing else, each
  -- once and with that component's own data; the steps are numbered from zero, their phases never go back,
  -- and every component's inputs exist and its primitive is registered and accepts its parameters.
  pub build-IsPlan :
      IsPlan (values snapshot.resolved_components) plan.steps
      × All
          (IsChecked registry (keys snapshot.resolved_components))
          (values snapshot.resolved_components)
  build-IsPlan =
      let (checked, h, r) = build-parts in
      (IsPlan-intro (values snapshot.resolved_components) plan.steps h, checked)

  -- Where no component needs one of a later phase, every input of every step of the plan is produced by an
  -- earlier step.
  pub build-IsReady :
      ((c cd : ResolvedComponent) (d : String)
        → find c.component_code (values snapshot.resolved_components) ≡ some c
        → elem d c.inputs_required ≡ true
        → find d (values snapshot.resolved_components) ≡ some cd
        → phase_rank cd.phase ≤ phase_rank c.phase)
      → IsReady [] plan.steps
  build-IsReady ordered =
      let comps = values snapshot.resolved_components in
      let (checked, h, r) = build-parts in
      r λ c d found m.
        let here = All_of_find _ c.component_code c comps checked found in
        let member = All_elim _ c.inputs_required d here.inputs m in
        elim (Option-cases (find d comps)) [
          | inl absent ↦ cc (
              sym member
              ∙ ap (λ t. elem d t) (sym keyed.1)
              ∙ elem-codes d comps
              ∙ ap is_some absent)
          | inr (cd, there) ↦ (cd, there, ordered c cd d found m there)
        ]
