-- ===== src/Payroll/Rules/Plan/Build.antt =====
-- What `build` promises of the plan that it returns.
use mathlib.Core.Path.{subst}
use erp_agent.Prelude.{
  ℕ, suc, ◌≤◌, ◌<◌, String, ◌≡◌, refl, sym, ap, ◌∙◌, true, false, ◌||◌, some, List, [], ◌∷◌, ◌++◌,
  arith, inl, inr, Bool-cases, Option-cases, is_some, All, All-map, All-append, All-elem, elem,
  elem-append, Distinct, length, append-nil, contains,
}
use erp_agent.Payroll.Rules.{Phase, phase_rank, phase_eq}
use erp_agent.Payroll.Rules.Resolver.{ResolvedComponent}
use erp_agent.Payroll.Rules.Sort.{index_by_code}
use erp_agent.Payroll.Rules.Sort.Outcome.{codes}
use erp_agent.Payroll.Rules.Sort.Order.{IsSorted}
use erp_agent.Payroll.Rules.Plan.{PlanStep, step_of, of_phase}
use erp_agent.Payroll.Rules.Plan.Find.{
  find, find-code, elem-codes, lookup-index_by_code, find-keep_complete, find-keep_sound,
  Distinct-codes-keep,
}
use erp_agent.Payroll.Rules.Plan.Steps.{
  step_codes, step_codes-append, number, IsNumbered, IsPhased, IsReady, step_codes-number,
  number-IsNumbered, number-IsPhased, number-IsReady, number-phase, IsNumbered-append,
  IsPhased-append, IsReady-append, Distinct-append,
}

-- The step carries the component's data.
pub record HasDataOf (c : ResolvedComponent) (s : PlanStep) : Type 0 where
  pub code : s.component_code ≡ c.component_code
  pub phase : s.phase ≡ c.phase
  pub primitive : s.primitive_name ≡ c.primitive
  pub parameters : s.parameters ≡ c.parameters
  pub inputs_required : s.inputs_required ≡ c.inputs_required
  pub citations : s.citations ≡ c.citations

-- The step is the component of the stack that has its code.
abbrev pub IsStepOf : List ResolvedComponent → PlanStep → Type 0
IsStepOf comps s = (c : ResolvedComponent) × (find s.component_code comps ≡ some c) × HasDataOf c s

-- The plan of the phases below `b`.
pub record IsPlanned (comps : List ResolvedComponent) (b : ℕ) (steps : List PlanStep) : Type 0 where
  pub numbered : IsNumbered 0 steps
  pub phased : IsPhased 0 steps
  pub below : All (λ s. phase_rank s.phase < b) steps
  pub distinct : Distinct (step_codes steps)
  pub complete :
      (c : ResolvedComponent)
      → find c.component_code comps ≡ some c
      → phase_rank c.phase < b
      → elem c.component_code (step_codes steps) ≡ true
  pub faithful : All (IsStepOf comps) steps

-- No component needs one of a later phase, and all that it needs is there.
abbrev pub NeedsNoLater : List ResolvedComponent → Type 0
NeedsNoLater comps =
    (c : ResolvedComponent) (d : String)
    → find c.component_code comps ≡ some c
    → elem d c.inputs_required ≡ true
    → (cd : ResolvedComponent) × (find d comps ≡ some cd)
      × (phase_rank cd.phase ≤ phase_rank c.phase)

pub some_eq : (a b : ResolvedComponent) → some a ≡ some b → a ≡ b
some_eq a b h = cc

module _ (comps : List ResolvedComponent) (u : Distinct (codes comps)) (phase : Phase) where
  -- A component of the sorted phase is the stack's, and has the phase.
  sorted_find :
      (out : List ResolvedComponent)
      → IsSorted (of_phase phase comps) out
      → All (λ c. (find c.component_code comps ≡ some c) × (c.phase ≡ phase)) out
  sorted_find out h =
      All-map
        (λ c e.
          let (found, same) =
            find-keep_sound (λ x. phase_eq x.phase phase) c.component_code c comps u
              (sym (
                  lookup-index_by_code c.component_code (of_phase phase comps)
                    (Distinct-codes-keep (λ x. phase_eq x.phase phase) comps u))
                ∙ e) in
          (found, phase_of_rank c.phase phase (ground arith)))
        out h.indexed
    where
      phase_of_rank : (a b : Phase) → phase_rank a ≡ phase_rank b → a ≡ b
      phase_of_rank a b e = ground arith

  -- The codes of this phase are none of an earlier one.
  fresh_codes :
      (b : ℕ) (out : List ResolvedComponent)
      → IsSorted (of_phase phase comps) out
      → phase_rank phase ≡ b
      → (steps : List PlanStep) → All (λ s. phase_rank s.phase < b) steps
      → All (IsStepOf comps) steps
      → All (λ x. elem x (codes out) ≡ false) (step_codes steps)
  unfolding step_of
  fresh_codes b out h e [] l f = tt
  fresh_codes b out h e (s ∷ ss) (lt, l) ((c, found, same), f) = (
    elim (Bool-cases (elem s.component_code (codes out))) [
      | inl there ↦ absurd (clash there)
      | inr new ↦ new
    ],
    fresh_codes b out h e ss l f,
  )
    where
      clash : elem s.component_code (codes out) ≡ true → ⊥
      clash there =
          let member = h.only s.component_code there in
          elim (Option-cases (find s.component_code (of_phase phase comps))) [
            | inl absent ↦ cc (
                sym member ∙ elem-codes s.component_code (of_phase phase comps) ∙ ap is_some absent)
            | inr (c', found') ↦
                let (f', pe) =
                  find-keep_sound (λ x. phase_eq x.phase phase) s.component_code c' comps u
                    found' in
                let sp : phase_rank s.phase ≡ phase_rank c.phase = ap phase_rank same.phase in
                let cp : phase_rank c.phase ≡ phase_rank c'.phase =
                  ap (λ t. phase_rank t.phase) (some_eq c c' (sym found ∙ f')) in
                ground (arith, sp, cp, pe)
          ]

  number-IsStepOf :
      (n : ℕ) (cs : List ResolvedComponent)
      → All (λ c. (find c.component_code comps ≡ some c) × (c.phase ≡ phase)) cs
      → All (IsStepOf comps) (number n phase cs)
  unfolding number step_of
  number-IsStepOf n [] h = tt
  number-IsStepOf n (c ∷ cs) ((found, e), h) = (
    (
      c,
      found,
      record {
        code = refl;
        phase = sym e;
        primitive = refl;
        parameters = refl;
        inputs_required = refl;
        citations = refl;
      },
    ),
    number-IsStepOf (suc n) cs h,
  )

  module _ (b : ℕ) (steps : List PlanStep) (h : IsPlanned comps b steps) (e : phase_rank phase ≡ b)
      (out : List ResolvedComponent) (sorted : IsSorted (of_phase phase comps) out) where
    abbrev pub added : List PlanStep
    added = number (length steps) phase out

    completes :
        (c : ResolvedComponent)
        → find c.component_code comps ≡ some c
        → phase_rank c.phase < suc b
        → elem c.component_code (step_codes steps) || elem c.component_code (codes out) ≡ true
    completes c found lt = elim (Bool-cases (phase_eq c.phase phase)) [
      | inl here ↦
          let member =
            elem-codes c.component_code (of_phase phase comps)
            ∙ ap is_some (
                find-keep_complete (λ x. phase_eq x.phase phase) c.component_code c comps found
                  here) in
          ground (arith, sorted.complete c.component_code member)
      | inr other ↦ ground (arith, h.complete c found (ground arith))
    ]

    pub added-IsPlanned : IsPlanned comps (suc b) (steps ++ added)
    added-IsPlanned = record {
      numbered = IsNumbered-append 0 steps added h.numbered (
          subst (λ m. IsNumbered m added) (omega arith)
            (number-IsNumbered phase (length steps) out));
      phased =
          IsPhased-append 0 b steps added (omega arith) h.phased
            (All-map (λ s l. omega arith) steps h.below)
            (subst (λ m. IsPhased m added) e (number-IsPhased phase (length steps) out));
      below = All-append _ steps added (All-map (λ s l. omega arith) steps h.below) (
          All-map (λ s q. omega (arith, ap phase_rank q)) added
            (number-phase phase (length steps) out));
      distinct =
          rw (step_codes-append steps added, step_codes-number phase (length steps) out)
            (Distinct-append (step_codes steps) (codes out) h.distinct sorted.distinct
              (fresh_codes b out sorted e steps h.below h.faithful));
      complete = λ c found lt.
          rw (step_codes-append steps added, step_codes-number phase (length steps) out)
            (elem-append c.component_code (step_codes steps) (codes out) ∙ completes c found lt);
      faithful =
          All-append (IsStepOf comps) steps added h.faithful
            (number-IsStepOf (length steps) out (sorted_find out sorted));
    }

    outside_inputs :
        NeedsNoLater comps
        → All
            (λ c.
              All
                (λ d.
                  contains d (index_by_code (of_phase phase comps) []) ≡ false
                  → elem d (step_codes steps) ≡ true)
                c.inputs_required)
            out
    outside_inputs needs =
        All-map
          (λ c (found, ph).
            All-elem c.inputs_required λ d m outside. earlier c d ph outside (needs c d found m))
          out (sorted_find out sorted)
      where
        earlier :
            (c : ResolvedComponent) (d : String)
            → c.phase ≡ phase
            → contains d (index_by_code (of_phase phase comps) []) ≡ false
            → (cd : ResolvedComponent) × (find d comps ≡ some cd)
              × (phase_rank cd.phase ≤ phase_rank c.phase)
            → elem d (step_codes steps) ≡ true
        earlier c d ph outside (cd, found, le) = elim (Bool-cases (phase_eq cd.phase phase)) [
          | inl here ↦
              let inside =
                lookup-index_by_code d (of_phase phase comps)
                  (Distinct-codes-keep (λ x. phase_eq x.phase phase) comps u)
                ∙ find-keep_complete (λ x. phase_eq x.phase phase) d cd comps found here in
              cc (sym outside ∙ ap is_some inside)
          | inr other ↦
              let same = find-code d cd comps found in
              let lower : phase_rank cd.phase < b = ground (arith, ap phase_rank ph, e) in
              subst (λ t. elem t (step_codes steps) ≡ true) same
                (h.complete cd (subst (λ t. find t comps ≡ some cd) (sym same) found) lower)
        ]

    pub added-IsReady : NeedsNoLater comps → IsReady [] steps → IsReady [] (steps ++ added)
    added-IsReady needs r = IsReady-append [] steps added r (
        subst (λ t. IsReady t added) (append-nil (step_codes steps))
          (number-IsReady phase (index_by_code (of_phase phase comps) []) (step_codes steps) []
            (length steps) out sorted.respects (outside_inputs needs)))
