-- ===== src/Payroll/Rules/Plan/Steps.antt =====
-- The steps of one phase: their numbers, their codes and the order of their inputs.
use mathlib.Core.Path.{subst}
use erp_agent.Prelude.{
  ℕ, suc, ◌+◌, ◌≤◌, String, ◌≡◌, refl, sym, ap, ◌∙◌, true, false, List, [], ◌∷◌, ◌++◌, arith, All,
  elem, elem-append, Distinct, length, length-append, append_assoc, append-nil, contains,
}
use erp_agent.Payroll.Rules.{Phase, phase_rank}
use erp_agent.Payroll.Rules.Resolver.{ResolvedComponent}
use erp_agent.Payroll.Rules.Sort.{ByCode}
use erp_agent.Payroll.Rules.Sort.Outcome.{codes, Respects}
use erp_agent.Payroll.Rules.Plan.{PlanStep, step_of, append_steps}

abbrev pub step_codes : List PlanStep → List String
step_codes [] = []
step_codes (s ∷ ss) = s.component_code ∷ step_codes ss

pub step_codes-append :
    (xs ys : List PlanStep) → step_codes (xs ++ ys) ≡ step_codes xs ++ step_codes ys
step_codes-append [] ys = refl
step_codes-append (x ∷ xs) ys = ap (λ t. x.component_code ∷ t) (step_codes-append xs ys)

-- The steps of a sorted phase, numbered from `n`.
unfoldable pub number : ℕ → Phase → List ResolvedComponent → List PlanStep
number n phase [] = []
number n phase (c ∷ cs) = step_of n phase c ∷ number (suc n) phase cs

pub append_steps-eq-number :
    (phase : Phase) (cs : List ResolvedComponent) (steps : List PlanStep)
    → append_steps phase cs steps ≡ steps ++ number (length steps) phase cs
unfolding append_steps number
append_steps-eq-number phase [] steps = sym (append-nil steps)
append_steps-eq-number phase (c ∷ cs) steps =
    let step = step_of (length steps) phase c in
    let next : length (steps ++ step ∷ []) ≡ suc (length steps) =
      omega (arith, length-append steps (step ∷ [])) in
    append_steps-eq-number phase cs (steps ++ step ∷ [])
    ∙ append_assoc steps (step ∷ []) (number (length (steps ++ step ∷ [])) phase cs)
    ∙ ap (λ n. steps ++ (step ∷ number n phase cs)) next

-- The indexes count up from `n`.
abbrev pub IsNumbered : ℕ → List PlanStep → Type 0
IsNumbered n [] = Unit
IsNumbered n (s ∷ ss) = (s.index ≡ n) × IsNumbered (suc n) ss

-- The phases never go back, and start at `b` or later.
abbrev pub IsPhased : ℕ → List PlanStep → Type 0
IsPhased b [] = Unit
IsPhased b (s ∷ ss) = (b ≤ phase_rank s.phase) × IsPhased (phase_rank s.phase) ss

-- Every input of a step is the code of an earlier step, or in `done`.
abbrev pub IsReady : List String → List PlanStep → Type 0
IsReady done [] = Unit
IsReady done (s ∷ ss) =
    All (λ d. elem d done ≡ true) s.inputs_required × IsReady (done ++ s.component_code ∷ []) ss

module _ (phase : Phase) where
  pub step_codes-number :
      (n : ℕ) (cs : List ResolvedComponent) → step_codes (number n phase cs) ≡ codes cs
  unfolding number step_of
  step_codes-number n [] = refl
  step_codes-number n (c ∷ cs) = ap (λ t. c.component_code ∷ t) (step_codes-number (suc n) cs)

  pub number-IsNumbered : (n : ℕ) (cs : List ResolvedComponent) → IsNumbered n (number n phase cs)
  unfolding number step_of
  number-IsNumbered n [] = tt
  number-IsNumbered n (c ∷ cs) = (refl, number-IsNumbered (suc n) cs)

  pub number-IsPhased :
      (n : ℕ) (cs : List ResolvedComponent) → IsPhased (phase_rank phase) (number n phase cs)
  unfolding number step_of
  number-IsPhased n [] = tt
  number-IsPhased n (c ∷ cs) = (omega arith, number-IsPhased (suc n) cs)

  pub number-phase :
      (n : ℕ) (cs : List ResolvedComponent) → All (λ s. s.phase ≡ phase) (number n phase cs)
  unfolding number step_of
  number-phase n [] = tt
  number-phase n (c ∷ cs) = (refl, number-phase (suc n) cs)

  -- What the sort leaves open, inputs from outside the phase, must be in `before`.
  pub number-IsReady :
      (by : ByCode) (before done : List String) (n : ℕ) (cs : List ResolvedComponent)
      → Respects by done cs
      → All (λ c. All (λ d. contains d by ≡ false → elem d before ≡ true) c.inputs_required) cs
      → IsReady (before ++ done) (number n phase cs)
  unfolding number step_of
  number-IsReady by before done n [] r o = tt
  number-IsReady by before done n (c ∷ cs) (met, r) (out, o) = (
    met_inputs c.inputs_required met out,
    subst (λ t. IsReady t (number (suc n) phase cs))
        (sym (append_assoc before done (c.component_code ∷ [])))
        (number-IsReady by before (done ++ c.component_code ∷ []) (suc n) cs r o),
  )
    where
      met_inputs :
          (ds : List String)
          → All (λ d. contains d by ≡ true → elem d done ≡ true) ds
          → All (λ d. contains d by ≡ false → elem d before ≡ true) ds
          → All (λ d. elem d (before ++ done) ≡ true) ds
      met_inputs [] m k = tt
      met_inputs (d ∷ ds) (m, ms) (k, ks) =
          (ground (arith, elem-append d before done), met_inputs ds ms ks)

pub IsNumbered-append :
    (n : ℕ) (xs ys : List PlanStep)
    → IsNumbered n xs
    → IsNumbered (n + length xs) ys
    → IsNumbered n (xs ++ ys)
IsNumbered-append n [] ys h k = subst (λ m. IsNumbered m ys) (omega arith) k
IsNumbered-append n (x ∷ xs) ys (e, h) k =
    (e, IsNumbered-append (suc n) xs ys h (subst (λ m. IsNumbered m ys) (omega arith) k))

pub IsPhased-append :
    (b r : ℕ) (xs ys : List PlanStep)
    → b ≤ r
    → IsPhased b xs
    → All (λ s. phase_rank s.phase ≤ r) xs
    → IsPhased r ys
    → IsPhased b (xs ++ ys)
IsPhased-append b r [] [] le h a k = tt
IsPhased-append b r [] (y ∷ ys) le h a (k, ks) = (omega arith, ks)
IsPhased-append b r (x ∷ xs) ys le (e, h) (f, a) k =
    (e, IsPhased-append (phase_rank x.phase) r xs ys f h a k)

pub IsReady-append :
    (done : List String) (xs ys : List PlanStep)
    → IsReady done xs
    → IsReady (done ++ step_codes xs) ys
    → IsReady done (xs ++ ys)
IsReady-append done [] ys h k = subst (λ t. IsReady t ys) (append-nil done) k
IsReady-append done (x ∷ xs) ys (e, h) k = (
  e,
  IsReady-append (done ++ x.component_code ∷ []) xs ys h (
      subst (λ t. IsReady t ys) (sym (append_assoc done (x.component_code ∷ []) (step_codes xs)))
        k),
)

pub Distinct-append :
    (xs ys : List String)
    → Distinct xs
    → Distinct ys
    → All (λ x. elem x ys ≡ false) xs
    → Distinct (xs ++ ys)
Distinct-append [] ys u v a = v
Distinct-append (x ∷ xs) ys (e, u) v (n, a) =
    (ground (arith, elem-append x xs ys), Distinct-append xs ys u v a)
