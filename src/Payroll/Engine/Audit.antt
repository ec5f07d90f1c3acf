-- ===== src/Payroll/Engine/Audit.antt =====
-- logic/payroll/engine/audit.py: which citation of a merge chain an audit entry names.
use erp_agent.Prelude.{
  ℕ, ◌≤◌, ◌<◌, ◌≡◌, refl, sym, ◌∙◌, ap, List, [], ◌∷◌, ◌++◌, arith, ltb, if◌then◌else◌, Bool-cases,
  inl, inr, All, All-snoc, All-append, All-map, append-nil, append_assoc, ◌⊎◌, Result, ok, err,
}
use mathlib.Core.Path.{subst}
use erp_agent.Payroll.Errors.{PayrollError, value_error}
use erp_agent.Payroll.Schemas.{Layer, statutory, cct, company, contract, RuleCitation}

-- `_LAYER_PRIORITY`
abbrev pub layer_priority : Layer → ℕ
layer_priority statutory = 0
layer_priority cct = 1
layer_priority company = 2
layer_priority contract = 3

abbrev pub priority : RuleCitation → ℕ
priority c = layer_priority c.layer

-- Python's `max(…, key=…)`: a later item replaces the best one only if its key is larger.
unfoldable pub max_by_priority : RuleCitation → List RuleCitation → RuleCitation
max_by_priority best [] = best
max_by_priority best (c ∷ cs) =
    max_by_priority (if ltb (priority best) (priority c) then c else best) cs

unfoldable pub select_primary_citation : List RuleCitation → Result PayrollError RuleCitation
select_primary_citation [] = err value_error
select_primary_citation (c ∷ cs) = ok (max_by_priority c cs)

-- `best` is the first of the highest priority.
abbrev pub IsFirstHighest : RuleCitation → List RuleCitation → Type 0
IsFirstHighest best cs =
    (front : List RuleCitation) × (back : List RuleCitation) × (cs ≡ front ++ best ∷ back)
    × All (λ c. priority c < priority best) front
    × All (λ c. priority c ≤ priority best) back

max_by_priority-IsFirstHighest :
    (all front between : List RuleCitation) (best : RuleCitation) (cs : List RuleCitation)
    → all ≡ front ++ (best ∷ (between ++ cs))
    → All (λ c. priority c < priority best) front
    → All (λ c. priority c ≤ priority best) between
    → IsFirstHighest (max_by_priority best cs) all
unfolding max_by_priority
max_by_priority-IsFirstHighest all front between best [] e f b =
    (front, between ++ [], e, f, rw (append-nil between) b)
max_by_priority-IsFirstHighest all front between best (c ∷ cs) e f b =
    elim (Bool-cases (ltb (priority best) (priority c))) [
      | inl higher ↦
          let lt : priority best < priority c = ground arith in
          subst (λ t. IsFirstHighest (max_by_priority (if t then c else best) cs) all) (sym higher)
            (max_by_priority-IsFirstHighest all (front ++ (best ∷ between)) [] c cs
              (e ∙ sym (append_assoc front (best ∷ between) (c ∷ cs)))
              (All-append (λ d. priority d < priority c) front (best ∷ between)
                (All-map (λ d h. omega arith) front f) (lt, All-map (λ d h. omega arith) between b))
              tt)
      | inr lower ↦
          let le : priority c ≤ priority best = ground arith in
          subst (λ t. IsFirstHighest (max_by_priority (if t then c else best) cs) all) (sym lower)
            (max_by_priority-IsFirstHighest all front (between ++ c ∷ []) best cs
              (rw (append_assoc between (c ∷ []) cs) e) f
              (All-snoc (λ d. priority d ≤ priority best) between b le))
    ]

-- On a non-empty list the selection succeeds with the first of the citations whose layer has the
-- highest priority: those before it have a lower one, and those after it no higher one. It fails on the
-- empty list.
pub select_primary_citation_first :
    (cs : List RuleCitation)
    → ((cs ≡ []) × (select_primary_citation cs ≡ err value_error))
      ⊎ ((best : RuleCitation) × (select_primary_citation cs ≡ ok best) × IsFirstHighest best cs)
unfolding select_primary_citation
select_primary_citation_first [] = inl (refl, refl)
select_primary_citation_first (c ∷ cs) =
    inr (max_by_priority c cs, refl, max_by_priority-IsFirstHighest (c ∷ cs) [] [] c cs refl tt tt)

max_by_priority-snoc :
    (best last : RuleCitation) (cs : List RuleCitation)
    → priority best < priority last
    → All (λ c. priority c < priority last) cs
    → max_by_priority best (cs ++ last ∷ []) ≡ last
unfolding max_by_priority
max_by_priority-snoc best last [] h a = ground arith
max_by_priority-snoc best last (c ∷ cs) h (p, a) =
    max_by_priority-snoc (if ltb (priority best) (priority c) then c else best) last cs
      (ground arith) a

-- A citation above all the others is selected where it stands last.
pub select_primary_citation-snoc :
    (front : List RuleCitation) (last : RuleCitation)
    → All (λ c. priority c < priority last) front
    → select_primary_citation (front ++ last ∷ []) ≡ ok last
unfolding select_primary_citation max_by_priority
select_primary_citation-snoc [] last a = refl
select_primary_citation-snoc (c ∷ cs) last (p, a) = ap ok (max_by_priority-snoc c last cs p a)
