-- ===== src/Payroll/Rules/Plan/Find.antt =====
-- The component of a code in a list, and how it survives the choice of a phase and the index by code.
use erp_agent.Prelude.{
  String, ◌≡◌, refl, ◌∙◌, Bool, true, false, Option, none, some, List, [], ◌∷◌, arith, ◌==◌, eq_iff,
  eq_refl, if◌then◌else◌, is_some, All, All-map, keep, elem, Distinct, lookup, insert,
  lookup-insert,
}
use erp_agent.Payroll.Rules.Resolver.{ResolvedComponent}
use erp_agent.Payroll.Rules.Sort.{ByCode, index_by_code}
use erp_agent.Payroll.Rules.Sort.Outcome.{codes}

abbrev pub find : String → List ResolvedComponent → Option ResolvedComponent
find k [] = none
find k (c ∷ cs) = if k == c.component_code then some c else find k cs

pub elem-codes :
    (k : String) (cs : List ResolvedComponent) → elem k (codes cs) ≡ is_some (find k cs)
elem-codes k [] = refl
elem-codes k (c ∷ cs) = ground (arith, elem-codes k cs)

abbrev or_else : Option ResolvedComponent → Option ResolvedComponent → Option ResolvedComponent
or_else none o = o
or_else (some c) o = some c

lookup-index :
    (k : String) (cs : List ResolvedComponent) (d : ByCode)
    → Distinct (codes cs)
    → lookup k (index_by_code cs d) ≡ or_else (find k cs) (lookup k d)
unfolding index_by_code
lookup-index k [] d u = refl
lookup-index k (c ∷ cs) d (fresh, u) =
    lookup-index k cs (insert c.component_code c d) u
    ∙ ground (
      arith,
      lookup-insert c.component_code k c d,
      elem-codes c.component_code cs,
      eq_iff k c.component_code,
    )

pub find-code :
    (k : String) (c : ResolvedComponent) (cs : List ResolvedComponent)
    → find k cs ≡ some c
    → c.component_code ≡ k
find-code k c [] h = cc
find-code k c (x ∷ cs) h = ground (arith, find-code k c cs, eq_iff k x.component_code)

-- With different codes the index by code holds the component that stands under it in the list.
pub lookup-index_by_code :
    (k : String) (cs : List ResolvedComponent)
    → Distinct (codes cs)
    → lookup k (index_by_code cs []) ≡ find k cs
lookup-index_by_code k cs u = lookup-index k cs [] u ∙ ground arith

module _ (p : ResolvedComponent → Bool) where
  pub find-keep_complete :
      (k : String) (c : ResolvedComponent) (cs : List ResolvedComponent)
      → find k cs ≡ some c
      → p c ≡ true
      → find k (keep p cs) ≡ some c
  find-keep_complete k c [] h e = cc
  find-keep_complete k c (x ∷ cs) h e = ground (arith, find-keep_complete k c cs)

  pub find-keep_sound :
      (k : String) (c : ResolvedComponent) (cs : List ResolvedComponent)
      → Distinct (codes cs)
      → find k (keep p cs) ≡ some c
      → (find k cs ≡ some c) × (p c ≡ true)
  find-keep_sound k c [] u h = cc
  find-keep_sound k c (x ∷ cs) (fresh, u) h =
      ground
        (arith, find-keep_sound k c cs u, elem-codes x.component_code cs, eq_iff k x.component_code)

  elem-codes-keep :
      (k : String) (cs : List ResolvedComponent)
      → elem k (codes cs) ≡ false
      → elem k (codes (keep p cs)) ≡ false
  elem-codes-keep k [] h = refl
  elem-codes-keep k (x ∷ cs) h = ground (arith, elem-codes-keep k cs)

  pub Distinct-codes-keep :
      (cs : List ResolvedComponent) → Distinct (codes cs) → Distinct (codes (keep p cs))
  Distinct-codes-keep [] u = tt
  Distinct-codes-keep (x ∷ cs) (fresh, u) =
      ground (arith, elem-codes-keep x.component_code cs fresh, Distinct-codes-keep cs u)

-- A component is found under its own code.
pub find_self :
    (cs : List ResolvedComponent)
    → Distinct (codes cs)
    → All (λ c. find c.component_code cs ≡ some c) cs
find_self [] u = tt
find_self (c ∷ cs) (fresh, u) = (
  rw (eq_refl c.component_code),
  All-map
      (λ x h.
        ground (arith, elem-codes x.component_code cs, eq_iff x.component_code c.component_code))
      cs (find_self cs u),
)
