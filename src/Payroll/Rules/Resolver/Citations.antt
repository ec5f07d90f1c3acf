-- ===== src/Payroll/Rules/Resolver/Citations.antt =====
-- The citations of a merged component, and the precedence of the higher layer.
use mathlib.Core.Path.{subst}
use erp_agent.Prelude.{
  ℕ, suc, ◌≤◌, ◌<◌, String, ◌≡◌, refl, sym, ◌∙◌, ap, false, Option, none, some, List, [], ◌∷◌, ◌++◌,
  arith, eq_iff, if◌then◌else◌, Bool-cases, inl, inr, Dict, lookup, keys, contains, update,
  Distinct, elem-keys, insert, lookup-insert, ok, >>=-eq-ok, ok-injective, All, All-map, All-append,
}
use erp_agent.Payroll.Schemas.{Layer, RuleCitation}
use erp_agent.Payroll.Engine.Audit.{
  layer_priority, priority, select_primary_citation, select_primary_citation-snoc,
}
use erp_agent.Payroll.Rules.{ComponentDecl}
use erp_agent.Payroll.Rules.Resolver.{
  ResolvedComponent, Resolved, merge_component, or_list, component_citation, LayerDoc,
  resolve_layers,
}
use erp_agent.Payroll.Rules.Resolver.Pointwise.{
  layer_effect, layer_effect-enabled, stack_effect, HasDistinctCodes, resolve_layers-lookup,
}

-- The layers stand in the order of their priority, none twice, and none below `b`.
abbrev pub IsAscending : ℕ → List LayerDoc → Type 0
IsAscending b [] = Unit
IsAscending b (l ∷ ls) =
    (b ≤ layer_priority l.layer) × IsAscending (suc (layer_priority l.layer)) ls

-- Each citation is of a higher layer than those before it.
abbrev pub IsRising : List RuleCitation → Type 0
IsRising [] = Unit
IsRising (x ∷ xs) = All (λ y. priority x < priority y) xs × IsRising xs

IsRising-snoc :
    (xs : List RuleCitation) (l : RuleCitation)
    → IsRising xs
    → All (λ x. priority x < priority l) xs
    → IsRising (xs ++ l ∷ [])
IsRising-snoc [] l r h = (tt, tt)
IsRising-snoc (x ∷ xs) l (above, r) (lt, h) =
    (All-append _ xs (l ∷ []) above (lt, tt), IsRising-snoc xs l r h)

-- The last citation stands above the others and below `b`.
abbrev pub IsCited : ℕ → ResolvedComponent → Type 0
IsCited b c =
    (front : List RuleCitation) × (last : RuleCitation) × (c.citations ≡ front ++ last ∷ [])
    × All (λ x. priority x < priority last) front
    × (priority last < b)
    × IsRising c.citations

abbrev IsCitedBelow : ℕ → Option ResolvedComponent → Type 0
IsCitedBelow b none = Unit
IsCitedBelow b (some c) = IsCited b c

IsCitedBelow-mono :
    (a b : ℕ) (o : Option ResolvedComponent) → a ≤ b → IsCitedBelow a o → IsCitedBelow b o
IsCitedBelow-mono a b none h p = tt
IsCitedBelow-mono a b (some c) h (front, last, e, f, lt, r) = (front, last, e, f, omega arith, r)

merge-IsCited :
    (b : ℕ) (below : Option ResolvedComponent) (d : ComponentDecl) (layer : Layer)
    (path code : String) (c : ResolvedComponent)
    → b ≤ layer_priority layer
    → IsCitedBelow b below
    → merge_component below d layer path code ≡ ok c
    → IsCited (suc (layer_priority layer)) c
unfolding merge_component component_citation
merge-IsCited b none d layer path code c le p h =
    let cited : c.citations ≡ component_citation layer path code ∷ [] = ground arith in
    (
      [],
      component_citation layer path code,
      cited,
      tt,
      omega arith,
      subst IsRising (sym cited) (tt, tt),
    )
merge-IsCited b (some lower) d layer path code c le (front, last, e, f, lt, r) h =
    let new = component_citation layer path code in
    let cited : c.citations ≡ lower.citations ++ new ∷ [] = ground arith in
    let below : All (λ x. priority x < priority new) lower.citations =
      subst (All (λ x. priority x < layer_priority layer)) (sym e)
        (All-append _ front (last ∷ []) (All-map (λ x q. omega arith) front f) (omega arith, tt)) in
    (
      lower.citations,
      new,
      cited,
      below,
      omega arith,
      subst IsRising (sym cited) (IsRising-snoc lower.citations new r below),
    )

layer_effect-IsCitedBelow :
    (b : ℕ) (layer : Layer) (path code : String) (decl : Option ComponentDecl)
    (below out : Option ResolvedComponent)
    → b ≤ layer_priority layer
    → IsCitedBelow b below
    → layer_effect layer path code decl below ≡ ok out
    → IsCitedBelow (suc (layer_priority layer)) out
layer_effect-IsCitedBelow b layer path code none below out le p h =
    subst (IsCitedBelow (suc (layer_priority layer))) (ok-injective h)
      (IsCitedBelow-mono b (suc (layer_priority layer)) below (omega arith) p)
layer_effect-IsCitedBelow b layer path code (some d) below out le p h =
    elim (Bool-cases d.disabled) [
      | inl off ↦
          let gone : out ≡ none = ground arith in
          subst (IsCitedBelow (suc (layer_priority layer))) (sym gone) tt
      | inr on ↦
          let (c, merged, e) = layer_effect-enabled layer path code d below out on h in
          subst (IsCitedBelow (suc (layer_priority layer))) (sym e)
            (merge-IsCited b below d layer path code c le p merged)
    ]

top : ℕ → List LayerDoc → ℕ
top b [] = b
top b (l ∷ ls) = top (suc (layer_priority l.layer)) ls

stack_effect-IsCitedBelow :
    (b : ℕ) (code : String) (layers : List LayerDoc) (below out : Option ResolvedComponent)
    → IsAscending b layers
    → IsCitedBelow b below
    → stack_effect code layers below ≡ ok out
    → IsCitedBelow (top b layers) out
unfolding top
stack_effect-IsCitedBelow b code [] below out a p h = subst (IsCitedBelow b) (ok-injective h) p
stack_effect-IsCitedBelow b code (l ∷ ls) below out (le, a) p h =
    let effect = layer_effect l.layer l.path code (lookup code l.document.components) below in
    let (mid, first, rest) = >>=-eq-ok effect _ h in
    stack_effect-IsCitedBelow (suc (layer_priority l.layer)) code ls mid out a
      (layer_effect-IsCitedBelow b l.layer l.path code (lookup code l.document.components) below mid
        le p first)
      rest

select_last :
    (b : ℕ) (c : ResolvedComponent)
    → IsCited b c
    → (front : List RuleCitation) × (last : RuleCitation) × (c.citations ≡ front ++ last ∷ [])
      × (select_primary_citation c.citations ≡ ok last)
      × IsRising c.citations
select_last b c (front, last, e, f, lt, r) =
    (front, last, e, ap select_primary_citation e ∙ select_primary_citation-snoc front last f, r)

-- Of layers that stand in ascending order, each once, and whose documents declare a code once: every
-- component of the resolved stack cites at least one layer, no layer twice and in ascending order, and the
-- selection of its primary citation succeeds with the last one, that of the highest layer it cites.
pub resolve_layers-cited :
    (layers : List LayerDoc) (r : Resolved) (code : String) (c : ResolvedComponent)
    → HasDistinctCodes layers
    → IsAscending 0 layers
    → resolve_layers layers [] ≡ ok r
    → lookup code r ≡ some c
    → (front : List RuleCitation) × (last : RuleCitation) × (c.citations ≡ front ++ last ∷ [])
      × (select_primary_citation c.citations ≡ ok last)
      × IsRising c.citations
resolve_layers-cited layers r code c u a h found =
    let out = lookup code r in
    select_last (top 0 layers) c (
      subst (IsCitedBelow (top 0 layers)) found (
        stack_effect-IsCitedBelow 0 code layers none out a tt
          (resolve_layers-lookup code layers [] r u h)))

-- `dict.update`: a key of the second dict has its value there, any other its value in the first.
lookup-update {ℓ} :
    {V : Type ℓ} (k : String) (lo hi : Dict V)
    → Distinct (keys hi)
    → lookup k (update lo hi) ≡ (if contains k hi then lookup k hi else lookup k lo)
lookup-update k lo [] u = refl
lookup-update k lo ((j, v) ∷ hi) (fresh, u) =
    let absent : contains j hi ≡ false = sym (elem-keys j hi) ∙ fresh in
    grind (arith, lookup-update k (insert j v lo) hi u, lookup-insert j k v lo, eq_iff k j)

-- In a merge of an unlocked component the parameters of the higher layer win, the others stay, and the
-- structure and the two flags are the lower layer's, whatever the higher one declares.
pub merge_component-precedence :
    (lower : ResolvedComponent) (d : ComponentDecl) (layer : Layer) (path code name : String)
    → lower.locked ≡ false
    → Distinct (keys d.parameters)
    → (c : ResolvedComponent) × (merge_component (some lower) d layer path code ≡ ok c)
      × (lookup name c.parameters ≡ (
          if contains name d.parameters
          then lookup name d.parameters
          else lookup name lower.parameters))
      × (c.type ≡ lower.type)
      × (c.phase ≡ lower.phase)
      × (c.primitive ≡ lower.primitive)
      × (c.taxable ≡ lower.taxable)
      × (c.subject_to_tsu ≡ lower.subject_to_tsu)
unfolding merge_component
merge_component-precedence lower d layer path code name l u = (
  record lower {
    component_code = code;
    parameters = update lower.parameters d.parameters;
    inputs_required = or_list d.inputs_required lower.inputs_required;
    citations = lower.citations ++ component_citation layer path code ∷ [];
  },
  ground arith,
  lookup-update name lower.parameters d.parameters u,
  refl,
  refl,
  refl,
  refl,
  refl,
)
