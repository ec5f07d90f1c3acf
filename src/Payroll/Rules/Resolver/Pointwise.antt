-- ===== src/Payroll/Rules/Resolver/Pointwise.antt =====
-- What the merge of the layers does to one component code, independent of all the others.
use erp_agent.Prelude.{
  String, ◌≡◌, refl, false, Option, none, some, List, [], ◌∷◌, arith, ◌==◌, eq_iff, eq_refl,
  if◌then◌else◌, Bool-cases, inl, inr, Dict, lookup, keys, Distinct, elem, elem-keys, lookup-insert,
  lookup-erase, Result, ok, err, ◌>>=◌, >>=-eq-ok, ok-injective, ap, sym, ◌∙◌,
}
use mathlib.Core.Path.{subst}
use erp_agent.Payroll.Errors.{PayrollError}
use erp_agent.Payroll.Schemas.{Layer}
use erp_agent.Payroll.Rules.{ComponentDecl}
use erp_agent.Payroll.Rules.Resolver.{
  ResolvedComponent, Resolved, merge_component, LayerDoc, resolve_decl, resolve_components,
  resolve_layers,
}

-- One layer's effect on one code, from the layer's declaration of it and what the layers below made of it.
abbrev pub layer_effect :
    Layer
    → String
    → String
    → Option ComponentDecl
    → Option ResolvedComponent
    → Result PayrollError (Option ResolvedComponent)
layer_effect layer path code none below = ok below
layer_effect layer path code (some decl) below =
    if decl.disabled
    then ok none
    else merge_component below decl layer path code >>= λ merged. ok (some merged)

abbrev pub stack_effect :
    String
    → List LayerDoc
    → Option ResolvedComponent
    → Result PayrollError (Option ResolvedComponent)
stack_effect code [] below = ok below
stack_effect code (l ∷ ls) below = do
  here ← layer_effect l.layer l.path code (lookup code l.document.components) below
  stack_effect code ls here

some_merged :
    (m : Result PayrollError ResolvedComponent) (out : Option ResolvedComponent)
    → (m >>= λ merged. ok (some merged)) ≡ ok out
    → (c : ResolvedComponent) × (m ≡ ok c) × (out ≡ some c)
some_merged (ok c) out h = (c, refl, sym (ok-injective h))
some_merged (err e) out h = cc

-- A declaration that is not disabled has the merged component as its effect.
pub layer_effect-enabled :
    (layer : Layer) (path code : String) (d : ComponentDecl) (below out : Option ResolvedComponent)
    → d.disabled ≡ false
    → layer_effect layer path code (some d) below ≡ ok out
    → (c : ResolvedComponent) × (merge_component below d layer path code ≡ ok c) × (out ≡ some c)
layer_effect-enabled layer path code d below out on h =
    let merged = merge_component below d layer path code in
    some_merged merged out
      (subst (λ b. (if b then ok none else merged >>= λ c. ok (some c)) ≡ ok out) on h)

-- Each layer's components stand in a dict: no code twice.
abbrev pub HasDistinctCodes : List LayerDoc → Type 0
HasDistinctCodes [] = Unit
HasDistinctCodes (l ∷ ls) = Distinct (keys l.document.components) × HasDistinctCodes ls

module _ (layer : Layer) (path : String) where
  resolve_decl-lookup_self :
      (code : String) (d : ComponentDecl) (r r1 : Resolved)
      → resolve_decl layer path code d r ≡ ok r1
      → layer_effect layer path code (some d) (lookup code r) ≡ ok (lookup code r1)
  unfolding resolve_decl
  resolve_decl-lookup_self code d r r1 h = grind (arith, lookup-insert, lookup-erase, eq_refl)

  resolve_decl-lookup_ne :
      (code k : String) (d : ComponentDecl) (r r1 : Resolved)
      → (code == k) ≡ false
      → resolve_decl layer path k d r ≡ ok r1
      → lookup code r1 ≡ lookup code r
  unfolding resolve_decl
  resolve_decl-lookup_ne code k d r r1 n h = grind (arith, lookup-insert, lookup-erase)

  absent_of_fresh :
      (k : String) (d : Dict ComponentDecl) → elem k (keys d) ≡ false → lookup k d ≡ none
  absent_of_fresh k d h = grind (arith, elem-keys)

  -- A document changes a code by its own declaration of that code, and by no other.
  pub resolve_components-lookup :
      (code : String) (decls : Dict ComponentDecl) (r r' : Resolved)
      → Distinct (keys decls)
      → resolve_components layer path decls r ≡ ok r'
      → layer_effect layer path code (lookup code decls) (lookup code r) ≡ ok (lookup code r')
  unfolding resolve_components
  resolve_components-lookup code [] r r' u h =
      ap (λ (t : Resolved). ok (lookup code t)) (ok-injective h)
  resolve_components-lookup code ((k, d) ∷ rest) r r' (fresh, u) h =
      let (r1, first, later) = >>=-eq-ok (resolve_decl layer path k d r) _ h in
      let ih = resolve_components-lookup code rest r1 r' u later in
      elim (Bool-cases (code == k)) [
        | inl same ↦
            let here = resolve_decl-lookup_self k d r r1 first in
            let kept = resolve_components-lookup k rest r1 r' u later in
            subst
              (λ c.
                layer_effect layer path c (lookup c ((k, d) ∷ rest)) (lookup c r)
                ≡ ok (lookup c r'))
              (sym ((eq_iff code k).0 same))
              (rw (eq_refl k) (here ∙ (rw (absent_of_fresh k rest fresh) at kept)))
        | inr other ↦ rw other (rw (resolve_decl-lookup_ne code k d r r1 other first) at ih)
      ]

-- The merged stack holds at each code what the layers, from the lowest up, make of that code alone:
-- no other component has any influence on it.
pub resolve_layers-lookup :
    (code : String) (layers : List LayerDoc) (r r' : Resolved)
    → HasDistinctCodes layers
    → resolve_layers layers r ≡ ok r'
    → stack_effect code layers (lookup code r) ≡ ok (lookup code r')
unfolding resolve_layers
resolve_layers-lookup code [] r r' u h = ap (λ (t : Resolved). ok (lookup code t)) (ok-injective h)
resolve_layers-lookup code (l ∷ ls) r r' (u, us) h =
    let (r1, first, later) =
      >>=-eq-ok (resolve_components l.layer l.path l.document.components r) _ h in
    rw (resolve_components-lookup l.layer l.path code l.document.components r r1 u first)
      (resolve_layers-lookup code ls r1 r' us later)
