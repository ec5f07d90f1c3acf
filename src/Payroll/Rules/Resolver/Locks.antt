-- ===== src/Payroll/Rules/Resolver/Locks.antt =====
-- What a locked component is protected from, and what it is not.
use erp_agent.Prelude.{
  String, ◌≡◌, refl, sym, ◌∙◌, true, false, Option, none, some, List, [], ◌∷◌, arith, lookup, ok,
  >>=-eq-ok, ok-injective,
}
use mathlib.Core.Path.{subst}
use erp_agent.Payroll.Schemas.{Layer}
use erp_agent.Payroll.Rules.{ComponentDecl}
use erp_agent.Payroll.Rules.Resolver.{
  ResolvedComponent, Resolved, merge_component, LayerDoc, resolve_layers,
}
use erp_agent.Payroll.Rules.Resolver.Pointwise.{
  layer_effect, layer_effect-enabled, stack_effect, HasDistinctCodes, resolve_layers-lookup,
}

-- The rule of a component: all of it but its dependencies and its citations.
pub record IsSameRule (a b : ResolvedComponent) : Type 0 where
  pub type : a.type ≡ b.type
  pub phase : a.phase ≡ b.phase
  pub primitive : a.primitive ≡ b.primitive
  pub parameters : a.parameters ≡ b.parameters
  pub taxable : a.taxable ≡ b.taxable
  pub subject_to_tsu : a.subject_to_tsu ≡ b.subject_to_tsu
  pub locked : a.locked ≡ b.locked

IsSameRule-trans : (a b c : ResolvedComponent) → IsSameRule a b → IsSameRule b c → IsSameRule a c
IsSameRule-trans a b c p q = record {
  type = cc;
  phase = cc;
  primitive = cc;
  parameters = cc;
  taxable = cc;
  subject_to_tsu = cc;
  locked = cc;
}

merge_locked :
    (lower c : ResolvedComponent) (decl : ComponentDecl) (layer : Layer) (path code : String)
    → lower.locked ≡ true
    → merge_component (some lower) decl layer path code ≡ ok c
    → IsSameRule lower c
unfolding merge_component
merge_locked lower c decl layer path code l h = ground arith

IsSameRule-refl : (a : ResolvedComponent) → IsSameRule a a
IsSameRule-refl a = record {
  type = refl;
  phase = refl;
  primitive = refl;
  parameters = refl;
  taxable = refl;
  subject_to_tsu = refl;
  locked = refl;
}

-- No layer disables the code.
abbrev pub NeverDisabled : String → List LayerDoc → Type 0
NeverDisabled code [] = Unit
NeverDisabled code (l ∷ ls) =
    ((d : ComponentDecl) → lookup code l.document.components ≡ some d → d.disabled ≡ false)
    × NeverDisabled code ls

layer_effect_locked :
    (lower : ResolvedComponent) (layer : Layer) (path code : String) (decl : Option ComponentDecl)
    (out : Option ResolvedComponent)
    → ((d : ComponentDecl) → decl ≡ some d → d.disabled ≡ false)
    → lower.locked ≡ true
    → layer_effect layer path code decl (some lower) ≡ ok out
    → (c : ResolvedComponent) × (out ≡ some c) × IsSameRule lower c
layer_effect_locked lower layer path code none out n l h =
    (lower, sym (ok-injective h), IsSameRule-refl lower)
layer_effect_locked lower layer path code (some d) out n l h =
    let (c, merged, e) = layer_effect-enabled layer path code d (some lower) out (n d refl) h in
    (c, e, merge_locked lower c d layer path code l merged)

stack_effect_locked :
    (lower : ResolvedComponent) (code : String) (layers : List LayerDoc)
    (out : Option ResolvedComponent)
    → lower.locked ≡ true
    → NeverDisabled code layers
    → stack_effect code layers (some lower) ≡ ok out
    → (c : ResolvedComponent) × (out ≡ some c) × IsSameRule lower c
stack_effect_locked lower code [] out l n h = (lower, sym (ok-injective h), IsSameRule-refl lower)
stack_effect_locked lower code (x ∷ xs) out l (here, later) h =
    let effect =
      layer_effect x.layer x.path code (lookup code x.document.components) (some lower) in
    let (mid, first, rest) = >>=-eq-ok effect _ h in
    let (c, e, same) =
      layer_effect_locked lower x.layer x.path code (lookup code x.document.components) mid here l
        first in
    let (c', e', same') =
      stack_effect_locked c code xs out (sym same.locked ∙ l) later
        (subst (λ o. stack_effect code xs o ≡ ok out) e rest) in
    (c', e', IsSameRule-trans lower c c' same same')

-- Once a component is locked, no stack of higher layers that leaves it enabled changes its rule: the
-- merge either fails or keeps type, phase, primitive, parameters, both flags and the lock.
pub resolve_layers-locked :
    (code : String) (layers : List LayerDoc) (r r' : Resolved) (lower : ResolvedComponent)
    → HasDistinctCodes layers
    → resolve_layers layers r ≡ ok r'
    → lookup code r ≡ some lower
    → lower.locked ≡ true
    → NeverDisabled code layers
    → (c : ResolvedComponent) × (lookup code r' ≡ some c) × IsSameRule lower c
resolve_layers-locked code layers r r' lower u h found l n =
    stack_effect_locked lower code layers (lookup code r') l n (
      subst (λ o. stack_effect code layers o ≡ ok (lookup code r')) found
        (resolve_layers-lookup code layers r r' u h))
