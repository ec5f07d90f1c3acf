-- ===== src/Payroll/Rules/Resolver/Keys.antt =====
-- The dict that the merge builds: different codes, and under each the component of that code.
use erp_agent.Prelude.{
  String, ◌≡◌, refl, false, Option, none, some, List, [], ◌∷◌, arith, ◌==◌, eq_iff, Distinct, elem,
  Dict, keys, values, insert, erase, ok, >>=-eq-ok, ok-injective,
}
use mathlib.Core.Path.{subst}
use erp_agent.Payroll.Schemas.{Layer}
use erp_agent.Payroll.Rules.{ComponentDecl}
use erp_agent.Payroll.Rules.Resolver.{
  ResolvedComponent, Resolved, merge_component, LayerDoc, resolve_decl, resolve_components,
  resolve_layers,
}
use erp_agent.Payroll.Rules.Sort.Outcome.{codes}

abbrev pub IsKeyedDict : Resolved → Type 0
IsKeyedDict r = Distinct (keys r) × (codes (values r) ≡ keys r)

elem-keys-insert :
    (x k : String) (c : ResolvedComponent) (r : Resolved)
    → elem x (keys r) ≡ false
    → (x == k) ≡ false
    → elem x (keys (insert k c r)) ≡ false
elem-keys-insert x k c [] h n = ground arith
elem-keys-insert x k c ((j, v) ∷ r) h n = ground (arith, elem-keys-insert x k c r)

insert-IsKeyedDict :
    (k : String) (c : ResolvedComponent) (r : Resolved)
    → c.component_code ≡ k
    → IsKeyedDict r
    → IsKeyedDict (insert k c r)
insert-IsKeyedDict k c [] e h = ((refl, tt), ground arith)
insert-IsKeyedDict k c ((j, v) ∷ r) e ((fresh, u), same) =
    ground (arith, insert-IsKeyedDict k c r e, elem-keys-insert j k c r, eq_iff k j, eq_iff j k)

elem-keys-erase :
    (x k : String) (r : Resolved) → elem x (keys r) ≡ false → elem x (keys (erase k r)) ≡ false
elem-keys-erase x k [] h = h
elem-keys-erase x k ((j, v) ∷ r) h = ground (arith, elem-keys-erase x k r)

erase-IsKeyedDict : (k : String) (r : Resolved) → IsKeyedDict r → IsKeyedDict (erase k r)
erase-IsKeyedDict k [] h = h
erase-IsKeyedDict k ((j, v) ∷ r) ((fresh, u), same) =
    ground (arith, erase-IsKeyedDict k r, elem-keys-erase j k r)

merge_component-code :
    (below : Option ResolvedComponent) (d : ComponentDecl) (layer : Layer) (path code : String)
    (c : ResolvedComponent)
    → merge_component below d layer path code ≡ ok c
    → c.component_code ≡ code
unfolding merge_component
merge_component-code none d layer path code c h = ground arith
merge_component-code (some lower) d layer path code c h = ground arith

module _ (layer : Layer) (path : String) where
  resolve_decl-IsKeyedDict :
      (code : String) (d : ComponentDecl) (r r1 : Resolved)
      → IsKeyedDict r
      → resolve_decl layer path code d r ≡ ok r1
      → IsKeyedDict r1
  unfolding resolve_decl
  resolve_decl-IsKeyedDict code d r r1 k h =
      grind (arith, erase-IsKeyedDict code r k, insert-IsKeyedDict, merge_component-code)

  resolve_components-IsKeyedDict :
      (decls : Dict ComponentDecl) (r r' : Resolved)
      → IsKeyedDict r
      → resolve_components layer path decls r ≡ ok r'
      → IsKeyedDict r'
  unfolding resolve_components
  resolve_components-IsKeyedDict [] r r' k h = subst IsKeyedDict (ok-injective h) k
  resolve_components-IsKeyedDict ((c, d) ∷ rest) r r' k h =
      let (r1, first, later) = >>=-eq-ok (resolve_decl layer path c d r) _ h in
      resolve_components-IsKeyedDict rest r1 r' (resolve_decl-IsKeyedDict c d r r1 k first) later

resolve_layers-IsKeyedDict_from :
    (layers : List LayerDoc) (r r' : Resolved)
    → IsKeyedDict r
    → resolve_layers layers r ≡ ok r'
    → IsKeyedDict r'
unfolding resolve_layers
resolve_layers-IsKeyedDict_from [] r r' k h = subst IsKeyedDict (ok-injective h) k
resolve_layers-IsKeyedDict_from (l ∷ ls) r r' k h =
    let (r1, first, later) =
      >>=-eq-ok (resolve_components l.layer l.path l.document.components r) _ h in
    resolve_layers-IsKeyedDict_from ls r1 r'
      (resolve_components-IsKeyedDict l.layer l.path l.document.components r r1 k first) later

-- However often the layers declare, override and disable components, the stack holds each code once, and
-- under it the component of that code.
pub resolve_layers-IsKeyedDict :
    (layers : List LayerDoc) (r : Resolved) → resolve_layers layers [] ≡ ok r → IsKeyedDict r
resolve_layers-IsKeyedDict layers r h = resolve_layers-IsKeyedDict_from layers [] r (tt, refl) h
