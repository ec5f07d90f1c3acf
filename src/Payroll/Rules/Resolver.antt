-- ===== src/Payroll/Rules/Resolver.antt =====
-- logic/payroll/rules/resolver.py: the merge of the statutory, agreement and company layers.
pub mod Pointwise
pub mod Keys
pub mod Citations
pub mod Locks
use Prim.Native.String.{◌++◌ as text_append}
use erp_agent.Prelude.{
  String, Bool, not, ◌&&◌, ◌||◌, Option, none, some, List, [], ◌∷◌, ◌++◌, ◌==◌, if◌then◌else◌,
  is_empty, Dict, lookup, insert, erase, update, Result, ok, err, ◌>>=◌, ◌>>◌,
}
use erp_agent.Payroll.Errors.{PayrollError, locked_component_override}
use erp_agent.Payroll.Schemas.{Layer, RuleCitation}
use erp_agent.Payroll.Rules.{
  Params, ComponentType, Phase, type_eq, phase_eq, ComponentDecl, RuleDocument,
}

pub record ResolvedComponent : Type 0 where
  pub component_code : String
  pub type : ComponentType
  pub phase : Phase
  pub primitive : String
  pub parameters : Params
  pub inputs_required : List String
  pub taxable : Bool
  pub subject_to_tsu : Bool
  pub locked : Bool
  pub citations : List RuleCitation

-- `RuleStackSnapshot.resolved_components`
abbrev pub Resolved : Type 0
Resolved = Dict ResolvedComponent

pub record RuleStackSnapshot : Type 0 where
  pub statutory_path : String
  pub cct_path : Option String
  pub company_path : Option String
  pub resolved_components : Resolved

unfoldable pub component_citation : Layer → String → String → RuleCitation
component_citation layer path code = record {
  document_path = path;
  layer = layer;
  component_code = some code;
  clause = text_append "components." code;
}

unfoldable pub structural_differs : ResolvedComponent → ComponentDecl → Bool
structural_differs lower higher =
    not (type_eq higher.type lower.type)
    || not (phase_eq higher.phase lower.phase)
    || not (higher.primitive == lower.primitive)

-- `a or b` on lists
abbrev pub or_list : List String → List String → List String
or_list [] ys = ys
or_list (x ∷ xs) ys = x ∷ xs

-- `_merge_component`, by the two cases of `lower`
unfoldable pub merge_component :
    Option ResolvedComponent
    → ComponentDecl
    → Layer
    → String
    → String
    → Result PayrollError ResolvedComponent
unfolding structural_differs
merge_component none decl layer path code = ok record {
  component_code = code;
  type = decl.type;
  phase = decl.phase;
  primitive = decl.primitive;
  parameters = update [] decl.parameters;
  inputs_required = or_list decl.inputs_required [];
  taxable = decl.taxable;
  subject_to_tsu = decl.subject_to_tsu;
  locked = decl.locked;
  citations = [] ++ component_citation layer path code ∷ [];
}
merge_component (some lower) decl layer path code =
    if lower.locked && (not (is_empty decl.parameters) || structural_differs lower decl)
    then err (locked_component_override code)
    else ok record {
      component_code = code;
      type = lower.type;
      phase = lower.phase;
      primitive = lower.primitive;
      parameters = update lower.parameters decl.parameters;
      inputs_required = or_list decl.inputs_required lower.inputs_required;
      taxable = lower.taxable;
      subject_to_tsu = lower.subject_to_tsu;
      locked = lower.locked;
      citations = lower.citations ++ component_citation layer path code ∷ [];
    }

pub record LayerDoc : Type 0 where
  pub layer : Layer
  pub path : String
  pub document : RuleDocument

-- The body of the inner loop of `resolve`.
unfoldable pub resolve_decl :
    Layer → String → String → ComponentDecl → Resolved → Result PayrollError Resolved
resolve_decl layer path code decl resolved = if decl.disabled then ok (erase code resolved) else do
  merged ← merge_component (lookup code resolved) decl layer path code
  ok (insert code merged resolved)

unfoldable pub resolve_components :
    Layer → String → Dict ComponentDecl → Resolved → Result PayrollError Resolved
resolve_components layer path [] resolved = ok resolved
resolve_components layer path ((code, decl) ∷ rest) resolved = do
  resolved' ← resolve_decl layer path code decl resolved
  resolve_components layer path rest resolved'

unfoldable pub resolve_layers : List LayerDoc → Resolved → Result PayrollError Resolved
resolve_layers [] resolved = ok resolved
resolve_layers (l ∷ ls) resolved = do
  resolved' ← resolve_components l.layer l.path l.document.components resolved
  resolve_layers ls resolved'
