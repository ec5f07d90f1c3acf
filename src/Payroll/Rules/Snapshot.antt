-- ===== src/Payroll/Rules/Snapshot.antt =====
-- logic/payroll/rules/resolver.py: `RuleResolver.resolve`, which loads the layers that are given, in
-- order, and merges them.
use erp_agent.Prelude.{String, Option, none, some, List, [], ◌∷◌, ◌++◌}
use erp_agent.Prelude.Exec.{pure, lift, ◌>>=◌}
use erp_agent.Payroll.Schemas.{Layer, statutory, cct, company}
use erp_agent.Payroll.Rules.Loader.{Files, Loading, load_document}
use erp_agent.Payroll.Rules.Resolver.{RuleStackSnapshot, LayerDoc, resolve_layers}

module _ (files : Files) where
  unfoldable pub load_layer : Layer → String → Loading LayerDoc
  load_layer layer path = do
    doc ← load_document files path
    pure (record { layer = layer; path = path; document = doc })

  unfoldable pub load_optional : Layer → Option String → Loading (List LayerDoc)
  unfolding load_layer
  load_optional layer none = pure []
  load_optional layer (some path) = do l ← load_layer layer path; pure (l ∷ [])

  unfoldable pub resolve : String → Option String → Option String → Loading RuleStackSnapshot
  unfolding load_layer load_optional
  resolve statutory_path cct_path company_path = do
    l ← load_layer statutory statutory_path
    ls ← load_optional cct cct_path
    ms ← load_optional company company_path
    resolved ← lift (resolve_layers (l ∷ (ls ++ ms)) [])
    pure (record {
      statutory_path = statutory_path;
      cct_path = cct_path;
      company_path = company_path;
      resolved_components = resolved;
    })
