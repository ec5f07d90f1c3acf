-- ===== src/DevCare/Forms/Fields.antt =====
-- What a form offers is what the validator knows.
use erp_agent.Prelude.{
  String, Bool, true, Option, List, [], ◌∷◌, map, Dict, contains, keys, ◌≡◌, refl, sym, ap, ◌∙◌,
  All, All-elem, elem-keys,
}
use erp_agent.DevCare.Rules.{Scalar, Record, FieldRule, EntityRule, Registry}
use erp_agent.DevCare.Validator.{World, unknown_fields}
use erp_agent.DevCare.Forms.{FormField, build_fields, build_field, build_form}

-- A field's name, and whether it must be given.
abbrev pub demand_of : FormField → String × Bool
demand_of f = (f.name, f.required)

abbrev pub demands : Dict FieldRule → List (String × Bool)
demands [] = []
demands ((name, fr) ∷ rest) = (name, fr.required) ∷ demands rest

abbrev pub field_name : FormField → String
field_name f = f.name

module _ (world : World) (rule : EntityRule) (registry : Registry) (prefill current : Record) where
  build_fields-demands :
      (rules : Dict FieldRule)
      → map demand_of (build_fields world rule registry prefill current rules) ≡ demands rules
  unfolding build_fields build_field
  build_fields-demands [] = refl
  build_fields-demands ((name, fr) ∷ rest) =
      ap (λ ds. (name, fr.required) ∷ ds) (build_fields-demands rest)

  build_fields-keys :
      (rules : Dict FieldRule)
      → map field_name (build_fields world rule registry prefill current rules) ≡ keys rules
  unfolding build_fields build_field
  build_fields-keys [] = refl
  build_fields-keys ((name, fr) ∷ rest) = ap (λ ns. name ∷ ns) (build_fields-keys rest)

unknown_fields-nil :
    (rules : Dict FieldRule) (names : List String)
    → All (λ n. contains n rules ≡ true) names
    → unknown_fields rules names ≡ []
unfolding unknown_fields
unknown_fields-nil rules [] h = refl
unknown_fields-nil rules (n ∷ ns) (e, h) = rw e (unknown_fields-nil rules ns h)

-- A form has one input for each field of the rule, in the rule's order, required exactly where a create needs the
-- field; so no field that is sent back under a form's names is unknown to the validator.
pub build_form-demands :
    (world : World) (capitalize : String → String) (rule : EntityRule) (registry : Registry)
    (operation : String) (target_pk : Option Scalar) (prefill : Record)
    → (map demand_of (build_form world capitalize rule registry operation target_pk prefill).fields
        ≡ demands rule.fields)
      × (unknown_fields rule.fields (
            map field_name
              (build_form world capitalize rule registry operation target_pk prefill).fields)
          ≡ [])
unfolding build_form
build_form-demands world capitalize rule registry operation target_pk prefill = (
  build_fields-demands world rule registry prefill _ rule.fields,
  ap (unknown_fields rule.fields) (build_fields-keys world rule registry prefill _ rule.fields)
      ∙ unknown_fields-nil rule.fields (keys rule.fields)
          (All-elem (keys rule.fields) (λ x m. sym (elem-keys x rule.fields) ∙ m)),
)
