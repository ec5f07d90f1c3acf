-- ===== src/DevCare/Validator/Sound/Fields.antt =====
-- The fields of a change: accepted values, known names and declared columns.
use erp_agent.Prelude.{
  String, Bool, true, false, not, ◌&&◌, Option, none, some, List, [], ◌∷◌, ◌==◌, elem, Dict,
  contains, insert, keys, ◌≡◌, refl, inl, inr, arith, Bool-cases, All,
}
use erp_agent.DevCare.Rules.{
  Scalar, Record, FieldRule, is_required, wrong_type, unknown_field, Violation,
}
use erp_agent.DevCare.Validator.{
  World, violation, violation_if, given, coerce, check_field_validation, coerce_value, coerce_given,
  coerce_field, coerce_all, unknown_fields,
}
use erp_agent.DevCare.Writes.{columns_of, first_outside}
use erp_agent.DevCare.Validator.Sound.Lists.{append-nil-left, append-nil-right}

-- What a field's value must satisfy: it may be left out, or it converts and meets the rule.
pub data IsAccepted (world : World) (operation name : String) (fr : FieldRule)
    : Option Scalar → Type 0 where
  left_out :
      (operation == "create" && fr.required) ≡ false → IsAccepted world operation name fr none
  accepted :
      (raw v : Scalar)
      → coerce world fr.type raw ≡ some v
      → check_field_validation world name fr.validation v ≡ []
      → IsAccepted world operation name fr (some raw)

AllKeys-insert {ℓ κ} :
    {V : Type ℓ} (P : String → Type κ) (k : String) (v : V) (d : Dict V)
    → P k
    → All P (keys d)
    → All P (keys (insert k v d))
AllKeys-insert P k v [] p h = (p, tt)
AllKeys-insert P k v ((j, w) ∷ d) p (q, h) = elim (Bool-cases (k == j)) [
  | inl e ↦ rw e (q, h)
  | inr e ↦ rw e (q, AllKeys-insert P k v d p h)
]

module _ (world : World) (operation : String) (fields : Record) where
  abbrev pub IsAcceptedField : String × FieldRule → Type 0
  IsAcceptedField (name, fr) = IsAccepted world operation name fr (given name fields)

  coerce_value-IsAccepted :
      (name : String) (fr : FieldRule) (raw : Scalar) (columns : Record) (viols : List Violation)
      → (coerce_value world name fr (coerce world fr.type raw) (columns, viols)).1 ≡ []
      → (viols ≡ []) × IsAccepted world operation name fr (some raw)
  unfolding coerce_value
  coerce_value-IsAccepted name fr raw columns viols = cases (coerce world fr.type raw) refl
    where
      cases :
          (o : Option Scalar)
          → coerce world fr.type raw ≡ o
          → (coerce_value world name fr o (columns, viols)).1 ≡ []
          → (viols ≡ []) × IsAccepted world operation name fr (some raw)
      cases none e h =
          absurd (ground (arith, append-nil-right viols (violation name (wrong_type fr.type)) h))
      cases (some v) e h =
          (append-nil-left viols _ h, accepted raw v e (append-nil-right viols _ h))

  coerce_given-IsAccepted :
      (name : String) (fr : FieldRule) (o : Option Scalar) (columns : Record)
      (viols : List Violation)
      → (coerce_given world operation name fr o (columns, viols)).1 ≡ []
      → (viols ≡ []) × IsAccepted world operation name fr o
  unfolding coerce_given
  coerce_given-IsAccepted name fr (some raw) columns viols h =
      coerce_value-IsAccepted name fr raw columns viols h
  coerce_given-IsAccepted name fr none columns viols h = (
    append-nil-left viols _ h,
    left_out (allowed (operation == "create" && fr.required) (append-nil-right viols _ h)),
  )
    where
      allowed : (b : Bool) → violation_if b name is_required ≡ [] → b ≡ false
      allowed true e = cc
      allowed false e = refl

  -- Violations are only added, so none at the end means none before and none from any field.
  pub coerce_all-IsAccepted :
      (rules : Dict FieldRule) (acc : Record × List Violation)
      → (coerce_all world operation fields rules acc).1 ≡ []
      → (acc.1 ≡ []) × All IsAcceptedField rules
  unfolding coerce_all coerce_field
  coerce_all-IsAccepted [] acc h = (h, tt)
  coerce_all-IsAccepted ((name, fr) ∷ rest) acc h =
      let later = coerce_all-IsAccepted rest (coerce_field world operation fields name fr acc) h in
      let here = coerce_given-IsAccepted name fr (given name fields) acc.0 acc.1 later.0 in
      (here.0, (here.1, later.1))

  abbrev AreDeclared : List String → Record → Type 0
  AreDeclared allowed columns = All (λ c. elem c allowed ≡ true) (keys columns)

  coerce_value-AreDeclared :
      (allowed : List String) (name : String) (fr : FieldRule) (o : Option Scalar)
      (acc : Record × List Violation)
      → elem fr.column allowed ≡ true
      → AreDeclared allowed acc.0
      → AreDeclared allowed (coerce_value world name fr o acc).0
  unfolding coerce_value
  coerce_value-AreDeclared allowed name fr none acc e h = h
  coerce_value-AreDeclared allowed name fr (some v) acc e h =
      AllKeys-insert (λ c. elem c allowed ≡ true) fr.column v acc.0 e h

  coerce_given-AreDeclared :
      (allowed : List String) (name : String) (fr : FieldRule) (o : Option Scalar)
      (acc : Record × List Violation)
      → elem fr.column allowed ≡ true
      → AreDeclared allowed acc.0
      → AreDeclared allowed (coerce_given world operation name fr o acc).0
  unfolding coerce_given
  coerce_given-AreDeclared allowed name fr none acc e h = h
  coerce_given-AreDeclared allowed name fr (some raw) acc e h =
      coerce_value-AreDeclared allowed name fr (coerce world fr.type raw) acc e h

  pub coerce_all-AreDeclared :
      (allowed : List String) (rules : Dict FieldRule) (acc : Record × List Violation)
      → All (λ c. elem c allowed ≡ true) (columns_of rules)
      → AreDeclared allowed acc.0
      → AreDeclared allowed (coerce_all world operation fields rules acc).0
  unfolding coerce_all coerce_field
  coerce_all-AreDeclared allowed [] acc a h = h
  coerce_all-AreDeclared allowed ((name, fr) ∷ rest) acc (e, a) h =
      coerce_all-AreDeclared allowed rest (coerce_field world operation fields name fr acc) a
        (coerce_given-AreDeclared allowed name fr (given name fields) acc e h)

pub unknown_fields-known :
    (rules : Dict FieldRule) (names : List String)
    → unknown_fields rules names ≡ []
    → All (λ n. contains n rules ≡ true) names
unfolding unknown_fields
unknown_fields-known rules [] h = tt
unknown_fields-known rules (n ∷ ns) h = elim (Bool-cases (contains n rules)) [
  | inl e ↦ (
    e,
    unknown_fields-known rules ns
        (append-nil-right (violation_if (not (contains n rules)) n unknown_field) _ h),
  )
  | inr e ↦
      ground (arith, append-nil-left (violation_if (not (contains n rules)) n unknown_field) _ h)
]

pub first_outside-none :
    (allowed names : List String)
    → All (λ c. elem c allowed ≡ true) names
    → first_outside allowed names ≡ none
first_outside-none allowed [] h = refl
first_outside-none allowed (n ∷ ns) (e, h) = rw e (first_outside-none allowed ns h)
