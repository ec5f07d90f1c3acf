-- ===== src/DevCare/Validator/Sound.antt =====
-- What the checks of a change guarantee once they find nothing wrong.
pub mod Database
pub mod Fields
pub mod Lists
use mathlib.Core.Path.{subst}
use erp_agent.Prelude.{
  ℕ, String, true, false, not, ◌&&◌, Option, none, List, [], ◌∷◌, ◌++◌, ◌==◌, if◌then◌else◌, elem,
  is_some, contains, keys, Result, ok, ◌≡◌, refl, sym, ap, ◌∙◌, inl, inr, arith, Bool-cases, All,
  All-elem, ◌>>=◌, >>=-eq-ok, ok-injective,
}
use erp_agent.DevCare.Rules.{
  Scalar, Record, EntityRule, RegistryError, Registry, get_rule, NormalizedChange, target_not_found,
  Violation, ValidationResult, valid, invalid,
}
use erp_agent.DevCare.Validator.{
  World, unknown_fields, coerce_fields, check_uniqueness, check_references, check_columns_of,
  is_existing, conclude, check_target, check_target_exists, validate_rule, validate, count_key,
  is_one, first_count,
}
use erp_agent.DevCare.Writes.{columns_of, undeclared}
use erp_agent.DevCare.Validator.Sound.Lists.{of_true, of_false, append-nil-left, append-nil-right}
use erp_agent.DevCare.Validator.Sound.Fields.{
  IsAcceptedField, coerce_all-IsAccepted, coerce_all-AreDeclared, unknown_fields-known,
  first_outside-none,
}
use erp_agent.DevCare.Validator.Sound.Database.{
  violation_if-nil, IsUnique, check_uniqueness-IsUnique, IsResolved, check_references-IsResolved,
}

-- What a change is known to satisfy when it was found valid.
pub record IsChecked (world : World) (registry : Registry) (entity operation : String)
    (fields : Record) (target_pk : Option Scalar) (change : NormalizedChange) : Type 0 where
  pub rule : EntityRule
  pub registered : get_rule entity registry ≡ ok rule
  pub permitted : elem operation rule.operations ≡ true
  pub described : change ≡ record {
    entity = entity;
    operation = operation;
    table = rule.table;
    primary_key = rule.primary_key;
    columns = change.columns;
    target_pk = target_pk;
  }
  pub keyed : is_existing operation ≡ true → is_some target_pk ≡ true
  pub found :
      is_existing operation ≡ true
      → is_one (first_count (world.read (count_key rule.table rule.primary_key target_pk))) ≡ true
  pub known :
      (operation == "delete") ≡ false → All (λ n. contains n rule.fields ≡ true) (keys fields)
  pub values :
      (operation == "delete") ≡ false → All (IsAcceptedField world operation fields) rule.fields
  pub unique :
      (operation == "delete") ≡ false
      → All (IsUnique world rule fields change.columns target_pk) rule.uniqueness
  pub resolved :
      (operation == "delete") ≡ false
      → All (IsResolved world rule fields change.columns target_pk) rule.references
  pub declared : undeclared rule change.columns ≡ none

module _ (world : World) (rule : EntityRule) (entity operation : String) (fields : Record)
    (target_pk : Option Scalar) where
  abbrev change_of : Record → NormalizedChange
  change_of columns = record {
    entity = entity;
    operation = operation;
    table = rule.table;
    primary_key = rule.primary_key;
    columns = columns;
    target_pk = target_pk;
  }

  conclude-valid :
      (columns : Record) (viols : List Violation) (change : NormalizedChange) (doc : String)
      (version : ℕ)
      → conclude rule entity operation target_pk columns viols ≡ valid change doc version
      → (viols ≡ []) × (change ≡ change_of columns)
  unfolding conclude
  conclude-valid columns (v ∷ vs) change doc version h = cc
  conclude-valid columns [] change doc version h = (refl, cc)

  check_target-nil :
      (viols : List Violation)
      → check_target world rule operation target_pk viols ≡ []
      → (viols ≡ [])
        × (is_existing operation ≡ true
            → is_one (first_count (world.read (count_key rule.table rule.primary_key target_pk)))
              ≡ true)
  unfolding check_target check_target_exists
  check_target-nil (v ∷ vs) h = cc
  check_target-nil [] h = (
    refl,
    λ e. ground (
      arith,
      violation_if-nil
          (not
            (is_one (first_count (world.read (count_key rule.table rule.primary_key target_pk)))))
          "target" target_not_found (sym (rw e refl) ∙ h),
    ),
  )

  -- The two ways to the columns of a change: none for a delete, and those of the fields.
  record AreChecked (columns : Record) : Type 0 where
    known : (operation == "delete") ≡ false → All (λ n. contains n rule.fields ≡ true) (keys fields)
    values :
        (operation == "delete") ≡ false → All (IsAcceptedField world operation fields) rule.fields
    unique :
        (operation == "delete") ≡ false
        → All (IsUnique world rule fields columns target_pk) rule.uniqueness
    resolved :
        (operation == "delete") ≡ false
        → All (IsResolved world rule fields columns target_pk) rule.references
    declared : undeclared rule columns ≡ none

  check_columns_of-AreChecked :
      (c : Record × List Violation)
      → check_columns_of world rule operation fields target_pk ≡ ok c
      → c.1 ≡ []
      → AreChecked c.0
  unfolding check_columns_of coerce_fields undeclared
  check_columns_of-AreChecked c h e =
      let coerced = coerce_fields world rule operation fields in
      let (unique, u, h1) =
        >>=-eq-ok (check_uniqueness world rule coerced.0 target_pk rule.uniqueness) _ h in
      let (refs, r, h2) = >>=-eq-ok (check_references world rule fields rule.references) _ h1 in
      let all_nil : coerced.1 ++ (unique ++ refs) ≡ [] = ap (λ p. p.1) (ok-injective h2) ∙ e in
      let same : coerced.0 ≡ c.0 = ap (λ p. p.0) (ok-injective h2) in
      let others : unique ++ refs ≡ [] = append-nil-right coerced.1 (unique ++ refs) all_nil in
      let seen =
        coerce_all-IsAccepted world operation fields rule.fields
          ([], unknown_fields rule.fields (keys fields)) (append-nil-left coerced.1 _ all_nil) in
      subst AreChecked same (record {
        known = λ d. unknown_fields-known rule.fields (keys fields) seen.0;
        values = λ d. seen.1;
        unique = λ d.
            check_uniqueness-IsUnique world rule fields coerced.0 target_pk rule.uniqueness unique u
              (append-nil-left unique refs others);
        resolved = λ d.
            check_references-IsResolved world rule fields coerced.0 target_pk rule.references refs r
              (append-nil-right unique refs others);
        declared = first_outside-none (columns_of rule.fields) (keys coerced.0) (
            coerce_all-AreDeclared world operation fields (columns_of rule.fields) rule.fields _
              (All-elem (columns_of rule.fields) (λ x m. m)) tt);
      })

  no_columns-AreChecked : (operation == "delete") ≡ true → AreChecked []
  unfolding undeclared
  no_columns-AreChecked d = record {
    known = λ e. cc;
    values = λ e. cc;
    unique = λ e. cc;
    resolved = λ e. cc;
    declared = refl;
  }

  abbrev columns_step : Result RegistryError (Record × List Violation)
  columns_step =
      if operation == "delete"
      then ok ([], [])
      else check_columns_of world rule operation fields target_pk

  columns_step-AreChecked :
      (c : Record × List Violation) → columns_step ≡ ok c → c.1 ≡ [] → AreChecked c.0
  columns_step-AreChecked c h e = elim (Bool-cases (operation == "delete")) [
    | inl d ↦
        let same : ◌≡◌ {A = Result RegistryError (Record × List Violation)} (ok ([], [])) (ok c) =
          of_true (operation == "delete") _ _ _ d h in
        subst AreChecked (ap (λ (p : Record × List Violation). p.0) (ok-injective same))
          (no_columns-AreChecked d)
    | inr d ↦ check_columns_of-AreChecked c (of_false (operation == "delete") _ _ _ d h) e
  ]

  invalid-valid :
      {B : Type 0} {E : Type 0} (viols : List Violation) (doc : String) (version : ℕ)
      (change : NormalizedChange) (doc' : String) (version' : ℕ)
      → ◌≡◌ {A = Result E ValidationResult}
          (ok (invalid viols doc version))
          (ok (valid change doc' version'))
      → B
  invalid-valid viols doc version change doc' version' h = cc

  -- The part of `validate` after its early returns.
  finish-IsChecked :
      (registry : Registry) (change : NormalizedChange) (doc : String) (version : ℕ)
      → get_rule entity registry ≡ ok rule
      → elem operation rule.operations ≡ true
      → (is_existing operation ≡ true → is_some target_pk ≡ true)
      → (columns_step >>= λ c. ok (
          conclude rule entity operation target_pk c.0
            (check_target world rule operation target_pk c.1)))
        ≡ ok (valid change doc version)
      → IsChecked world registry entity operation fields target_pk change
  finish-IsChecked registry change doc version g permitted keyed h =
      let (c, first, h1) = >>=-eq-ok columns_step _ h in
      let (none_at_all, same) = conclude-valid c.0 _ change doc version (ok-injective h1) in
      let (clear, found) = check_target-nil c.1 none_at_all in
      let checked = columns_step-AreChecked c first clear in
      let columns : c.0 ≡ change.columns = sym (ap (λ (ch : NormalizedChange). ch.columns) same) in
      let checked' = subst AreChecked columns checked in
      record {
        rule = rule;
        registered = g;
        permitted = permitted;
        described = same ∙ ap change_of columns;
        keyed = keyed;
        found = found;
        known = checked'.known;
        values = checked'.values;
        unique = checked'.unique;
        resolved = checked'.resolved;
        declared = checked'.declared;
      }

  validate_rule-IsChecked :
      (registry : Registry) (change : NormalizedChange) (doc : String) (version : ℕ)
      → get_rule entity registry ≡ ok rule
      → validate_rule world rule entity operation fields target_pk ≡ ok (valid change doc version)
      → IsChecked world registry entity operation fields target_pk change
  unfolding validate_rule
  validate_rule-IsChecked registry change doc version g h =
      elim (Bool-cases (not (elem operation rule.operations))) [
        | inl n ↦ invalid-valid _ _ _ change doc version (of_true _ _ _ _ n h)
        | inr p ↦
            let h1 = of_false (not (elem operation rule.operations)) _ _ _ p h in
            elim (Bool-cases (is_existing operation && not (is_some target_pk))) [
              | inl n ↦ invalid-valid _ _ _ change doc version (of_true _ _ _ _ n h1)
              | inr k ↦
                  finish-IsChecked registry change doc version g (ground arith) (λ e. ground arith)
                    (of_false (is_existing operation && not (is_some target_pk)) _ _ _ k h1)
            ]
      ]

-- A change that is found valid is of a registered entity and an operation that its rule permits; an update or a
-- delete has a key, under which the database has one row; and, unless it is a delete, every field given is known,
-- every field's value converts and meets its rule or may be left out, no row but the target's (no active one, where
-- the rule has a soft delete) has its values of a set of unique fields, and each reference given names a row. Its columns are declared by the rule.
pub validate-IsChecked :
    (world : World) (registry : Registry) (entity operation : String) (fields : Record)
    (target_pk : Option Scalar) (change : NormalizedChange) (doc : String) (version : ℕ)
    → validate world registry entity operation fields target_pk ≡ ok (valid change doc version)
    → IsChecked world registry entity operation fields target_pk change
unfolding validate
validate-IsChecked world registry entity operation fields target_pk change doc version h =
    let (rule, g, h1) = >>=-eq-ok (get_rule entity registry) _ h in
    validate_rule-IsChecked world rule entity operation fields target_pk registry change doc version
      g h1
