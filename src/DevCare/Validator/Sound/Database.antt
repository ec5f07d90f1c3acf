-- ===== src/DevCare/Validator/Sound/Database.antt =====
-- What the queries of the checks say: unique values and references.
use mathlib.Core.Path.{subst}
use erp_agent.Prelude.{
  String, Bool, true, false, not, Option, some, List, [], ◌∷◌, ◌++◌, is_empty, Dict, lookup, Result,
  ok, ◌≡◌, refl, sym, ap, ◌∙◌, All, >>=-eq-ok, ok-injective,
}
use erp_agent.DevCare.Rules.{
  Scalar, Record, FieldRule, EntityRule, not_unique, reference_missing, Reason, Reference,
  Violation,
}
use erp_agent.DevCare.Validator.{
  World, violation_if, given, coerce, unique_columns, equal_columns, referenced, other_key,
  check_unique_set, check_uniqueness, check_reference, check_given_reference, check_references,
  join,
}
use erp_agent.DevCare.Validator.Sound.Lists.{append-nil-left, append-nil-right}

ok_nil :
    {E : Type 0} (xs : List Violation)
    → ◌≡◌ {A = Result E (List Violation)} (ok xs) (ok [])
    → xs ≡ []
ok_nil xs h = ok-injective h

pub violation_if-nil :
    (b : Bool) (name : String) (r : Reason) → violation_if b name r ≡ [] → b ≡ false
violation_if-nil true name r h = cc
violation_if-nil false name r h = refl

is_empty-nil {ℓ} : {A : Type ℓ} (xs : List A) → not (is_empty xs) ≡ false → xs ≡ []
is_empty-nil [] h = refl
is_empty-nil (x ∷ xs) h = cc

module _ (world : World) (rule : EntityRule) (fields columns : Record)
    (target_pk : Option Scalar) where
  -- Of the rows that the query looks at, the active ones where the rule has a soft delete, none but the
  -- target's has the values that the change gives a set of unique fields.
  abbrev pub IsUnique : List String → Type 0
  IsUnique fieldset =
      (cols : Record)
      → unique_columns rule.fields columns fieldset [] ≡ ok (some cols)
      → world.read (equal_columns rule.table cols rule.soft_delete (other_key rule target_pk)) ≡ []

  check_unique_set-IsUnique :
      (fieldset : List String) (cols : Record)
      → check_unique_set world rule fieldset target_pk (some cols) ≡ []
      → world.read (equal_columns rule.table cols rule.soft_delete (other_key rule target_pk)) ≡ []
  unfolding check_unique_set
  check_unique_set-IsUnique fieldset cols h =
      is_empty-nil _ (violation_if-nil _ (join fieldset) (not_unique fieldset) h)

  pub check_uniqueness-IsUnique :
      (sets : List (List String)) (viols : List Violation)
      → check_uniqueness world rule columns target_pk sets ≡ ok viols
      → viols ≡ []
      → All IsUnique sets
  unfolding check_uniqueness
  check_uniqueness-IsUnique [] viols h e = tt
  check_uniqueness-IsUnique (fieldset ∷ rest) viols h e =
      let (o, first, h1) = >>=-eq-ok (unique_columns rule.fields columns fieldset []) _ h in
      let (later, second, h2) =
        >>=-eq-ok (check_uniqueness world rule columns target_pk rest) _ h1 in
      let none_at_all : check_unique_set world rule fieldset target_pk o ++ later ≡ [] =
        ok-injective h2 ∙ e in
      (
        λ cols given_cols. check_unique_set-IsUnique fieldset cols (
            subst (λ o'. check_unique_set world rule fieldset target_pk o' ≡ [])
              (ok-injective (sym first ∙ given_cols)) (append-nil-left _ later none_at_all)),
        check_uniqueness-IsUnique rest later second (append-nil-right _ later none_at_all),
      )

  -- A given reference that converts to its field's type names a row.
  abbrev pub IsResolved : String × Reference → Type 0
  IsResolved (fname, ref) =
      (raw v : Scalar) (fr : FieldRule)
      → given fname fields ≡ some raw
      → lookup fname rule.fields ≡ some fr
      → coerce world fr.type raw ≡ some v
      → is_empty (world.read (referenced ref.table ref.column v)) ≡ false

  given_reference :
      (fname : String) (ref : Reference) (raw v : Scalar) (fr : FieldRule)
      → lookup fname rule.fields ≡ some fr
      → coerce world fr.type raw ≡ some v
      → check_given_reference world rule fname ref (some raw) ≡ ok []
      → is_empty (world.read (referenced ref.table ref.column v)) ≡ false
  unfolding check_given_reference check_reference
  given_reference fname ref raw v fr l c h =
      violation_if-nil _ fname (reference_missing ref.table)
        (ok-injective (sym (rw (l, c) refl) ∙ h))

  pub check_references-IsResolved :
      (refs : Dict Reference) (viols : List Violation)
      → check_references world rule fields refs ≡ ok viols
      → viols ≡ []
      → All IsResolved refs
  unfolding check_references
  check_references-IsResolved [] viols h e = tt
  check_references-IsResolved ((fname, ref) ∷ rest) viols h e =
      let (here, first, h1) =
        >>=-eq-ok (check_given_reference world rule fname ref (given fname fields)) _ h in
      let (later, second, h2) = >>=-eq-ok (check_references world rule fields rest) _ h1 in
      let none_at_all : here ++ later ≡ [] = ok-injective h2 ∙ e in
      (
        λ raw v fr g l c. given_reference fname ref raw v fr l c (
            subst (λ o. check_given_reference world rule fname ref o ≡ ok []) g
              (first ∙ ap (λ vs. ok vs) (append-nil-left here later none_at_all))),
        check_references-IsResolved rest later second (append-nil-right here later none_at_all),
      )
