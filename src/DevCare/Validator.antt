-- ===== src/DevCare/Validator.antt =====
-- logic/devcare/validator.py: the checks of a change before it is staged. The database answers queries;
-- Python's conversions of a value, regular expressions and the calendar are parameters. The violations for
-- unknown fields come in the order in which the fields are given.
pub mod Sound
use Prim.Native.String.{count, ◌++◌ as text_append}
use erp_agent.Prelude.{
  ℕ, ltb, String, Bool, false, not, ◌&&◌, ◌||◌, Option, none, some, List, [], ◌∷◌, ◌++◌, ◌==◌,
  if◌then◌else◌, elem, is_empty, is_some, Dict, contains, lookup, insert, keys, Result, ok, err,
  ◌>>=◌, or_raise,
}
use erp_agent.Prelude.Int.{ℤ, pos}
use erp_agent.Decimal.{Decimal, le_decimal}
use erp_agent.DevCare.Rules.{
  Scalar, int, float, text, Record, number_of, scalar_eq, is_blank, FieldType, string_type,
  int_type, float_type, date_type, FieldValidation, allowed_values, FieldRule, SoftDelete,
  Reference, EntityRule, RegistryError, key_error, Registry, get_rule, Reason,
  operation_not_allowed, key_required, unknown_field, is_required, wrong_type, too_long,
  invalid_format, below_minimum, above_maximum, not_allowed_value, not_unique, reference_missing,
  target_not_found, Violation, ValidationResult, valid, invalid,
}

-- The SELECT statements, by the identifiers and values that they bind.
pub data Query : Type 0 where
  equal_columns :
      (table : String) (columns : Record) (active : Option SoftDelete)
      (other_than : Option (String × Scalar))
      → Query
  referenced : (table column : String) (value : Scalar) → Query
  count_key : (table primary_key : String) (key : Option Scalar) → Query
  row_of_key : (table primary_key : String) (key : Option Scalar) → Query
  choices : (table value label : String) (active : Option SoftDelete) → Query

pub record World : Type 0 where
  pub read : Query → List Record
  pub to_int : Scalar → Option ℤ
  pub to_float : Scalar → Option Decimal
  pub to_text : Scalar → String
  pub is_date : String → Bool
  pub regex_matches : String → String → Bool

abbrev pub violation : String → Reason → List Violation
violation field reason = record { field = field; reason = reason } ∷ []

abbrev pub violation_if : Bool → String → Reason → List Violation
violation_if b field reason = if b then violation field reason else []

abbrev pub int_or_none : Option ℤ → Option Scalar
int_or_none none = none
int_or_none (some n) = some (int n)

abbrev pub float_or_none : Option Decimal → Option Scalar
float_or_none none = none
float_or_none (some d) = some (float d)

-- `value in allowed`
abbrev pub is_among : Scalar → List Scalar → Bool
is_among v [] = false
is_among v (w ∷ ws) = scalar_eq v w || is_among v ws

-- `fields.get(name)` where it is neither missing nor blank
abbrev pub given : String → Record → Option Scalar
given name fields = elim (lookup name fields) [
  | none ↦ none
  | some v ↦ if is_blank v then none else some v
]

-- `",".join(names)`
abbrev pub join : List String → String
join [] = ""
join (name ∷ []) = name
join (name ∷ names) = text_append name (text_append "," (join names))

-- The tests on texts and on numbers apply to a value of that kind only.
unfoldable pub check_length : String → Option ℕ → Scalar → List Violation
check_length name (some n) (text s) = violation_if (ltb n (count s)) name (too_long n)
check_length name limit v = []

abbrev pub less : Decimal → Decimal → Bool
less a b = not (le_decimal b a)

unfoldable pub check_min : String → Option Decimal → Option Decimal → List Violation
check_min name (some low) (some d) = violation_if (less d low) name below_minimum
check_min name low d = []

unfoldable pub check_max : String → Option Decimal → Option Decimal → List Violation
check_max name (some high) (some d) = violation_if (less high d) name above_maximum
check_max name high d = []

unfoldable pub check_allowed : String → Option (List Scalar) → Scalar → List Violation
check_allowed name none v = []
check_allowed name (some allowed) v = violation_if (not (is_among v allowed)) name not_allowed_value

unfoldable pub unknown_fields : Dict FieldRule → List String → List Violation
unknown_fields rules [] = []
unknown_fields rules (name ∷ names) =
    violation_if (not (contains name rules)) name unknown_field ++ unknown_fields rules names

-- The values of a set of unique fields, where the change has them all.
unfoldable pub unique_columns :
    Dict FieldRule → Record → List String → Record → Result RegistryError (Option Record)
unique_columns rules columns [] cols = ok (some cols)
unique_columns rules columns (fname ∷ fnames) cols = elim (lookup fname rules) [
  | none ↦ err (key_error fname)
  | some fr ↦ elim (lookup fr.column columns) [
    | none ↦ ok none
    | some v ↦ unique_columns rules columns fnames (insert fr.column v cols)
  ]
]

unfoldable pub other_key : EntityRule → Option Scalar → Option (String × Scalar)
other_key rule none = none
other_key rule (some k) = some (rule.primary_key, k)

abbrev pub is_one : Option Scalar → Bool
is_one none = false
is_one (some v) = scalar_eq v (int (pos 1))

abbrev pub first_count : List Record → Option Scalar
first_count [] = none
first_count (row ∷ rows) = lookup "cnt" row

abbrev pub is_existing : String → Bool
is_existing operation = operation == "update" || operation == "delete"

-- The end of `validate`: the target is looked up only if nothing was wrong.
unfoldable pub conclude :
    EntityRule → String → String → Option Scalar → Record → List Violation → ValidationResult
conclude rule entity operation target_pk columns (v ∷ vs) = invalid (v ∷ vs) entity rule.version
conclude rule entity operation target_pk columns [] =
    valid
      (record {
        entity = entity;
        operation = operation;
        table = rule.table;
        primary_key = rule.primary_key;
        columns = columns;
        target_pk = target_pk;
      })
      entity rule.version

module _ (world : World) where
  unfoldable pub coerce : FieldType → Scalar → Option Scalar
  coerce int_type v = int_or_none (world.to_int v)
  coerce float_type v = float_or_none (world.to_float v)
  coerce date_type v =
      if world.is_date (world.to_text v) then some (text (world.to_text v)) else none
  coerce string_type v = some (text (world.to_text v))

  unfoldable pub check_regex : String → Option String → Scalar → List Violation
  check_regex name (some pattern) (text s) =
      violation_if (not (world.regex_matches pattern s)) name invalid_format
  check_regex name pattern v = []

  unfoldable pub check_field_validation : String → FieldValidation → Scalar → List Violation
  unfolding check_length check_regex check_min check_max check_allowed
  check_field_validation name val v =
      check_length name val.max_length v
      ++ (check_regex name val.regex v
          ++ (check_min name val.min (number_of v)
              ++ (check_max name val.max (number_of v)
                  ++ check_allowed name (allowed_values val) v)))

  -- One field of the rule: the columns and the violations after it.
  unfoldable pub coerce_value :
      String → FieldRule → Option Scalar → Record × List Violation → Record × List Violation
  unfolding coerce check_field_validation
  coerce_value name fr none (columns, viols) =
      (columns, viols ++ violation name (wrong_type fr.type))
  coerce_value name fr (some v) (columns, viols) =
      (insert fr.column v columns, viols ++ check_field_validation name fr.validation v)

  unfoldable pub coerce_given :
      String
      → String
      → FieldRule
      → Option Scalar
      → Record × List Violation
      → Record × List Violation
  unfolding coerce_value
  coerce_given operation name fr none (columns, viols) =
      (columns, viols ++ violation_if (operation == "create" && fr.required) name is_required)
  coerce_given operation name fr (some raw) acc = coerce_value name fr (coerce fr.type raw) acc

  unfoldable pub coerce_field :
      String → Record → String → FieldRule → Record × List Violation → Record × List Violation
  unfolding coerce_given
  coerce_field operation fields name fr acc = coerce_given operation name fr (given name fields) acc

  unfoldable pub coerce_all :
      String → Record → Dict FieldRule → Record × List Violation → Record × List Violation
  unfolding coerce_field
  coerce_all operation fields [] acc = acc
  coerce_all operation fields ((name, fr) ∷ rest) acc =
      coerce_all operation fields rest (coerce_field operation fields name fr acc)

  unfoldable pub coerce_fields : EntityRule → String → Record → Record × List Violation
  unfolding coerce_all unknown_fields
  coerce_fields rule operation fields =
      coerce_all operation fields rule.fields ([], unknown_fields rule.fields (keys fields))

  unfoldable pub check_unique_set :
      EntityRule → List String → Option Scalar → Option Record → List Violation
  unfolding other_key
  check_unique_set rule fieldset target_pk none = []
  check_unique_set rule fieldset target_pk (some cols) =
      violation_if
        (not (
          is_empty (
            world.read
              (equal_columns rule.table cols rule.soft_delete (other_key rule target_pk)))))
        (join fieldset) (not_unique fieldset)

  unfoldable pub check_uniqueness :
      EntityRule
      → Record
      → Option Scalar
      → List (List String)
      → Result RegistryError (List Violation)
  unfolding unique_columns check_unique_set
  check_uniqueness rule columns target_pk [] = ok []
  check_uniqueness rule columns target_pk (fieldset ∷ rest) = do
    cols ← unique_columns rule.fields columns fieldset []
    later ← check_uniqueness rule columns target_pk rest
    ok (check_unique_set rule fieldset target_pk cols ++ later)

  -- A reference whose value cannot be converted was reported before.
  unfoldable pub check_reference : String → Reference → Option Scalar → List Violation
  check_reference fname ref none = []
  check_reference fname ref (some v) =
      violation_if (is_empty (world.read (referenced ref.table ref.column v))) fname
        (reference_missing ref.table)

  unfoldable pub check_given_reference :
      EntityRule → String → Reference → Option Scalar → Result RegistryError (List Violation)
  unfolding check_reference coerce
  check_given_reference rule fname ref none = ok []
  check_given_reference rule fname ref (some raw) = do
    fr ← or_raise (lookup fname rule.fields) (key_error fname)
    ok (check_reference fname ref (coerce fr.type raw))

  unfoldable pub check_references :
      EntityRule → Record → Dict Reference → Result RegistryError (List Violation)
  unfolding check_given_reference
  check_references rule fields [] = ok []
  check_references rule fields ((fname, ref) ∷ rest) = do
    here ← check_given_reference rule fname ref (given fname fields)
    later ← check_references rule fields rest
    ok (here ++ later)

  unfoldable pub check_target_exists : EntityRule → Option Scalar → List Violation
  check_target_exists rule target_pk =
      violation_if
        (not (is_one (first_count (world.read (count_key rule.table rule.primary_key target_pk)))))
        "target" target_not_found

  -- The columns of a create or an update, with all violations of the given fields.
  unfoldable pub check_columns_of :
      EntityRule → String → Record → Option Scalar → Result RegistryError (Record × List Violation)
  unfolding coerce_fields check_uniqueness check_references
  check_columns_of rule operation fields target_pk = do
    let coerced = coerce_fields rule operation fields
    unique ← check_uniqueness rule coerced.0 target_pk rule.uniqueness
    refs ← check_references rule fields rule.references
    ok (coerced.0, coerced.1 ++ (unique ++ refs))

  unfoldable pub check_target :
      EntityRule → String → Option Scalar → List Violation → List Violation
  unfolding check_target_exists
  check_target rule operation target_pk (v ∷ vs) = v ∷ vs
  check_target rule operation target_pk [] =
      if is_existing operation then check_target_exists rule target_pk else []

  unfoldable pub validate_rule :
      EntityRule → String → String → Record → Option Scalar → Result RegistryError ValidationResult
  unfolding check_columns_of conclude check_target
  validate_rule rule entity operation fields target_pk =
      if not (elem operation rule.operations)
      then ok (invalid (violation "operation" operation_not_allowed) entity rule.version)
      else if is_existing operation && not (is_some target_pk)
      then ok (invalid (violation "target" key_required) entity rule.version)
      else (if operation == "delete"
          then ok ([], [])
          else check_columns_of rule operation fields target_pk)
        >>= λ c. ok (
            conclude rule entity operation target_pk c.0
              (check_target rule operation target_pk c.1))

  unfoldable pub validate :
      Registry → String → String → Record → Option Scalar → Result RegistryError ValidationResult
  unfolding validate_rule
  validate registry entity operation fields target_pk = do
    rule ← get_rule entity registry
    validate_rule rule entity operation fields target_pk
