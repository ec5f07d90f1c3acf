-- ===== src/DevCare/Rules.antt =====
-- logic/devcare/rules (models.py, loader.py) and errors.py: the registry of entities and a change in its
-- checked form. A finite floating point number is the decimal that it is exactly; an operation is its name.
use erp_agent.Prelude.{
  ℕ, String, Bool, true, false, ◌&&◌, Option, none, some, List, [], ◌∷◌, ◌==◌, if◌then◌else◌, Dict,
  contains, lookup, insert, keys, map, Result, ok, err, or_raise,
}
use erp_agent.Prelude.Int.{ℤ}
use erp_agent.Decimal.{Decimal, le_decimal}

pub data Scalar : Type 0 where
  null : Scalar
  int : ℤ → Scalar
  float : Decimal → Scalar
  text : String → Scalar

abbrev pub Record : Type 0
Record = Dict Scalar

-- The value of a number, exactly.
abbrev pub number_of : Scalar → Option Decimal
number_of null = none
number_of (int n) = some (record { coeff = n; scale = 0 })
number_of (float d) = some d
number_of (text s) = none

abbrev pub same_number : Option Decimal → Option Decimal → Bool
same_number (some a) (some b) = le_decimal a b && le_decimal b a
same_number a b = false

-- `a == b` of Python, and `=` of SQL, under which NULL equals nothing
unfoldable pub scalar_eq : Scalar → Scalar → Bool
scalar_eq (text s) (text t) = s == t
scalar_eq a b = same_number (number_of a) (number_of b)

-- `value in (None, "")`
abbrev pub is_blank : Scalar → Bool
is_blank null = true
is_blank (text s) = s == ""
is_blank v = false

pub data FieldType : Type 0 where
  string_type int_type float_type date_type : FieldType

pub record EnumOption : Type 0 where
  pub value : Scalar
  pub label : String

pub record FieldValidation : Type 0 where
  pub max_length : Option ℕ
  pub regex : Option String
  pub min : Option Decimal
  pub max : Option Decimal
  pub enum : Option (List Scalar)
  pub options : Option (List EnumOption)

abbrev pub value_of : EnumOption → Scalar
value_of o = o.value

unfoldable pub allowed_values : FieldValidation → Option (List Scalar)
allowed_values v = elim v.options [ some os ↦ some (map value_of os) | none ↦ v.enum ]

pub record FieldRule : Type 0 where
  pub column : String
  pub type : FieldType
  pub required : Bool
  pub label : Option String
  pub validation : FieldValidation

pub record SoftDelete : Type 0 where
  pub column : String
  pub active_value : ℤ
  pub deleted_value : ℤ

pub record Reference : Type 0 where
  pub table : String
  pub column : String
  pub display_column : Option String

pub record AuditColumns : Type 0 where
  pub created_at : Option String
  pub updated_at : Option String
  pub created_by : Option String
  pub updated_by : Option String

pub record EntityRule : Type 0 where
  pub entity : String
  pub version : ℕ
  pub table : String
  pub primary_key : String
  pub operations : List String
  pub fields : Dict FieldRule
  pub soft_delete : Option SoftDelete
  pub references : Dict Reference
  pub uniqueness : List (List String)
  pub audit_columns : AuditColumns
  pub create_defaults : Record

pub data RegistryError : Type 0 where
  duplicate_entity : String → RegistryError
  key_error : String → RegistryError

abbrev pub Registry : Type 0
Registry = Dict EntityRule

-- `RuleLoader.__init__` over the documents of the directory, in the order of their names
unfoldable pub load_rules : List EntityRule → Registry → Result RegistryError Registry
load_rules [] rules = ok rules
load_rules (r ∷ rs) rules =
    if contains r.entity rules
    then err (duplicate_entity r.entity)
    else load_rules rs (insert r.entity r rules)

unfoldable pub entities : Registry → List String
entities rules = keys rules

unfoldable pub get_rule : String → Registry → Result RegistryError EntityRule
get_rule entity rules = or_raise (lookup entity rules) (key_error entity)

-- errors.py

pub record NormalizedChange : Type 0 where
  pub entity : String
  pub operation : String
  pub table : String
  pub primary_key : String
  pub columns : Record
  pub target_pk : Option Scalar

pub data Reason : Type 0 where
  operation_not_allowed : Reason
  key_required : Reason
  unknown_field : Reason
  is_required : Reason
  wrong_type : FieldType → Reason
  too_long : ℕ → Reason
  invalid_format : Reason
  below_minimum : Reason
  above_maximum : Reason
  not_allowed_value : Reason
  not_unique : List String → Reason
  reference_missing : String → Reason
  target_not_found : Reason

-- A violation names a field, or `operation` or `target`.
pub record Violation : Type 0 where
  pub field : String
  pub reason : Reason

-- `ValidationResult`: a change, or violations; the document and its version come with both.
pub data ValidationResult : Type 0 where
  valid : NormalizedChange → (rule_doc : String) → (rule_version : ℕ) → ValidationResult
  invalid : List Violation → (rule_doc : String) → (rule_version : ℕ) → ValidationResult
