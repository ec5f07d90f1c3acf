-- ===== src/DevCare/Forms.antt =====
-- logic/devcare/form_builder.py: the form for creating or updating an entity. A date that the database
-- returns is its text; `str.capitalize` is a parameter.
pub mod Fields
use Prim.Native.String.{◌++◌ as text_append}
use erp_agent.Prelude.{
  ℕ, zero, suc, String, Bool, ◌&&◌, Option, none, some, List, [], ◌∷◌, ◌==◌, if◌then◌else◌, is_some,
  map, Dict, lookup,
}
use erp_agent.Chat.History.{take_text}
use erp_agent.DevCare.Rules.{
  Scalar, null, text, Record, is_blank, FieldType, string_type, int_type, float_type, date_type,
  EnumOption, FieldRule, SoftDelete, Reference, EntityRule, Registry,
}
use erp_agent.DevCare.Validator.{World, choices, row_of_key, given}

-- An option offered by a select; its label is a text.
pub record Choice : Type 0 where
  pub value : Scalar
  pub label : String

pub data Input : Type 0 where
  select : List Choice → Input
  date_input : Input
  whole_number any_number : Input
  text_input : (maxlength : Option ℕ) (pattern : Option String) → Input

pub record FormField : Type 0 where
  pub name : String
  pub label : String
  pub required : Bool
  pub input : Input
  pub value : Option Scalar

pub record Form : Type 0 where
  pub entity : String
  pub operation : String
  pub target_pk : Option Scalar
  pub title : String
  pub fields : List FormField

-- `_OPTIONS_CAP`
abbrev pub options_cap : ℕ
options_cap = 1000

-- `rows[:n]`
abbrev pub take_rows : ℕ → List Record → List Record
take_rows zero rows = []
take_rows (suc n) [] = []
take_rows (suc n) (row ∷ rows) = row ∷ take_rows n rows

-- `a or b` on a text that may be missing
abbrev pub or_else : Option String → String → String
or_else none b = b
or_else (some a) b = if a == "" then b else a

-- The flag of the first registered entity on the table that has one.
unfoldable pub active_flag : String → Registry → Option SoftDelete
active_flag table [] = none
active_flag table ((name, rule) ∷ rest) =
    let later = active_flag table rest in
    if rule.table == table && is_some rule.soft_delete then rule.soft_delete else later

abbrev pub choice_of_option : EnumOption → Choice
choice_of_option o = record { value = o.value; label = o.label }

module _ (world : World) where
  unfoldable pub format_value : FieldType → Scalar → Option Scalar
  format_value date_type raw =
      if is_blank raw then none else some (text (take_text 10 (world.to_text raw)))
  format_value type raw = if is_blank raw then none else some raw

  abbrev pub label_of : Option Scalar → Scalar → String
  label_of none v = world.to_text v
  label_of (some label) v = if is_blank label then world.to_text v else world.to_text label

  abbrev pub add_choice : Option Scalar → Option Scalar → List Choice → List Choice
  add_choice none label rest = rest
  add_choice (some null) label rest = rest
  add_choice (some v) label rest = record { value = v; label = label_of label v } ∷ rest

  abbrev pub choices_of : List Record → List Choice
  choices_of [] = []
  choices_of (row ∷ rows) = add_choice (lookup "value" row) (lookup "label" row) (choices_of rows)

  unfoldable pub reference_options : Reference → Registry → List Choice
  unfolding active_flag
  reference_options ref registry = choices_of (
      take_rows options_cap (
        world.read (
          choices ref.table ref.column (or_else ref.display_column ref.column)
            (active_flag ref.table registry))))

  abbrev pub typed_input : FieldRule → Input
  typed_input fr = elim fr.type [
    | date_type ↦ date_input
    | int_type ↦ whole_number
    | float_type ↦ any_number
    | string_type ↦ text_input fr.validation.max_length fr.validation.regex
  ]

  abbrev pub option_input : Option (List EnumOption) → FieldRule → Input
  option_input none fr = typed_input fr
  option_input (some os) fr = select (map choice_of_option os)

  unfoldable pub input_spec : String → FieldRule → EntityRule → Registry → Input
  unfolding reference_options
  input_spec fname fr rule registry = elim (lookup fname rule.references) [
    | some ref ↦ select (reference_options ref registry)
    | none ↦ option_input fr.validation.options fr
  ]

  abbrev pub current_value : FieldType → Option Scalar → Option Scalar
  current_value type none = none
  current_value type (some raw) = format_value type raw

  abbrev pub field_value : Option Scalar → FieldRule → Record → Option Scalar
  field_value (some v) fr current = some v
  field_value none fr current = current_value fr.type (lookup fr.column current)

  unfoldable pub build_field :
      EntityRule → Registry → Record → Record → String → FieldRule → FormField
  unfolding input_spec format_value
  build_field rule registry prefill current fname fr = record {
    name = fname;
    label = or_else fr.label fname;
    required = fr.required;
    input = input_spec fname fr rule registry;
    value = field_value (given fname prefill) fr current;
  }

  unfoldable pub build_fields :
      EntityRule → Registry → Record → Record → Dict FieldRule → List FormField
  unfolding build_field
  build_fields rule registry prefill current [] = []
  build_fields rule registry prefill current ((fname, fr) ∷ rest) =
      build_field rule registry prefill current fname fr
      ∷ build_fields rule registry prefill current rest

  abbrev pub first_row : List Record → Record
  first_row [] = []
  first_row (row ∷ rows) = row

  unfoldable pub current_row : EntityRule → String → Option Scalar → Record
  current_row rule operation target_pk =
      if operation == "update" && is_some target_pk
      then first_row (world.read (row_of_key rule.table rule.primary_key target_pk))
      else []

  unfoldable pub build_form :
      (String → String) → EntityRule → Registry → String → Option Scalar → Record → Form
  unfolding current_row build_fields
  build_form capitalize rule registry operation target_pk prefill = record {
    entity = rule.entity;
    operation = operation;
    target_pk = target_pk;
    title = text_append (capitalize operation) (text_append " " rule.entity);
    fields = build_fields rule registry prefill (current_row rule operation target_pk) rule.fields;
  }
