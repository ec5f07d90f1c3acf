-- ===== src/Payroll/Rules.antt =====
-- logic/payroll/rules/models.py: the rule documents of the layers. `dict[str, Any]` holds values
-- that YAML can write; a number has been quoted, and is a text.
pub mod Loader
pub mod Resolver
pub mod Snapshot
pub mod Sort
pub mod Plan
use erp_agent.Prelude.{ℕ, String, Bool, Option, List, eqb, Dict}
use erp_agent.Prelude.Int.{ℤ}

mutual
  pub data Value : Type 0 where
    null : Value
    bool : Bool → Value
    int : ℤ → Value
    str : String → Value
    seq : Values → Value

  pub data Values : Type 0 where
    nil : Values
    cons : Value → Values → Values

abbrev pub Params : Type 0
Params = Dict Value

pub data ComponentType : Type 0 where
  earning deduction employer_contribution : ComponentType

pub data Phase : Type 0 where
  input gross pre_tax_deduction tax post_tax employer_contribution : Phase

abbrev pub type_rank : ComponentType → ℕ
type_rank earning = 0
type_rank deduction = 1
type_rank ComponentType.employer_contribution = 2

-- The place of a phase in `PHASE_ORDER`.
abbrev pub phase_rank : Phase → ℕ
phase_rank input = 0
phase_rank gross = 1
phase_rank pre_tax_deduction = 2
phase_rank tax = 3
phase_rank post_tax = 4
phase_rank Phase.employer_contribution = 5

abbrev pub type_eq : ComponentType → ComponentType → Bool
type_eq a b = eqb (type_rank a) (type_rank b)

abbrev pub phase_eq : Phase → Phase → Bool
phase_eq a b = eqb (phase_rank a) (phase_rank b)

pub record ComponentDecl : Type 0 where
  pub type : ComponentType
  pub phase : Phase
  pub primitive : String
  pub parameters : Params
  pub inputs_required : List String
  pub taxable : Bool
  pub subject_to_tsu : Bool
  pub disabled : Bool
  pub locked : Bool
  pub clause : Option String

pub record RuleDocumentMetadata : Type 0 where
  pub jurisdiction : String
  pub effective_from : String
  pub version : String

pub record RuleDocument : Type 0 where
  pub metadata : RuleDocumentMetadata
  pub components : Dict ComponentDecl
