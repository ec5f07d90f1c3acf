-- ===== src/Bills/Rules.antt =====
-- logic/bills/rules/models.py: the rule document of a purchase invoice. A cell of a database row is a
-- number, a text or NULL; keys and numeric defaults are natural numbers.
use erp_agent.Prelude.{ℕ, String, Bool, Option, List, Dict}

pub data Cell : Type 0 where
  int : ℕ → Cell
  text : String → Cell
  null : Cell

pub record TipoDocRef : Type 0 where
  pub code : String

-- `HeaderFieldRule` and `LineFieldRule`, which have the same fields
pub record FieldRule : Type 0 where
  pub column : String
  pub source : String
  pub required : Bool

pub record HeaderRule : Type 0 where
  pub table : String
  pub primary_key : String
  pub tipo_doc : TipoDocRef
  pub draft_defaults : Dict Cell
  pub audit_columns : Dict String
  pub fields : Dict FieldRule

pub record LinesRule : Type 0 where
  pub table : String
  pub parent_fk : String
  pub fields : Dict FieldRule

pub record MatchTargetRule : Type 0 where
  pub table : String
  pub tipo : Option String
  pub match_on : List String
  pub create : Bool
  pub create_defaults : Dict Cell
  pub create_columns : List String

pub record MatchingRule : Type 0 where
  pub supplier : MatchTargetRule
  pub article : MatchTargetRule

pub record PurchaseInvoiceRule : Type 0 where
  pub document : String
  pub version : ℕ
  pub header : HeaderRule
  pub lines : LinesRule
  pub matching : MatchingRule
