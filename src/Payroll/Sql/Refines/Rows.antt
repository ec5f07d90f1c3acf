-- ===== src/Payroll/Sql/Refines/Rows.antt =====
-- Rows and the values that they were made of.
use mathlib.Core.Path.{subst}
use erp_agent.Prelude.{
  String, Bool, true, false, ◌==◌, ◌&&◌, if◌then◌else◌, Option, none, some, [], ◌∷◌, Dict, lookup,
  insert, ok, ◌≡◌, refl, arith, eq_iff, lookup-insert, Bool-cases, inl, inr, sym,
}
use erp_agent.Payroll.Schemas.{
  CctReference, Employee, Contract, PayrollPeriod, TimeInput, validate_contract, validate_period,
}
use erp_agent.Payroll.Service.{PairDict, lookup_pair, insert_pair}
use erp_agent.Payroll.Engine.Executor.{PayslipResult}
use erp_agent.Payroll.Sql.{ContractRow}
use erp_agent.Payroll.Sql.Repositories.{Codec, Codecs}

-- What was written as JSON is read as it was.
abbrev pub RoundTrips : {A : Type 0} → Codec A → A → Type 0
RoundTrips codec a = codec.validate_json (codec.dump_json a) ≡ some a

-- What a table and a repository hold under one key: nothing, or a row that was made of the value.
abbrev pub IsRowOf : {Row A : Type 0} → (A → Row) → (A → Type 0) → Option Row → Option A → Type 0
IsRowOf f P none none = Unit {0}
IsRowOf f P none (some a) = ⊥
IsRowOf f P (some r) none = ⊥
IsRowOf f P (some r) (some a) = (r ≡ f a) × P a

abbrev pub Corresponds :
    {Row A : Type 0} → (A → Row) → (String → A → Type 0) → Dict Row → Dict A → Type 0
Corresponds f P table store = (k : String) → IsRowOf f (P k) (lookup k table) (lookup k store)

abbrev pub CorrespondsPairwise :
    {Row A : Type 0}
    → (A → Row)
    → (String → String → A → Type 0)
    → PairDict Row
    → PairDict A
    → Type 0
CorrespondsPairwise f P table store =
    (j k : String) → IsRowOf f (P j k) (lookup_pair j k table) (lookup_pair j k store)

and_both : (a b : Bool) → (a && b) ≡ true → (a ≡ true) × (b ≡ true)
and_both a b h = ground arith

lookup_pair-insert_pair :
    {V : Type 0} (a b c d : String) (v : V) (store : PairDict V)
    → lookup_pair c d (insert_pair a b v store)
      ≡ (if c == a && d == b then some v else lookup_pair c d store)
lookup_pair-insert_pair a b c d v [] = refl
lookup_pair-insert_pair a b c d v (((i, j), w) ∷ store) = ground (
  arith,
  eq_iff c a,
  eq_iff d b,
  eq_iff a i,
  eq_iff b j,
  eq_iff c i,
  eq_iff d j,
  lookup_pair-insert_pair a b c d v store,
)

module _ {Row A : Type 0} (f : A → Row) where
  pub Corresponds-insert :
      (P : String → A → Type 0) (k : String) (a : A) (table : Dict Row) (store : Dict A)
      → P k a
      → Corresponds f P table store
      → Corresponds f P (insert k (f a) table) (insert k a store)
  Corresponds-insert P k a table store p h j =
      rw (lookup-insert k j (f a) table, lookup-insert k j a store)
        (elim (Bool-cases (j == k)) [
          | inl same ↦ rw same (refl, subst (λ i. P i a) (sym ((eq_iff j k).0 same)) p)
          | inr other ↦ rw other (h j)
        ])

  pub CorrespondsPairwise-insert :
      (P : String → String → A → Type 0) (j k : String) (a : A) (table : PairDict Row)
      (store : PairDict A)
      → P j k a
      → CorrespondsPairwise f P table store
      → CorrespondsPairwise f P (insert_pair j k (f a) table) (insert_pair j k a store)
  CorrespondsPairwise-insert P j k a table store p h c d =
      rw (lookup_pair-insert_pair j k c d (f a) table, lookup_pair-insert_pair j k c d a store)
        (elim (Bool-cases (c == j && d == k)) [
          | inl same ↦
              let (e1, e2) = and_both (c == j) (d == k) same in
              rw same (
                refl,
                subst (λ i. P i d a) (sym ((eq_iff c j).0 e1))
                    (subst (λ i. P j i a) (sym ((eq_iff d k).0 e2)) p),
              )
          | inr other ↦ rw other (h c d)
        ])

-- The table's rows of an employee, and the contract that the repository holds for the employee.
abbrev pub IsOnlyContract :
    (Contract → ContractRow) → (Contract → Type 0) → Dict ContractRow → Option Contract → Type 0
IsOnlyContract f P [] none = Unit {0}
IsOnlyContract f P [] (some c) = ⊥
IsOnlyContract f P ((id, row) ∷ []) none = ⊥
IsOnlyContract f P ((id, row) ∷ []) (some c) = (row ≡ f c) × (id ≡ c.contract_id) × P c
IsOnlyContract f P (first ∷ second ∷ rest) c = ⊥

module _ (codecs : Codecs) where
  -- What is read of a value's row is the value: its JSON is read as it was, and a contract and a period pass
  -- the checks of their types, as every object of them does.
  abbrev pub IsReadableEmployee : Employee → Type 0
  IsReadableEmployee e = RoundTrips codecs.profile e.fiscal_profile

  abbrev pub IsReadableCct : Option CctReference → Type 0
  IsReadableCct none = Unit {0}
  IsReadableCct (some cct) = RoundTrips codecs.cct cct × ((codecs.cct.dump_json cct == "") ≡ false)

  abbrev pub IsReadableContract : Contract → Type 0
  IsReadableContract c = (validate_contract c ≡ ok c) × IsReadableCct c.cct_reference

  abbrev pub IsReadablePeriod : PayrollPeriod → Type 0
  IsReadablePeriod p = validate_period p ≡ ok p

  abbrev pub IsReadableTimeInput : TimeInput → Type 0
  IsReadableTimeInput t =
      RoundTrips codecs.overtime t.overtime_buckets × RoundTrips codecs.absences t.absences

  abbrev pub IsReadablePayslip : PayslipResult → Type 0
  IsReadablePayslip p =
      RoundTrips codecs.lines p.gross_earnings
      × RoundTrips codecs.lines p.deductions
      × RoundTrips codecs.lines p.employer_contributions
      × RoundTrips codecs.audit p.audit
