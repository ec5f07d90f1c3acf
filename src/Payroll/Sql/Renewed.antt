-- ===== src/Payroll/Sql/Renewed.antt =====
-- An employee whose contract is renewed under another id.
use mathlib.Core.Path.{subst}
use erp_agent.Prelude.{
  String, true, false, ◌==◌, some, [], ◌∷◌, Dict, lookup, insert, Result, ok, err, ◌≡◌, refl, ap,
  ◌∙◌, arith, eq_iff, lookup-insert, lookup-insert_self, inl, inr, Bool-cases,
}
use erp_agent.Prelude.Exec.{◌>>◌}
use erp_agent.Payroll.Schemas.{Contract}
use erp_agent.Payroll.Service
use erp_agent.Payroll.Sql.{
  keyed, ContractRow, Database, SqlError, multiple_results, ColumnTypes, store_contract,
}
use erp_agent.Payroll.Sql.Repositories.{Codecs}
use erp_agent.Payroll.Sql.Repositories.Contracts.{
  contract_row, assign_contract, contracts_of, upsert_contract, read_only_contract,
  get_for_employee,
}
use erp_agent.Payroll.Sql.Memory.{Memory, contract, in_memory, in_sql, all_in_memory, all_in_sql}
use erp_agent.Payroll.Sql.Refines.{saved, IsStored}

-- A row of the employee is selected.
contracts_of-found :
    (e id : String) (row : ContractRow) (table : Dict ContractRow)
    → lookup id table ≡ some row
    → row.employee_id ≡ e
    → (first : String × ContractRow) × (rest : Dict ContractRow) × (contracts_of e table
        ≡ first ∷ rest)
unfolding contracts_of
contracts_of-found e id row [] h k = cc
contracts_of-found e id row ((j, s) ∷ table) h k = elim (Bool-cases (e == s.employee_id)) [
  | inl same ↦ ((j, s), contracts_of e table, rw same refl)
  | inr other ↦
      rw other
        (contracts_of-found e id row table (ground (arith, eq_iff id j, eq_iff e s.employee_id)) k)
]

abbrev Several : Dict ContractRow → Type 0
Several rows =
    (first second : String × ContractRow) × (rest : Dict ContractRow) × (rows
      ≡ first ∷ second ∷ rest)

-- The head is a row of the employee, and another one stands in the rest.
contracts_of-head :
    (e l j : String) (t s : ContractRow) (table : Dict ContractRow)
    → t.employee_id ≡ e
    → lookup j table ≡ some s
    → s.employee_id ≡ e
    → Several (contracts_of e ((l, t) ∷ table))
unfolding contracts_of
contracts_of-head e l j t s table p k q =
    let (first, rest, found) = contracts_of-found e j s table k q in
    let same : (e == t.employee_id) ≡ true = ground (arith, eq_iff e t.employee_id) in
    ((l, t), first, rest, rw same (ap (λ rows. (l, t) ∷ rows) found))

-- Two rows of the employee under different keys are selected both.
contracts_of-Several :
    (e i j : String) (r s : ContractRow) (table : Dict ContractRow)
    → (i == j) ≡ false
    → lookup i table ≡ some r
    → lookup j table ≡ some s
    → r.employee_id ≡ e
    → s.employee_id ≡ e
    → Several (contracts_of e table)
unfolding contracts_of
contracts_of-Several e i j r s [] d h k p q = cc
contracts_of-Several e i j r s ((l, t) ∷ table) d h k p q = elim (Bool-cases (i == l)) [
  | inl here ↦
      contracts_of-head e l j t s table (ground (arith, p))
        (ground (arith, eq_iff i l, eq_iff i j, eq_iff j l)) q
  | inr later ↦ elim (Bool-cases (j == l)) [
    | inl here ↦
        contracts_of-head e l i t r table (ground (arith, q))
          (ground (arith, eq_iff i l, eq_iff i j, eq_iff j l)) p
    | inr last ↦
        let (first, second, rest, found) =
          contracts_of-Several e i j r s table d (ground arith) (ground arith) p q in
        elim (Bool-cases (e == t.employee_id)) [
          | inl own ↦ ((l, t), first, second ∷ rest, rw own (ap (λ rows. (l, t) ∷ rows) found))
          | inr other ↦ (first, second, rest, rw other found)
        ]
  ]
]

module _ (codecs : Codecs) (types : ColumnTypes) where
  Several-refused :
      (rows : Dict ContractRow) (db : Database)
      → Several rows
      → read_only_contract codecs rows db ≡ (err multiple_results, db)
  Several-refused rows db (first, second, rest, found) = rw found refl

  abbrev pub IsStoredContract : Contract → Type 0
  IsStoredContract c =
      IsStored (contract_row codecs c) (keyed types (c.contract_id ∷ []) (contract_row codecs c))
        (store_contract types)

  written :
      (c : Contract) (db : Database)
      → IsStoredContract c
      → in_sql codecs types (contract c) db ≡ (
        ok tt,
        record db { contracts = insert c.contract_id (contract_row codecs c) db.contracts },
      )
  unfolding in_sql upsert_contract
  written c db k =
      saved c (contract_row codecs c) (λ s. lookup c.contract_id s.contracts)
        (keyed types (c.contract_id ∷ []) (contract_row codecs c)) (assign_contract codecs c)
        (store_contract types)
        (λ row s. record s { contracts = insert c.contract_id row s.contracts }) db (λ r. refl) k

  -- After two contracts of one employee under different ids, which the columns keep as they are, whatever
  -- was stored before: in memory the employee has the contract that came last, but to ask the database for
  -- the contract of the employee (get_for_employee) raises.
  pub renewed_unreadable :
      (old renewed : Contract) (m : Memory) (db : Database)
      → renewed.employee_id ≡ old.employee_id
      → (old.contract_id == renewed.contract_id) ≡ false
      → IsStoredContract old
      → IsStoredContract renewed
      → (db' : Database) × (all_in_sql codecs types (contract old ∷ contract renewed ∷ []) db
          ≡ (ok tt, db'))
        × (get_for_employee codecs old.employee_id db' ≡ (err multiple_results, db'))
        × (lookup old.employee_id
              (all_in_memory
                (contract old ∷ contract renewed ∷ [])
                m).repositories.contracts_by_employee
            ≡ some renewed)
  unfolding all_in_sql all_in_memory in_memory Service.upsert_contract get_for_employee
  renewed_unreadable old renewed m db same other k1 k2 =
      let first = insert old.contract_id (contract_row codecs old) db.contracts in
      let second = insert renewed.contract_id (contract_row codecs renewed) first in
      let store = insert old.employee_id old m.repositories.contracts_by_employee in
      (
        record db { contracts = second },
        ap
              (λ (out : Result SqlError (Unit {0}) × Database).
                ((λ (s : Database). out) >> all_in_sql codecs types (contract renewed ∷ [])) db)
              (written old db k1)
            ∙ ap
                (λ (out : Result SqlError (Unit {0}) × Database).
                  ((λ (s : Database). out) >> all_in_sql codecs types []) db)
                (written renewed (record db { contracts = first }) k2),
        Several-refused (contracts_of old.employee_id second) (record db { contracts = second })
            (contracts_of-Several old.employee_id old.contract_id renewed.contract_id
              (contract_row codecs old) (contract_row codecs renewed) second other
              (rw
                (lookup-insert renewed.contract_id old.contract_id (contract_row codecs renewed)
                  first)
                (rw other
                  (lookup-insert_self old.contract_id (contract_row codecs old) db.contracts)))
              (lookup-insert_self renewed.contract_id (contract_row codecs renewed) first) refl
              same),
        subst (λ e. lookup e (insert renewed.employee_id renewed store) ≡ some renewed) same
            (lookup-insert_self renewed.employee_id renewed store),
      )
