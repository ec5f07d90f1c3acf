-- ===== src/Payroll/Sql/Contracts.antt =====
-- The contracts of an employee in a table whose contracts and employees are assigned to each other.
use erp_agent.Prelude.{
  String, ◌==◌, if◌then◌else◌, none, [], ◌∷◌, Dict, lookup, insert, ◌≡◌, refl, arith, eq_iff,
  lookup-insert,
}
use erp_agent.Payroll.Sql.{ContractRow}
use erp_agent.Payroll.Sql.Repositories.Contracts.{contracts_of}

module _ (owner its : String → String) where
  -- Each row is its employee's one contract.
  abbrev pub IsAssigned : Dict ContractRow → Type 0
  IsAssigned [] = Unit {0}
  IsAssigned ((id, row) ∷ rest) =
      (owner id ≡ row.employee_id)
      × (its row.employee_id ≡ id)
      × (lookup id rest ≡ none)
      × IsAssigned rest

  pub insert-IsAssigned :
      (id : String) (row : ContractRow) (table : Dict ContractRow)
      → owner id ≡ row.employee_id
      → its row.employee_id ≡ id
      → IsAssigned table
      → IsAssigned (insert id row table)
  insert-IsAssigned id row [] o i h = (o, i, refl, tt)
  insert-IsAssigned id row ((j, s) ∷ rest) o i (p, q, r, h) = ground (
    arith,
    eq_iff id j,
    eq_iff j id,
    lookup-insert id j row rest,
    insert-IsAssigned id row rest o i h,
  )

  contracts_of-none :
      (employee_id : String) (table : Dict ContractRow)
      → IsAssigned table
      → lookup (its employee_id) table ≡ none
      → contracts_of employee_id table ≡ []
  unfolding contracts_of
  contracts_of-none e [] h n = refl
  contracts_of-none e ((j, s) ∷ rest) (p, q, r, h) n =
      ground (arith, eq_iff e s.employee_id, eq_iff (its e) j, contracts_of-none e rest h)

  pub contracts_of-insert :
      (e id : String) (row : ContractRow) (table : Dict ContractRow)
      → owner id ≡ row.employee_id
      → its row.employee_id ≡ id
      → IsAssigned table
      → contracts_of e (insert id row table)
        ≡ (if e == row.employee_id then (id, row) ∷ [] else contracts_of e table)
  unfolding contracts_of
  contracts_of-insert e id row [] o i h = refl
  contracts_of-insert e id row ((j, s) ∷ rest) o i (p, q, r, h) = ground (
    arith,
    eq_iff id j,
    eq_iff e row.employee_id,
    eq_iff e s.employee_id,
    contracts_of-insert e id row rest o i h,
    contracts_of-none e rest h,
  )
