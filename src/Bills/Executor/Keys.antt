-- ===== src/Bills/Executor/Keys.antt =====
-- The key that a new row gets.
use erp_agent.Prelude.{
  ℕ, suc, ◌≤◌, ◌<◌, ◌≡◌, refl, arith, String, List, [], ◌∷◌, All, All-map, lookup, ok,
}
use erp_agent.Bills.Executor.{
  Record, Database, Session, number_of, max_chave, rows_of, full_name, next_key,
}

abbrev pub key_of : Record → ℕ
key_of row = number_of (lookup "Chave" row)

max_chave-le : (rows : List Record) → All (λ row. key_of row ≤ max_chave rows) rows
unfolding max_chave
max_chave-le [] = tt
max_chave-le (row ∷ rows) =
    (ground arith, All-map (λ r h. ground (arith, h)) rows (max_chave-le rows))

-- The next key of a table is larger than the key of every row that the table holds at that moment, those
-- inserted earlier in the same transaction included, and reading it changes nothing.
pub next_key-fresh :
    (session : Session) (table : String) (db : Database)
    → (k : ℕ) × (next_key session table db ≡ (ok k, db))
      × All (λ row. key_of row < k) (rows_of (lookup (full_name session table) db))
unfolding next_key
next_key-fresh session table db =
    let rows = rows_of (lookup (full_name session table) db) in
    (suc (max_chave rows), refl, All-map (λ r h. omega (arith, h)) rows (max_chave-le rows))
