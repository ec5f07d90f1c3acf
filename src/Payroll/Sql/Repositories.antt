-- ===== src/Payroll/Sql/Repositories.antt =====
-- db/repositories/sqlserver.py: what its repositories share. A row is read as the database holds it: the objects
-- that a session keeps of its own rows are left out. What pydantic writes and reads as JSON is a parameter.
pub mod Employees
pub mod Contracts
pub mod Periods
pub mod TimeInputs
pub mod Payslips
use erp_agent.Prelude.{String, Option, none, some, List, Result, ok, err, or_raise}
use erp_agent.Prelude.Exec.{Exec, gets, lift, modify, ◌>>=◌, ◌>>◌}
use erp_agent.Payroll.Errors.{PayrollError}
use erp_agent.Payroll.Schemas.{
  FiscalProfile, CctReference, AbsenceEntry, OvertimeBuckets, PayslipLine,
}
use erp_agent.Payroll.Engine.Executor.{AuditTrailEntry}
use erp_agent.Payroll.Sql.{Database, SqlError, bad_json, invalid}

-- `model_dump_json` and `model_validate_json` of a type, or those of a `TypeAdapter`
pub record Codec (A : Type 0) : Type 0 where
  pub dump_json : A → String
  pub validate_json : String → Option A

pub record Codecs : Type 0 where
  pub profile : Codec FiscalProfile
  pub cct : Codec CctReference
  pub overtime : Codec OvertimeBuckets
  pub absences : Codec (List AbsenceEntry)
  pub lines : Codec (List PayslipLine)
  pub audit : Codec (List AuditTrailEntry)

abbrev pub Sql : Type 0 → Type 0
Sql = Exec SqlError Database

abbrev pub validated : {A : Type 0} → Result PayrollError A → Result SqlError A
validated (ok a) = ok a
validated (err e) = err (invalid e)

abbrev pub read_json : {A : Type 0} → Codec A → String → Sql A
read_json codec s = lift (or_raise (codec.validate_json s) bad_json)

-- `session.get`, then a new row or new values in the row that is there, and `flush`
unfoldable pub save :
    {Row : Type 0}
    → (Database → Option Row)
    → Result SqlError Row
    → (Row → Row)
    → (Row → Result SqlError Row)
    → (Row → Database → Database)
    → Sql (Unit {0})
save find fresh assign store put = do
  found ← gets find
  row ← lift (elim found [ none ↦ fresh | some row ↦ ok (assign row) ])
  kept ← lift (store row)
  modify (put kept)
