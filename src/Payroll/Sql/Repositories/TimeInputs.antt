-- ===== src/Payroll/Sql/Repositories/TimeInputs.antt =====
-- db/repositories/sqlserver.py (SqlServerTimeInputRepository). That hours are not negative, which a time input
-- was checked for when it was made, is not checked again when it is read.
use erp_agent.Prelude.{[], ◌∷◌, String, Option, none, some}
use erp_agent.Prelude.Exec.{pure, gets, ◌>>=◌, ◌>>◌}
use erp_agent.Payroll.Schemas.{TimeInput}
use erp_agent.Payroll.Service.{lookup_pair, insert_pair}
use erp_agent.Payroll.Sql.{keyed, TimeInputRow, ColumnTypes, store_time_input}
use erp_agent.Payroll.Sql.Repositories.{Codecs, Sql, read_json, save}

module _ (codecs : Codecs) where
  abbrev pub time_input_row : TimeInput → TimeInputRow
  time_input_row t = record {
    normal_hours = t.normal_hours;
    overtime_buckets = codecs.overtime.dump_json t.overtime_buckets;
    absences = codecs.absences.dump_json t.absences;
    meal_allowance_days = t.meal_allowance_days;
    notes = t.notes;
  }

  abbrev pub assign_time_input : TimeInput → TimeInputRow → TimeInputRow
  assign_time_input t row = record row {
    normal_hours = t.normal_hours;
    overtime_buckets = codecs.overtime.dump_json t.overtime_buckets;
    absences = codecs.absences.dump_json t.absences;
    meal_allowance_days = t.meal_allowance_days;
    notes = t.notes;
  }

  unfoldable pub upsert_time_input : ColumnTypes → TimeInput → Sql TimeInput
  unfolding save keyed
  upsert_time_input types t = do
    save (λ s. lookup_pair t.period_id t.employee_id s.time_inputs)
        (keyed types (t.period_id ∷ t.employee_id ∷ []) (time_input_row t)) (assign_time_input t)
        (store_time_input types)
        (λ row s. record s {
          time_inputs = insert_pair t.period_id t.employee_id row s.time_inputs;
        })
    pure t

  abbrev pub read_time_input : String → String → Option TimeInputRow → Sql (Option TimeInput)
  read_time_input period_id employee_id none = pure none
  read_time_input period_id employee_id (some row) = do
    overtime ← read_json codecs.overtime row.overtime_buckets
    absences ← read_json codecs.absences row.absences
    pure (
        some (record {
          period_id = period_id;
          employee_id = employee_id;
          normal_hours = row.normal_hours;
          overtime_buckets = overtime;
          absences = absences;
          meal_allowance_days = row.meal_allowance_days;
          notes = row.notes;
        }))

  unfoldable pub get_time_input : String → String → Sql (Option TimeInput)
  get_time_input period_id employee_id = do
    row ← gets (λ s. lookup_pair period_id employee_id s.time_inputs)
    read_time_input period_id employee_id row
