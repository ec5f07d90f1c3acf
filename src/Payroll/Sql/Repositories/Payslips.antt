-- ===== src/Payroll/Sql/Repositories/Payslips.antt =====
-- db/repositories/sqlserver.py (SqlServerPayslipRepository).
use erp_agent.Prelude.{[], ◌∷◌, String, Option, none, some}
use erp_agent.Prelude.Exec.{pure, gets, ◌>>=◌, ◌>>◌}
use erp_agent.Payroll.Service.{lookup_pair, insert_pair}
use erp_agent.Payroll.Engine.Executor.{PayslipResult}
use erp_agent.Payroll.Sql.{keyed, PayslipRow, ColumnTypes, store_payslip}
use erp_agent.Payroll.Sql.Repositories.{Codecs, Sql, read_json, save}

module _ (codecs : Codecs) where
  abbrev pub payslip_row : PayslipResult → PayslipRow
  payslip_row p = record {
    gross_earnings = codecs.lines.dump_json p.gross_earnings;
    deductions = codecs.lines.dump_json p.deductions;
    employer_contributions = codecs.lines.dump_json p.employer_contributions;
    net_pay = p.net_pay;
    audit = codecs.audit.dump_json p.audit;
  }

  abbrev pub assign_payslip : PayslipResult → PayslipRow → PayslipRow
  assign_payslip p row = record row {
    gross_earnings = codecs.lines.dump_json p.gross_earnings;
    deductions = codecs.lines.dump_json p.deductions;
    employer_contributions = codecs.lines.dump_json p.employer_contributions;
    net_pay = p.net_pay;
    audit = codecs.audit.dump_json p.audit;
  }

  unfoldable pub upsert_payslip : ColumnTypes → PayslipResult → Sql PayslipResult
  unfolding save keyed
  upsert_payslip types p = do
    save (λ s. lookup_pair p.period_id p.employee_id s.payslips)
        (keyed types (p.period_id ∷ p.employee_id ∷ []) (payslip_row p)) (assign_payslip p)
        (store_payslip types)
        (λ row s. record s { payslips = insert_pair p.period_id p.employee_id row s.payslips })
    pure p

  abbrev pub read_payslip : String → String → Option PayslipRow → Sql (Option PayslipResult)
  read_payslip period_id employee_id none = pure none
  read_payslip period_id employee_id (some row) = do
    gross_earnings ← read_json codecs.lines row.gross_earnings
    deductions ← read_json codecs.lines row.deductions
    employer_contributions ← read_json codecs.lines row.employer_contributions
    audit ← read_json codecs.audit row.audit
    pure (
        some (record {
          period_id = period_id;
          employee_id = employee_id;
          gross_earnings = gross_earnings;
          deductions = deductions;
          employer_contributions = employer_contributions;
          net_pay = row.net_pay;
          audit = audit;
        }))

  unfoldable pub get_payslip : String → String → Sql (Option PayslipResult)
  get_payslip period_id employee_id = do
    row ← gets (λ s. lookup_pair period_id employee_id s.payslips)
    read_payslip period_id employee_id row
