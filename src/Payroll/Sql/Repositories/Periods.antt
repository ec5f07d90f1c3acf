-- ===== src/Payroll/Sql/Repositories/Periods.antt =====
-- db/repositories/sqlserver.py (SqlServerPeriodRepository).
use erp_agent.Prelude.{[], ◌∷◌, String, Option, none, some, lookup, insert}
use erp_agent.Prelude.Exec.{pure, gets, lift, ◌>>=◌, ◌>>◌}
use erp_agent.Payroll.Schemas.{PayrollPeriod, validate_period}
use erp_agent.Payroll.Sql.{keyed, PayrollPeriodRow, ColumnTypes, store_period}
use erp_agent.Payroll.Sql.Repositories.{Codecs, Sql, validated, save}

module _ (codecs : Codecs) where
  abbrev pub period_row : PayrollPeriod → PayrollPeriodRow
  period_row p = record {
    company_id = p.company_id;
    pay_frequency = p.pay_frequency;
    start_date = p.start_date;
    end_date = p.end_date;
    pay_date = p.pay_date;
    status = p.status;
  }

  abbrev pub assign_period : PayrollPeriod → PayrollPeriodRow → PayrollPeriodRow
  assign_period p row = record row {
    company_id = p.company_id;
    pay_frequency = p.pay_frequency;
    start_date = p.start_date;
    end_date = p.end_date;
    pay_date = p.pay_date;
    status = p.status;
  }

  unfoldable pub upsert_period : ColumnTypes → PayrollPeriod → Sql PayrollPeriod
  unfolding save keyed
  upsert_period types p = do
    save (λ s. lookup p.period_id s.periods) (keyed types (p.period_id ∷ []) (period_row p))
        (assign_period p) (store_period types)
        (λ row s. record s { periods = insert p.period_id row s.periods })
    pure p

  abbrev pub read_period : String → Option PayrollPeriodRow → Sql (Option PayrollPeriod)
  read_period id none = pure none
  read_period id (some row) = do
    period ← lift (
        validated (
          validate_period (record {
            period_id = id;
            company_id = row.company_id;
            pay_frequency = row.pay_frequency;
            start_date = row.start_date;
            end_date = row.end_date;
            pay_date = row.pay_date;
            status = row.status;
          })))
    pure (some period)

  unfoldable pub get_period : String → Sql (Option PayrollPeriod)
  get_period id = do row ← gets (λ s. lookup id s.periods); read_period id row
