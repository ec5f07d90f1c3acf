-- ===== src/Payroll/Tests/Periods.antt =====
-- Opening a period of an empty repository.
use erp_agent.Prelude.{◌≡◌, ◌≤◌, ◌<◌, ◌⊎◌, [], ok, err}
use erp_agent.Payroll.Errors.{validation_error}
use erp_agent.Payroll.Schemas.{monthly, PayrollPeriod, opened}
use erp_agent.Payroll.Service.{PeriodDefinition, Repositories, open_period, get_period}
use erp_agent.Payroll.Service.Laws.{open_period-get_period}

abbrev january : PeriodDefinition
january = record {
  period_id = "2026-01";
  pay_frequency = monthly;
  start_date = 1;
  end_date = 31;
  pay_date = 31;
}

abbrev nothing : Repositories
nothing = record {
  employees = [];
  contracts_by_id = [];
  contracts_by_employee = [];
  periods = [];
  time_inputs = [];
  rule_cache = [];
}

open_period-get_period_example :
    ((31 < 1) × (open_period "acme" january nothing ≡ (err (validation_error "2026-01"), nothing)))
    ⊎ ((1 ≤ 31)
        × ((p : PayrollPeriod) × (s : Repositories) × (open_period "acme" january nothing
              ≡ (ok p, s))
            × (p.status ≡ opened)
            × (get_period "2026-01" s ≡ (ok p, s))))
open_period-get_period_example = open_period-get_period "acme" january nothing
