-- ===== src/Payroll/Service/Laws.antt =====
-- What the service promises of the contracts and periods that it stores.
use erp_agent.Prelude.{
  ◌≡◌, refl, ◌⊎◌, inl, inr, arith, String, Bool-cases, insert, lookup-insert_self, ok, err, ltb,
  ◌≤◌, ◌<◌,
}
use erp_agent.Payroll.Errors.{validation_error}
use erp_agent.Payroll.Schemas.{PayrollPeriod, opened, validate_period}
use erp_agent.Payroll.Service.{
  PeriodDefinition, Repositories, upsert_period, open_period, get_period,
}

-- Opening a period whose dates are in order succeeds whatever is stored under its id, a closed period too,
-- and the period is open from then on; dates out of order are refused and nothing changes.
pub open_period-get_period :
    (company_id : String) (d : PeriodDefinition) (s : Repositories)
    → ((d.end_date < d.start_date)
        × (open_period company_id d s ≡ (err (validation_error d.period_id), s)))
      ⊎ ((d.start_date ≤ d.end_date)
          × ((p : PayrollPeriod) × (s' : Repositories) × (open_period company_id d s ≡ (ok p, s'))
              × (p.status ≡ opened)
              × (get_period d.period_id s' ≡ (ok p, s'))))
unfolding open_period upsert_period get_period validate_period
open_period-get_period company_id d s = elim (Bool-cases (ltb d.end_date d.start_date)) [
  | inl backwards ↦ inl (ground (arith, backwards), rw backwards refl)
  | inr fine ↦
      let p : PayrollPeriod = record {
        period_id = d.period_id;
        company_id = company_id;
        pay_frequency = d.pay_frequency;
        start_date = d.start_date;
        end_date = d.end_date;
        pay_date = d.pay_date;
        status = opened;
      } in
      inr (
        ground (arith, fine),
        (
          p,
          record s { periods = insert d.period_id p s.periods },
          rw fine refl,
          refl,
          rw (lookup-insert_self d.period_id p s.periods) refl,
        ),
      )
]
