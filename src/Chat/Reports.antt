-- ===== src/Chat/Reports.antt =====
-- logic/chat/report_store.py: the reports in memory, oldest first.
use erp_agent.Prelude.{
  ℕ, zero, suc, ◌-◌, ◌≤◌, ◌≡◌, ap, arith, String, Bool, none, some, [], ◌∷◌, ◌++◌, length,
  length-append, Dict, lookup, contains, erase, lookup-erase, eq_refl, Result, ok, or_raise,
}

pub record Report : Type 0 where
  pub title : String
  pub html : String

pub data ReportError : Type 0 where
  report_not_found : String → ReportError

abbrev pub drop_first : ℕ → Dict Report → Dict Report
drop_first zero d = d
drop_first (suc n) [] = []
drop_first (suc n) (x ∷ d) = drop_first n d

-- A report that is there again goes to the end; then the oldest go until the bound holds.
unfoldable pub register_report : ℕ → String → Report → Dict Report → Dict Report
register_report max_entries rid report store =
    let store' = erase rid store ++ (rid, report) ∷ [] in
    drop_first (length store' - max_entries) store'

unfoldable pub has_report : String → Dict Report → Bool
has_report rid store = contains rid store

unfoldable pub get_report : String → Dict Report → Result ReportError Report
get_report rid store = or_raise (lookup rid store) (report_not_found rid)

unfoldable pub clear_reports : Dict Report → Dict Report
clear_reports store = []

length-drop_first : (n : ℕ) (d : Dict Report) → length (drop_first n d) ≡ length d - n
length-drop_first zero d = omega arith
length-drop_first (suc n) [] = omega arith
length-drop_first (suc n) (x ∷ d) = omega (arith, length-drop_first n d)

lookup-drop_first_snoc :
    (n : ℕ) (rid : String) (r : Report) (d : Dict Report)
    → n ≤ length d
    → lookup rid d ≡ none
    → lookup rid (drop_first n (d ++ (rid, r) ∷ [])) ≡ some r
lookup-drop_first_snoc zero rid r [] h e = ground (arith, eq_refl rid)
lookup-drop_first_snoc zero rid r ((k, v) ∷ d) h e =
    ground (arith, lookup-drop_first_snoc zero rid r d, e)
lookup-drop_first_snoc (suc n) rid r [] h e = ground (arith, h)
lookup-drop_first_snoc (suc n) rid r ((k, v) ∷ d) h e =
    lookup-drop_first_snoc n rid r d (omega (arith, h)) (ground (arith, e))

-- After a registration the store is within its bound, whatever it held before, and the new report can be
-- fetched.
pub register_report-get :
    (max_entries : ℕ) (rid : String) (report : Report) (store : Dict Report)
    → (length (register_report (suc max_entries) rid report store) ≤ suc max_entries)
      × (get_report rid (register_report (suc max_entries) rid report store) ≡ ok report)
unfolding register_report get_report
register_report-get max_entries rid report store =
    let kept = erase rid store in
    let n = length (kept ++ (rid, report) ∷ []) - suc max_entries in
    let longer = length-append kept ((rid, report) ∷ []) in
    (
      omega (arith, length-drop_first n (kept ++ (rid, report) ∷ [])),
      ap (λ o. or_raise o (report_not_found rid))
          (lookup-drop_first_snoc n rid report kept (omega (arith, longer))
            (ground (arith, lookup-erase rid rid store, eq_refl rid))),
    )
