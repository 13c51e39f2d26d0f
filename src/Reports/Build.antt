-- ===== src/Reports/Build.antt =====
-- backend/src/reports/reports.service.ts: `build`, with `eachDay` of backend/src/common/dates.ts on
-- the YYYYMMDD numbers of the days. What the accounts of the program hold comes in as an argument,
-- and so do the canonical text of a report and its hash.
pub mod Confirmed
pub mod Paid
mod Tests
use axel_sol.Prelude.{
  ℕ, zero, suc, ◌+◌, ◌-◌, ◌*◌, ◌/◌, ◌%◌, String, Bool, true, false, Option, none, some, List, [],
  ◌∷◌, map, ◌==◌, find, str_eq, Text,
}
use axel_sol.Dates.Utc.{Civil, civil_of_days, days_of_civil}
use axel_sol.Telemetry.Store.{StoredDay, ChainLink, days_between}
use axel_sol.Telemetry.Store as Days
use axel_sol.Telemetry.Chain.{
  Project, ProjectState, operating, View, in_sync, pending, diverged, reconcile_now,
}
use axel_sol.Telemetry.Chain as Chain
use axel_sol.Reports.Report.{ReportInput, RevenueReport, ReportDay, ReportContext, build_report}
use axel_sol.Reports.Deposit.{
  Refusal, not_in_fleet, no_project, chain_diverged, chain_error, report_refused, missing_days,
  Result, ok, refused, ◌>>=◌, ◌>>◌,
}
use axel_sol.Reports.Attest.{ProjectAccount, BuiltReport, or_refuse}

abbrev pub max_report_days : ℕ
max_report_days = 31

-- The day since 1970 of a YYYYMMDD number, and back.
unfoldable pub to_utc_day : ℕ → ℕ
unfolding days_of_civil
to_utc_day date =
    days_of_civil (record { year = date / 10_000; month = date / 100 % 100 - 1; day = date % 100 })

abbrev pub number_of : Civil → ℕ
number_of c = c.year * 10_000 + (c.month + 1) * 100 + c.day

unfoldable pub from_utc_day : ℕ → ℕ
unfolding civil_of_days
from_utc_day n = number_of (civil_of_days n)

abbrev pub days_from : ℕ → ℕ → List ℕ
days_from start zero = []
days_from start (suc n) = from_utc_day start ∷ days_from (start + 1) n

unfoldable pub each_day : ℕ → ℕ → List ℕ
unfolding to_utc_day
each_day start end = days_from (to_utc_day start) (to_utc_day end + 1 - to_utc_day start)

pub record FleetCar : Type 0 where
  pub mint_address : String
  pub park_fee_bps : ℕ

-- What the accounts of the program and the clock say.
pub record ChainState : Type 0 where
  pub project : Option Project
  pub operator : String
  pub period_count : ℕ
  pub payment_mint : String
  pub decimals : ℕ
  pub height : ℕ
  pub now : ℕ

abbrev pub is_operating : ProjectState → Bool
is_operating operating = true
is_operating _ = false

abbrev pub account_of : Project → ChainState → ProjectAccount
account_of p c = record {
  oracle = p.oracle;
  operator = c.operator;
  is_operating = is_operating p.state;
  period_count = c.period_count;
}

-- The project of a view that a report may be built from.
abbrev pub usable : View → Result Project
usable Chain.no_project = refused no_project
usable (diverged p) = refused chain_diverged
usable (in_sync p) = ok p
usable (pending p) = ok p

-- `stored.get(date)`, if the day's link is confirmed.
abbrev pub confirmed_link : Option ChainLink → Option ChainLink
confirmed_link none = none
confirmed_link (some link) = elim link.confirmed_at [ none ↦ none | some at ↦ some link ]

abbrev pub as_report_day : Option StoredDay → Option ReportDay
as_report_day none = none
as_report_day (some day) = elim (confirmed_link day.chain) [
  | none ↦ none
  | some link ↦ some (record { day = day; link = link })
]

unfoldable pub report_day : List StoredDay → ℕ → Option ReportDay
report_day stored date = as_report_day (find (λ day. day.date == date) stored)

abbrev pub sorted_out : ℕ → Option ReportDay → List ReportDay × List ℕ → List ReportDay × List ℕ
sorted_out date none (days, missing) = (days, date ∷ missing)
sorted_out date (some d) (days, missing) = (d ∷ days, missing)

-- The loop over the dates: the days of the report, and the missing ones.
unfoldable pub gather : List StoredDay → List ℕ → List ReportDay × List ℕ
gather stored [] = ([], [])
gather stored (date ∷ dates) = sorted_out date (report_day stored date) (gather stored dates)

abbrev pub complete : List ReportDay × List ℕ → Result (List ReportDay)
complete (days, []) = ok days
complete (days, date ∷ missing) = refused (missing_days (date ∷ missing))

abbrev pub or_refused_report : Option RevenueReport → Result RevenueReport
or_refused_report r = or_refuse r report_refused

abbrev pub context_of : FleetCar → String → ChainState → List ReportDay → ReportContext
context_of car project state days = record {
  park_fee_bps = car.park_fee_bps;
  project = project;
  payment_mint = state.payment_mint;
  decimals = state.decimals;
  days = days;
}

module _ (cars : List FleetCar) (canonicalize : RevenueReport → Text) (sha256_hex : Text → String)
    (project_address : String → String) (chain : String → ChainState) where
  abbrev pub built_of : FleetCar → Project → RevenueReport → BuiltReport
  built_of car project report = record {
    mint_address = car.mint_address;
    project = account_of project (chain car.mint_address);
    report = report;
    canonical = canonicalize report;
    report_hash = sha256_hex (canonicalize report);
  }

  -- What follows once the chain has been read.
  unfoldable pub build_days : FleetCar → Project → Days.Store → ReportInput → Result BuiltReport
  unfolding each_day
  build_days car project s input = do
    let stored = days_between car.mint_address input.period_start input.period_end max_report_days s
    days ← complete (gather stored (each_day input.period_start input.period_end))
    let context = context_of car (project_address car.mint_address) (chain car.mint_address) days
    report ← or_refused_report (build_report input context)
    ok (built_of car project report)

  abbrev pub reconcile : FleetCar → Days.Store → Option (Days.Store × View)
  reconcile car s =
      let state = chain car.mint_address in
      reconcile_now state.project car.mint_address state.height state.now s

  unfoldable pub build : Days.Store → ReportInput → Result (Days.Store × BuiltReport)
  build s input = do
    car ← or_refuse (find (λ car. str_eq car.mint_address input.mint) cars) not_in_fleet
    (s', view) ← or_refuse (reconcile car s) chain_error
    project ← usable view
    built ← build_days car project s' input
    ok (s', built)
