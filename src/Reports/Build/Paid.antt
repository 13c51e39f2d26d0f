-- ===== src/Reports/Build/Paid.antt =====
-- What the oracle's signature pays out: `attest` of backend/src/reports/attestation.service.ts with
-- the reports that `build` of reports.service.ts builds.
use axel_sol.Prelude.{◌*◌, ◌/◌, ◌^◌, ◌≤◌, ◌<◌, ◌≡◌, String, some, List, map, All, Text}
use axel_sol.Prelude.Int.{ℤ, pos_part}
use axel_sol.Money.{u64_max}
use axel_sol.Telemetry.Store as Days
use axel_sol.Reports.Store as Attested
use axel_sol.Reports.Report.{
  ReportInput, RevenueReport, ReportDay, sum, figure, proceeds_of, distributable_of,
}
use axel_sol.Reports.Deposit.{Result, ok, ◌>>=◌, DepositRequest, Transaction}
use axel_sol.Reports.Deposit.Read.{IsDeposit}
use axel_sol.Reports.Attest.{BuiltReport, AttestBody, Outside}
use axel_sol.Reports.Build.{each_day, FleetCar, ChainState, build}
use axel_sol.Reports.Build.Confirmed.{IsConfirmed}

-- The amount that an input and the days of its period leave to pay out.
abbrev pub distributable_from : ReportInput → FleetCar → List ReportDay → ℤ
distributable_from input car days =
    let rent = figure (λ f. f.rent_charged) days in
    distributable_of rent (rent * car.park_fee_bps / 10_000) (sum input.maintenance)
      (sum input.insurance) (proceeds_of input.car_sale)

module _ (o : Outside) (cars : List FleetCar) (canonicalize : RevenueReport → Text)
    (sha256_hex : Text → String) (chain : String → ChainState) where
  abbrev pub report_of : Days.Store → ReportInput → Result BuiltReport
  report_of days input =
      build cars canonicalize sha256_hex o.project_address chain days input
      >>= λ (t : Days.Store × BuiltReport). ok t.1

  -- The service with the reports that are built of these stored days.
  abbrev pub with_days : Days.Store → Outside
  with_days stored = record o { build = report_of stored }

  -- What a signed deposit pays: the income of the days of the period, after the park's fee and the
  -- expenses, of a car of the fleet; each of the days is stored, and confirmed in the chain.
  pub record IsPaid (stored : Days.Store) (body : AttestBody) (oracle : String) : Type 0 where
    pub transaction : Transaction
    pub input : ReportInput
    pub deposit : DepositRequest
    pub sent : body.transaction ≡ some transaction
    pub asked : body.input ≡ some input
    pub shape : IsDeposit o.compute_budget o.program_id o.decode o.verify transaction oracle deposit
    pub car : FleetCar
    pub stored' : Days.Store
    pub days : List ReportDay
    pub dates : map (λ d. d.day.date) days ≡ each_day input.period_start input.period_end
    pub confirmed : All (IsConfirmed stored' car.mint_address) days
    pub pays : 0 < pos_part (distributable_from input car days)
    pub gross :
        deposit.params.gross
        ≡ pos_part (distributable_from input car days) * 10 ^ (chain car.mint_address).decimals
    pub fits : deposit.params.gross ≤ u64_max
    pub period_start : deposit.params.period_start ≡ input.period_start
    pub period_end : deposit.params.period_end ≡ input.period_end
    pub kind : deposit.params.kind ≡ input.kind
    pub project : deposit.project ≡ o.project_address car.mint_address
