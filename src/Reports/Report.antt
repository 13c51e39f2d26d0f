-- ===== src/Reports/Report.antt =====
-- backend/src/reports/revenue-report.ts: `buildReport`. The operator's input has been read: its
-- amounts are whole numbers from 1 to 10^12, so that every sum is an exact integer. `none` is the
-- amount that does not fit a deposit; a list without days, which the code cannot index, gives
-- `none` too.
use axel_sol.Prelude.{
  ℕ, ◌*◌, ◌/◌, ◌^◌, String, Bool, true, false, ◌&&◌, Option, none, some, List, [], ◌∷◌, map, length,
  ltb, if◌then◌else◌, sum_by, select, Text,
}
use axel_sol.Prelude.Int.{ℤ, pos, pos_part, ◌+ℤ◌, ◌-ℤ◌}
use axel_sol.Telemetry.{DayFigures, DataOrigin, yandex_fleet, simulated, VehicleStatus, active}
use axel_sol.Telemetry.Store.{StoredDay, ChainLink, ◌>>=◌, last}
use axel_sol.Telemetry.Chain.{first_link}
use axel_sol.Money.{u64_max}
use axel_sol.Reports.{ReportKind}

pub record ExpenseItem : Type 0 where
  pub description : String
  pub amount : ℕ
  pub document_sha256 : Option String

pub record CarSale : Type 0 where
  pub proceeds : ℕ
  pub document_sha256 : String

pub record ReportInput : Type 0 where
  pub mint : String
  pub kind : ReportKind
  pub period_start : ℕ
  pub period_end : ℕ
  pub maintenance : List ExpenseItem
  pub insurance : List ExpenseItem
  pub car_sale : Option CarSale

pub data CombinedOrigin : Type 0 where
  one_origin : DataOrigin → CombinedOrigin
  mixed : CombinedOrigin

pub record Income : Type 0 where
  pub rent : ℕ
  pub days_active : ℕ
  pub trips : ℕ
  pub km : ℕ

pub record Telemetry : Type 0 where
  pub first_position : ℕ
  pub last_position : ℕ
  pub head_before : Text
  pub head_after : Text
  pub days : List (ℕ × Text)

-- The fields of the published report that are not constants.
pub record RevenueReport : Type 0 where
  pub mint : String
  pub project : String
  pub kind : ReportKind
  pub period_start : ℕ
  pub period_end : ℕ
  pub period_days : ℕ
  pub data_origin : CombinedOrigin
  pub income : Income
  pub park_fee_bps : ℕ
  pub park_fee : ℕ
  pub maintenance : List ExpenseItem
  pub insurance : List ExpenseItem
  pub car_sale : Option CarSale
  pub total_maintenance : ℕ
  pub total_insurance : ℕ
  pub distributable : ℤ
  pub payment_mint : String
  pub decimals : ℕ
  pub gross : ℕ
  pub telemetry : Telemetry

pub record ReportDay : Type 0 where
  pub day : StoredDay
  pub link : ChainLink

pub record ReportContext : Type 0 where
  pub park_fee_bps : ℕ
  pub project : String
  pub payment_mint : String
  pub decimals : ℕ
  pub days : List ReportDay

unfoldable pub sum : List ExpenseItem → ℕ
sum items = sum_by (λ item. item.amount) items

abbrev pub proceeds_of : Option CarSale → ℕ
proceeds_of none = 0
proceeds_of (some sale) = sale.proceeds

abbrev same_origin : DataOrigin → DataOrigin → Bool
same_origin yandex_fleet yandex_fleet = true
same_origin simulated simulated = true
same_origin _ _ = false

abbrev all_from : DataOrigin → List ReportDay → Bool
all_from origin [] = true
all_from origin (d ∷ ds) = same_origin d.day.data_origin origin && all_from origin ds

-- The one origin of the days, if `new Set` of their origins has one element.
abbrev pub combined_origin : List ReportDay → CombinedOrigin
combined_origin [] = mixed
combined_origin (d ∷ ds) =
    if all_from d.day.data_origin ds then one_origin d.day.data_origin else mixed

abbrev is_active : VehicleStatus → Bool
is_active active = true
is_active _ = false

abbrev pub figure : (DayFigures → ℕ) → List ReportDay → ℕ
figure f days = sum_by (λ d. f d.day.figures) days

unfoldable pub distributable_of : ℕ → ℕ → ℕ → ℕ → ℕ → ℤ
distributable_of rent park_fee maintenance insurance proceeds =
    pos rent -ℤ pos park_fee -ℤ pos maintenance -ℤ pos insurance +ℤ pos proceeds

unfoldable pub build_report : ReportInput → ReportContext → Option RevenueReport
unfolding sum distributable_of
build_report input context =
    let days = context.days in
    let rent = figure (λ f. f.rent_charged) days in
    let park_fee = rent * context.park_fee_bps / 10_000 in
    let maintenance = sum input.maintenance in
    let insurance = sum input.insurance in
    let distributable =
      distributable_of rent park_fee maintenance insurance (proceeds_of input.car_sale) in
    let gross = pos_part distributable * 10 ^ context.decimals in
    if ltb u64_max gross then none else do
      first ← first_link (map (λ d. d.link) days)
      final_link ← last (map (λ d. d.link) days)
      some (record {
        mint = input.mint;
        project = context.project;
        kind = input.kind;
        period_start = input.period_start;
        period_end = input.period_end;
        period_days = length days;
        data_origin = combined_origin days;
        income = record {
          rent = rent;
          days_active = length (select (λ d. is_active d.day.figures.status) days);
          trips = figure (λ f. f.trips) days;
          km = figure (λ f. f.km) days;
        };
        park_fee_bps = context.park_fee_bps;
        park_fee = park_fee;
        maintenance = input.maintenance;
        insurance = input.insurance;
        car_sale = input.car_sale;
        total_maintenance = maintenance;
        total_insurance = insurance;
        distributable = distributable;
        payment_mint = context.payment_mint;
        decimals = context.decimals;
        gross = gross;
        telemetry = record {
          first_position = first.position;
          last_position = final_link.position;
          head_before = first.head_before;
          head_after = final_link.head_after;
          days = map (λ d. (d.day.date, d.day.data_hash)) days;
        };
      })
