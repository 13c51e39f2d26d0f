-- ===== src/Reports/Tests.antt =====
-- The theorems on the revenue reports, for a car with two days of telemetry and for a report that
-- was attested.
use axel_sol.Prelude.{
  ℕ, ◌+◌, ◌*◌, ◌^◌, ◌%◌, ◌≤◌, ◌≡◌, ◌≢◌, refl, true, none, some, List, [], ◌∷◌, Text, find, str_eq,
  sum_by, replicate,
}
use axel_sol.Prelude.Int.{pos_part, neg_part, ◌+ℤ◌, ◌-ℤ◌}
use axel_sol.Money.{u64_max}
use axel_sol.Telemetry.{simulated, active, idle, empty_head, next_head, VehicleStatus}
use axel_sol.Telemetry.Store.{StoredDay}
use axel_sol.Telemetry.Chain.Plan.{Chain}
use axel_sol.Reports.{regular}
use axel_sol.Reports.Report.{
  one_origin, ReportDay, ReportInput, ReportContext, RevenueReport, build_report, sum,
  distributable_of, figure, proceeds_of,
}
use axel_sol.Reports.Balance.{build_report_balance, Stands, nowhere, next, build_report-Stands}
use axel_sol.Reports.Store.{Store, StoredReport, Attestation, has_hash, save_attested}
use axel_sol.Reports.Overlaps.{CosignTarget, check_overlaps}
use axel_sol.Reports.Overlaps.Blocked.{save_all, check_overlaps-save_attested}

abbrev digest : List ℕ → List ℕ
digest bytes = replicate 32 (sum_by (λ b. b) bytes % 256)

abbrev day_at : ℕ → VehicleStatus → ℕ → StoredDay
day_at date status rent = record {
  mint = "car";
  date = date;
  canonical = [];
  data_hash = [];
  data_origin = simulated;
  figures = record { status = status; trips = 3; km = 40; rent_charged = rent };
  collected_at = 9;
  chain = none;
}

abbrev placed : StoredDay → ℕ → Text → ReportDay
placed day position head = record {
  day = day;
  link = record {
    position = position;
    head_before = head;
    head_after = next_head digest head day.date day.data_hash;
    tx_signature = "sig";
    confirmed_at = some 10;
  };
}

abbrev day1 : ReportDay
day1 = placed (day_at 20260901 active 12_000) 1 empty_head

abbrev day2 : ReportDay
day2 = placed (day_at 20260902 idle 0) 2 day1.link.head_after

abbrev input : ReportInput
input = record {
  mint = "car";
  kind = regular;
  period_start = 20260901;
  period_end = 20260902;
  maintenance = record { description = "oil"; amount = 500; document_sha256 = none } ∷ [];
  insurance = [];
  car_sale = none;
}

abbrev context : ReportContext
context = record {
  park_fee_bps = 2_000;
  project = "project";
  payment_mint = "kzt";
  decimals = 6;
  days = day1 ∷ day2 ∷ [];
}

built : (r : RevenueReport) × (build_report input context ≡ some r)
unfolding build_report sum distributable_of ◌+ℤ◌ ◌-ℤ◌
built = (_, refl)

build_report_balance_example :
    (pos_part built.0.distributable
        + built.0.park_fee
        + built.0.total_maintenance
        + built.0.total_insurance
      ≡ neg_part built.0.distributable + built.0.income.rent + proceeds_of built.0.car_sale)
    × (built.0.income.rent ≡ figure (λ f. f.rent_charged) context.days)
    × (built.0.gross ≡ pos_part built.0.distributable * 10 ^ context.decimals)
    × (built.0.gross ≤ u64_max)
build_report_balance_example = build_report_balance input context built.1

abbrev start : Chain
start = record { count = 0; head = empty_head }

abbrev after : Chain
after = record { count = 2; head = day2.link.head_after }

both_stand : Stands digest start context.days after
both_stand = next day1 refl refl refl (next day2 refl refl refl nowhere)

build_report-Stands_example :
    (built.0.telemetry.head_before ≡ start.head)
    × (built.0.telemetry.head_after ≡ after.head)
    × (built.0.telemetry.last_position + 1 ≡ built.0.telemetry.first_position + built.0.period_days)
build_report-Stands_example = build_report-Stands digest input context both_stand built.1

abbrev stored : StoredReport
stored = record {
  report_hash = "hash";
  mint = "car";
  kind = regular;
  period_start = 20260901;
  period_end = 20260930;
  gross = 7;
  data_origin = one_origin simulated;
  canonical = [];
}

abbrev signed : Attestation
signed = record {
  deposit_signature = "deposit";
  report_hash = "hash";
  mint = "car";
  recent_blockhash = "block";
  attested_at = 4;
}

abbrev nothing : Store
nothing = record { revenue_reports = []; report_attestations = []; deposit_drafts = [] }

abbrev another : CosignTarget
another = record { signature = some "other"; period_index = some 0 }

nothing_stored : (q : StoredReport) → find (has_hash "hash") [] ≡ some q → q ≡ stored
unfolding find
nothing_stored q e = cc

nothing_attested :
    find (λ a. str_eq a.deposit_signature "deposit") nothing.report_attestations ≡ none
unfolding find
nothing_attested = refl

check_overlaps-save_attested_example :
    check_overlaps
      (λ s. none)
      (λ b. true)
      "car"
      20260915
      20261014
      0
      []
      another
      (save_all [] (save_attested stored signed nothing))
    ≢ none
check_overlaps-save_attested_example =
    check_overlaps-save_attested (λ s. none) (λ b. true) stored signed nothing [] 20260915 20261014
      0 [] another refl nothing_stored nothing_attested refl refl refl refl
