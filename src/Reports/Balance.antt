-- ===== src/Reports/Balance.antt =====
-- What a built report adds up to, and the part of the telemetry chain that it names.
use axel_sol.Prelude.{ℕ, ◌+◌, ◌*◌, ◌^◌, ◌≤◌, ◌≡◌, ◌∙◌, arith, some, List, [], ◌∷◌, map, length}
use axel_sol.Prelude.Int.{pos_part, neg_part, ◌+ℤ◌, ◌-ℤ◌}
use axel_sol.Money.{u64_max}
use axel_sol.Reports.Report.{
  ReportDay, ReportInput, ReportContext, RevenueReport, build_report, proceeds_of, figure,
  distributable_of,
}
use axel_sol.Telemetry.Store.{ChainLink, last}
use axel_sol.Telemetry.{next_head}
use axel_sol.Telemetry.Chain.{first_link}
use axel_sol.Telemetry.Chain.Plan.{Chain}

distributable_of_parts :
    (rent park_fee maintenance insurance proceeds : ℕ)
    → pos_part (distributable_of rent park_fee maintenance insurance proceeds)
        + park_fee
        + maintenance
        + insurance
      ≡ neg_part (distributable_of rent park_fee maintenance insurance proceeds) + rent + proceeds
unfolding distributable_of ◌+ℤ◌ ◌-ℤ◌
distributable_of_parts rent park_fee maintenance insurance proceeds = ground arith

-- How a report comes about: its amount fits, and there is a first and a last link.
build_report_parts :
    (input : ReportInput) (context : ReportContext) {r : RevenueReport}
    → build_report input context ≡ some r
    → (r.gross ≤ u64_max)
      × (r.gross ≡ pos_part r.distributable * 10 ^ context.decimals)
      × (r.distributable
          ≡ distributable_of r.income.rent r.park_fee r.total_maintenance r.total_insurance
              (proceeds_of r.car_sale))
      × (r.income.rent ≡ figure (λ f. f.rent_charged) context.days)
      × (r.period_days ≡ length context.days)
      × ((first : ChainLink) × (first_link (map (λ d. d.link) context.days) ≡ some first)
          × (r.telemetry.first_position ≡ first.position)
          × (r.telemetry.head_before ≡ first.head_before))
      × ((final_link : ChainLink) × (last (map (λ d. d.link) context.days) ≡ some final_link)
          × (r.telemetry.last_position ≡ final_link.position)
          × (r.telemetry.head_after ≡ final_link.head_after))
unfolding build_report
build_report_parts input context {r} e = ground arith

-- The sums of a report: what is distributable, the park's fee and the expenses make up the rent
-- and the proceeds; the deposit is what is distributable, if that is positive, in base units, and
-- fits 64 bits.
pub build_report_balance :
    (input : ReportInput) (context : ReportContext) {r : RevenueReport}
    → build_report input context ≡ some r
    → (pos_part r.distributable + r.park_fee + r.total_maintenance + r.total_insurance
        ≡ neg_part r.distributable + r.income.rent + proceeds_of r.car_sale)
      × (r.income.rent ≡ figure (λ f. f.rent_charged) context.days)
      × (r.gross ≡ pos_part r.distributable * 10 ^ context.decimals)
      × (r.gross ≤ u64_max)
unfolding build_report
build_report_balance input context {r} e =
    let (fits, gross, amount, rent, _, _, _) = build_report_parts input context e in
    (
      rw amount (
          distributable_of_parts r.income.rent r.park_fee r.total_maintenance r.total_insurance
            (proceeds_of r.car_sale)),
      rent,
      gross,
      fits,
    )

-- Days that stand in the chain one after another, from one state of it to another.
pub data Stands (digest : List ℕ → List ℕ) : Chain → List ReportDay → Chain → Type 0 where
  nowhere : {c : Chain} → Stands digest c [] c
  next :
      {c k : Chain} {days : List ReportDay} (d : ReportDay)
      → d.link.position ≡ c.count + 1
      → d.link.head_before ≡ c.head
      → d.link.head_after ≡ next_head digest d.link.head_before d.day.date d.day.data_hash
      → Stands digest (record { count = d.link.position; head = d.link.head_after }) days k
      → Stands digest c (d ∷ days) k

first-Stands :
    (digest : List ℕ → List ℕ) {c k : Chain} {days : List ReportDay} (first : ChainLink)
    → Stands digest c days k
    → first_link (map (λ d. d.link) days) ≡ some first
    → (first.position ≡ c.count + 1) × (first.head_before ≡ c.head)
first-Stands digest first nowhere e = cc
first-Stands digest first (next d position before after rest) e = (ground arith, ground arith)

last-Stands :
    (digest : List ℕ → List ℕ) {c k : Chain} {days : List ReportDay} (final_link : ChainLink)
    → Stands digest c days k
    → last (map (λ d. d.link) days) ≡ some final_link
    → (final_link.position ≡ k.count) × (final_link.head_after ≡ k.head)
last-Stands digest final_link nowhere e = cc
last-Stands digest final_link (next d position before after nowhere) e =
    (ground arith, ground arith)
last-Stands digest final_link (next d position before after (next d' p b a rest)) e =
    last-Stands digest final_link (next d' p b a rest) e

count-Stands :
    (digest : List ℕ → List ℕ) {c k : Chain} {days : List ReportDay}
    → Stands digest c days k
    → k.count ≡ c.count + length days
count-Stands digest nowhere = omega arith
count-Stands digest (next d position before after rest) =
    let h = count-Stands digest rest in omega arith

-- If the days of the period stand in the chain one after another, the report names the chain's
-- head before them and after them, and its positions count exactly the days of the period.
pub build_report-Stands :
    (digest : List ℕ → List ℕ) {c k : Chain} (input : ReportInput) (context : ReportContext)
    {r : RevenueReport}
    → Stands digest c context.days k
    → build_report input context ≡ some r
    → (r.telemetry.head_before ≡ c.head)
      × (r.telemetry.head_after ≡ k.head)
      × (r.telemetry.last_position + 1 ≡ r.telemetry.first_position + r.period_days)
build_report-Stands digest input context stands e =
    let (_, _, _, _, days, (first, at, first_at, before), (final_link, at_last, last_at, after)) =
      build_report_parts input context e in
    let (position, head) = first-Stands digest first stands at in
    let (count, end) = last-Stands digest final_link stands at_last in
    let total = count-Stands digest stands in (before ∙ head, after ∙ end, omega arith)
