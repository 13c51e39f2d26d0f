-- ===== src/Reports/Build/Confirmed.antt =====
-- The days that `build` of backend/src/reports/reports.service.ts makes a report of.
use axel_sol.Prelude.{
  ℕ, ◌≡◌, refl, sym, subst, ap, ap₂, ◌∙◌, inl, inr, arith, String, Bool, true, Option, none, some,
  List, [], ◌∷◌, map, ◌==◌, ==_iff, find, str_eq, eq_iff, Text, All, In, select-In, take-In, map-In,
  sort_by-In, find-In, Option-cases, select, ◌&&◌, leb,
}
use axel_sol.Telemetry.Store.{StoredDay, ChainLink, DayRow, to_day, days_between}
use axel_sol.Telemetry.Store as Days
use axel_sol.Telemetry.Chain.{Project, View}
use axel_sol.Reports.Report.{ReportInput, RevenueReport, ReportDay, build_report}
use axel_sol.Reports.Deposit.{not_in_fleet, chain_error, report_refused, ok}
use axel_sol.Reports.Deposit.Shape.{passes, ok-injective}
use axel_sol.Reports.Attest.{BuiltReport, or_refuse}
use axel_sol.Reports.Attest.Signed.{or_refuse-eq-ok}
use axel_sol.Reports.Build.{
  max_report_days, each_day, FleetCar, ChainState, usable, confirmed_link, as_report_day,
  report_day, sorted_out, gather, complete, context_of, built_of, build_days, reconcile,
  or_refused_report, build,
}

-- A day of the report is a row of the car, linked and confirmed in the chain.
pub record IsConfirmed (s : Days.Store) (mint : String) (d : ReportDay) : Type 0 where
  pub row : DayRow
  pub stored : In row s.days
  pub own : row.mint ≡ mint
  pub reads : to_day row ≡ d.day
  pub linked : d.day.chain ≡ some d.link
  pub at : ℕ
  pub confirmed : d.link.confirmed_at ≡ some at

days_between-row :
    (mint : String) (start end limit : ℕ) (s : Days.Store) (day : StoredDay)
    → In day (days_between mint start end limit s)
    → (row : DayRow) × In row s.days × (row.mint ≡ mint) × (to_day row ≡ day)
unfolding days_between
days_between-row mint start end limit s day h =
    let test : DayRow → Bool =
      λ row. str_eq row.mint mint && leb start row.date && leb row.date end in
    let (row, taken, reads) = map-In to_day day _ h in
    let (there, pass) =
      select-In test row s.days
        (sort_by-In (λ r. r.date) row (select test s.days) (take-In limit row _ taken)) in
    let own : str_eq row.mint mint ≡ true = ground arith in
    (row, there, (eq_iff row.mint mint).0 own, reads)

confirmed_link-some :
    (o : Option ChainLink) {l : ChainLink}
    → confirmed_link o ≡ some l
    → (o ≡ some l) × ((at : ℕ) × (l.confirmed_at ≡ some at))
confirmed_link-some none h = cc
confirmed_link-some (some link) {l} h = elim (Option-cases link.confirmed_at) [
  | inl open_ ↦ ground arith
  | inr (at, e) ↦
      let same : link ≡ l = ground arith in
      (ap some same, (at, sym (ap (λ (k : ChainLink). k.confirmed_at) same) ∙ e))
]

as_report_day-some :
    (o : Option StoredDay) {d : ReportDay}
    → as_report_day o ≡ some d
    → (o ≡ some d.day) × (confirmed_link d.day.chain ≡ some d.link)
as_report_day-some none h = cc
as_report_day-some (some day) {d} h = elim (Option-cases (confirmed_link day.chain)) [
  | inl open_ ↦ ground arith
  | inr (link, e) ↦
      let same : record { day = day; link = link } ≡ d = ground arith in
      (
        ap (λ (r : ReportDay). some r.day) same,
        ap (λ (r : ReportDay). confirmed_link r.day.chain) (sym same)
            ∙ e
            ∙ ap (λ (r : ReportDay). some r.link) same,
      )
]

module _ (s : Days.Store) (mint : String) (start end limit : ℕ) where
  abbrev stored : List StoredDay
  stored = days_between mint start end limit s

  report_day-IsConfirmed :
      (date : ℕ) (d : ReportDay)
      → report_day stored date ≡ some d
      → IsConfirmed s mint d × (d.day.date ≡ date)
  unfolding report_day
  report_day-IsConfirmed date d h =
      let (found, link_of) = as_report_day-some (find (λ day. day.date == date) stored) h in
      let (linked, (at, confirmed)) = confirmed_link-some d.day.chain link_of in
      let (there, dated) = find-In (λ day. day.date == date) d.day stored found in
      let (row, kept, own, reads) = days_between-row mint start end limit s d.day there in
      (
        record {
          row = row;
          stored = kept;
          own = own;
          reads = reads;
          linked = linked;
          at = at;
          confirmed = confirmed;
        },
        (==_iff d.day.date date).0 dated,
      )

  abbrev Covers : List ℕ → List ReportDay × List ℕ → Type 0
  Covers dates (days, missing) =
      missing ≡ [] → All (IsConfirmed s mint) days × (map (λ d. d.day.date) days ≡ dates)

  sorted_out-Covers :
      (date : ℕ) (dates : List ℕ) (o : Option ReportDay) (r : List ReportDay × List ℕ)
      → ((d : ReportDay) → o ≡ some d → IsConfirmed s mint d × (d.day.date ≡ date))
      → Covers dates r
      → Covers (date ∷ dates) (sorted_out date o r)
  sorted_out-Covers date dates none r of_day rest none_missing = cc
  sorted_out-Covers date dates (some d) r of_day rest none_missing =
      let (confirmed, dated) = of_day d refl in
      let (all, in_order) = rest none_missing in ((confirmed, all), ap₂ ◌∷◌ dated in_order)

  -- With no day missing, the days are those of the dates, in order, and all confirmed.
  gather-Covers : (dates : List ℕ) → Covers dates (gather stored dates)
  unfolding gather
  gather-Covers [] = λ none_missing. (tt, refl)
  gather-Covers (date ∷ dates) =
      sorted_out-Covers date dates (report_day stored date) (gather stored dates)
        (report_day-IsConfirmed date) (gather-Covers dates)

complete-eq-ok :
    (r : List ReportDay × List ℕ) {days : List ReportDay}
    → complete r ≡ ok days
    → (r.0 ≡ days) × (r.1 ≡ [])
complete-eq-ok (found, []) h = (cc, refl)
complete-eq-ok (found, date ∷ missing) h = cc

module _ (cars : List FleetCar) (canonicalize : RevenueReport → Text) (sha256_hex : Text → String)
    (project_address : String → String) (chain : String → ChainState) where
  -- A report of the days of the period, in order, each one stored and confirmed in the chain.
  pub record IsOfDays (car : FleetCar) (project : Project) (s : Days.Store) (input : ReportInput)
      (b : BuiltReport) : Type 0 where
    pub days : List ReportDay
    pub dates : map (λ d. d.day.date) days ≡ each_day input.period_start input.period_end
    pub confirmed : All (IsConfirmed s car.mint_address) days
    pub report : RevenueReport
    pub builds :
        build_report input
          (context_of car (project_address car.mint_address) (chain car.mint_address) days)
        ≡ some report
    pub whole : built_of cars canonicalize sha256_hex project_address chain car project report ≡ b

  build_days-IsOfDays :
      (car : FleetCar) (project : Project) (s : Days.Store) (input : ReportInput) (b : BuiltReport)
      → build_days cars canonicalize sha256_hex project_address chain car project s input ≡ ok b
      → IsOfDays car project s input b
  unfolding build_days
  build_days-IsOfDays car project s input b h =
      let dates = each_day input.period_start input.period_end in
      let stored =
        days_between car.mint_address input.period_start input.period_end max_report_days s in
      let (days, all, h1) = passes (complete (gather stored dates)) _ h in
      let context =
        context_of car (project_address car.mint_address) (chain car.mint_address) days in
      let (report, builds, h2) = passes (or_refused_report (build_report input context)) _ h1 in
      let (found, none_missing) = complete-eq-ok (gather stored dates) all in
      let (confirmed, in_order) =
        gather-Covers s car.mint_address input.period_start input.period_end max_report_days dates
          none_missing in
      record {
        days = days;
        dates = sym (ap (map (λ d. d.day.date)) found) ∙ in_order;
        confirmed = subst (All (IsConfirmed s car.mint_address)) found confirmed;
        report = report;
        builds = or_refuse-eq-ok _ report_refused builds;
        whole = ok-injective h2;
      }

  -- How a report is built: its car is the fleet's, and the project's chain has been reconciled
  -- with the stored days and has not diverged.
  pub record IsBuilt (s s' : Days.Store) (input : ReportInput) (b : BuiltReport) : Type 0 where
    pub car : FleetCar
    pub in_fleet : find (λ car. str_eq car.mint_address input.mint) cars ≡ some car
    pub view : View
    pub reconciled :
        reconcile cars canonicalize sha256_hex project_address chain car s ≡ some (s', view)
    pub project : Project
    pub is_usable : usable view ≡ ok project
    pub of_days : IsOfDays car project s' input b

  pub build-IsBuilt :
      (s s' : Days.Store) (input : ReportInput) (b : BuiltReport)
      → build cars canonicalize sha256_hex project_address chain s input ≡ ok (s', b)
      → IsBuilt s s' input b
  unfolding build
  build-IsBuilt s s' input b h =
      let (car, is_car, h1) =
        passes (or_refuse (find (λ car. str_eq car.mint_address input.mint) cars) not_in_fleet) _
          h in
      let ((s1, view), reads, h2) =
        passes
          (or_refuse (reconcile cars canonicalize sha256_hex project_address chain car s)
            chain_error)
          _ h1 in
      let (project, is_usable, h3) = passes (usable view) _ h2 in
      let (built, builds, h4) =
        passes (build_days cars canonicalize sha256_hex project_address chain car project s1 input)
          _ h3 in
      let e = ok-injective h4 in
      record {
        car = car;
        in_fleet = or_refuse-eq-ok _ not_in_fleet is_car;
        view = view;
        reconciled =
            or_refuse-eq-ok _ chain_error reads
            ∙ ap (λ (t : Days.Store × BuiltReport). some (t.0, view)) e;
        project = project;
        is_usable = is_usable;
        of_days =
            subst (λ (t : Days.Store × BuiltReport). IsOfDays car project t.0 input t.1) e
              (build_days-IsOfDays car project s1 input built builds);
      }
