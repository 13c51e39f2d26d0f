-- ===== src/Telemetry/Collector.antt =====
-- backend/src/telemetry/telemetry-collector.service.ts. A date is the number of its day here: the
-- texts of the code are in the same order, and `addDays` is addition. What the fleet system answers
-- for a day, the simulated figures (fleet/simulated-fleet.ts) and the published text of a record
-- with its hash come in as arguments; an answer that throws is `none`.
pub mod Dates
pub mod Gapless
pub mod Runs
pub mod Collected
use axel_sol.Prelude.{
  ℕ, zero, suc, ◌+◌, ◌-◌, String, Bool, true, false, ◌&&◌, Option, none, some, List, [], ◌∷◌, ◌++◌,
  map, max, ltb, ◌==◌, if◌then◌else◌, Text, select,
}
use axel_sol.Telemetry.{DataOrigin, yandex_fleet, simulated, DayFigures, figures_in_range}
use axel_sol.Telemetry.Store.{Store, save_day, last_collected_date}

abbrev pub max_backfill_days : ℕ
max_backfill_days = 31

pub record FleetCar : Type 0 where
  pub mint : String
  pub source : DataOrigin
  pub start_date : Option ℕ

pub record CollectResult : Type 0 where
  pub mint : String
  pub collected : List ℕ
  pub failed_at : Option ℕ

pub record Run : Type 0 where
  pub car : FleetCar
  pub due : List ℕ
  pub result : CollectResult

abbrev pub days_from : ℕ → ℕ → List ℕ
days_from start zero = []
days_from start (suc n) = start ∷ days_from (start + 1) n

unfoldable pub each_day : ℕ → ℕ → List ℕ
each_day start end = days_from start (end + 1 - start)

abbrev pub first_due : Option ℕ → Option ℕ → ℕ → ℕ
first_due (some last) start_date yesterday = last + 1
first_due none (some start) yesterday = start
first_due none none yesterday = yesterday

unfoldable pub due_days : FleetCar → ℕ → Store → List ℕ
unfolding each_day
due_days car yesterday s =
    each_day
      (max (first_due (last_collected_date car.mint s) car.start_date yesterday)
        (yesterday - (max_backfill_days - 1)))
      yesterday

abbrev pub includes : ℕ → List ℕ → Bool
includes d [] = false
includes d (x ∷ xs) = if x == d then true else includes d xs

abbrev pub has_failed : CollectResult → Bool
has_failed r = elim r.failed_at [ none ↦ false | some d ↦ true ]

abbrev pub is_yandex : FleetCar → Bool
is_yandex car = elim car.source [ yandex_fleet ↦ true | simulated ↦ false ]

-- `[...new Set(dates)].sort()`.
abbrev pub insert_new : ℕ → List ℕ → List ℕ
insert_new d [] = d ∷ []
insert_new d (x ∷ xs) =
    let rest = insert_new d xs in
    if ltb d x then d ∷ x ∷ xs else if d == x then x ∷ xs else x ∷ rest

unfoldable pub sorted_set : List ℕ → List ℕ
sorted_set [] = []
sorted_set (d ∷ ds) = insert_new d (sorted_set ds)

unfoldable pub due_dates : List Run → List ℕ
due_dates [] = []
due_dates (r ∷ rs) = if is_yandex r.car then r.due ++ due_dates rs else due_dates rs

-- A result after a day was stored, or was not.
abbrev pub recorded : ℕ → CollectResult → Option Store → Store → CollectResult × Store
recorded date r none s = (record r { failed_at = some date }, s)
recorded date r (some s') s = (record r { collected = r.collected ++ date ∷ [] }, s')

module _ (publish : FleetCar → ℕ → DayFigures → List ℕ × Text) (now : ℕ) where
  -- `publishDay` and `saveDay`; `none` where one of them throws.
  unfoldable pub publish_and_save : FleetCar → ℕ → DayFigures → Store → Option Store
  publish_and_save car date figures s =
      let day = publish car date figures in
      if figures_in_range figures
      then save_day car.mint date day.0 day.1 car.source figures now s
      else none

  -- `save`, for a day whose figures may be missing.
  unfoldable pub save :
      FleetCar → ℕ → Option DayFigures → CollectResult → Store → CollectResult × Store
  save car date figures r s =
      if has_failed r
      then (r, s)
      else recorded date r (elim figures [ none ↦ none | some f ↦ publish_and_save car date f s ]) s

  module _ (simulate : FleetCar → ℕ → DayFigures) where
    -- The loop over the due days of a simulated car.
    unfoldable pub simulate_days : FleetCar → List ℕ → CollectResult → Store → CollectResult × Store
    simulate_days car [] r s = (r, s)
    simulate_days car (date ∷ dates) r s =
        let next = save car date (some (simulate car date)) r s in
        simulate_days car dates next.0 next.1

    unfoldable pub simulate_runs : List Run → Store → List Run × Store
    simulate_runs [] s = ([], s)
    simulate_runs (run ∷ runs) s =
        let own =
          if is_yandex run.car
          then (run.result, s)
          else simulate_days run.car run.due run.result s in
        let rest = simulate_runs runs own.1 in (record run { result = own.0 } ∷ rest.0, rest.1)

  abbrev pub is_reading : ℕ → Run → Bool
  is_reading date run =
      is_yandex run.car && (if has_failed run.result then false else includes date run.due)

  abbrev head_of : List DayFigures → Option DayFigures
  head_of [] = none
  head_of (f ∷ fs) = some f

  abbrev tail_of : List DayFigures → List DayFigures
  tail_of [] = []
  tail_of (f ∷ fs) = fs

  -- The figures that were read, saved car by car.
  unfoldable pub save_reading : ℕ → List DayFigures → List Run → Store → List Run × Store
  save_reading date figures [] s = ([], s)
  save_reading date figures (run ∷ runs) s = elim (is_reading date run) [
    | true ↦
        let own = save run.car date (head_of figures) run.result s in
        let rest = save_reading date (tail_of figures) runs own.1 in
        (record run { result = own.0 } ∷ rest.0, rest.1)
    | false ↦ let rest = save_reading date figures runs s in (run ∷ rest.0, rest.1)
  ]

  -- The reading of the day failed for every car that was to be read.
  abbrev pub fail_reading : ℕ → Run → Run
  fail_reading date run =
      if is_reading date run
      then record run { result = record run.result { failed_at = some date } }
      else run

  module _ (read_day : ℕ → List FleetCar → Option (List DayFigures)) where
    -- A day of the loop; with no car to read, nothing is asked and nothing changes.
    abbrev pub after_reading : ℕ → Option (List DayFigures) → List Run → Store → List Run × Store
    after_reading date none runs s = (map (fail_reading date) runs, s)
    after_reading date (some figures) runs s = save_reading date figures runs s

    abbrev pub read_date : ℕ → List Run → Store → List Run × Store
    read_date date runs s = elim (select (is_reading date) runs) [
      | [] ↦ (runs, s)
      | r ∷ rs ↦ after_reading date (read_day date (map (λ x. x.car) (r ∷ rs))) runs s
    ]

    unfoldable pub read_dates : List ℕ → List Run → Store → List Run × Store
    read_dates [] runs s = (runs, s)
    read_dates (date ∷ dates) runs s =
        let next = read_date date runs s in read_dates dates next.0 next.1

    unfoldable pub collect_all :
        (simulate : FleetCar → ℕ → DayFigures) → List FleetCar → ℕ → Store → List Run × Store
    collect_all simulate cars yesterday s =
        let runs =
          map
            (λ car. record {
              car = car;
              due = due_days car yesterday s;
              result = record { mint = car.mint; collected = []; failed_at = none };
            })
            cars in
        let first = simulate_runs simulate runs s in
        read_dates (sorted_set (due_dates first.0)) first.0 first.1
