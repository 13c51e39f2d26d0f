-- ===== src/Telemetry/Collector/Runs.antt =====
-- The runs of all cars, through the days of `collectAll`.
use axel_sol.Prelude.{
  ℕ, ◌<◌, ◌≡◌, ◌⊎◌, inl, inr, refl, Bool, false, Option, none, some, List, [], ◌∷◌, map, All,
  Bool-cases, Text, select,
}
use axel_sol.Telemetry.{DayFigures}
use axel_sol.Telemetry.Store.{Store}
use axel_sol.Telemetry.Collector.{
  FleetCar, Run, is_reading, save_reading, fail_reading, read_date, read_dates, head_of, tail_of,
  after_reading,
}
use axel_sol.Telemetry.Collector.Dates.{Ascending}
use axel_sol.Telemetry.Collector.Gapless.{FineAt, passed_run, read_run, fail_run}

select_none :
    {A : Type 0} (p : A → Bool) (xs : List A) → select p xs ≡ [] → All (λ x. p x ≡ false) xs
unfolding select
select_none p [] e = tt
select_none p (x ∷ xs) e = elim (Bool-cases (p x)) [
  | inl on ↦ let bad : x ∷ select p xs ≡ [] = rw (select, on) at e in cc
  | inr off ↦ (off, select_none p xs (rw (select, off) at e))
]

List-cases : {A : Type 0} (xs : List A) → (xs ≡ []) ⊎ ((x : A) × (rest : List A) × (xs ≡ x ∷ rest))
List-cases [] = inl refl
List-cases (x ∷ xs) = inr (x, xs, refl)

module _ (publish : FleetCar → ℕ → DayFigures → List ℕ × Text) (now : ℕ) where
  passed_runs :
      (d : ℕ) (dates : List ℕ) (runs : List Run)
      → All (λ r. is_reading publish now d r ≡ false) runs
      → All (FineAt publish now (d ∷ dates)) runs
      → All (FineAt publish now dates) runs
  passed_runs d dates [] off h = tt
  passed_runs d dates (r ∷ rs) (o, off) (g, gs) =
      (passed_run publish now d dates r o g, passed_runs d dates rs off gs)

  fail_runs :
      (d : ℕ) (dates : List ℕ) (runs : List Run)
      → All (λ x. d < x) dates
      → All (FineAt publish now (d ∷ dates)) runs
      → All (FineAt publish now dates) (map (fail_reading publish now d) runs)
  fail_runs d dates [] asc h = tt
  fail_runs d dates (r ∷ rs) asc (g, gs) =
      (fail_run publish now d dates r asc g, fail_runs d dates rs asc gs)

  save_reading-FineAt :
      (d : ℕ) (dates : List ℕ) (figures : List DayFigures) (runs : List Run) (s : Store)
      → All (λ x. d < x) dates
      → All (FineAt publish now (d ∷ dates)) runs
      → All (FineAt publish now dates) (save_reading publish now d figures runs s).0
  unfolding save_reading
  save_reading-FineAt d dates figures [] s asc h = tt
  save_reading-FineAt d dates figures (r ∷ rs) s asc (g, gs) =
      elim (Bool-cases (is_reading publish now d r)) [
        | inl on ↦
            rw (save_reading, on)
              (
                read_run publish now d dates r (head_of publish now figures) s asc on g,
                save_reading-FineAt d dates (tail_of publish now figures) rs _ asc gs,
              )
        | inr off ↦
            rw (save_reading, off)
              (
                passed_run publish now d dates r off g,
                save_reading-FineAt d dates figures rs s asc gs,
              )
      ]

  module _ (read_day : ℕ → List FleetCar → Option (List DayFigures)) where
    after_reading-FineAt :
        (d : ℕ) (dates : List ℕ) (o : Option (List DayFigures)) (runs : List Run) (s : Store)
        → All (λ x. d < x) dates
        → All (FineAt publish now (d ∷ dates)) runs
        → All (FineAt publish now dates) (after_reading publish now read_day d o runs s).0
    after_reading-FineAt d dates none runs s asc h = fail_runs d dates runs asc h
    after_reading-FineAt d dates (some figures) runs s asc h =
        save_reading-FineAt d dates figures runs s asc h

    read_date-FineAt :
        (d : ℕ) (dates : List ℕ) (runs : List Run) (s : Store)
        → All (λ x. d < x) dates
        → All (FineAt publish now (d ∷ dates)) runs
        → All (FineAt publish now dates) (read_date publish now read_day d runs s).0
    read_date-FineAt d dates runs s asc h =
        elim (List-cases (select (is_reading publish now d) runs)) [
          | inl no_one ↦
              rw (read_date, no_one)
                (passed_runs d dates runs (select_none (is_reading publish now d) runs no_one) h)
          | inr (r, rs, some_) ↦ rw (read_date, some_) (after_reading-FineAt d dates _ runs s asc h)
        ]

    pub read_dates-FineAt :
        (dates : List ℕ) (runs : List Run) (s : Store)
        → Ascending dates
        → All (FineAt publish now dates) runs
        → All (FineAt publish now []) (read_dates publish now read_day dates runs s).0
    unfolding read_dates
    read_dates-FineAt [] runs s asc h = h
    read_dates-FineAt (d ∷ dates) runs s (a, asc) h =
        read_dates-FineAt dates _ _ asc (read_date-FineAt d dates runs s a h)
