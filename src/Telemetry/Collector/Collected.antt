-- ===== src/Telemetry/Collector/Collected.antt =====
-- What a whole run of `collectAll` has collected.
use axel_sol.Prelude.{ℕ, ◌≡◌, none, some, List, [], ◌∷◌, ◌++◌}
use axel_sol.Telemetry.Store.{Store}
use axel_sol.Telemetry.Collector.{FleetCar, Run, days_from, due_days}

-- A run before it has begun.
abbrev Fresh : Run → Type 0
Fresh run =
    ((start : ℕ) × (count : ℕ) × (run.due ≡ days_from start count))
    × (run.result.collected ≡ [])
    × (run.result.failed_at ≡ none)

-- A result has its due days from the first on, up to the one at which it failed, or all of them.
pub record Gapless (run : Run) : Type 0 where
  pub missing : List ℕ
  pub in_order : run.due ≡ run.result.collected ++ missing
  pub complete : run.result.failed_at ≡ none → missing ≡ []
  pub stopped : (d : ℕ) → run.result.failed_at ≡ some d → (later : List ℕ) × (missing ≡ d ∷ later)

-- The runs as `collect_all` begins them.
abbrev begun : ℕ → Store → FleetCar → Run
begun yesterday s car = record {
  car = car;
  due = due_days car yesterday s;
  result = record { mint = car.mint; collected = []; failed_at = none };
}
