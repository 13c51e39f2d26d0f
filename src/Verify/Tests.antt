-- ===== src/Verify/Tests.antt =====
-- The theorems on the frontend's check of published telemetry, on hex texts and on dates, at
-- concrete inputs.
use axel_sol.Prelude.{
  ℕ, ◌%◌, ◌≡◌, refl, arith, none, some, List, [], ◌∷◌, length, take, replicate, sum_by, ◌==◌,
  if◌then◌else◌,
}
use axel_sol.Hex.{to_hex, from_hex, buffer_from_hex}
use axel_sol.Hex.Laws.{from_hex-to_hex}
use axel_sol.Dates.{date_number, iso_from_date_number, is_real_day, days_in_month}
use axel_sol.Dates.RoundTrip.{IsDay, date_number-iso}
use axel_sol.Telemetry.{active, simulated, empty_head}
use axel_sol.Telemetry.Store.{StoredDay}
use axel_sol.Telemetry.Chain.{plan}
use axel_sol.Telemetry.Chain.Plan.{append_all}
use axel_sol.Verify.{ChainCheck, match, ahead, check_telemetry_chain}
use axel_sol.Verify.Chain.{IsSha256, publish, start, on_chain_after, check_telemetry_chain-plan}

abbrev sum_digest : List ℕ → List ℕ
sum_digest bytes = replicate 32 (sum_by (λ b. b) bytes % 256)

sum_digest-IsSha256 : IsSha256 sum_digest
sum_digest-IsSha256 x = (refl, omega arith)

from_hex-to_hex_example :
    (from_hex (to_hex (0 ∷ 171 ∷ 255 ∷ [])) ≡ some (0 ∷ 171 ∷ 255 ∷ []))
    × (buffer_from_hex (to_hex (0 ∷ 171 ∷ 255 ∷ [])) ≡ 0 ∷ 171 ∷ 255 ∷ [])
from_hex-to_hex_example = from_hex-to_hex (0 ∷ 171 ∷ 255 ∷ []) (omega arith)

leap-IsDay : IsDay 20280229
unfolding is_real_day days_in_month
leap-IsDay = record { late = omega arith; short = omega arith; is_real = refl }

first-IsDay : IsDay 20260901
unfolding is_real_day days_in_month
first-IsDay = record { late = omega arith; short = omega arith; is_real = refl }

date_number-iso_example : date_number (iso_from_date_number 20280229) ≡ some 20280229
date_number-iso_example = date_number-iso 20280229 leap-IsDay

abbrev collected : ℕ → List ℕ → StoredDay
collected date canonical = record {
  mint = "car";
  date = date;
  canonical = canonical;
  data_hash = to_hex (sum_digest canonical);
  data_origin = simulated;
  figures = record { status = active; trips = 12; km = 90; rent_charged = 11_000 };
  collected_at = 5;
  chain = none;
}

abbrev days : List StoredDay
days = collected 20260901 (1 ∷ 2 ∷ []) ∷ collected 20280229 (9 ∷ []) ∷ []

check_telemetry_chain-plan_example :
    (check : ChainCheck) × (check_telemetry_chain sum_digest
        (publish days
          (plan sum_digest (record { count = 0; head = empty_head; last_date = 0 }) days))
        (on_chain_after sum_digest 1 days)
      ≡ some check)
    × (check.outcome ≡ (if length days == 1 then match else ahead))
    × (check.problem ≡ none)
    × (check.head ≡ (append_all sum_digest start (take 1 days)).head)
check_telemetry_chain-plan_example =
    check_telemetry_chain-plan sum_digest sum_digest-IsSha256 1 days (omega arith)
      ((omega arith), first-IsDay, refl, ((omega arith), leap-IsDay, refl, tt))
