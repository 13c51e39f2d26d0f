-- ===== src/Dates/Utc.antt =====
-- The calendar of JavaScript's `Date` in UTC for times since 1970, as far as
-- backend/src/kyc/investor-plan.ts uses it: days since the epoch and their year, month and day.
use axel_sol.Prelude.{ℕ, ◌+◌, ◌-◌, ◌*◌, ◌/◌, ◌%◌, ◌≡◌, refl, ltb, if◌then◌else◌}

pub record Civil : Type 0 where
  pub year : ℕ
  -- From 0 for January, as `getUTCMonth` counts.
  pub month : ℕ
  pub day : ℕ

unfoldable pub civil_of_days : ℕ → Civil
civil_of_days days =
    let z = days + 719468 in
    let era = z / 146097 in
    let doe = z - era * 146097 in
    let yoe = (doe + doe / 36524 - doe / 1460 - doe / 146096) / 365 in
    let doy = doe - (365 * yoe + yoe / 4 - yoe / 100) in
    let mp = (5 * doy + 2) / 153 in
    let month = if ltb mp 10 then mp + 2 else mp - 10 in
    record {
      year = yoe + era * 400 + (if ltb month 2 then 1 else 0);
      month = month;
      day = doy - (153 * mp + 2) / 5 + 1;
    }

-- `MakeDay`: the day is counted from the first of the month, so it may run into the next one.
unfoldable pub days_of_civil : Civil → ℕ
days_of_civil c =
    let year = c.year + c.month / 12 in
    let month = c.month % 12 in
    let y = if ltb month 2 then year - 1 else year in
    let era = y / 400 in
    let yoe = y - era * 400 in
    let doy = (153 * (if ltb month 2 then month + 10 else month - 2) + 2) / 5 + c.day - 1 in
    era * 146097 + yoe * 365 + yoe / 4 - yoe / 100 + doy - 719468

-- `setUTCMonth(getUTCMonth() + months)` on a time in milliseconds, in whole seconds.
unfoldable pub add_months : ℕ → ℕ → ℕ
unfolding civil_of_days days_of_civil
add_months epoch_ms months =
    let c = civil_of_days (epoch_ms / 86_400_000) in
    days_of_civil (record c { month = c.month + months }) * 86_400 + epoch_ms % 86_400_000 / 1000

a_year_later : add_months 1_790_000_000_000 12 ≡ 1_821_536_000
unfolding add_months
a_year_later = refl

-- A year after 29 February is 1 March.
after_leap_day : add_months 1_709_164_800_500 12 ≡ 1_740_787_200
unfolding add_months
after_leap_day = refl
