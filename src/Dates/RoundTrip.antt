-- ===== src/Dates/RoundTrip.antt =====
-- A day number survives being written as a date and read again.
use axel_sol.Prelude.{ℕ, ◌+◌, ◌*◌, ◌/◌, ◌%◌, ◌≤◌, ◌<◌, ◌≡◌, arith, true, some}
use axel_sol.Dates.{is_real_day, digit, two, four, iso_match, date_number, iso_from_date_number}

-- A day number that the program stores: a real day of the years 2000 to 9999 as YYYYMMDD.
pub record IsDay (n : ℕ) : Type 0 where
  pub late : 20_000_000 ≤ n
  pub short : n < 100_000_000
  pub is_real : is_real_day (n / 10_000) (n / 100 % 100) (n % 100) ≡ true

digit-code : (v : ℕ) → v < 10 → digit (48 + v) ≡ some v
digit-code v h = ground arith

two-code : (v w : ℕ) → v < 10 → w < 10 → two (48 + v) (48 + w) ≡ some (v * 10 + w)
two-code v w h k = rw (digit-code v h, digit-code w k)

four-code :
    (a b c d : ℕ)
    → a < 10
    → b < 10
    → c < 10
    → d < 10
    → four (48 + a) (48 + b) (48 + c) (48 + d) ≡ some ((a * 10 + b) * 100 + (c * 10 + d))
four-code a b c d h i j k = rw (two-code a b h i, two-code c d j k)

iso_match-iso :
    (n : ℕ)
    → n < 100_000_000
    → iso_match (iso_from_date_number n)
      ≡ some (record { year = n / 10_000; month = n / 100 % 100; day = n % 100 })
unfolding iso_match iso_from_date_number
iso_match-iso n h =
    rw
      (
        four-code (n / 10_000_000 % 10) (n / 1_000_000 % 10) (n / 100_000 % 10) (n / 10_000 % 10)
            (omega arith) (omega arith) (omega arith) (omega arith),
        two-code (n / 1000 % 10) (n / 100 % 10) (omega arith) (omega arith),
        two-code (n / 10 % 10) (n % 10) (omega arith) (omega arith),
      )
      (ground arith)

-- Every day number that the program stores is read back from its ISO text by the frontend.
pub date_number-iso : (n : ℕ) → IsDay n → date_number (iso_from_date_number n) ≡ some n
unfolding date_number
date_number-iso n d = rw (iso_match-iso n d.short, d.is_real) (ground (arith, d.late))
