-- ===== src/Dates.antt =====
-- Calendar days: `dateNumber` of frontend/src/lib/verify/telemetry.ts and `isoFromDateNumber` of
-- backend/src/common/dates.ts. Texts are lists of character codes. The round trip of a date
-- through JavaScript's `Date` is the test that the day exists in its month.
pub mod RoundTrip
pub mod Utc
use axel_sol.Prelude.{
  ℕ, zero, suc, ◌+◌, ◌-◌, ◌*◌, ◌/◌, ◌%◌, Bool, true, false, not, ◌&&◌, ◌||◌, Option, none, some,
  List, [], ◌∷◌, leb, ltb, ◌==◌, if◌then◌else◌, Text,
}

unfoldable pub is_leap : ℕ → Bool
is_leap year = (year % 4 == 0 && not (year % 100 == 0)) || year % 400 == 0

unfoldable pub days_in_month : ℕ → ℕ → ℕ
unfolding is_leap
days_in_month year month =
    if month == 2
    then (if is_leap year then 29 else 28)
    else if month == 4 || month == 6 || month == 9 || month == 11
    then 30
    else 31

-- Whether `Date.UTC(year, month - 1, day)` reads back as the same year, month and day.
unfoldable pub is_real_day : ℕ → ℕ → ℕ → Bool
is_real_day year month day =
    leb 1 month && leb month 12 && leb 1 day && leb day (days_in_month year month)

abbrev pub digit : ℕ → Option ℕ
digit c = if leb b'0' c && leb c b'9' then some (c - 48) else none

infixl 5 ◌>>=◌
abbrev pub ◌>>=◌ {ℓ κ} : {A : Type ℓ} {B : Type κ} → Option A → (A → Option B) → Option B
none >>= f = none
some a >>= f = f a

pub record IsoDate : Type 0 where
  pub year : ℕ
  pub month : ℕ
  pub day : ℕ

abbrev pub two : ℕ → ℕ → Option ℕ
two a b = do x ← digit a; y ← digit b; some (x * 10 + y)

abbrev pub four : ℕ → ℕ → ℕ → ℕ → Option ℕ
four a b c d = do x ← two a b; y ← two c d; some (x * 100 + y)

abbrev pub fields : (a b c d x e f y g h : ℕ) → Option IsoDate
fields a b c d x e f y g h =
    if x == b'-' && y == b'-'
    then (do
      year ← four a b c d
      month ← two e f
      day ← two g h
      some (record { year = year; month = month; day = day }))
    else none

-- The groups of `/^(\d{4})-(\d{2})-(\d{2})$/`.
unfoldable pub iso_match : Text → Option IsoDate
iso_match (a ∷ b ∷ c ∷ d ∷ x ∷ e ∷ f ∷ y ∷ g ∷ h ∷ []) = fields a b c d x e f y g h
iso_match _ = none

-- `dateNumber` of the frontend: the day as YYYYMMDD, if the program accepts it.
unfoldable pub date_number : Text → Option ℕ
unfolding iso_match is_real_day days_in_month
date_number value = do
  m ← iso_match value
  if not (is_real_day m.year m.month m.day) || ltb m.year 2000
      then none
      else some (m.year * 10_000 + m.month * 100 + m.day)

-- `isoFromDateNumber` of the backend, for the eight-digit numbers that the program stores.
unfoldable pub iso_from_date_number : ℕ → Text
iso_from_date_number n =
    (48 + n / 10_000_000 % 10)
    ∷ (48 + n / 1_000_000 % 10)
    ∷ (48 + n / 100_000 % 10)
    ∷ (48 + n / 10_000 % 10)
    ∷ b'-'
    ∷ (48 + n / 1000 % 10)
    ∷ (48 + n / 100 % 10)
    ∷ b'-'
    ∷ (48 + n / 10 % 10)
    ∷ (48 + n % 10)
    ∷ []
