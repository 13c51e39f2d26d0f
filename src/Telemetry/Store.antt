-- ===== src/Telemetry/Store.antt =====
-- backend/src/telemetry/telemetry.store.ts: the tables `telemetry_days` and
-- `telemetry_submissions` as lists of rows in the order of insertion, and the store's statements.
-- A statement that throws gives `none`; a transaction that throws leaves the tables as they were.
mod Tables
pub mod Links
pub use Tables.*
use axel_sol.Prelude.{
  ℕ, zero, suc, ◌+◌, String, Bool, true, false, not, ◌&&◌, ◌||◌, Option, none, some, List, [], ◌∷◌,
  ◌++◌, map, length, take, leb, ltb, ◌==◌, if◌then◌else◌, Text, str_eq, select, sort_by, find,
}
use axel_sol.Telemetry.{DataOrigin, DayFigures}

infixl 5 ◌>>=◌
abbrev pub ◌>>=◌ {ℓ κ} : {A : Type ℓ} {B : Type κ} → Option A → (A → Option B) → Option B
none >>= f = none
some a >>= f = f a

abbrev pub is_some {ℓ} : {A : Type ℓ} → Option A → Bool
is_some none = false
is_some (some a) = true

-- `tx_signature = ?`, which a NULL does not satisfy.
abbrev pub signed_by : String → DayRow → Bool
signed_by signature row = elim row.tx_signature [ none ↦ false | some s ↦ str_eq s signature ]

unfoldable pub to_link : DayRow → Option ChainLink
to_link row = do
  tx_signature ← row.tx_signature
  position ← row.chain_position
  head_before ← row.head_before
  head_after ← row.head_after
  some (record {
    position = position;
    head_before = head_before;
    head_after = head_after;
    tx_signature = tx_signature;
    confirmed_at = row.confirmed_at;
  })

unfoldable pub to_day : DayRow → StoredDay
to_day row = record {
  mint = row.mint;
  date = row.date;
  canonical = row.canonical_json;
  data_hash = row.data_hash;
  data_origin = row.data_origin;
  figures = row.figures;
  collected_at = row.collected_at;
  chain = to_link row;
}

-- `INSERT INTO telemetry_days`; the primary key is (mint, date).
abbrev pub same_key : String → ℕ → DayRow → Bool
same_key mint date row = str_eq row.mint mint && row.date == date

unfoldable pub save_day :
    (mint : String) (date : ℕ) (canonical : List ℕ) (data_hash : Text) (origin : DataOrigin)
    → DayFigures
    → ℕ
    → Store
    → Option Store
save_day mint date canonical data_hash origin figures collected_at s =
    if is_some (find (same_key mint date) s.days)
    then none
    else some (record s {
      days =
          s.days
          ++ record {
            mint = mint;
            date = date;
            canonical_json = canonical;
            data_hash = data_hash;
            data_origin = origin;
            figures = figures;
            collected_at = collected_at;
            chain_position = none;
            head_before = none;
            head_after = none;
            tx_signature = none;
            confirmed_at = none;
          }
            ∷ [];
    })

abbrev later : Option ℕ → ℕ → Option ℕ
later none date = some date
later (some best) date = some (if ltb best date then date else best)

max_date : String → Option ℕ → List DayRow → Option ℕ
max_date mint best [] = best
max_date mint best (row ∷ rows) =
    max_date mint (if str_eq row.mint mint then later best row.date else best) rows

unfoldable pub last_collected_date : String → Store → Option ℕ
unfolding max_date
last_collected_date mint s = max_date mint none s.days

unfoldable pub day : String → ℕ → Store → Option StoredDay
day mint date s = do row ← find (same_key mint date) s.days; some (to_day row)

unfoldable pub days_between : String → ℕ → ℕ → ℕ → Store → List StoredDay
days_between mint start end limit s = map to_day (
    take limit (
      sort_by (λ row. row.date)
        (select (λ row. str_eq row.mint mint && leb start row.date && leb row.date end) s.days)))

abbrev pub position_of : DayRow → ℕ
position_of row = elim row.chain_position [ none ↦ 0 | some p ↦ p ]

unfoldable pub confirmed_rows : String → Store → List DayRow
confirmed_rows mint s =
    sort_by position_of (select (λ row. str_eq row.mint mint && is_some row.confirmed_at) s.days)

unfoldable pub confirmed_between : String → ℕ → ℕ → ℕ → Store → List StoredDay
confirmed_between mint start end limit s = map to_day (
    take limit (
      sort_by position_of (
        select
          (λ row.
            str_eq row.mint mint
            && leb start row.date
            && leb row.date end
            && is_some row.confirmed_at)
          s.days)))

-- `requireLink` over several rows: `none` where one of them has no link.
unfoldable pub require_links : List DayRow → Option (List ChainLink)
require_links [] = some []
require_links (row ∷ rows) = do link ← to_link row; links ← require_links rows; some (link ∷ links)

abbrev pub last : {A : Type 0} → List A → Option A
last [] = none
last (x ∷ []) = some x
last (x ∷ y ∷ ys) = last (y ∷ ys)

-- The newest confirmed link, or `some none` where no day is confirmed.
unfoldable pub confirmed_tip : String → Store → Option (Option ChainLink)
confirmed_tip mint s = elim (last (confirmed_rows mint s)) [
  | none ↦ some none
  | some row ↦ do link ← to_link row; some (some link)
]

unfoldable pub unsubmitted_after : String → ℕ → Store → List StoredDay
unsubmitted_after mint after_date s = map to_day (
    sort_by (λ row. row.date)
      (select
        (λ row. str_eq row.mint mint && not (is_some row.tx_signature) && ltb after_date row.date)
        s.days))

unfoldable pub count_stranded : String → ℕ → Store → ℕ
count_stranded mint last_chain_date s = length (
    select
      (λ row.
        str_eq row.mint mint && not (is_some row.tx_signature) && leb row.date last_chain_date)
      s.days)

abbrev pub is_pending : Outcome → Bool
is_pending pending = true
is_pending _ = false

unfoldable pub pending_submission : String → Store → Option Submission
pending_submission mint s = do
  row ← find (λ r. str_eq r.mint mint && is_pending r.outcome) s.submissions
  some (record {
    signature = row.signature;
    mint = row.mint;
    last_valid_block_height = row.last_valid_block_height;
  })

unfoldable pub submission_links : String → Store → Option (List ChainLink)
submission_links signature s =
    require_links (sort_by position_of (select (signed_by signature) s.days))

-- The rows that the `UPDATE` of `recordSubmission` changes.
abbrev pub is_target : String → ℕ → DayRow → Bool
is_target mint date row = same_key mint date row && not (is_some row.tx_signature)

abbrev pub link_row : String → String → PlannedLink → DayRow → DayRow
link_row signature mint planned row =
    if is_target mint planned.date row
    then record row {
      chain_position = some planned.position;
      head_before = some planned.head_before;
      head_after = some planned.head_after;
      tx_signature = some signature;
    }
    else row

unfoldable pub link_all : String → String → List PlannedLink → List DayRow → Option (List DayRow)
link_all signature mint [] rows = some rows
link_all signature mint (planned ∷ links) rows =
    let rest = link_all signature mint links (map (link_row signature mint planned) rows) in
    if length (select (is_target mint planned.date) rows) == 1 then rest else none

unfoldable pub record_submission : Submission → List PlannedLink → ℕ → Store → Option Store
record_submission submission links now s =
    if is_some (find (λ r. str_eq r.signature submission.signature) s.submissions) then none else do
      days ← link_all submission.signature submission.mint links s.days
      some (record {
        days = days;
        submissions =
            s.submissions
            ++ record {
              signature = submission.signature;
              mint = submission.mint;
              last_valid_block_height = submission.last_valid_block_height;
              submitted_at = now;
              outcome = pending;
            }
              ∷ [];
      })

abbrev pub set_outcome : String → Outcome → SubmissionRow → SubmissionRow
set_outcome signature outcome row =
    if str_eq row.signature signature then record row { outcome = outcome } else row

abbrev pub confirm_row : String → ℕ → DayRow → DayRow
confirm_row signature now row =
    if signed_by signature row then record row { confirmed_at = some now } else row

unfoldable pub confirm_submission : String → ℕ → Store → Store
confirm_submission signature now s = record {
  days = map (confirm_row signature now) s.days;
  submissions = map (set_outcome signature confirmed) s.submissions;
}

abbrev pub abandon_row : String → DayRow → DayRow
abandon_row signature row =
    if signed_by signature row
    then record row {
      chain_position = none;
      head_before = none;
      head_after = none;
      tx_signature = none;
    }
    else row

unfoldable pub abandon_submission : String → Outcome → Store → Store
abandon_submission signature outcome s = record {
  days = map (abandon_row signature) s.days;
  submissions = map (set_outcome signature outcome) s.submissions;
}
