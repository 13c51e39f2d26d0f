-- ===== src/Verify.antt =====
-- frontend/src/lib/verify/telemetry.ts: the browser rebuilds a car's telemetry chain from the
-- published days. `digest` stands for the browser's SHA-256, on bytes. Of a published record the
-- check reads its `date` and the UTF-8 bytes of its canonical JSON. `none` is a call that throws.
pub mod Chain
mod Tests
use axel_sol.Prelude.{
  ℕ, zero, suc, ◌+◌, ◌-◌, Bool, true, false, not, ◌&&◌, ◌||◌, Option, none, some, List, [], ◌∷◌,
  ◌++◌, length, take, drop, replicate, get_elem?, leb, ltb, ◌==◌, if◌then◌else◌, Text, text_eq,
  lower,
}
use axel_sol.Hex.{to_hex, from_hex, u32_le}
use axel_sol.Dates.{date_number, ◌>>=◌}

abbrev pub empty_head : Text
empty_head = replicate 64 b'0'

pub record PublishedDay : Type 0 where
  -- The record's `date`, where it is a string.
  pub date : Option Text
  pub canonical : List ℕ
  pub data_hash : Option Text
  pub head : Option Text

pub record OnChainTelemetry : Type 0 where
  pub head : Text
  pub count : ℕ
  pub last_date : ℕ

pub record RecomputedDay : Type 0 where
  pub date : ℕ
  pub data_hash : Text
  pub head : Text

pub data DayProblemKind : Type 0 where
  bad_date date_order record_hash stated_head : DayProblemKind

pub record DayProblem : Type 0 where
  pub index : ℕ
  pub date : Option ℕ
  pub kind : DayProblemKind

pub data ChainOutcome : Type 0 where
  match ahead behind mismatch : ChainOutcome

pub record ChainCheck : Type 0 where
  pub outcome : ChainOutcome
  pub days : List RecomputedDay
  pub problem : Option DayProblem
  pub head : Text

unfoldable pub same : Text → Text → Bool
same a b = text_eq (lower a) (lower b)

abbrev zeros : ℕ → List ℕ
zeros n = replicate n 0

-- The 68 bytes: the head from 0, the date at 32, the hash of the data at 36. `set` throws where
-- the bytes do not fit.
unfoldable pub layout : List ℕ → ℕ → List ℕ → Option (List ℕ)
layout head date data_hash =
    if ltb 68 (length head) || ltb 32 (length data_hash)
    then none
    else some (
        take 32 (head ++ zeros 32)
        ++ u32_le date
        ++ data_hash
        ++ drop (length data_hash) (take 32 (drop 36 (head ++ zeros 68))))

module _ (digest : List ℕ → List ℕ) where
  unfoldable pub next_head : Text → ℕ → Text → Option Text
  next_head head date data_hash = do
    h ← from_hex head
    d ← from_hex data_hash
    bytes ← layout h date d
    some (to_hex (digest bytes))

  unfoldable pub document_hash : List ℕ → Text
  document_hash canonical = to_hex (digest canonical)

  -- `stated !== null && !same(stated, value)`.
  abbrev pub contradicts : Option Text → Text → Bool
  contradicts none value = false
  contradicts (some stated) value = not (same stated value)

  -- The variables of the loop.
  pub record Walk : Type 0 where
    pub days : List RecomputedDay
    pub head : Text
    pub previous : ℕ

  abbrev failed : ℕ → Option ℕ → DayProblemKind → Walk → ChainCheck
  failed index date kind w = record {
    outcome = mismatch;
    days = w.days;
    problem = some (record { index = index; date = date; kind = kind });
    head = w.head;
  }

  -- A round of the loop leaves with a result, or goes on.
  pub data Round : Type 0 where
    stop : ChainCheck → Round
    go_on : Walk → Round

  unfoldable pub extend : ℕ → PublishedDay → Walk → ℕ → Text → Option Round
  extend index day w date data_hash =
      if contradicts day.data_hash data_hash
      then some (stop (failed index (some date) record_hash w))
      else (do
        after ← next_head w.head date data_hash
        if contradicts day.head after
            then some (stop (failed index (some date) stated_head w))
            else some (
                go_on (record {
                  days = w.days ++ record { date = date; data_hash = data_hash; head = after } ∷ [];
                  head = after;
                  previous = date;
                })))

  unfoldable pub check_day : ℕ → PublishedDay → Walk → Option Round
  unfolding extend
  check_day index day w = elim (do value ← day.date; date_number value) [
    | none ↦ some (stop (failed index none bad_date w))
    | some date ↦
        if leb date w.previous
        then some (stop (failed index (some date) date_order w))
        else extend index day w date (document_hash day.canonical)
  ]

  unfoldable pub finish : OnChainTelemetry → Walk → Option ChainCheck
  finish on_chain w =
      if ltb (length w.days) on_chain.count
      then some (record { outcome = behind; days = w.days; problem = none; head = w.head })
      else do
        recorded ←
            (if on_chain.count == 0
              then some (record { date = 0; data_hash = []; head = empty_head })
              else get_elem? w.days (on_chain.count - 1))
        if not (same recorded.head on_chain.head && recorded.date == on_chain.last_date)
            then some
                (record { outcome = mismatch; days = w.days; problem = none; head = recorded.head })
            else some (record {
              outcome = if length w.days == on_chain.count then match else ahead;
              days = w.days;
              problem = none;
              head = recorded.head;
            })

  unfoldable pub walk_days : OnChainTelemetry → ℕ → List PublishedDay → Walk → Option ChainCheck
  walk_days on_chain index [] w = finish on_chain w
  walk_days on_chain index (day ∷ published) w = elim (check_day index day w) [
    | none ↦ none
    | some round ↦ elim round [
      | stop result ↦ some result
      | go_on w' ↦ walk_days on_chain (index + 1) published w'
    ]
  ]

  unfoldable pub check_telemetry_chain : List PublishedDay → OnChainTelemetry → Option ChainCheck
  check_telemetry_chain published on_chain =
      walk_days on_chain 0 published (record { days = []; head = empty_head; previous = 0 })

pub data Snapshot : Type 0 where
  before_telemetry : Snapshot
  after_day : RecomputedDay → Snapshot
  not_reached : Snapshot

find_head : List RecomputedDay → Text → Snapshot
find_head [] head = not_reached
find_head (d ∷ days) head = if same d.head head then after_day d else find_head days head

unfoldable pub snapshot_day : List RecomputedDay → Text → Snapshot
unfolding find_head
snapshot_day days snapshot_head =
    if same snapshot_head empty_head then before_telemetry else find_head days snapshot_head
