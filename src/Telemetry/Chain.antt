-- ===== src/Telemetry/Chain.antt =====
-- backend/src/telemetry/telemetry-chain.service.ts: the oracle's writer. What the chain and the
-- RPC answer comes in as arguments: the project account, the block height, and for each batch of
-- a run the signed transaction and what became of sending it. A call that throws gives `none`.
-- Logging and the texts of `detail` are left out, and so is the queue that runs the calls for one
-- car one after another.
pub mod Plan
pub mod Reconcile
pub mod Writing
use axel_sol.Prelude.{
  ℕ, zero, suc, ◌+◌, String, Bool, true, false, not, ◌&&◌, ◌||◌, Option, none, some, List, [], ◌∷◌,
  map, length, take, drop, leb, ◌==◌, if◌then◌else◌, Text, text_eq, str_eq,
}
use axel_sol.Hex.{buffer_from_hex}
use axel_sol.Telemetry.{next_head, vehicle_status_codes}
use axel_sol.Telemetry.Store.{
  Store, StoredDay, PlannedLink, ChainLink, Submission, failed, expired, pending_submission,
  submission_links, confirmed_tip, confirm_submission, abandon_submission, record_submission,
  unsubmitted_after, ◌>>=◌, last,
}

abbrev pub max_entries_per_batch : ℕ
max_entries_per_batch = 20

pub data ProjectState : Type 0 where
  fundraising funded failed_raise operating paused closed : ProjectState

-- The fields of the project account that the service reads.
pub record Project : Type 0 where
  pub telemetry_count : ℕ
  pub telemetry_head : Text
  -- YYYYMMDD, 0 before the first day.
  pub last_telemetry_date : ℕ
  pub oracle : String
  pub state : ProjectState

pub record Tip : Type 0 where
  pub count : ℕ
  pub head : Text
  pub last_date : ℕ

unfoldable pub chain_tip : Project → Tip
chain_tip p = record {
  count = p.telemetry_count;
  head = p.telemetry_head;
  last_date = p.last_telemetry_date;
}

abbrev pub is_recordable : ProjectState → Bool
is_recordable operating = true
is_recordable paused = true
is_recordable _ = false

pub data View : Type 0 where
  no_project : View
  in_sync pending diverged : Project → View

abbrev pub follows : ℕ → Text → Tip → Bool
follows position head tip = tip.count == position && text_eq tip.head head

-- `tip.count === position - 1`, and the head is the one before.
abbrev pub precedes : ℕ → Text → Tip → Bool
precedes position head tip = tip.count + 1 == position && text_eq tip.head head

-- The outcome of a sent batch whose first and last links are given.
unfoldable pub settle_pending :
    Project → Submission → ChainLink → ChainLink → ℕ → ℕ → Store → Store × View
unfolding chain_tip
settle_pending project submission first final height now s =
    if follows final.position final.head_after (chain_tip project)
    then (confirm_submission submission.signature now s, in_sync project)
    else if precedes first.position first.head_before (chain_tip project)
    then (if leb height submission.last_valid_block_height
        then (s, pending project)
        else (abandon_submission submission.signature expired s, in_sync project))
    else (s, diverged project)

abbrev pub first_link : List ChainLink → Option ChainLink
first_link [] = none
first_link (link ∷ links) = some link

-- Nothing is pending: the chain must be where the newest confirmed day left it.
unfoldable pub compare_tip : Project → Option ChainLink → View
unfolding chain_tip
compare_tip project none = in_sync project
compare_tip project (some local) =
    if follows local.position local.head_after (chain_tip project)
    then in_sync project
    else diverged project

unfoldable pub reconcile_with :
    Project → String → ℕ → ℕ → Option Submission → Store → Option (Store × View)
reconcile_with project mint height now none s = do
  local ← confirmed_tip mint s
  some (s, compare_tip project local)
reconcile_with project mint height now (some submission) s = do
  links ← submission_links submission.signature s
  first ← first_link links
  final ← last links
  some (settle_pending project submission first final height now s)

unfoldable pub reconcile_now : Option Project → String → ℕ → ℕ → Store → Option (Store × View)
reconcile_now none mint height now s = some (s, no_project)
reconcile_now (some project) mint height now s =
    reconcile_with project mint height now (pending_submission mint s) s

-- Chain positions and heads that the days take when appended after the head, in order.
unfoldable pub plan_from : (List ℕ → List ℕ) → ℕ → Text → List StoredDay → List PlannedLink
plan_from digest count head [] = []
plan_from digest count head (d ∷ days) =
    let head_after = next_head digest head d.date d.data_hash in
    record { date = d.date; position = count + 1; head_before = head; head_after = head_after }
    ∷ plan_from digest (count + 1) head_after days

unfoldable pub plan : (List ℕ → List ℕ) → Tip → List StoredDay → List PlannedLink
plan digest tip days = plan_from digest tip.count tip.head days

-- An entry of the `record_telemetry` instruction.
pub record Entry : Type 0 where
  pub date : ℕ
  pub data_hash : List ℕ
  pub trips : ℕ
  pub km : ℕ
  pub rent_paid : ℕ
  pub status : ℕ

unfoldable pub entry_of : StoredDay → Entry
entry_of d = record {
  date = d.date;
  data_hash = buffer_from_hex d.data_hash;
  trips = d.figures.trips;
  km = d.figures.km;
  rent_paid = d.figures.rent_charged;
  status = vehicle_status_codes d.figures.status;
}

-- What became of sending a signed transaction.
pub data Sending : Type 0 where
  landed refused lapsed unknown : Sending

pub record Answer : Type 0 where
  pub signature : String
  pub last_valid_block_height : ℕ
  pub sending : Sending

pub data Written : Type 0 where
  confirmed_batch pending_batch failed_batch : Written

abbrev pub after_sending : Sending → String → ℕ → Store → Store × Written
after_sending landed signature now s = (confirm_submission signature now s, confirmed_batch)
after_sending refused signature now s = (abandon_submission signature failed s, failed_batch)
after_sending lapsed signature now s = (abandon_submission signature expired s, failed_batch)
after_sending unknown signature now s = (s, pending_batch)

-- What the i-th batch of a run meets when its entries are signed and sent.
abbrev pub Answers : Type 0
Answers = ℕ → List Entry → Answer

unfoldable pub write_batch :
    String
    → (List Entry → Answer)
    → List StoredDay
    → List PlannedLink
    → ℕ
    → Store
    → Option (Store × Written)
unfolding entry_of
write_batch mint respond batch links now s =
    let answer = respond (map entry_of batch) in
    do
      recorded ←
          record_submission
            (record {
              signature = answer.signature;
              mint = mint;
              last_valid_block_height = answer.last_valid_block_height;
            })
            links now s
      some (after_sending answer.sending answer.signature now recorded)

pub data SyncState : Type 0 where
  synced still_pending has_diverged without_project no_oracle_key foreign_oracle not_operating
        batch_failed :
      SyncState

pub record SyncResult : Type 0 where
  pub state : SyncState
  pub written : ℕ

-- The loop over the batches. The rounds left bound the recursion; one for each day is enough.
unfoldable pub write_all :
    ℕ
    → String
    → Answers
    → ℕ
    → ℕ
    → List StoredDay
    → List PlannedLink
    → ℕ
    → Store
    → Option (Store × SyncResult)
write_all rounds mint answers now i [] links written s =
    some (s, record { state = synced; written = written })
write_all zero mint answers now i (d ∷ days) links written s = none
write_all (suc rounds) mint answers now i (d ∷ days) links written s =
    let batch = take max_entries_per_batch (d ∷ days) in
    let batch_links = take max_entries_per_batch links in
    elim (write_batch mint (answers i) batch batch_links now s) [
      | none ↦ none
      | some (s', outcome) ↦ elim outcome [
        | confirmed_batch ↦
            write_all rounds mint answers now (i + 1) (drop max_entries_per_batch (d ∷ days))
              (drop max_entries_per_batch links) (written + length batch) s'
        | pending_batch ↦ some (s', record { state = still_pending; written = written })
        | failed_batch ↦ some (s', record { state = batch_failed; written = written })
      ]
    ]

module _ (digest : List ℕ → List ℕ) where
  -- What `syncNow` does for a project that is in sync.
  unfoldable pub append_days :
      Project → Option String → String → Answers → ℕ → Store → Option (Store × SyncResult)
  unfolding chain_tip
  append_days project none mint answers now s =
      some (s, record { state = no_oracle_key; written = 0 })
  append_days project (some oracle) mint answers now s =
      if not (str_eq project.oracle oracle)
      then some (s, record { state = foreign_oracle; written = 0 })
      else if not (is_recordable project.state)
      then some (s, record { state = not_operating; written = 0 })
      else let days = unsubmitted_after mint (chain_tip project).last_date s in
        write_all (length days) mint answers now 0 days (plan digest (chain_tip project) days) 0 s

  abbrev pub after_view :
      View → Option String → String → Answers → ℕ → Store → Option (Store × SyncResult)
  after_view no_project oracle mint answers now s =
      some (s, record { state = without_project; written = 0 })
  after_view (pending _) oracle mint answers now s =
      some (s, record { state = still_pending; written = 0 })
  after_view (diverged _) oracle mint answers now s =
      some (s, record { state = has_diverged; written = 0 })
  after_view (in_sync project) oracle mint answers now s =
      append_days project oracle mint answers now s

  unfoldable pub sync_now :
      Option Project
      → Option String
      → String
      → Answers
      → ℕ
      → ℕ
      → Store
      → Option (Store × SyncResult)
  sync_now project oracle mint answers height now s =
      elim (reconcile_now project mint height now s) [
        | none ↦ none
        | some (s', view) ↦ after_view view oracle mint answers now s'
      ]
