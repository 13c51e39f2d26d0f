-- ===== src/Indexer/Sync.antt =====
-- backend/src/indexer/indexer.service.ts: `load` and `sync`, on what Feed has. What the RPC answers and which notifications arrive while it is waited for come in as arguments,
-- and so does the decoder, which stands on the libraries of Anchor. Log lines to the console are
-- left out.
pub mod History
pub mod Paging
pub mod Truth
pub mod Mirror
pub mod Rounds
pub mod Complete
pub mod Service
pub mod WrongChain
mod Tests
use mathlib.Core.List.{reverse}
use axel_sol.Indexer.Feed.{
  Arrival, GenesisCheck, Fetch, Indexer, Notified, Pages, SignatureInfo, TransactionAnswer,
  all_logs, chain_mismatch, chain_ok, chain_unknown, check_answer, check_chain, checked_against,
  compared, failed_on_chain, fetched, forget, is_entry, last_signature, max_notified, missing,
  new_signatures, notified_ttl_ms, on_logs, opt_eq, out_of_fuel, page_size, put, rpc_failed, throws,
  with_logs, without_logs,
}
use axel_sol.Prelude.{
  ℕ, zero, suc, ◌+◌, ◌-◌, String, Bool, true, false, not, ◌&&◌, ◌||◌, Option, none, some, List, [],
  ◌∷◌, ◌++◌, map, length, ltb, leb, if◌then◌else◌, str_eq, find, select, among, drop, Text,
}
use axel_sol.Indexer.Logs.{LoggedEvent, ProgramLogEvents, program_log_events}
use axel_sol.Indexer.Store.{
  EventRecord, TransactionRecord, Tables, set_state, cursor, is_indexed, advance_cursor,
  record_transaction,
}

-- What the decoder makes of a record: the event's name, the two fields where they are texts, and
-- the JSON text.
pub record DecodedEvent : Type 0 where
  pub type_name : String
  pub project : Option String
  pub owner : Option String
  pub data_json : String

abbrev pub or_time : Option ℕ → Option ℕ → Option ℕ
or_time none b = b
or_time (some a) b = some a

-- What happens at one signature of `sync`: whether the service is stopped, what the RPC answers,
-- the notifications that arrive while it is waited for, and the time at the end.
pub record Turn : Type 0 where
  pub stopped : Bool
  pub answer : TransactionAnswer
  pub arrivals : List Arrival
  pub now : ℕ

-- How the loop stops before its end.
pub data Halt : Type 0 where
  interrupted failed : Halt

pub data SyncEnd : Type 0 where
  finished : (waiting : Bool) → SyncEnd
  stopped_early errored wrong_chain no_fuel : SyncEnd

-- What one `sync` meets, with the pages that there are at most.
pub record World : Type 0 where
  pub genesis : Option String
  pub pages : Pages
  pub arrivals : List Arrival
  pub turns : String → Turn
  pub now : ℕ
  pub fuel : ℕ

abbrev pub record_of : LoggedEvent → Option DecodedEvent → EventRecord
record_of e none = record {
  index = e.index;
  type_name = "Unknown";
  project = none;
  owner = none;
  data_json = none;
  raw = e.data_text;
}
record_of e (some d) = record {
  index = e.index;
  type_name = d.type_name;
  project = d.project;
  owner = d.owner;
  data_json = some d.data_json;
  raw = e.data_text;
}

abbrev pub failed_record : SignatureInfo → TransactionRecord
failed_record info = record {
  signature = info.signature;
  slot = info.slot;
  block_time = info.block_time;
  failed = true;
  logs_truncated = false;
  events = [];
}

-- What `awaitsNotified` leaves, and whether that is anything.
abbrev pub still_awaited : ℕ → Tables → Notified → Bool
still_awaited now s n = not (ltb notified_ttl_ms (now - n.received_at) || is_indexed n.signature s)

abbrev pub awaits_notified : ℕ → Indexer → Indexer × SyncEnd
awaits_notified now s =
    let left = select (still_awaited now s.tables) s.notified in
    (record s { notified = left }, finished (ltb 0 (length left)))

abbrev pub after_loop : ℕ → Indexer × Option Halt → Indexer × SyncEnd
after_loop now (s, some interrupted) = (s, stopped_early)
after_loop now (s, some failed) = (s, errored)
after_loop now (s, none) = awaits_notified now s

module _ (program_address : Text) (decode : Text → Option DecodedEvent) where
  unfoldable pub event_record : LoggedEvent → EventRecord
  event_record e = record_of e (decode e.data_text)

  unfoldable pub parsed : String → ℕ → Option ℕ → List Text → TransactionRecord
  parsed signature slot block_time logs =
      let read = program_log_events logs program_address in
      record {
        signature = signature;
        slot = slot;
        block_time = block_time;
        failed = false;
        logs_truncated = read.truncated;
        events = map event_record read.events;
      }

  abbrev pub answered : SignatureInfo → TransactionAnswer → Option TransactionRecord
  answered info throws = none
  answered info missing = none
  answered info failed_on_chain = some (failed_record info)
  answered info without_logs = none
  answered info (with_logs slot block_time logs) =
      some (parsed info.signature slot (or_time block_time info.block_time) logs)

  abbrev pub notified_or :
      Option Notified → SignatureInfo → TransactionAnswer → Option TransactionRecord
  notified_or (some n) info answer = some (parsed info.signature info.slot info.block_time n.logs)
  notified_or none info answer = answered info answer

  -- `load`, after which the map has forgotten the signature; `none` where it throws.
  unfoldable pub load : SignatureInfo → List Notified → TransactionAnswer → Option TransactionRecord
  load info notified answer =
      if info.failed
      then some (failed_record info)
      else notified_or (find (is_entry info.signature) notified) info answer

  abbrev pub after_load : Option TransactionRecord → ℕ → Indexer → Indexer × Option Halt
  after_load none now s = (s, some failed)
  after_load (some t) now s = (record s { tables = record_transaction t now s.tables }, none)

  -- A round of the loop of `sync`; it goes on where there is no halt.
  unfoldable pub sync_one : SignatureInfo → Turn → Indexer → Indexer × Option Halt
  sync_one info turn s =
      if turn.stopped
      then (s, some interrupted)
      else let rest = forget info.signature s.notified in
        if is_indexed info.signature s.tables
        then (record s { tables = advance_cursor info.signature s.tables; notified = rest }, none)
        else after_load (load info s.notified turn.answer) turn.now
            (all_logs turn.arrivals (record s { notified = rest }))

  unfoldable pub sync_loop : List SignatureInfo → (String → Turn) → Indexer → Indexer × Option Halt
  sync_loop [] turns s = (s, none)
  sync_loop (info ∷ infos) turns s =
      let round = sync_one info (turns info.signature) s in
      elim round.1 [ none ↦ sync_loop infos turns round.0 | some halt ↦ (round.0, some halt) ]

  abbrev pub after_fetch : Fetch → World → Indexer → Indexer × SyncEnd
  after_fetch rpc_failed w s = (s, errored)
  after_fetch out_of_fuel w s = (s, no_fuel)
  after_fetch (fetched infos) w s =
      after_loop w.now (sync_loop infos w.turns (all_logs w.arrivals s))

  abbrev pub after_check : Tables × GenesisCheck → World → Indexer → Indexer × SyncEnd
  after_check (tables, chain_unknown) w s = (record s { tables = tables }, errored)
  after_check (tables, chain_mismatch) w s = (record s { tables = tables }, wrong_chain)
  after_check (tables, chain_ok) w s =
      after_fetch (new_signatures w.fuel w.pages (cursor tables) none []) w
        (record s { tables = tables })

  -- `sync`, with whether the chain has been checked before.
  unfoldable pub sync : String → Bool → World → Indexer → Indexer × SyncEnd
  sync program checked w s =
      after_check (if checked then (s.tables, chain_ok) else check_chain w.genesis program s.tables)
        w s
