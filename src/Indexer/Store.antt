-- ===== src/Indexer/Store.antt =====
-- backend/src/indexer/indexer.store.ts: the tables of the index and the statements that change
-- them, with `state`, `cursor`, `isIndexed`, `latestSlot`, `hasEvent` and `positionProjects`. The
-- data of an event is its JSON text.
pub mod Records
use axel_sol.Prelude.{
  ℕ, ◌+◌, String, Bool, true, false, not, ◌&&◌, Option, none, some, List, [], ◌∷◌, ◌++◌, map,
  length, ◌==◌, leb, if◌then◌else◌, str_eq, among, change, Text,
}

pub record EventRecord : Type 0 where
  pub index : ℕ
  pub type_name : String
  pub project : Option String
  pub owner : Option String
  pub data_json : Option String
  pub raw : Text

pub record TransactionRecord : Type 0 where
  pub signature : String
  pub slot : ℕ
  pub block_time : Option ℕ
  pub failed : Bool
  pub logs_truncated : Bool
  pub events : List EventRecord

-- A row of `indexed_transactions`.
pub record TransactionRow : Type 0 where
  pub signature : String
  pub slot : ℕ
  pub block_time : Option ℕ
  pub failed : Bool
  pub event_count : ℕ
  pub logs_truncated : Bool
  pub indexed_at : ℕ

-- A row of `program_events`.
pub record EventRow : Type 0 where
  pub id : ℕ
  pub signature : String
  pub slot : ℕ
  pub block_time : Option ℕ
  pub event : EventRecord

pub record Tables : Type 0 where
  pub indexer_state : String → Option String
  pub indexed_transactions : List TransactionRow
  pub program_events : List EventRow
  -- The number that the AUTOINCREMENT column gives next.
  pub next_id : ℕ

unfoldable pub set_state : String → String → Tables → Tables
set_state key value s = record s { indexer_state = change key (λ _. some value) s.indexer_state }

unfoldable pub cursor : Tables → Option String
cursor s = s.indexer_state "cursor"

abbrev pub signatures : List TransactionRow → List String
signatures rows = map (λ r. r.signature) rows

unfoldable pub is_indexed : String → Tables → Bool
is_indexed signature s = among signature (signatures s.indexed_transactions)

unfoldable pub advance_cursor : String → Tables → Tables
advance_cursor signature s = set_state "cursor" signature s

abbrev pub row_of : TransactionRecord → ℕ → TransactionRow
row_of t indexed_at = record {
  signature = t.signature;
  slot = t.slot;
  block_time = t.block_time;
  failed = t.failed;
  event_count = length t.events;
  logs_truncated = t.logs_truncated;
  indexed_at = indexed_at;
}

-- `INSERT OR IGNORE` on the primary key.
unfoldable pub insert_transaction : TransactionRecord → ℕ → Tables → Tables
unfolding is_indexed
insert_transaction t indexed_at s =
    if is_indexed t.signature s
    then s
    else record s { indexed_transactions = s.indexed_transactions ++ row_of t indexed_at ∷ [] }

-- Whether a row has the signature and the index, which are unique together.
unfoldable pub has_key : String → ℕ → List EventRow → Bool
has_key signature index [] = false
has_key signature index (r ∷ rows) = elim (str_eq r.signature signature && r.event.index == index) [
  | true ↦ true
  | false ↦ has_key signature index rows
]

unfoldable pub insert_event : TransactionRecord → EventRecord → Tables → Tables
insert_event t e s = if has_key t.signature e.index s.program_events then s else record s {
  program_events =
      s.program_events
      ++ record {
        id = s.next_id;
        signature = t.signature;
        slot = t.slot;
        block_time = t.block_time;
        event = e;
      }
        ∷ [];
  next_id = s.next_id + 1;
}

unfoldable pub insert_events : TransactionRecord → List EventRecord → Tables → Tables
insert_events t [] s = s
insert_events t (e ∷ es) s = insert_events t es (insert_event t e s)

unfoldable pub record_transaction : TransactionRecord → ℕ → Tables → Tables
record_transaction t indexed_at s =
    set_state "cursor" t.signature (insert_events t t.events (insert_transaction t indexed_at s))
