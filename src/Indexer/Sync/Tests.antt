-- ===== src/Indexer/Sync/Tests.antt =====
-- The theorems on the syncs, at a history of two transactions.
use mathlib.Core.List.{reverse}
use axel_sol.Prelude.{
  ◌≡◌, refl, arith, String, Bool, true, false, Option, none, some, List, [], ◌∷◌, inl, inr, among,
  take, Text, length, str_eq, text_eq, if◌then◌else◌,
}
use axel_sol.Indexer.Logs.{
  program_log_events, classify, scan, invoke_match, success_test, after_prefix, word, closes,
}
use axel_sol.Indexer.Store.{cursor, signatures}
use axel_sol.Indexer.Store.Records.{facts}
use axel_sol.Indexer.Feed.{
  Indexer, Pages, SignatureInfo, fetched, new_signatures, page_size, throws, with_logs,
}
use axel_sol.Indexer.Sync.{DecodedEvent, Turn, World, finished, sync, wrong_chain}
use axel_sol.Indexer.Sync.History.{Distinct, head_signature, names, past, up_to}
use axel_sol.Indexer.Sync.Paging.{new_signatures-Serves}
use axel_sol.Indexer.Sync.Truth.{expected}
use axel_sol.Indexer.Sync.Rounds.{Faithful}
use axel_sol.Indexer.Sync.Complete.{
  Mirrors, Visit, empty_index, last_history, run, run-Mirrors, sync_complete,
}
use axel_sol.Indexer.Sync.Service.{
  Service, Input, IndexerState, created, bootstrap, requested, shutdown, sync_ends, step,
}
use axel_sol.Indexer.Sync.Service as Service
use axel_sol.Indexer.Sync.Service.Alive.{IsAlive, run-IsAlive}
use axel_sol.Indexer.Sync.WrongChain.{sync_wrong_chain}

abbrev axel : Text
axel = b'A' ∷ b'x' ∷ []

-- One record, between the lines of an invocation.
abbrev log_lines : List Text
log_lines =
    (b'P' ∷ b'r' ∷ b'o' ∷ b'g' ∷ b'r' ∷ b'a' ∷ b'm' ∷ b' ' ∷ b'A' ∷ b'x' ∷ b' ' ∷ b'i' ∷ b'n' ∷ b'v'
      ∷ b'o' ∷ b'k' ∷ b'e' ∷ b' ' ∷ b'[' ∷ b'1' ∷ b']' ∷ [])
    ∷ (b'P' ∷ b'r' ∷ b'o' ∷ b'g' ∷ b'r' ∷ b'a' ∷ b'm' ∷ b' ' ∷ b'd' ∷ b'a' ∷ b't' ∷ b'a' ∷ b':'
        ∷ b' ' ∷ b'A' ∷ b'Q' ∷ [])
    ∷ []

abbrev logs_of : String → List Text
logs_of signature = log_lines

abbrev decode : Text → Option DecodedEvent
decode t =
    some (record { type_name = "Claimed"; project = some "p"; owner = none; data_json = "{}" })

abbrev first : SignatureInfo
first = record { signature = "s1"; slot = 10; block_time = none; failed = false }

abbrev second : SignatureInfo
second = record { signature = "s2"; slot = 11; block_time = some 5; failed = true }

abbrev history : List SignatureInfo
history = second ∷ first ∷ []

abbrev serve : List SignatureInfo → Pages
serve h before until = some (take page_size (up_to until (past before h)))

abbrev turn : Turn
turn = record { stopped = false; answer = with_logs 10 none log_lines; arrivals = []; now = 100 }

-- The RPC does not have the transaction yet.
abbrev early_turn : Turn
early_turn = record turn { answer = throws }

abbrev world_at : List SignatureInfo → Turn → World
world_at h t = record {
  genesis = some "g";
  pages = serve h;
  arrivals = [];
  turns = λ signature. t;
  now = 200;
  fuel = 3;
}

history-Distinct : Distinct (names history)
unfolding among
history-Distinct = (refl, (refl, tt))

first-Distinct : Distinct (names (first ∷ []))
unfolding among
first-Distinct = (refl, tt)

new_signatures-Serves_example :
    new_signatures 3 (serve history) (some "s1") none []
    ≡ fetched (reverse (up_to (some "s1") history))
new_signatures-Serves_example =
    new_signatures-Serves (serve history) (some "s1") 3 history history-Distinct
      (λ before until. refl) (omega arith)

history-Faithful : Faithful axel decode logs_of history (world_at history turn)
history-Faithful = record {
  serves = λ before until. refl;
  enough = omega arith;
  turns = ((refl, tt), ((refl, tt), tt));
  arrivals = tt;
}

early-Faithful : Faithful axel decode logs_of (first ∷ []) (world_at (first ∷ []) early_turn)
early-Faithful = record {
  serves = λ before until. refl;
  enough = omega arith;
  turns = ((tt, tt), tt);
  arrivals = tt;
}

-- The first sync fails at the first transaction; the second meets two.
abbrev visits : List Visit
visits =
    record { history = first ∷ []; checked = false; world = world_at (first ∷ []) early_turn }
    ∷ record { history = history; checked = true; world = world_at history turn }
    ∷ []

run-Mirrors_example :
    Mirrors axel decode logs_of
      (last_history axel decode logs_of [] visits)
      (run axel decode logs_of "p" visits empty_index)
run-Mirrors_example = run-Mirrors axel decode logs_of "p" visits (
  (first ∷ [], refl),
  first-Distinct,
  early-Faithful,
  ((second ∷ [], refl), history-Distinct, history-Faithful, tt),
)

empty-Mirrors : Mirrors axel decode logs_of history empty_index
unfolding cursor
empty-Mirrors = (history, [], refl, record { rows = refl; at = refl; events = refl; heard = tt })

sync_complete_example :
    (let after = sync axel decode "p" true (world_at history turn) empty_index in
      ((waiting : Bool) × (after.1 ≡ finished waiting))
      × (signatures after.0.tables.indexed_transactions ≡ reverse (names history))
      × (facts after.0.tables ≡ expected axel decode logs_of history)
      × (cursor after.0.tables ≡ head_signature history))
sync_complete_example =
    sync_complete axel decode logs_of history "p" (world_at history turn) empty_index empty-Mirrors
      history-Distinct history-Faithful ((refl, inl refl), ((refl, inr tt), tt))

-- The transaction that failed has no event, the other has one.
expected_one : length (expected axel decode logs_of history) ≡ 1
unfolding program_log_events classify scan invoke_match success_test after_prefix word closes
    text_eq
expected_one = refl

run-IsAlive_example :
    IsAlive (Service.run (requested ∷ shutdown ∷ []) (step bootstrap (created true)))
run-IsAlive_example = run-IsAlive (requested ∷ shutdown ∷ [])

abbrev from_elsewhere : Indexer
from_elsewhere = record empty_index {
  tables = record empty_index.tables {
    indexer_state = λ key. if str_eq key "genesis_hash" then some "h" else some "p";
  };
}

abbrev syncing : Service
syncing = record (created true) { running = true }

sync_wrong_chain_example :
    (sync axel decode "p" false (world_at history turn) from_elsewhere
      ≡ (from_elsewhere, wrong_chain))
    × ((Service.run (requested ∷ []) (
          step
            (sync_ends (sync axel decode "p" false (world_at history turn) from_elsewhere).1 300)
            syncing)).running
        ≡ false)
sync_wrong_chain_example =
    sync_wrong_chain axel decode "g" "p" (world_at history turn) from_elsewhere syncing 300
      (requested ∷ []) refl ("h", "p", refl, refl, inl refl) refl
