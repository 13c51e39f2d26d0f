-- ===== src/Indexer/Sync/Service.antt =====
-- backend/src/indexer/indexer.service.ts: when syncs run. The timers, the subscription, the ends of
-- the syncs and the shutdown come in as inputs. The text of the last error is left out.
pub mod Alive
use axel_sol.Prelude.{
  ℕ, ◌+◌, ◌-◌, ◌*◌, ◌^◌, Bool, true, false, ◌||◌, Option, none, some, List, [], ◌∷◌, leb,
  if◌then◌else◌,
}
use axel_sol.Indexer.Sync.{SyncEnd, errored, finished, no_fuel, stopped_early, wrong_chain}

pub data IndexerState : Type 0 where
  disabled starting live retrying halted : IndexerState

pub data RetryReason : Type 0 where
  failure waiting : RetryReason

pub record Service : Type 0 where
  pub state : IndexerState
  pub last_sync_at : Option ℕ
  pub running : Bool
  pub pending : Bool
  pub retry : Option RetryReason
  pub attempts : ℕ
  pub polls : Bool
  pub stopped : Bool

abbrev pub first_retry_delay_ms : ℕ
first_retry_delay_ms = 1_000

abbrev pub max_retry_delay_ms : ℕ
max_retry_delay_ms = 60_000

unfoldable pub retry_delay_ms : ℕ → ℕ
retry_delay_ms attempt =
    let delay = first_retry_delay_ms * 2 ^ (attempt - 1) in
    if leb delay max_retry_delay_ms then delay else max_retry_delay_ms

abbrev pub created : Bool → Service
created enabled = record {
  state = if enabled then starting else disabled;
  last_sync_at = none;
  running = false;
  pending = false;
  retry = none;
  attempts = 0;
  polls = false;
  stopped = false;
}

abbrev pub is_off : IndexerState → Bool
is_off disabled = true
is_off halted = true
is_off _ = false

-- The end of `requestSync`, once no retry stands in the way.
abbrev pub start_or_queue : Service → Service
start_or_queue s =
    if s.running
    then (record s { pending = true })
    else (record s { running = true; pending = false })

abbrev pub unless_failed : Option RetryReason → Service → Service
unless_failed (some failure) s = s
unless_failed (some waiting) s = start_or_queue (record s { retry = none })
unless_failed none s = start_or_queue s

unfoldable pub request_sync : Service → Service
request_sync s = if s.stopped || is_off s.state then s else unless_failed s.retry s

unfoldable pub schedule_retry : RetryReason → Service → Service
schedule_retry reason s = if s.stopped then s else (record s { retry = some reason })

-- What `runOnce` does when `sync` ends.
abbrev pub after_sync : SyncEnd → ℕ → Service → Service
after_sync (finished true) now s =
    schedule_retry waiting
      (record s { state = live; last_sync_at = some now; attempts = s.attempts + 1 })
after_sync (finished false) now s = record s { state = live; last_sync_at = some now; attempts = 0 }
after_sync stopped_early now s = record s { state = live; last_sync_at = some now; attempts = 0 }
after_sync wrong_chain now s = record s { state = halted }
after_sync errored now s =
    schedule_retry failure (record s { state = retrying; attempts = s.attempts + 1 })
after_sync no_fuel now s =
    schedule_retry failure (record s { state = retrying; attempts = s.attempts + 1 })

-- Then no sync is running, and a queued request starts the next.
unfoldable pub sync_ended : SyncEnd → ℕ → Service → Service
unfolding request_sync schedule_retry
sync_ended end now s =
    let idle : Service = record (after_sync end now s) { running = false } in
    if idle.pending then request_sync idle else idle

pub data Input : Type 0 where
  bootstrap requested poll_fires retry_fires shutdown : Input
  sync_ends : SyncEnd → (now : ℕ) → Input

unfoldable pub on_bootstrap : Service → Service
unfolding request_sync
on_bootstrap s = elim s.state [ disabled ↦ s | _ ↦ request_sync (record s { polls = true }) ]

abbrev pub fire : Option RetryReason → Service → Service
fire none s = s
fire (some reason) s = request_sync (record s { retry = none })

-- `requested` stands for a notification that is kept and for a new subscription.
unfoldable pub step : Input → Service → Service
unfolding on_bootstrap sync_ended request_sync
step bootstrap s = on_bootstrap s
step requested s = request_sync s
step poll_fires s = if s.polls then request_sync s else s
step retry_fires s = fire s.retry s
step shutdown s = record s { stopped = true; retry = none; polls = false }
step (sync_ends end now) s = if s.running then sync_ended end now s else s

unfoldable pub run : List Input → Service → Service
run [] s = s
run (i ∷ inputs) s = run inputs (step i s)
