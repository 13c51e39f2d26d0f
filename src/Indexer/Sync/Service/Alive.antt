-- ===== src/Indexer/Sync/Service/Alive.antt =====
-- The indexer keeps syncing, and what stops it: over any inputs to indexer.service.ts.
use axel_sol.Prelude.{
  ℕ, ◌≡◌, ◌⊎◌, inl, inr, refl, arith, Bool, true, false, Option, none, some, List, [], ◌∷◌,
}
use axel_sol.Indexer.Sync.{errored, finished, no_fuel, stopped_early, wrong_chain}
use axel_sol.Indexer.Sync.Service.{
  live, halted, RetryReason, Service, created, is_off, request_sync, schedule_retry, sync_ended,
  Input, bootstrap, requested, poll_fires, retry_fires, shutdown, sync_ends, on_bootstrap, step,
  run,
}

abbrev pub is_scheduled : Option RetryReason → Bool
is_scheduled none = false
is_scheduled (some reason) = true

-- A sync is running, or a retry is scheduled, or the last sync found all there was and no request
-- is queued; unless the service is stopped or halted. Until it is stopped, it polls.
abbrev pub IsAlive : Service → Type 0
IsAlive s =
    ((s.stopped ≡ true)
      ⊎ (s.state ≡ halted)
      ⊎ (s.running ≡ true)
      ⊎ (is_scheduled s.retry ≡ true)
      ⊎ ((s.state ≡ live) × (s.pending ≡ false) × (s.attempts ≡ 0)))
    × ((s.stopped ≡ true) ⊎ (s.polls ≡ true))
    × (is_off s.state ≡ false ⊎ (s.state ≡ halted))

step-IsAlive : (i : Input) (s : Service) → IsAlive s → IsAlive (step i s)
unfolding step request_sync schedule_retry sync_ended on_bootstrap
step-IsAlive bootstrap s h = ground arith
step-IsAlive requested s h = ground arith
step-IsAlive poll_fires s h = ground arith
step-IsAlive retry_fires s h = ground arith
step-IsAlive shutdown s h = ground arith
step-IsAlive (sync_ends (finished b) now) s h = ground arith
step-IsAlive (sync_ends stopped_early now) s h = ground arith
step-IsAlive (sync_ends wrong_chain now) s h = ground arith
step-IsAlive (sync_ends errored now) s h = ground arith
step-IsAlive (sync_ends no_fuel now) s h = ground arith

run-IsAlive_from : (inputs : List Input) (s : Service) → IsAlive s → IsAlive (run inputs s)
unfolding run
run-IsAlive_from [] s h = h
run-IsAlive_from (i ∷ inputs) s h = run-IsAlive_from inputs (step i s) (step-IsAlive i s h)

-- Whatever happens to an enabled service from its start on, at every time a sync is running, or a
-- retry is scheduled, or the last sync reached the end of the history and no request is queued;
-- unless the service was shut down or was halted for another chain. Until it is shut down, it polls.
pub run-IsAlive : (inputs : List Input) → IsAlive (run inputs (step bootstrap (created true)))
unfolding step on_bootstrap request_sync
run-IsAlive inputs =
    run-IsAlive_from inputs (step bootstrap (created true))
      (inr (inr (inl refl)), inr refl, inl refl)

abbrev pub IsHalted : Service → Type 0
IsHalted s = (s.state ≡ halted) × (s.running ≡ false)

step-IsHalted : (i : Input) (s : Service) → IsHalted s → IsHalted (step i s)
unfolding step request_sync schedule_retry sync_ended on_bootstrap
step-IsHalted bootstrap s h = ground arith
step-IsHalted requested s h = ground arith
step-IsHalted poll_fires s h = ground arith
step-IsHalted retry_fires s h = ground arith
step-IsHalted shutdown s h = ground arith
step-IsHalted (sync_ends end now) s h = ground arith

pub run-IsHalted : (inputs : List Input) (s : Service) → IsHalted s → IsHalted (run inputs s)
unfolding run
run-IsHalted [] s h = h
run-IsHalted (i ∷ inputs) s h = run-IsHalted inputs (step i s) (step-IsHalted i s h)

pub sync_ended-IsHalted :
    (now : ℕ) (s : Service) → s.running ≡ true → IsHalted (step (sync_ends wrong_chain now) s)
unfolding step sync_ended request_sync
sync_ended-IsHalted now s h = ground arith
