-- ===== src/Indexer/Sync/WrongChain.antt =====
-- The index and the service of backend/src/indexer/indexer.service.ts on a database that was filled
-- from another chain.
use axel_sol.Prelude.{
  ℕ, ◌≡◌, ◌⊎◌, refl, ap, ◌∙◌, arith, String, Bool, true, false, not, ◌||◌, Option, some, List,
  str_eq, Text,
}
use axel_sol.Indexer.Store.{Tables}
use axel_sol.Indexer.Feed.{Indexer, chain_mismatch, check_chain, checked_against, compared}
use axel_sol.Indexer.Sync.{DecodedEvent, SyncEnd, World, after_check, sync, wrong_chain}
use axel_sol.Indexer.Sync.Service.{Service, Input, sync_ends, step, run}
use axel_sol.Indexer.Sync.Service.Alive.{run-IsHalted, sync_ended-IsHalted}

-- The database has a genesis hash and a program, of which one is another than the RPC's.
abbrev pub OtherChain : String → String → Tables → Type 0
OtherChain genesis program s =
    (g : String) × (p : String) × (s.indexer_state "genesis_hash" ≡ some g)
    × (s.indexer_state "program_id" ≡ some p)
    × ((str_eq g genesis ≡ false) ⊎ (str_eq p program ≡ false))

compared_other :
    (a b : Bool) → (a ≡ false) ⊎ (b ≡ false) → compared (not a || not b) ≡ chain_mismatch
compared_other true true h = ground arith
compared_other true false h = refl
compared_other false b h = refl

check_chain-OtherChain :
    (genesis program : String) (s : Tables)
    → OtherChain genesis program s
    → check_chain (some genesis) program s ≡ (s, chain_mismatch)
unfolding check_chain
check_chain-OtherChain genesis program s (g, p, stored_genesis, stored_program, differs) =
    ap (λ o. checked_against o (s.indexer_state "program_id") genesis program s) stored_genesis
    ∙ ap (λ o. checked_against (some g) o genesis program s) stored_program
    ∙ ap (λ c. (s, c)) (compared_other (str_eq g genesis) (str_eq p program) differs)

-- Where the database holds another genesis hash or program than the RPC's, the first sync ends as
-- one for the wrong chain and leaves the index as it is, and after that end no sync runs any more,
-- whatever happens.
pub sync_wrong_chain :
    (program_address : Text) (decode : Text → Option DecodedEvent) (genesis program : String)
    (w : World) (s : Indexer) (service : Service) (now : ℕ) (inputs : List Input)
    → w.genesis ≡ some genesis
    → OtherChain genesis program s.tables
    → service.running ≡ true
    → (sync program_address decode program false w s ≡ (s, wrong_chain))
      × ((run inputs (
            step (sync_ends (sync program_address decode program false w s).1 now) service)).running
          ≡ false)
unfolding sync
sync_wrong_chain program_address decode genesis program w s service now inputs answer other on =
    let check : check_chain w.genesis program s.tables ≡ (s.tables, chain_mismatch) =
      ap (λ g. check_chain g program s.tables) answer
      ∙ check_chain-OtherChain genesis program s.tables other in
    let ends : sync program_address decode program false w s ≡ (s, wrong_chain) =
      ap (λ c. after_check program_address decode c w s) check in
    (
      ends,
      ap (λ (r : Indexer × SyncEnd). (run inputs (step (sync_ends r.1 now) service)).running) ends
          ∙ (run-IsHalted inputs _ (sync_ended-IsHalted now service on)).1,
    )
