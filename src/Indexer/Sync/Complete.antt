-- ===== src/Indexer/Sync/Complete.antt =====
-- What the index of backend/src/indexer/indexer.service.ts has after its syncs, and when a sync
-- reaches the end of the history. Histories stand newest first.
use mathlib.Core.List.{reverse}
use axel_sol.Prelude.{
  ℕ, ◌≡◌, refl, sym, subst, ap, ◌∙◌, String, Bool, true, false, Option, none, some, List, [], ◌∷◌,
  ◌++◌, append_assoc, All, ◌⊎◌, inl, inr, if◌then◌else◌, find, Text,
}
use axel_sol.Indexer.Store.{cursor, signatures, is_indexed}
use axel_sol.Indexer.Store.Records.{facts}
use axel_sol.Indexer.Feed.{
  Indexer, Notified, SignatureInfo, TransactionAnswer, all_logs, failed_on_chain, is_entry, missing,
  throws, with_logs, without_logs,
}
use axel_sol.Indexer.Sync.{
  DecodedEvent, Halt, Turn, World, after_fetch, after_load, after_loop, failed_record, finished,
  load, notified_or, sync, sync_loop, sync_one,
}
use axel_sol.Indexer.Sync.History.{Distinct, head_signature, names}
use axel_sol.Indexer.Sync.Truth.{expected}
use axel_sol.Indexer.Sync.Mirror.{Holds}
use axel_sol.Indexer.Sync.Rounds.{
  All-prefix, All-reverse, Faithful, fetched_newer, outcome, sync-Stands,
}

-- A sync, with the history as it is then and whether the chain has been checked.
pub record Visit : Type 0 where
  pub history : List SignatureInfo
  pub checked : Bool
  pub world : World

-- The index before its first sync.
abbrev pub empty_index : Indexer
empty_index = record {
  tables = record {
    indexer_state = λ key. none;
    indexed_transactions = [];
    program_events = [];
    next_id = 1;
  };
  notified = [];
}

module _ (program_address : Text) (decode : Text → Option DecodedEvent)
    (logs_of : String → List Text) where
  abbrev HasLogs : TransactionAnswer → Type 0
  HasLogs (with_logs slot block_time logs) = Unit
  HasLogs _ = ⊥

  -- The service runs on, and the RPC has the transaction with its logs, unless it failed.
  abbrev pub Works : SignatureInfo → Turn → Type 0
  Works i turn = (turn.stopped ≡ false) × ((i.failed ≡ true) ⊎ HasLogs turn.answer)

  -- The history grows from sync to sync, and each sync meets it as it is.
  abbrev pub Grows : List SignatureInfo → List Visit → Type 0
  Grows history [] = Unit
  Grows history (v ∷ visits) =
      ((new : List SignatureInfo) × (v.history ≡ new ++ history))
      × Distinct (names v.history)
      × Faithful program_address decode logs_of v.history v.world
      × Grows v.history visits

  abbrev pub last_history : List SignatureInfo → List Visit → List SignatureInfo
  last_history history [] = history
  last_history history (v ∷ visits) = last_history v.history visits

  pub run : String → List Visit → Indexer → Indexer
  run program [] s = s
  run program (v ∷ visits) s =
      run program visits (sync program_address decode program v.checked v.world s).0

  -- The tables have the transactions of the older part of the history, oldest first and each once,
  -- with just the events of their logs, and the cursor stands at the newest of them.
  abbrev pub Mirrors : List SignatureInfo → Indexer → Type 0
  Mirrors history s =
      (newer : List SignatureInfo) × (older : List SignatureInfo) × (history ≡ newer ++ older)
      × Holds program_address decode logs_of older s

  run-Mirrors_from :
      (program : String) (visits : List Visit) (history : List SignatureInfo) (s : Indexer)
      → Grows history visits
      → Mirrors history s
      → Mirrors (last_history history visits) (run program visits s)
  unfolding run
  run-Mirrors_from program [] history s grows mirrors = mirrors
  run-Mirrors_from program (v ∷ visits) history s ((new, more), d, faithful, grows)
        (newer, older, split, holds) =
      let whole : v.history ≡ (new ++ newer) ++ older =
        more ∙ ap (λ l. new ++ l) split ∙ sym (append_assoc new newer older) in
      let after =
        sync-Stands program_address decode logs_of v.history (new ++ newer) older program v.checked
          v.world s whole d faithful holds in
      run-Mirrors_from program visits v.history _ grows
        (after.newer, after.older, after.split, after.holds)

  -- After any number of syncs from the empty index on, whether they finished, failed at some
  -- transaction or were stopped, over a history that grew between them and whose signatures are
  -- distinct, where the RPC lists it and answers with its transactions' own logs or not at all: the
  -- tables have the transactions of the older part of the history up to the cursor, oldest first
  -- and each once, with just the events of their logs in order, and none of the newer part.
  pub run-Mirrors :
      (program : String) (visits : List Visit)
      → Grows [] visits
      → Mirrors (last_history [] visits) (run program visits empty_index)
  unfolding cursor
  run-Mirrors program visits grows =
      run-Mirrors_from program visits [] empty_index grows
        ([], [], refl, record { rows = refl; at = refl; events = refl; heard = tt })

  answered_HasLogs :
      (o : Option Notified) (i : SignatureInfo) (answer : TransactionAnswer) (now : ℕ) (s : Indexer)
      → HasLogs answer
      → (after_load program_address decode (notified_or program_address decode o i answer) now s).1
        ≡ none
  answered_HasLogs (some n) i answer now s h = refl
  answered_HasLogs none i (with_logs slot time logs) now s h = refl
  answered_HasLogs none i throws now s h = elim h [ ]
  answered_HasLogs none i missing now s h = elim h [ ]
  answered_HasLogs none i failed_on_chain now s h = elim h [ ]
  answered_HasLogs none i without_logs now s h = elim h [ ]

  loaded-Works :
      (i : SignatureInfo) (entries : List Notified) (answer : TransactionAnswer) (now : ℕ)
      (s : Indexer)
      → (i.failed ≡ true) ⊎ HasLogs answer
      → (after_load program_address decode (load program_address decode i entries answer) now s).1
        ≡ none
  unfolding load
  loaded-Works i entries answer now s (inl own) =
      ap
        (λ b.
          (after_load program_address decode
            (if b
              then some (failed_record i)
              else notified_or program_address decode (find (is_entry i.signature) entries) i
                  answer)
            now s).1)
        own
  loaded-Works i entries answer now s (inr h) =
      elim i.failed
        as (λ b.
          (after_load program_address decode
            (if b
              then some (failed_record i)
              else notified_or program_address decode (find (is_entry i.signature) entries) i
                  answer)
            now s).1
          ≡ none) [
            | true ↦ refl
            | false ↦ answered_HasLogs (find (is_entry i.signature) entries) i answer now s h
          ]

  if-none :
      (b : Bool) (x y : Indexer × Option Halt)
      → x.1 ≡ none
      → y.1 ≡ none
      → (if b then x else y).1 ≡ none
  if-none true x y h k = h
  if-none false x y h k = k

  if-none_else :
      (b : Bool) (x y : Indexer × Option Halt)
      → b ≡ false
      → y.1 ≡ none
      → (if b then x else y).1 ≡ none
  if-none_else true x y e h = absurd (let clash : true ≡ false = e in cc)
  if-none_else false x y e h = h

  sync_one-Works :
      (i : SignatureInfo) (turn : Turn) (s : Indexer)
      → Works i turn
      → (sync_one program_address decode i turn s).1 ≡ none
  unfolding sync_one
  sync_one-Works i turn s (on, h) = if-none_else turn.stopped _ _ on (
      if-none (is_indexed i.signature s.tables) _ _ refl
        (loaded-Works i s.notified turn.answer turn.now _ h))

  elim-none :
      (r : Indexer × Option Halt) (f : Indexer → Indexer × Option Halt)
      → r.1 ≡ none
      → (f r.0).1 ≡ none
      → (let t : Indexer × Option Halt = elim r.1 [ none ↦ f r.0 | some halt ↦ (r.0, some halt) ] in
          t.1 ≡ none)
  elim-none (s, none) f e h = h
  elim-none (s, some halt) f e h = absurd (let clash : some halt ≡ none = e in cc)

  sync_loop-Works :
      (infos : List SignatureInfo) (turns : String → Turn) (s : Indexer)
      → All (λ i. Works i (turns i.signature)) infos
      → (sync_loop program_address decode infos turns s).1 ≡ none
  unfolding sync_loop
  sync_loop-Works [] turns s h = refl
  sync_loop-Works (i ∷ infos) turns s (h, hs) =
      elim-none (sync_one program_address decode i (turns i.signature) s)
        (sync_loop program_address decode infos turns) (sync_one-Works i (turns i.signature) s h)
        (sync_loop-Works infos turns _ hs)

  after_loop-none :
      (now : ℕ) (r : Indexer × Option Halt)
      → r.1 ≡ none
      → (waiting : Bool) × ((after_loop now r).1 ≡ finished waiting)
  after_loop-none now (s, none) e = (_, refl)
  after_loop-none now (s, some halt) e = absurd (let clash : some halt ≡ none = e in cc)

  -- Where the index mirrors the history, a sync that has checked the chain, is not stopped and is
  -- given the history and the logs of its transactions by the RPC, finishes. The tables then have
  -- all transactions of the history, oldest first and each once, with just the events of their
  -- logs, and the cursor stands at the newest.
  pub sync_complete :
      (history : List SignatureInfo) (program : String) (w : World) (s : Indexer)
      → Mirrors history s
      → Distinct (names history)
      → Faithful program_address decode logs_of history w
      → All (λ i. Works i (w.turns i.signature)) history
      → (let after = sync program_address decode program true w s in
          ((waiting : Bool) × (after.1 ≡ finished waiting))
          × (signatures after.0.tables.indexed_transactions ≡ reverse (names history))
          × (facts after.0.tables ≡ expected program_address decode logs_of history)
          × (cursor after.0.tables ≡ head_signature history))
  unfolding sync
  sync_complete history program w s (newer, older, split, holds) d faithful works =
      let pages =
        fetched_newer program_address decode logs_of history newer older w s split d faithful
          holds in
      let loop = sync_loop program_address decode (reverse newer) w.turns (all_logs w.arrivals s) in
      let to_end =
        sync_loop-Works (reverse newer) w.turns (all_logs w.arrivals s)
          (All-reverse _ newer (All-prefix _ newer older (subst (All _) split works))) in
      let (waiting, ends) = after_loop-none w.now loop to_end in
      let end : (sync program_address decode program true w s).1 ≡ finished waiting =
        ap (λ f. (after_fetch program_address decode f w s).1) pages ∙ ends in
      let stands =
        sync-Stands program_address decode logs_of history newer older program true w s split d
          faithful holds in
      let whole : stands.older ≡ history =
        sym (stands.split ∙ ap (λ l. l ++ stands.older) (stands.complete (ap outcome end))) in
      (
        (waiting, end),
        stands.holds.rows ∙ ap (λ h. reverse (names h)) whole,
        stands.holds.events ∙ ap (expected program_address decode logs_of) whole,
        stands.holds.at ∙ ap head_signature whole,
      )
