-- ===== src/Indexer/Sync/Rounds.antt =====
-- Whole syncs of backend/src/indexer/indexer.service.ts one after another, over a history that
-- grows between them. Histories stand newest first.
use mathlib.Core.List.{reverse, reverse-cons, reverse-reverse}
use axel_sol.Prelude.{
  ℕ, ◌<◌, ◌≡◌, refl, sym, subst, ap, ◌∙◌, String, Bool, true, false, Option, none, some, List, [],
  ◌∷◌, ◌++◌, map, length, All, All-append, All-select, if◌then◌else◌, Text,
}
use axel_sol.Indexer.Store.{Tables, set_state, cursor, signatures}
use axel_sol.Indexer.Store.Records.{fact, facts}
use axel_sol.Indexer.Feed.{
  GenesisCheck, Indexer, SignatureInfo, all_logs, chain_mismatch, chain_ok, chain_unknown,
  check_answer, check_chain, checked_against, fetched, new_signatures,
}
use axel_sol.Indexer.Sync.{
  failed, DecodedEvent, Halt, SyncEnd, World, after_check, after_fetch, after_loop, awaits_notified,
  finished, interrupted, still_awaited, sync, sync_loop,
}
use axel_sol.Indexer.Sync.History.{Distinct, Serves, head_signature, names, up_to, up_to-head}
use axel_sol.Indexer.Sync.Paging.{new_signatures-Serves}
use axel_sol.Indexer.Sync.Truth.{TellsTrue, all_logs-Heard, all_logs-tables}
use axel_sol.Indexer.Sync.Mirror.{Holds, Stands, sync_loop-Stands}

pub All-prefix : {A : Type 0} (P : A → Type 0) (xs ys : List A) → All P (xs ++ ys) → All P xs
All-prefix P [] ys h = tt
All-prefix P (x ∷ xs) ys (h, hs) = (h, All-prefix P xs ys hs)

pub All-reverse : {A : Type 0} (P : A → Type 0) (xs : List A) → All P xs → All P (reverse xs)
All-reverse P [] h = tt
All-reverse P (x ∷ xs) (h, hs) =
    subst (All P) (sym (reverse-cons x xs))
      (All-append P (reverse xs) (x ∷ []) (All-reverse P xs hs) (h, tt))

-- The tables apart from the two values that `checkChain` writes.
abbrev SameIndex : Tables → Tables → Type 0
SameIndex a b =
    (a.indexed_transactions ≡ b.indexed_transactions)
    × (a.program_events ≡ b.program_events)
    × (cursor a ≡ cursor b)

if-SameIndex :
    (b : Bool) (x y : Tables × GenesisCheck) (s : Tables)
    → SameIndex x.0 s
    → SameIndex y.0 s
    → SameIndex (if b then x else y).0 s
if-SameIndex true x y s h k = h
if-SameIndex false x y s h k = k

checked_against-SameIndex :
    (o p : Option String) (genesis program : String) (s : Tables)
    → SameIndex (checked_against o p genesis program s).0 s
unfolding set_state cursor
checked_against-SameIndex none none genesis program s = (refl, refl, refl)
checked_against-SameIndex none (some p) genesis program s = (refl, refl, refl)
checked_against-SameIndex (some o) p genesis program s = (refl, refl, refl)

check_answer-SameIndex :
    (genesis : Option String) (program : String) (s : Tables)
    → SameIndex (check_answer genesis program s).0 s
check_answer-SameIndex none program s = (refl, refl, refl)
check_answer-SameIndex (some genesis) program s = checked_against-SameIndex _ _ genesis program s

first_check-SameIndex :
    (checked : Bool) (genesis : Option String) (program : String) (s : Tables)
    → SameIndex
        (if◌then◌else◌ {A = Tables × GenesisCheck} checked
          (s, chain_ok)
          (check_chain genesis program s)).0
        s
unfolding check_chain
first_check-SameIndex checked genesis program s =
    if-SameIndex checked _ _ s (refl, refl, refl) (check_answer-SameIndex genesis program s)

abbrev pub outcome : SyncEnd → Option Halt
outcome (finished waiting) = none
outcome _ = some failed

module _ (program_address : Text) (decode : Text → Option DecodedEvent)
    (logs_of : String → List Text) where
  Holds-SameIndex :
      (older : List SignatureInfo) (tables : Tables) (s : Indexer)
      → SameIndex tables s.tables
      → Holds program_address decode logs_of older s
      → Holds program_address decode logs_of older (record s { tables = tables })
  Holds-SameIndex older tables s (rows, events, at) holds = record {
    rows = ap signatures rows ∙ holds.rows;
    at = at ∙ holds.at;
    events = ap (λ l. map (fact) l) events ∙ holds.events;
    heard = holds.heard;
  }

  -- What the world of a sync over a history is like.
  pub record Faithful (history : List SignatureInfo) (w : World) : Type 0 where
    pub serves : Serves history w.pages
    pub enough : length history < w.fuel
    pub turns : All (λ i. TellsTrue program_address decode logs_of i (w.turns i.signature)) history
    pub arrivals : All (λ a. a.entry.logs ≡ logs_of a.entry.signature) w.arrivals

  Stands-awaits_notified :
      (history : List SignatureInfo) (now : ℕ) (s : Indexer)
      → Stands program_address decode logs_of history s none
      → Stands program_address decode logs_of history (awaits_notified now s).0 none
  Stands-awaits_notified history now s stands = record {
    newer = stands.newer;
    older = stands.older;
    split = stands.split;
    holds = record {
      rows = stands.holds.rows;
      at = stands.holds.at;
      events = stands.holds.events;
      heard = All-select _ (still_awaited now s.tables) s.notified stands.holds.heard;
    };
    complete = stands.complete;
  }

  after_loop-Stands :
      (history : List SignatureInfo) (now : ℕ) (r : Indexer × Option Halt)
      → Stands program_address decode logs_of history r.0 r.1
      → Stands program_address decode logs_of history
          (after_loop now r).0
          (outcome (after_loop now r).1)
  after_loop-Stands history now (s, none) stands = Stands-awaits_notified history now s stands
  after_loop-Stands history now (s, some interrupted) stands = record {
    newer = stands.newer;
    older = stands.older;
    split = stands.split;
    holds = stands.holds;
    complete = λ e. absurd (let clash : some failed ≡ none = e in cc);
  }
  after_loop-Stands history now (s, some failed) stands = stands

  Stands-unfinished :
      (history newer older : List SignatureInfo) (s : Indexer) (halt : Halt)
      → history ≡ newer ++ older
      → Holds program_address decode logs_of older s
      → Stands program_address decode logs_of history s (some halt)
  Stands-unfinished history newer older s halt split holds = record {
    newer = newer;
    older = older;
    split = split;
    holds = holds;
    complete = λ e. absurd (let clash : some halt ≡ none = e in cc);
  }

  after_fetch-Stands :
      (history newer older : List SignatureInfo) (w : World) (s : Indexer)
      → history ≡ newer ++ older
      → Distinct (names history)
      → Faithful history w
      → Holds program_address decode logs_of older s
      → Stands program_address decode logs_of history
          (after_fetch program_address decode (fetched (reverse newer)) w s).0
          (outcome (after_fetch program_address decode (fetched (reverse newer)) w s).1)
  after_fetch-Stands history newer older w s split d faithful holds =
      let kept = all_logs-tables program_address decode logs_of w.arrivals s in
      let heard : Holds program_address decode logs_of older (all_logs w.arrivals s) = record {
        rows = ap (λ (x : Tables). signatures x.indexed_transactions) kept ∙ holds.rows;
        at = ap cursor kept ∙ holds.at;
        events = ap facts kept ∙ holds.events;
        heard =
            all_logs-Heard program_address decode logs_of w.arrivals s faithful.arrivals
              holds.heard;
      } in
      let back = ap (λ l. l ++ older) (reverse-reverse newer) ∙ sym split in
      let told =
        All-prefix (λ i. TellsTrue program_address decode logs_of i (w.turns i.signature)) newer
          older (subst (All _) split faithful.turns) in
      after_loop-Stands history w.now
        (sync_loop program_address decode (reverse newer) w.turns (all_logs w.arrivals s))
        (subst
          (λ l.
            Stands program_address decode logs_of l
              (sync_loop program_address decode (reverse newer) w.turns (all_logs w.arrivals s)).0
              (sync_loop program_address decode (reverse newer) w.turns (all_logs w.arrivals s)).1)
          back
          (sync_loop-Stands program_address decode logs_of (reverse newer) older w.turns
            (all_logs w.arrivals s) heard (subst (λ l. Distinct (names l)) (sym back) d)
            (All-reverse _ newer told)))

  pub fetched_newer :
      (history newer older : List SignatureInfo) (w : World) (s : Indexer)
      → history ≡ newer ++ older
      → Distinct (names history)
      → Faithful history w
      → Holds program_address decode logs_of older s
      → new_signatures w.fuel w.pages (cursor s.tables) none [] ≡ fetched (reverse newer)
  fetched_newer history newer older w s split d faithful holds =
      new_signatures-Serves w.pages (cursor s.tables) w.fuel history d faithful.serves
        faithful.enough
      ∙ ap (λ l. fetched (reverse l))
          (ap (λ o. up_to o history) holds.at
            ∙ ap (up_to (head_signature older)) split
            ∙ up_to-head newer older (subst (λ l. Distinct (names l)) split d))

  after_check-Stands :
      (history newer older : List SignatureInfo) (w : World) (s : Indexer)
      (check : Tables × GenesisCheck)
      → history ≡ newer ++ older
      → Distinct (names history)
      → Faithful history w
      → SameIndex check.0 s.tables
      → Holds program_address decode logs_of older s
      → Stands program_address decode logs_of history
          (after_check program_address decode check w s).0
          (outcome (after_check program_address decode check w s).1)
  after_check-Stands history newer older w s (tables, chain_unknown) split d faithful same holds =
      Stands-unfinished history newer older _ failed split
        (Holds-SameIndex older tables s same holds)
  after_check-Stands history newer older w s (tables, chain_mismatch) split d faithful same holds =
      Stands-unfinished history newer older _ failed split
        (Holds-SameIndex older tables s same holds)
  after_check-Stands history newer older w s (tables, chain_ok) split d faithful same holds =
      let checked : Indexer = record s { tables = tables } in
      let held = Holds-SameIndex older tables s same holds in
      let pages = fetched_newer history newer older w checked split d faithful held in
      subst
        (λ f.
          Stands program_address decode logs_of history
            (after_fetch program_address decode f w checked).0
            (outcome (after_fetch program_address decode f w checked).1))
        (sym pages) (after_fetch-Stands history newer older w checked split d faithful held)

  pub sync-Stands :
      (history newer older : List SignatureInfo) (program : String) (checked : Bool) (w : World)
      (s : Indexer)
      → history ≡ newer ++ older
      → Distinct (names history)
      → Faithful history w
      → Holds program_address decode logs_of older s
      → Stands program_address decode logs_of history
          (sync program_address decode program checked w s).0
          (outcome (sync program_address decode program checked w s).1)
  unfolding sync
  sync-Stands history newer older program checked w s split d faithful holds =
      after_check-Stands history newer older w s _ split d faithful
        (first_check-SameIndex checked w.genesis program s.tables) holds
