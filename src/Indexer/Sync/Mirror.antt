-- ===== src/Indexer/Sync/Mirror.antt =====
-- The index against the history: what a `sync` of backend/src/indexer/indexer.service.ts leaves.
-- Histories stand newest first. The log lines of a transaction are a function of its signature.
use mathlib.Core.List.{reverse, reverse-cons}
use axel_sol.Indexer.Feed.{Arrival, Indexer, SignatureInfo, all_logs, forget}
use axel_sol.Indexer.Sync.{
  DecodedEvent, Halt, Turn, after_load, interrupted, load, sync_loop, sync_one,
}
use axel_sol.Indexer.Sync.History.{
  All-map, Distinct, among-reverse, fresh-Distinct, head_signature, names,
}
use axel_sol.Indexer.Sync.Truth.{
  Heard, Right, TellsTrue, all_logs-Heard, all_logs-tables, events_of, events_of-Counts, expected,
  forget-Heard, load-Right,
}
use axel_sol.Prelude.{
  ℕ, ◌≡◌, refl, sym, subst, ap, ◌∙◌, arith, String, Bool, true, false, Option, none, some, List, [],
  ◌∷◌, ◌++◌, append_assoc, All, All-append, if◌then◌else◌, str_eq, among, Text,
}
use axel_sol.Indexer.Store.{
  EventRecord, TransactionRecord, Tables, cursor, signatures, is_indexed, record_transaction,
}
use axel_sol.Indexer.Store.Records.{
  fact, facts, facts_of, Counts, facts-record_transaction, signatures-record_transaction,
  cursor-record_transaction,
}

module _ (program_address : Text) (decode : Text → Option DecodedEvent)
    (logs_of : String → List Text) where
  -- The index holds the transactions of `older`, and their events.
  pub record Holds (older : List SignatureInfo) (s : Indexer) : Type 0 where
    pub rows : signatures s.tables.indexed_transactions ≡ reverse (names older)
    pub at : cursor s.tables ≡ head_signature older
    pub events : facts s.tables ≡ expected program_address decode logs_of older
    pub heard : Heard program_address decode logs_of s.notified

  facts_of-others :
      (own signature : String) (es : List EventRecord)
      → str_eq own signature ≡ false
      → All (λ f. str_eq f.0 signature ≡ false) (facts_of own es)
  facts_of-others own signature [] h = tt
  facts_of-others own signature (e ∷ es) h = (h, facts_of-others own signature es h)

  expected-others :
      (signature : String) (older : List SignatureInfo)
      → among signature (names older) ≡ false
      → All (λ f. str_eq f.0 signature ≡ false) (expected program_address decode logs_of older)
  unfolding among
  expected-others signature [] h = tt
  expected-others signature (i ∷ older) h =
      All-append _ (expected program_address decode logs_of older) _
        (expected-others signature older (ground arith))
        (facts_of-others i.signature signature (events_of program_address decode logs_of i)
          (ground arith))

  Holds-record_transaction :
      (i : SignatureInfo) (older : List SignatureInfo) (t : TransactionRecord) (now : ℕ)
      (s : Indexer)
      → Holds older s
      → among i.signature (names older) ≡ false
      → Right program_address decode logs_of i (some t)
      → Holds (i ∷ older) (record s { tables = record_transaction t now s.tables })
  unfolding is_indexed
  Holds-record_transaction i older t now s holds fresh (own, events) =
      let fresh_t : among t.signature (names older) ≡ false =
        ap (λ n. among n (names older)) own ∙ fresh in
      let new : is_indexed t.signature s.tables ≡ false =
        ap (among t.signature) holds.rows ∙ among-reverse t.signature (names older) fresh_t in
      let others = All-map _ fact s.tables.program_events (
        subst (All (λ (f : String × EventRecord). str_eq f.0 t.signature ≡ false))
          (sym holds.events) (expected-others t.signature older fresh_t)) in
      record {
        rows =
            signatures-record_transaction t now s.tables new
            ∙ ap (λ l. l ++ t.signature ∷ []) holds.rows
            ∙ ap (λ n. reverse (names older) ++ n ∷ []) own
            ∙ sym (reverse-cons i.signature (names older));
        at = cursor-record_transaction t now s.tables ∙ ap some own;
        events =
            facts-record_transaction t now s.tables
              (subst (Counts 0) (sym events) (events_of-Counts program_address decode logs_of i))
              others
            ∙ ap (λ l. l ++ facts_of t.signature t.events) holds.events
            ∙ ap (λ n. expected program_address decode logs_of older ++ facts_of n t.events) own
            ∙ ap (λ es. expected program_address decode logs_of older ++ facts_of i.signature es)
                events;
        heard = holds.heard;
      }

  abbrev Reached : Option Halt → SignatureInfo → List SignatureInfo → Indexer → Type 0
  Reached none i older s = Holds (i ∷ older) s
  Reached (some halt) i older s = Holds older s

  after_load-Reached :
      (i : SignatureInfo) (older : List SignatureInfo) (o : Option TransactionRecord) (now : ℕ)
      (s : Indexer)
      → Holds older s
      → among i.signature (names older) ≡ false
      → Right program_address decode logs_of i o
      → Reached
          (after_load program_address decode o now s).1
          i
          older
          (after_load program_address decode o now s).0
  after_load-Reached i older none now s holds fresh right = holds
  after_load-Reached i older (some t) now s holds fresh right =
      Holds-record_transaction i older t now s holds fresh right

  Holds-all_logs :
      (signature : String) (older : List SignatureInfo) (arrivals : List Arrival) (s : Indexer)
      → Holds older s
      → All (λ a. a.entry.logs ≡ logs_of a.entry.signature) arrivals
      → Holds older (all_logs arrivals (record s { notified = forget signature s.notified }))
  Holds-all_logs signature older arrivals s holds t =
      let before : Indexer = record s { notified = forget signature s.notified } in
      let kept = all_logs-tables program_address decode logs_of arrivals before in
      record {
        rows = ap (λ (x : Tables). signatures x.indexed_transactions) kept ∙ holds.rows;
        at = ap cursor kept ∙ holds.at;
        events = ap facts kept ∙ holds.events;
        heard =
            all_logs-Heard program_address decode logs_of arrivals before t
              (forget-Heard program_address decode logs_of signature s.notified holds.heard);
      }

  if-Reached :
      (b : Bool) (x y : Indexer × Option Halt) (i : SignatureInfo) (older : List SignatureInfo)
      → Reached x.1 i older x.0
      → Reached y.1 i older y.0
      → Reached (if b then x else y).1 i older (if b then x else y).0
  if-Reached true x y i older h k = h
  if-Reached false x y i older h k = k

  if-Reached_else :
      (b : Bool) (x y : Indexer × Option Halt) (i : SignatureInfo) (older : List SignatureInfo)
      → b ≡ false
      → Reached y.1 i older y.0
      → Reached (if b then x else y).1 i older (if b then x else y).0
  if-Reached_else true x y i older e h = absurd (let clash : true ≡ false = e in cc)
  if-Reached_else false x y i older e h = h

  sync_one-Reached :
      (i : SignatureInfo) (older : List SignatureInfo) (turn : Turn) (s : Indexer)
      → Holds older s
      → among i.signature (names older) ≡ false
      → TellsTrue program_address decode logs_of i turn
      → Reached
          (sync_one program_address decode i turn s).1
          i
          older
          (sync_one program_address decode i turn s).0
  unfolding sync_one is_indexed
  sync_one-Reached i older turn s holds fresh (answer, arrivals) =
      let new : is_indexed i.signature s.tables ≡ false =
        ap (among i.signature) holds.rows ∙ among-reverse i.signature (names older) fresh in
      let loaded =
        after_load-Reached i older (load program_address decode i s.notified turn.answer) turn.now _
          (Holds-all_logs i.signature older turn.arrivals s holds arrivals) fresh
          (load-Right program_address decode logs_of i s.notified turn.answer holds.heard answer) in
      if-Reached turn.stopped (s, some interrupted) _ i older holds
        (if-Reached_else (is_indexed i.signature s.tables) _ _ i older new loaded)

  -- The index holds the older part of the history, and all of it unless the loop was left early.
  pub record Stands (history : List SignatureInfo) (s : Indexer) (halt : Option Halt) : Type 0 where
    pub newer : List SignatureInfo
    pub older : List SignatureInfo
    pub split : history ≡ newer ++ older
    pub holds : Holds older s
    pub complete : halt ≡ none → newer ≡ []

  reverse-cons_append :
      (i : SignatureInfo) (infos older : List SignatureInfo)
      → reverse (i ∷ infos) ++ older ≡ reverse infos ++ i ∷ older
  reverse-cons_append i infos older =
      ap (λ l. l ++ older) (reverse-cons i infos) ∙ append_assoc (reverse infos) (i ∷ []) older

  after_round :
      (i : SignatureInfo) (infos older : List SignatureInfo) (turns : String → Turn)
      (round : Indexer × Option Halt)
      → Reached round.1 i older round.0
      → ((s : Indexer)
          → Holds (i ∷ older) s
          → Stands
              (reverse infos ++ i ∷ older)
              (sync_loop program_address decode infos turns s).0
              (sync_loop program_address decode infos turns s).1)
      → (let r : Indexer × Option Halt = elim round.1 [
        | none ↦ sync_loop program_address decode infos turns round.0
        | some halt ↦ (round.0, some halt)
      ] in
          Stands (reverse infos ++ i ∷ older) r.0 r.1)
  after_round i infos older turns (s, none) reached rest = rest s reached
  after_round i infos older turns (s, some halt) reached rest = record {
    newer = reverse infos ++ i ∷ [];
    older = older;
    split = sym (append_assoc (reverse infos) (i ∷ []) older);
    holds = reached;
    complete = λ e. absurd (let clash : some halt ≡ none = e in cc);
  }

  pub sync_loop-Stands :
      (infos older : List SignatureInfo) (turns : String → Turn) (s : Indexer)
      → Holds older s
      → Distinct (names (reverse infos ++ older))
      → All (λ i. TellsTrue program_address decode logs_of i (turns i.signature)) infos
      → Stands
          (reverse infos ++ older)
          (sync_loop program_address decode infos turns s).0
          (sync_loop program_address decode infos turns s).1
  unfolding sync_loop
  sync_loop-Stands [] older turns s holds d t = record {
    newer = [];
    older = older;
    split = refl;
    holds = holds;
    complete = λ e. refl;
  }
  sync_loop-Stands (i ∷ infos) older turns s holds d (own, t) =
      let same = reverse-cons_append i infos older in
      let distinct = subst (λ l. Distinct (names l)) same d in
      subst
        (λ l.
          Stands l (sync_loop program_address decode (i ∷ infos) turns s).0
            (sync_loop program_address decode (i ∷ infos) turns s).1)
        (sym same)
        (after_round i infos older turns (sync_one program_address decode i (turns i.signature) s)
          (sync_one-Reached i older (turns i.signature) s holds
            (fresh-Distinct (reverse infos) i older distinct) own)
          (λ s' held. sync_loop-Stands infos (i ∷ older) turns s' held distinct t))
