-- ===== src/Indexer/Sync/Truth.antt =====
-- `load` of backend/src/indexer/indexer.service.ts where the RPC and the subscription give the
-- transactions' own logs. The log lines of a transaction are a function of its signature.
use axel_sol.Indexer.Feed.{
  Arrival, Indexer, Notified, SignatureInfo, TransactionAnswer, all_logs, failed_on_chain, forget,
  is_entry, max_notified, missing, on_logs, put, throws, with_logs, without_logs,
}
use axel_sol.Indexer.Sync.{
  DecodedEvent, Turn, answered, event_record, failed_record, load, notified_or, parsed, record_of,
}
use axel_sol.Prelude.{
  ℕ, suc, ◌≡◌, refl, sym, subst, ap, ◌||◌, All-select, ◌∙◌, arith, String, Bool, true, false, not,
  Option, none, some, List, [], ◌∷◌, ◌++◌, map, length, All, leb, drop, if◌then◌else◌, eq_iff, find,
  Bool-cases, inl, inr, Text,
}
use axel_sol.Indexer.Logs.{LoggedEvent, program_log_events}
use axel_sol.Indexer.Logs.Numbers.{Numbered, program_log_events-Numbered}
use axel_sol.Indexer.Store.{EventRecord, TransactionRecord, is_indexed}
use axel_sol.Indexer.Store.Records.{facts_of, Counts}

module _ (program_address : Text) (decode : Text → Option DecodedEvent)
    (logs_of : String → List Text) where
  abbrev pub events_of : SignatureInfo → List EventRecord
  events_of i =
      if i.failed
      then []
      else map (event_record program_address decode)
          (program_log_events (logs_of i.signature) program_address).events

  -- The events of the transactions, oldest first.
  abbrev pub expected : List SignatureInfo → List (String × EventRecord)
  expected [] = []
  expected (i ∷ older) = expected older ++ facts_of i.signature (events_of i)

  abbrev pub Heard : List Notified → Type 0
  Heard entries = All (λ n. n.logs ≡ logs_of n.signature) entries

  pub forget-Heard :
      (signature : String) (entries : List Notified)
      → Heard entries
      → Heard (forget signature entries)
  unfolding forget
  forget-Heard signature entries h =
      All-select (λ n. n.logs ≡ logs_of n.signature) (λ n. not (is_entry signature n)) entries h

  pub put-Heard :
      (n : Notified) (entries : List Notified)
      → n.logs ≡ logs_of n.signature
      → Heard entries
      → Heard (put n entries)
  unfolding put
  put-Heard n [] own h = (own, tt)
  put-Heard n (m ∷ entries) own (h, hs) =
      elim (is_entry n.signature m)
        as (λ b. Heard (elim b [ true ↦ n ∷ entries | false ↦ m ∷ put n entries ])) [
          | true ↦ (own, hs)
          | false ↦ (h, put-Heard n entries own hs)
        ]

  pub drop-Heard :
      (b : Bool) (entries : List Notified)
      → Heard entries
      → Heard (if b then drop 1 entries else entries)
  drop-Heard false entries h = h
  drop-Heard true [] h = h
  drop-Heard true (n ∷ entries) h = h.1

  pub find-Heard :
      (signature : String) (entries : List Notified) (n : Notified)
      → Heard entries
      → find (is_entry signature) entries ≡ some n
      → n.logs ≡ logs_of signature
  unfolding find
  find-Heard signature [] n h e = cc
  find-Heard signature (m ∷ entries) n (h, hs) e = elim (Bool-cases (is_entry signature m)) [
    | inl own ↦
        let found : m ≡ n = ground arith in
        sym (ap (λ (x : Notified). x.logs) found)
        ∙ h
        ∙ ap logs_of ((eq_iff m.signature signature).0 own)
    | inr other ↦
        let rest : find (is_entry signature) entries ≡ some n = ground arith in
        find-Heard signature entries n hs rest
  ]

  abbrev pub IsTrue : SignatureInfo → TransactionAnswer → Type 0
  IsTrue i throws = Unit
  IsTrue i missing = Unit
  IsTrue i failed_on_chain = i.failed ≡ true
  IsTrue i without_logs = Unit
  IsTrue i (with_logs slot block_time logs) = logs ≡ logs_of i.signature

  -- What the RPC answers and what arrives is what the history has.
  abbrev pub TellsTrue : SignatureInfo → Turn → Type 0
  TellsTrue i turn =
      IsTrue i turn.answer × All (λ a. a.entry.logs ≡ logs_of a.entry.signature) turn.arrivals

  pub if-Heard :
      (b : Bool) (x y : Indexer × Bool)
      → Heard x.0.notified
      → Heard y.0.notified
      → Heard (if b then x else y).0.notified
  if-Heard true x y h k = h
  if-Heard false x y h k = k

  pub on_logs-Heard :
      (a : Arrival) (s : Indexer)
      → a.entry.logs ≡ logs_of a.entry.signature
      → Heard s.notified
      → Heard (on_logs a s).0.notified
  unfolding on_logs
  on_logs-Heard a s own h =
      let more =
        put-Heard a.entry _ own (drop-Heard (leb max_notified (length s.notified)) s.notified h) in
      if-Heard (a.stopped || a.failed || is_indexed a.entry.signature s.tables) (s, false) _ h more

  pub on_logs-tables : (a : Arrival) (s : Indexer) → (on_logs a s).0.tables ≡ s.tables
  unfolding on_logs
  on_logs-tables a s = ground arith

  pub all_logs-tables :
      (arrivals : List Arrival) (s : Indexer) → (all_logs arrivals s).tables ≡ s.tables
  unfolding all_logs
  all_logs-tables [] s = refl
  all_logs-tables (a ∷ arrivals) s = all_logs-tables arrivals (on_logs a s).0 ∙ on_logs-tables a s

  pub all_logs-Heard :
      (arrivals : List Arrival) (s : Indexer)
      → All (λ a. a.entry.logs ≡ logs_of a.entry.signature) arrivals
      → Heard s.notified
      → Heard (all_logs arrivals s).notified
  unfolding all_logs
  all_logs-Heard [] s t h = h
  all_logs-Heard (a ∷ arrivals) s (own, t) h =
      all_logs-Heard arrivals (on_logs a s).0 t (on_logs-Heard a s own h)

  pub Counts-map :
      (n : ℕ) (es : List LoggedEvent)
      → Numbered n es
      → Counts n (map (event_record program_address decode) es)
  unfolding event_record
  Counts-map n [] h = tt
  Counts-map n (e ∷ es) (own, h) = (
    elim (decode e.data_text) as (λ d. (record_of e d).index ≡ n) [ none ↦ own | some d ↦ own ],
    Counts-map (suc n) es h,
  )

  pub events_of-Counts : (i : SignatureInfo) → Counts 0 (events_of i)
  events_of-Counts i =
      elim i.failed
        as (λ b. Counts 0 (
          if b
          then []
          else map (event_record program_address decode)
              (program_log_events (logs_of i.signature) program_address).events)) [
                | true ↦ tt
                | false ↦
                    Counts-map 0 _
                      (program_log_events-Numbered (logs_of i.signature) program_address)
              ]

  -- The record of a transaction has its signature and its events.
  abbrev pub Right : SignatureInfo → Option TransactionRecord → Type 0
  Right i none = Unit
  Right i (some t) = (t.signature ≡ i.signature) × (t.events ≡ events_of i)

  pub parsed-Right :
      (i : SignatureInfo) (slot : ℕ) (time : Option ℕ) (logs : List Text)
      → i.failed ≡ false
      → logs ≡ logs_of i.signature
      → Right i (some (parsed program_address decode i.signature slot time logs))
  unfolding parsed
  parsed-Right i slot time logs succeeded same = (
    refl,
    ap
          (λ l.
            map (event_record program_address decode) (program_log_events l program_address).events)
          same
        ∙ sym (
            ap
              (λ b.
                if b
                then []
                else map (event_record program_address decode)
                    (program_log_events (logs_of i.signature) program_address).events)
              succeeded),
  )

  pub answered-Right :
      (i : SignatureInfo) (answer : TransactionAnswer)
      → i.failed ≡ false
      → IsTrue i answer
      → Right i (answered program_address decode i answer)
  answered-Right i throws succeeded h = tt
  answered-Right i missing succeeded h = tt
  answered-Right i failed_on_chain succeeded h =
      absurd (let clash : true ≡ false = sym h ∙ succeeded in cc)
  answered-Right i without_logs succeeded h = tt
  answered-Right i (with_logs slot time logs) succeeded h = parsed-Right i slot _ logs succeeded h

  pub notified_or-Right :
      (o : Option Notified) (i : SignatureInfo) (answer : TransactionAnswer)
      (entries : List Notified)
      → find (is_entry i.signature) entries ≡ o
      → Heard entries
      → i.failed ≡ false
      → IsTrue i answer
      → Right i (notified_or program_address decode o i answer)
  notified_or-Right none i answer entries e heard succeeded h = answered-Right i answer succeeded h
  notified_or-Right (some n) i answer entries e heard succeeded h =
      parsed-Right i i.slot i.block_time n.logs succeeded (find-Heard i.signature entries n heard e)

  pub load-Right :
      (i : SignatureInfo) (entries : List Notified) (answer : TransactionAnswer)
      → Heard entries
      → IsTrue i answer
      → Right i (load program_address decode i entries answer)
  unfolding load
  load-Right i entries answer heard h = elim (Bool-cases i.failed) [
    | inl own ↦
        subst
          (λ b. Right i (
            if b
            then some (failed_record i)
            else notified_or program_address decode (find (is_entry i.signature) entries) i answer))
          (sym own)
          (
            refl,
            sym (
                ap
                  (λ b.
                    if b
                    then []
                    else map (event_record program_address decode)
                        (program_log_events (logs_of i.signature) program_address).events)
                  own),
          )
    | inr succeeded ↦
        subst
          (λ b. Right i (
            if b
            then some (failed_record i)
            else notified_or program_address decode (find (is_entry i.signature) entries) i answer))
          (sym succeeded)
          (notified_or-Right (find (is_entry i.signature) entries) i answer entries refl heard
            succeeded h)
  ]
