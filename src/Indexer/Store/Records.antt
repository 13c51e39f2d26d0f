-- ===== src/Indexer/Store/Records.antt =====
-- What `record` of backend/src/indexer/indexer.store.ts leaves in the tables for a transaction that
-- they do not have yet.
use axel_sol.Prelude.{
  ℕ, suc, ◌<◌, ◌≡◌, refl, sym, subst, ap, ◌∙◌, arith, String, true, false, some, List, [], ◌∷◌,
  ◌++◌, map, append-nil, append_assoc, map-append, All, All-append, str_eq,
}
use axel_sol.Indexer.Store.{
  EventRecord, TransactionRecord, EventRow, Tables, set_state, cursor, signatures, is_indexed,
  insert_transaction, row_of, has_key, insert_event, insert_events, record_transaction,
}

-- A row of `program_events` without its id, slot and time.
abbrev pub fact : EventRow → String × EventRecord
fact r = (r.signature, r.event)

abbrev pub facts : Tables → List (String × EventRecord)
facts s = map fact s.program_events

abbrev pub facts_of : String → List EventRecord → List (String × EventRecord)
facts_of signature es = map (λ e. (signature, e)) es

-- The events are numbered one after another.
abbrev pub Counts : ℕ → List EventRecord → Type 0
Counts n [] = Unit
Counts n (e ∷ es) = (e.index ≡ n) × Counts (suc n) es

-- Events of the transaction have smaller numbers, if there are any.
abbrev Below : String → ℕ → List EventRow → Type 0
Below signature n rows = All (λ r. str_eq r.signature signature ≡ true → r.event.index < n) rows

has_key-Below :
    (signature : String) (n : ℕ) (rows : List EventRow)
    → Below signature n rows
    → has_key signature n rows ≡ false
unfolding has_key
has_key-Below signature n [] h = refl
has_key-Below signature n (r ∷ rows) (h, hs) = ground (arith, h, has_key-Below signature n rows)

Below-suc :
    (signature : String) (n : ℕ) (rows : List EventRow)
    → Below signature n rows
    → Below signature (suc n) rows
Below-suc signature n [] h = tt
Below-suc signature n (r ∷ rows) (h, hs) =
    ((λ own. let small = h own in omega arith), Below-suc signature n rows hs)

insert_event_new :
    (t : TransactionRecord) (e : EventRecord) (s : Tables)
    → has_key t.signature e.index s.program_events ≡ false
    → (insert_event t e s).program_events
      ≡ s.program_events
        ++ record {
          id = s.next_id;
          signature = t.signature;
          slot = t.slot;
          block_time = t.block_time;
          event = e;
        }
          ∷ []
unfolding insert_event
insert_event_new t e s h = rw h refl

insert_events-facts :
    (t : TransactionRecord) (es : List EventRecord) (n : ℕ) (s : Tables)
    → Counts n es
    → Below t.signature n s.program_events
    → facts (insert_events t es s) ≡ facts s ++ facts_of t.signature es
unfolding insert_events
insert_events-facts t [] n s c b = sym (append-nil (facts s))
insert_events-facts t (e ∷ es) n s (own, c) b =
    let fresh =
      ap (λ i. has_key t.signature i s.program_events) own
      ∙ has_key-Below t.signature n s.program_events b in
    let after = insert_event_new t e s fresh in
    insert_events-facts t es (suc n) (insert_event t e s) c (
      subst (Below t.signature (suc n)) (sym after) (
        All-append _ s.program_events _ (Below-suc t.signature n s.program_events b)
          ((λ _. let small : e.index < suc n = omega arith in small), tt)))
    ∙ ap (λ rows. map fact rows ++ facts_of t.signature es) after
    ∙ ap (λ l. l ++ facts_of t.signature es) (map-append _ s.program_events _)
    ∙ append_assoc (facts s) _ (facts_of t.signature es)

insert_event-transactions :
    (t : TransactionRecord) (e : EventRecord) (s : Tables)
    → (insert_event t e s).indexed_transactions ≡ s.indexed_transactions
unfolding insert_event
insert_event-transactions t e s = ground arith

insert_events-transactions :
    (t : TransactionRecord) (es : List EventRecord) (s : Tables)
    → (insert_events t es s).indexed_transactions ≡ s.indexed_transactions
unfolding insert_events
insert_events-transactions t [] s = refl
insert_events-transactions t (e ∷ es) s =
    insert_events-transactions t es (insert_event t e s) ∙ insert_event-transactions t e s

insert_transaction_new :
    (t : TransactionRecord) (now : ℕ) (s : Tables)
    → is_indexed t.signature s ≡ false
    → insert_transaction t now s
      ≡ record s { indexed_transactions = s.indexed_transactions ++ row_of t now ∷ [] }
unfolding insert_transaction
insert_transaction_new t now s h = rw h refl

Below-zero :
    (signature : String) (rows : List EventRow)
    → All (λ r. str_eq r.signature signature ≡ false) rows
    → Below signature 0 rows
Below-zero signature [] h = tt
Below-zero signature (r ∷ rows) (h, hs) =
    ((λ own. absurd (let clash : true ≡ false = sym own ∙ h in cc)), Below-zero signature rows hs)

insert_transaction-events :
    (t : TransactionRecord) (now : ℕ) (s : Tables)
    → (insert_transaction t now s).program_events ≡ s.program_events
unfolding insert_transaction
insert_transaction-events t now s = ground arith

-- The events of a new transaction are added behind those of the others.
pub facts-record_transaction :
    (t : TransactionRecord) (now : ℕ) (s : Tables)
    → Counts 0 t.events
    → All (λ r. str_eq r.signature t.signature ≡ false) s.program_events
    → facts (record_transaction t now s) ≡ facts s ++ facts_of t.signature t.events
unfolding record_transaction set_state
facts-record_transaction t now s c others =
    let kept = insert_transaction-events t now s in
    insert_events-facts t t.events 0 (insert_transaction t now s) c
      (subst (Below t.signature 0) (sym kept) (Below-zero t.signature s.program_events others))
    ∙ ap (λ rows. map fact rows ++ facts_of t.signature t.events) kept

pub signatures-record_transaction :
    (t : TransactionRecord) (now : ℕ) (s : Tables)
    → is_indexed t.signature s ≡ false
    → signatures (record_transaction t now s).indexed_transactions
      ≡ signatures s.indexed_transactions ++ t.signature ∷ []
unfolding record_transaction set_state
signatures-record_transaction t now s new =
    ap signatures (
      insert_events-transactions t t.events (insert_transaction t now s)
      ∙ ap (λ (x : Tables). x.indexed_transactions) (insert_transaction_new t now s new))
    ∙ map-append _ s.indexed_transactions _

pub cursor-record_transaction :
    (t : TransactionRecord) (now : ℕ) (s : Tables)
    → cursor (record_transaction t now s) ≡ some t.signature
unfolding record_transaction set_state cursor
cursor-record_transaction t now s = refl
