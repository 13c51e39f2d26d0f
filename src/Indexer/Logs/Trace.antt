-- ===== src/Indexer/Logs/Trace.antt =====
-- The logs of a transaction as the runtime writes them: a tree of invocations.
use axel_sol.Prelude.{
  ℕ, suc, ◌+◌, ◌≡◌, refl, ap, sym, ◌∙◌, arith, Bool, true, false, List, [], ◌∷◌, ◌++◌, map, length,
  Text, text_eq, append-nil, append_assoc, if◌then◌else◌,
}
use axel_sol.Indexer.Logs.{
  LoggedEvent, LogLine, success_line, other_line, invoke_line, data_line, classify, runs, scan,
  program_log_events,
}

-- What is logged while a program runs, or outside of any: records, other lines, and invocations
-- with what is logged in them.
pub data Trace : Type 0 where
  over : Trace
  logged : Text → Trace → Trace
  noted : Trace → Trace
  call : (program : Text) (inner rest : Trace) → Trace

unfoldable pub lines : Trace → List LogLine
lines over = []
lines (logged data_text rest) = data_line data_text ∷ lines rest
lines (noted rest) = other_line ∷ lines rest
lines (call program inner rest) = invoke_line program ∷ lines inner ++ success_line ∷ lines rest

-- The records that the program itself wrote, `current` telling whether it is the one that runs.
unfoldable pub written : Text → Bool → Trace → List Text
written program_id current over = []
written program_id current (logged data_text rest) =
    let others = written program_id current rest in if current then data_text ∷ others else others
written program_id current (noted rest) = written program_id current rest
written program_id current (call program inner rest) =
    written program_id (text_eq program program_id) inner ++ written program_id current rest

unfoldable pub numbered : ℕ → List Text → List LoggedEvent
numbered n [] = []
numbered n (d ∷ ds) = record { index = n; data_text = d } ∷ numbered (n + 1) ds

numbered-append :
    (n : ℕ) (xs ys : List Text)
    → numbered n (xs ++ ys) ≡ numbered n xs ++ numbered (n + length xs) ys
unfolding numbered
numbered-append n [] ys = ap (λ k. numbered k ys) (omega arith)
numbered-append n (x ∷ xs) ys =
    ap (λ l. record { index = n; data_text = x } ∷ l)
      (numbered-append (n + 1) xs ys ∙ ap (λ k. numbered (n + 1) xs ++ numbered k ys) (omega arith))

length-append : {A : Type 0} (xs ys : List A) → length (xs ++ ys) ≡ length xs + length ys
length-append [] ys = omega arith
length-append (x ∷ xs) ys = let h = length-append xs ys in omega arith

length-numbered : (n : ℕ) (xs : List Text) → length (numbered n xs) ≡ length xs
unfolding numbered
length-numbered n [] = refl
length-numbered n (x ∷ xs) = ap suc (length-numbered (n + 1) xs)

-- The events so far, and those of further records.
extended : List LoggedEvent → List Text → List LoggedEvent
extended events ds = events ++ numbered (length events) ds

extended-append :
    (events : List LoggedEvent) (xs ys : List Text)
    → extended (extended events xs) ys ≡ extended events (xs ++ ys)
unfolding extended
extended-append events xs ys =
    let n = length events in
    rw
      (
        length-append events (numbered n xs),
        length-numbered n xs,
        numbered-append n xs ys,
        append_assoc events (numbered n xs) (numbered (n + length xs) ys),
      )
      refl

extended-record :
    (own : Bool) (events : List LoggedEvent) (d : Text) (others : List Text)
    → extended
        (if own then events ++ record { index = length events; data_text = d } ∷ [] else events)
        others
      ≡ extended events (if own then d ∷ others else others)
unfolding extended numbered
extended-record true events d others = extended-append events (d ∷ []) others
extended-record false events d others = refl

scan-lines :
    (program_id : Text) (stack : List Text) (events : List LoggedEvent) (t : Trace)
    (more : List LogLine)
    → scan program_id stack events (lines t ++ more)
      ≡ scan program_id stack (extended events (written program_id (runs program_id stack) t)) more
unfolding scan lines written extended numbered
scan-lines program_id stack events over more =
    ap (λ es. scan program_id stack es more) (sym (append-nil events))
scan-lines program_id stack events (logged d rest) more =
    scan-lines program_id stack _ rest more
    ∙ ap (λ es. scan program_id stack es more)
        (extended-record (runs program_id stack) events d
          (written program_id (runs program_id stack) rest))
scan-lines program_id stack events (noted rest) more = scan-lines program_id stack events rest more
scan-lines program_id stack events (call program inner rest) more =
    let w = written program_id (text_eq program program_id) inner in
    ap (scan program_id (program ∷ stack) events)
      (append_assoc (lines inner) (success_line ∷ lines rest) more)
    ∙ scan-lines program_id (program ∷ stack) events inner (success_line ∷ lines rest ++ more)
    ∙ scan-lines program_id stack (extended events w) rest more
    ∙ ap (λ es. scan program_id stack es more)
        (extended-append events w (written program_id (runs program_id stack) rest))

-- From the lines of a transaction whose invocations all end in success, exactly the records that
-- the program itself wrote are collected, in their order and numbered from 0: those it writes
-- while another program calls it count, and those of a program that it calls do not.
pub program_log_events-lines :
    (logs : List Text) (program_id : Text) (t : Trace)
    → map classify logs ≡ lines t
    → program_log_events logs program_id
      ≡ record { events = numbered 0 (written program_id false t); truncated = false }
unfolding program_log_events scan extended
program_log_events-lines logs program_id t e =
    ap (scan program_id [] []) (e ∙ sym (append-nil (lines t))) ∙ scan-lines program_id [] [] t []
