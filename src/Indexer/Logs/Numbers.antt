-- ===== src/Indexer/Logs/Numbers.antt =====
-- The numbers that backend/src/indexer/program-logs.ts gives to the records of a transaction.
use axel_sol.Prelude.{
  ℕ, suc, ◌+◌, ◌≡◌, arith, Bool, true, false, List, [], ◌∷◌, ◌++◌, map, length, if◌then◌else◌, Text,
}
use axel_sol.Indexer.Logs.{
  LoggedEvent, LogLine, cut_off, success_line, other_line, invoke_line, data_line, classify, runs,
  pop, scan, program_log_events,
}

abbrev pub Numbered : ℕ → List LoggedEvent → Type 0
Numbered n [] = Unit
Numbered n (e ∷ es) = (e.index ≡ n) × Numbered (suc n) es

Numbered-append :
    (n : ℕ) (es : List LoggedEvent) (d : Text) (i : ℕ)
    → i ≡ n + length es
    → Numbered n es
    → Numbered n (es ++ record { index = i; data_text = d } ∷ [])
Numbered-append n [] d i e h = (omega arith, tt)
Numbered-append n (x ∷ es) d i e (own, h) = (own, Numbered-append (suc n) es d i (omega arith) h)

Numbered-if :
    (b : Bool) (es : List LoggedEvent) (d : Text)
    → Numbered 0 es
    → Numbered 0 (if b then es ++ record { index = length es; data_text = d } ∷ [] else es)
Numbered-if true es d h = Numbered-append 0 es d (length es) (omega arith) h
Numbered-if false es d h = h

scan-Numbered :
    (program_id : Text) (stack : List Text) (es : List LoggedEvent) (lines : List LogLine)
    → Numbered 0 es
    → Numbered 0 (scan program_id stack es lines).events
unfolding scan
scan-Numbered program_id stack es [] h = h
scan-Numbered program_id stack es (cut_off ∷ lines) h = h
scan-Numbered program_id stack es (success_line ∷ lines) h =
    scan-Numbered program_id (pop stack) es lines h
scan-Numbered program_id stack es (other_line ∷ lines) h = scan-Numbered program_id stack es lines h
scan-Numbered program_id stack es (invoke_line program ∷ lines) h =
    scan-Numbered program_id (program ∷ stack) es lines h
scan-Numbered program_id stack es (data_line d ∷ lines) h =
    scan-Numbered program_id stack _ lines (Numbered-if (runs program_id stack) es d h)

pub program_log_events-Numbered :
    (logs : List Text) (program_id : Text) → Numbered 0 (program_log_events logs program_id).events
unfolding program_log_events
program_log_events-Numbered logs program_id = scan-Numbered program_id [] [] (map classify logs) tt
