-- ===== src/Indexer/Logs/Tests.antt =====
-- The logs of a transaction in which the program runs as a hook of another program.
use axel_sol.Prelude.{◌≡◌, refl, List, [], ◌∷◌, map, Text, false, text_eq}
use axel_sol.Indexer.Logs.{
  classify, invoke_match, success_test, after_prefix, word, closes, program_log_events,
}
use axel_sol.Indexer.Logs.Trace.{
  Trace, over, logged, call, lines, written, numbered, program_log_events-lines,
}

abbrev log_lines : List Text
log_lines =
    (b'P' ∷ b'r' ∷ b'o' ∷ b'g' ∷ b'r' ∷ b'a' ∷ b'm' ∷ b' ' ∷ b'T' ∷ b'2' ∷ b' ' ∷ b'i' ∷ b'n' ∷ b'v'
      ∷ b'o' ∷ b'k' ∷ b'e' ∷ b' ' ∷ b'[' ∷ b'1' ∷ b']' ∷ [])
    ∷ (b'P' ∷ b'r' ∷ b'o' ∷ b'g' ∷ b'r' ∷ b'a' ∷ b'm' ∷ b' ' ∷ b'A' ∷ b'x' ∷ b' ' ∷ b'i' ∷ b'n'
        ∷ b'v' ∷ b'o' ∷ b'k' ∷ b'e' ∷ b' ' ∷ b'[' ∷ b'2' ∷ b']' ∷ [])
    ∷ (b'P' ∷ b'r' ∷ b'o' ∷ b'g' ∷ b'r' ∷ b'a' ∷ b'm' ∷ b' ' ∷ b'd' ∷ b'a' ∷ b't' ∷ b'a' ∷ b':'
        ∷ b' ' ∷ b'A' ∷ b'Q' ∷ [])
    ∷ (b'P' ∷ b'r' ∷ b'o' ∷ b'g' ∷ b'r' ∷ b'a' ∷ b'm' ∷ b' ' ∷ b'A' ∷ b'x' ∷ b' ' ∷ b's' ∷ b'u'
        ∷ b'c' ∷ b'c' ∷ b'e' ∷ b's' ∷ b's' ∷ [])
    ∷ (b'P' ∷ b'r' ∷ b'o' ∷ b'g' ∷ b'r' ∷ b'a' ∷ b'm' ∷ b' ' ∷ b'd' ∷ b'a' ∷ b't' ∷ b'a' ∷ b':'
        ∷ b' ' ∷ b'z' ∷ b'z' ∷ [])
    ∷ (b'P' ∷ b'r' ∷ b'o' ∷ b'g' ∷ b'r' ∷ b'a' ∷ b'm' ∷ b' ' ∷ b'T' ∷ b'2' ∷ b' ' ∷ b's' ∷ b'u'
        ∷ b'c' ∷ b'c' ∷ b'e' ∷ b's' ∷ b's' ∷ [])
    ∷ []

abbrev axel : Text
axel = b'A' ∷ b'x' ∷ []

abbrev hook_call : Trace
hook_call =
    call (b'T' ∷ b'2' ∷ [])
      (call axel (logged (b'A' ∷ b'Q' ∷ []) over) (logged (b'z' ∷ b'z' ∷ []) over)) over

read_as : map classify log_lines ≡ lines hook_call
unfolding classify invoke_match success_test after_prefix word closes text_eq lines
read_as = refl

program_log_events-lines_example :
    program_log_events log_lines axel
    ≡ record { events = numbered 0 (written axel false hook_call); truncated = false }
program_log_events-lines_example = program_log_events-lines log_lines axel hook_call read_as
