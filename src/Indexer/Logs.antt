-- ===== src/Indexer/Logs.antt =====
-- backend/src/indexer/program-logs.ts: the records that a program wrote to the logs of a
-- transaction. Lines are lists of character codes.
pub mod Numbers
pub mod Trace
mod Tests
use axel_sol.Prelude.{
  ℕ, zero, suc, ◌+◌, Bool, true, false, not, ◌&&◌, ◌||◌, Option, none, some, List, [], ◌∷◌, ◌++◌,
  length, map, leb, ◌==◌, if◌then◌else◌, Text, text_eq,
}

pub record LoggedEvent : Type 0 where
  pub index : ℕ
  pub data_text : Text

pub record ProgramLogEvents : Type 0 where
  pub events : List LoggedEvent
  pub truncated : Bool

abbrev pub program_word : Text
program_word = b'P' ∷ b'r' ∷ b'o' ∷ b'g' ∷ b'r' ∷ b'a' ∷ b'm' ∷ b' ' ∷ []

abbrev pub invoke_word : Text
invoke_word = b' ' ∷ b'i' ∷ b'n' ∷ b'v' ∷ b'o' ∷ b'k' ∷ b'e' ∷ b' ' ∷ b'[' ∷ []

abbrev pub success_word : Text
success_word = b' ' ∷ b's' ∷ b'u' ∷ b'c' ∷ b'c' ∷ b'e' ∷ b's' ∷ b's' ∷ []

abbrev pub data_prefix : Text
data_prefix =
    b'P' ∷ b'r' ∷ b'o' ∷ b'g' ∷ b'r' ∷ b'a' ∷ b'm' ∷ b' ' ∷ b'd' ∷ b'a' ∷ b't' ∷ b'a' ∷ b':' ∷ b' '
    ∷ []

abbrev pub truncated_text : Text
truncated_text =
    b'L' ∷ b'o' ∷ b'g' ∷ b' ' ∷ b't' ∷ b'r' ∷ b'u' ∷ b'n' ∷ b'c' ∷ b'a' ∷ b't' ∷ b'e' ∷ b'd' ∷ []

-- What `\s` matches.
abbrev is_space : ℕ → Bool
is_space c =
    (leb 9 c && leb c 13)
    || c == 32
    || c == 160
    || c == 5760
    || (leb 8192 c && leb c 8202)
    || c == 8232
    || c == 8233
    || c == 8239
    || c == 8287
    || c == 12288
    || c == 65279

-- What follows a prefix, where the text starts with it.
unfoldable pub after_prefix : Text → Text → Option Text
after_prefix [] t = some t
after_prefix (c ∷ cs) [] = none
after_prefix (c ∷ cs) (d ∷ ds) = let rest = after_prefix cs ds in if c == d then rest else none

-- The text up to the first space, and what follows.
unfoldable pub word : Text → Text × Text
word [] = ([], [])
word (c ∷ cs) = let rest = word cs in if is_space c then ([], c ∷ cs) else (c ∷ rest.0, rest.1)

-- `\d+\]$` after the bracket.
unfoldable pub closes : Bool → Text → Bool
closes some_digit [] = false
closes some_digit (c ∷ cs) =
    let rest = closes true cs in
    if leb b'0' c && leb c b'9' then rest else some_digit && c == b']' && text_eq cs []

abbrev unless_empty : Text → Option Text
unless_empty [] = none
unless_empty (c ∷ cs) = some (c ∷ cs)

abbrev invoked : Text × Text → Option Text
invoked (program, rest) = elim (after_prefix invoke_word rest) [
  | none ↦ none
  | some depth ↦ if closes false depth then unless_empty program else none
]

-- The program of `/^Program (\S+) invoke \[\d+\]$/`.
unfoldable pub invoke_match : Text → Option Text
invoke_match line = elim (after_prefix program_word line) [
  | none ↦ none
  | some rest ↦ invoked (word rest)
]

abbrev succeeded : Text × Text → Bool
succeeded (program, rest) = not (text_eq program []) && text_eq rest success_word

-- `/^Program \S+ success$/`.
unfoldable pub success_test : Text → Bool
success_test line = elim (after_prefix program_word line) [
  | none ↦ false
  | some rest ↦ succeeded (word rest)
]

-- What the loop does with a line, in the order of its tests.
pub data LogLine : Type 0 where
  cut_off success_line other_line : LogLine
  invoke_line data_line : Text → LogLine

abbrev data_or_other : Option Text → LogLine
data_or_other none = other_line
data_or_other (some data_text) = data_line data_text

unfoldable pub classify : Text → LogLine
unfolding success_test
classify line = if text_eq line truncated_text then cut_off else elim (invoke_match line) [
  | some program ↦ invoke_line program
  | none ↦ if success_test line then success_line else data_or_other (after_prefix data_prefix line)
]

-- `stack[stack.length - 1] === programId`; the stack's top comes first here.
abbrev pub runs : Text → List Text → Bool
runs program_id [] = false
runs program_id (top ∷ stack) = text_eq top program_id

abbrev pub pop : List Text → List Text
pop [] = []
pop (top ∷ stack) = stack

unfoldable pub scan : Text → List Text → List LoggedEvent → List LogLine → ProgramLogEvents
scan program_id stack events [] = record { events = events; truncated = false }
scan program_id stack events (cut_off ∷ lines) = record { events = events; truncated = true }
scan program_id stack events (invoke_line program ∷ lines) =
    scan program_id (program ∷ stack) events lines
scan program_id stack events (success_line ∷ lines) = scan program_id (pop stack) events lines
scan program_id stack events (other_line ∷ lines) = scan program_id stack events lines
scan program_id stack events (data_line data_text ∷ lines) =
    scan program_id stack
      (if runs program_id stack
        then events ++ record { index = length events; data_text = data_text } ∷ []
        else events)
      lines

unfoldable pub program_log_events : List Text → Text → ProgramLogEvents
program_log_events logs program_id = scan program_id [] [] (map classify logs)
