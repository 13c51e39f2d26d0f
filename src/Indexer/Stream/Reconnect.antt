-- ===== src/Indexer/Stream/Reconnect.antt =====
-- Reconnecting of backend/src/indexer/log-stream.ts.
use axel_sol.Prelude.{
  ℕ, ◌≡◌, ◌⊎◌, inl, inr, refl, ◌∙◌, arith, Bool, true, false, Option, none, some, List, [], ◌∷◌,
  ◌++◌, All,
}
use axel_sol.Indexer.Stream.{
  Stream, Input, Output, subscribe, close, timer_fires, opened, pong, heartbeat, lost, message,
  not_json, unrelated, answer, notification, connects, on_logs, on_resubscribed, initial, step, run,
  outputs, connect, on_message, on_close, close_stream, terminate_open,
}

-- Whether no logs are handed on before a resubscription was announced.
pub announced : List Output → Bool
announced [] = true
announced (on_resubscribed ∷ os) = true
announced (on_logs value slot ∷ os) = false
announced (o ∷ os) = announced os

-- The stream once had a subscription and has none now.
abbrev pub HasGap : Stream → Type 0
HasGap s = (s.subscription ≡ none) × (s.subscribed_before ≡ true)

announced_terminate :
    (socket : Option ℕ) (rest : List Output)
    → announced (terminate_open socket ++ rest) ≡ announced rest
unfolding announced
announced_terminate none rest = refl
announced_terminate (some n) rest = refl

-- A step out of a gap announces the resubscription, or it hands no logs on and the gap is still
-- there.
step_gap :
    (s : Stream) (i : Input) (rest : List Output)
    → HasGap s
    → (announced ((step s i).1 ++ rest) ≡ true)
      ⊎ (HasGap (step s i).0 × (announced ((step s i).1 ++ rest) ≡ announced rest))
unfolding step connect on_message on_close close_stream announced
step_gap s subscribe rest (a, b) = inr ((a, b), refl)
step_gap s close rest (a, b) = inr ((a, b), announced_terminate s.socket rest)
step_gap s timer_fires rest (a, b) = ground arith
step_gap s (opened k) rest (a, b) = inr ((a, b), refl)
step_gap s (pong k) rest (a, b) = inr ((a, b), refl)
step_gap s (heartbeat k) rest (a, b) = ground arith
step_gap s (message k not_json) rest (a, b) = inr ((a, b), refl)
step_gap s (message k unrelated) rest (a, b) = inr ((a, b), refl)
step_gap s (message k (answer none)) rest (a, b) = inr ((a, b), refl)
step_gap s (message k (answer (some n))) rest (a, b) = inl (rw b refl)
step_gap s (message k (notification n none)) rest (a, b) = inr ((a, b), refl)
step_gap s (message k (notification n (some (v, slot)))) rest (a, b) = ground arith
step_gap s (lost k) rest (a, b) = ground arith

-- A stream that had a subscription and has none now hands no logs on before it has told the caller
-- that it is subscribed again, whatever happens to the sockets and in whatever order.
pub announced-outputs :
    (s : Stream) (inputs : List Input) → HasGap s → announced (outputs s inputs) ≡ true
unfolding outputs announced
announced-outputs s [] gap = refl
announced-outputs s (i ∷ is) gap = elim (step_gap s i (outputs (step s i).0 is) gap) [
  | inl told ↦ told
  | inr (still, same) ↦ same ∙ announced-outputs (step s i).0 is still
]

abbrev pub is_open : Option ℕ → Bool
is_open none = false
is_open (some socket) = true

-- What a subscribed stream that is not closed waits for: its socket, or the timer to reconnect.
abbrev pub Waits : Stream → Type 0
Waits s = (s.closed ≡ true) ⊎ (is_open s.socket ≡ true) ⊎ (s.reconnect_timer ≡ true)

step-Waits : (s : Stream) (i : Input) → Waits s → Waits (step s i).0
unfolding step connect on_message on_close close_stream
step-Waits s subscribe h = inr (inl refl)
step-Waits s close h = inl refl
step-Waits s timer_fires h = ground arith
step-Waits s (opened k) h = h
step-Waits s (pong k) h = h
step-Waits s (heartbeat k) h = ground arith
step-Waits s (message k not_json) h = h
step-Waits s (message k unrelated) h = h
step-Waits s (message k (answer none)) h = h
step-Waits s (message k (answer (some n))) h = h
step-Waits s (message k (notification n none)) h = h
step-Waits s (message k (notification n (some (v, slot)))) h = h
step-Waits s (lost k) h = ground arith

run-Waits_from : (s : Stream) (inputs : List Input) → Waits s → Waits (run s inputs)
unfolding run
run-Waits_from s [] h = h
run-Waits_from s (i ∷ is) h = run-Waits_from (step s i).0 is (step-Waits s i h)

-- After the first `subscribe`, whatever happens, a stream has a socket or a timer to open one, or is
-- closed.
pub run-Waits : (inputs : List Input) → Waits (run (step initial subscribe).0 inputs)
unfolding step connect
run-Waits inputs = run-Waits_from (step initial subscribe).0 inputs (inr (inl refl))

abbrev pub is_connect : Output → Bool
is_connect (connects socket) = true
is_connect _ = false

abbrev pub is_subscribe : Input → Bool
is_subscribe subscribe = true
is_subscribe _ = false

-- Closed, with no timer left.
abbrev IsClosed : Stream → Type 0
IsClosed s = (s.closed ≡ true) × (s.reconnect_timer ≡ false)

-- Whether no socket is opened.
pub opens_none : List Output → Bool
opens_none [] = true
opens_none (connects socket ∷ os) = false
opens_none (o ∷ os) = opens_none os

opens_none_terminate :
    (socket : Option ℕ) (rest : List Output)
    → opens_none (terminate_open socket ++ rest) ≡ opens_none rest
unfolding opens_none
opens_none_terminate none rest = refl
opens_none_terminate (some n) rest = refl

step-IsClosed :
    (s : Stream) (i : Input) (rest : List Output)
    → is_subscribe i ≡ false
    → IsClosed s
    → IsClosed (step s i).0 × (opens_none ((step s i).1 ++ rest) ≡ opens_none rest)
unfolding step connect on_message on_close close_stream opens_none
step-IsClosed s subscribe rest other h = cc
step-IsClosed s close rest other (c, t) = ((refl, refl), opens_none_terminate s.socket rest)
step-IsClosed s timer_fires rest other (c, t) = ground arith
step-IsClosed s (opened k) rest other h = (h, refl)
step-IsClosed s (pong k) rest other h = (h, refl)
step-IsClosed s (heartbeat k) rest other h = ground arith
step-IsClosed s (message k not_json) rest other h = (h, refl)
step-IsClosed s (message k unrelated) rest other h = (h, refl)
step-IsClosed s (message k (answer none)) rest other h = (h, refl)
step-IsClosed s (message k (answer (some n))) rest other h = ground arith
step-IsClosed s (message k (notification n none)) rest other h = (h, refl)
step-IsClosed s (message k (notification n (some (v, slot)))) rest other h = ground arith
step-IsClosed s (lost k) rest other h = ground arith

closed_opens_none :
    (s : Stream) (inputs : List Input)
    → All (λ i. is_subscribe i ≡ false) inputs
    → IsClosed s
    → opens_none (outputs s inputs) ≡ true
unfolding outputs opens_none
closed_opens_none s [] other h = refl
closed_opens_none s (i ∷ is) (n, other) h =
    let (still, same) = step-IsClosed s i (outputs (step s i).0 is) n h in
    same ∙ closed_opens_none (step s i).0 is other still

-- Once closed, whatever the state was and whatever comes in other than a new call of `subscribe`,
-- the stream opens no socket.
pub outputs_after_close :
    (s : Stream) (inputs : List Input)
    → All (λ i. is_subscribe i ≡ false) inputs
    → opens_none (outputs (step s close).0 inputs) ≡ true
unfolding step close_stream
outputs_after_close s inputs other = closed_opens_none (step s close).0 inputs other (refl, refl)
