-- ===== src/Indexer/Stream.antt =====
-- backend/src/indexer/log-stream.ts: `WebSocketLogStream` as a state machine. What the socket, the
-- timers and the caller do comes in as inputs, and what the stream does to them goes out.
-- `subscribe` is called once. Sockets are numbered in the order in which they are opened. The delay
-- of a reconnect is left to the timer.
pub mod Reconnect
mod Tests
use axel_sol.Prelude.{
  ℕ, suc, ◌+◌, String, Bool, true, false, not, ◌&&◌, Option, none, some, List, [], ◌∷◌, ◌++◌, map,
  ◌==◌, if◌then◌else◌, select,
}

-- A message of the RPC: not JSON, the answer to the request with its `result` where that is a
-- number, a `logsNotification` with what it has of a subscription and of logs with their slot, or
-- any other.
pub data Message : Type 0 where
  not_json unrelated : Message
  answer : (result : Option ℕ) → Message
  notification : (subscription : Option ℕ) (result : Option (String × ℕ)) → Message

pub data Input : Type 0 where
  subscribe close timer_fires : Input
  opened pong heartbeat lost : (socket : ℕ) → Input
  message : (socket : ℕ) → Message → Input

pub data Output : Type 0 where
  connects sends_request pings terminates : (socket : ℕ) → Output
  on_logs : (value : String) (slot : ℕ) → Output
  on_resubscribed : Output

-- The heartbeat of an open socket.
pub record Heartbeat : Type 0 where
  pub socket : ℕ
  pub answered : Bool

pub record Stream : Type 0 where
  pub socket : Option ℕ
  pub subscription : Option ℕ
  pub subscribed_before : Bool
  pub attempts : ℕ
  pub reconnect_timer : Bool
  pub closed : Bool
  pub heartbeats : List Heartbeat
  pub next_socket : ℕ

abbrev pub initial : Stream
initial = record {
  socket = none;
  subscription = none;
  subscribed_before = false;
  attempts = 0;
  reconnect_timer = false;
  closed = false;
  heartbeats = [];
  next_socket = 0;
}

abbrev pub is_number : ℕ → Option ℕ → Bool
is_number n none = false
is_number n (some m) = m == n

unfoldable pub connect : Stream → Stream × List Output
connect s = (
  record s {
    socket = some s.next_socket;
    heartbeats = record { socket = s.next_socket; answered = true } ∷ s.heartbeats;
    next_socket = suc s.next_socket;
  },
  connects s.next_socket ∷ [],
)

abbrev pub set_answered : Bool → ℕ → Heartbeat → Heartbeat
set_answered answered socket h = if h.socket == socket then record h { answered = answered } else h

abbrev is_answered : ℕ → List Heartbeat → Option Bool
is_answered socket [] = none
is_answered socket (h ∷ hs) = if h.socket == socket then some h.answered else is_answered socket hs

-- A round of the interval, which runs as long as its socket.
abbrev pub beat : Option Bool → ℕ → Stream → Stream × List Output
beat none socket s = (s, [])
beat (some false) socket s = (s, terminates socket ∷ [])
beat (some true) socket s =
    (record s { heartbeats = map (set_answered false socket) s.heartbeats }, pings socket ∷ [])

-- `message.params.subscription === this.subscription`.
abbrev pub is_current : Option ℕ → Option ℕ → Bool
is_current none current = false
is_current (some n) current = is_number n current

unfoldable pub on_message : ℕ → Message → Stream → Stream × List Output
on_message socket not_json s = (s, [])
on_message socket unrelated s = (s, [])
on_message socket (answer none) s = (s, terminates socket ∷ [])
on_message socket (answer (some n)) s = (
  record s { subscription = some n; attempts = 0; subscribed_before = true },
  if s.subscribed_before then on_resubscribed ∷ [] else [],
)
on_message socket (notification subscription none) s = (s, [])
on_message socket (notification subscription (some (value, slot))) s =
    (s, if is_current subscription s.subscription then on_logs value slot ∷ [] else [])

abbrev pub forget_socket : ℕ → Stream → Stream
forget_socket socket s =
    if is_number socket s.socket then record s { socket = none; subscription = none } else s

abbrev pub retry : Stream → Stream
retry s = if s.closed then s else record s { attempts = s.attempts + 1; reconnect_timer = true }

unfoldable pub on_close : ℕ → Stream → Stream
on_close socket s = retry (forget_socket socket s)

abbrev pub terminate_open : Option ℕ → List Output
terminate_open none = []
terminate_open (some socket) = terminates socket ∷ []

unfoldable pub close_stream : Stream → Stream × List Output
close_stream s = (record s { closed = true; reconnect_timer = false }, terminate_open s.socket)

unfoldable pub step : Stream → Input → Stream × List Output
step s subscribe = connect s
step s close = close_stream s
step s timer_fires =
    if s.reconnect_timer then connect (record s { reconnect_timer = false }) else (s, [])
step s (opened socket) = (s, sends_request socket ∷ [])
step s (pong socket) = (record s { heartbeats = map (set_answered true socket) s.heartbeats }, [])
step s (heartbeat socket) = beat (is_answered socket s.heartbeats) socket s
step s (message socket m) = on_message socket m s
step s (lost socket) = (
  on_close socket (record s { heartbeats = select (λ h. not (h.socket == socket)) s.heartbeats }),
  [],
)

unfoldable pub run : Stream → List Input → Stream
run s [] = s
run s (i ∷ is) = run (step s i).0 is

unfoldable pub outputs : Stream → List Input → List Output
outputs s [] = []
outputs s (i ∷ is) = (step s i).1 ++ outputs (step s i).0 is
