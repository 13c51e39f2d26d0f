-- ===== src/Demo/Access.antt =====
-- frontend/src/lib/demo/server: `reserveAccess` and `hasAccess` of limits.ts in the order in which
-- `handleAccess` of handlers.ts calls them, for requests that run at once. A request waits at each
-- call of the store, so an event lets one request make its next call, at a time of the clock. What
-- comes of the transaction is part of the event.
pub mod Counted
pub mod Calls
pub mod Runs
mod Tests
use axel_sol.Prelude.{
  ℕ, zero, suc, ◌*◌, String, Bool, true, false, Option, none, some, List, [], ◌∷◌, get_elem?,
  if◌then◌else◌,
}
use axel_sol.Prelude.Int.{ℤ, pos, lt_ℤ}
use axel_sol.Demo.{day_seconds, utc_day, Key, access_wallet, access_ip, access_granted}
use axel_sol.Demo.Store.{Entries, set_if_absent, increment, decrement, count, delete}

abbrev pub access_per_ip_per_day : ℕ
access_per_ip_per_day = 3

abbrev pub access_cap : ℕ
access_cap = 80

pub data DemoError : Type 0 where
  in_progress ip_limit cap_reached transaction_failed : DemoError

-- Where a request stands: the call that it makes next, or how it ended. `arrived` is before
-- `hasAccess`, `reserved` is while the transaction is sent and `failing` the release.
pub data Phase : Type 0 where
  arrived asking marked over_ip passed_ip over_cap uncounted : Phase
  reserved failing released : Phase
  granted already_granted : Phase
  refused : DemoError → Phase

pub record AccessRequest : Type 0 where
  pub wallet : String
  pub ip : String
  pub now : ℕ
  pub phase : Phase

abbrev pub chosen : Bool → Phase → Phase → Phase
chosen b p q = if b then p else q

abbrev pub after_count : ℤ × Entries → Entries × Phase
after_count (n, s) = (s, chosen (lt_ℤ (pos 0) n) already_granted asking)

abbrev pub after_set : Bool × Entries → Entries × Phase
after_set (is_set, s) = (s, chosen is_set marked (refused in_progress))

abbrev pub after_ip : ℤ × Entries → Entries × Phase
after_ip (per_ip, s) = (s, chosen (lt_ℤ (pos access_per_ip_per_day) per_ip) over_ip passed_ip)

abbrev pub after_granted : ℤ × Entries → Entries × Phase
after_granted (n, s) = (s, chosen (lt_ℤ (pos access_cap) n) over_cap reserved)

-- The next call of a request, at the clock's `ms`. `landed` is whether the transaction went through.
unfoldable pub next_call :
    (ms : ℕ) (landed : Bool) (wallet ip : String) (now : ℕ) → Phase → Entries → Entries × Phase
unfolding utc_day
next_call ms landed wallet ip now arrived s = after_count (count ms (access_wallet wallet) s)
next_call ms landed wallet ip now asking s =
    after_set (set_if_absent ms (access_wallet wallet) none s)
next_call ms landed wallet ip now marked s =
    after_ip (increment ms (access_ip ip (utc_day now)) (some (2 * day_seconds)) s)
next_call ms landed wallet ip now over_ip s = (delete (access_wallet wallet) s, refused ip_limit)
next_call ms landed wallet ip now passed_ip s = after_granted (increment ms access_granted none s)
next_call ms landed wallet ip now over_cap s = ((decrement ms access_granted s).1, uncounted)
next_call ms landed wallet ip now uncounted s =
    (delete (access_wallet wallet) s, refused cap_reached)
next_call ms landed wallet ip now reserved s = (s, chosen landed granted failing)
next_call ms landed wallet ip now failing s = ((decrement ms access_granted s).1, released)
next_call ms landed wallet ip now released s =
    (delete (access_wallet wallet) s, refused transaction_failed)
next_call ms landed wallet ip now granted s = (s, granted)
next_call ms landed wallet ip now already_granted s = (s, already_granted)
next_call ms landed wallet ip now (refused e) s = (s, refused e)

pub record Turn : Type 0 where
  pub request : ℕ
  pub ms : ℕ
  pub landed : Bool

pub record World : Type 0 where
  pub entries : Entries
  pub requests : List AccessRequest

abbrev pub replace : {A : Type 0} → ℕ → A → List A → List A
replace i a [] = []
replace zero a (x ∷ xs) = a ∷ xs
replace (suc i) a (x ∷ xs) = x ∷ replace i a xs

abbrev pub moved : ℕ → AccessRequest → List AccessRequest → Entries × Phase → World
moved i r requests (s, phase) = record {
  entries = s;
  requests = replace i (record r { phase = phase }) requests;
}

unfoldable pub take_turn : Turn → World → World
take_turn t w = elim (get_elem? w.requests t.request) [
  | none ↦ w
  | some r ↦
      moved t.request r w.requests (next_call t.ms t.landed r.wallet r.ip r.now r.phase w.entries)
]

unfoldable pub run : List Turn → World → World
run [] w = w
run (t ∷ ts) w = run ts (take_turn t w)
