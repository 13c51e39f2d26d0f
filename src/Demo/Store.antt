-- ===== src/Demo/Store.antt =====
-- frontend/src/lib/demo/server/store.ts: `MemoryStore`, with the clock's milliseconds as an argument.
pub mod Lasting
use axel_sol.Prelude.{
  ℕ, ◌+◌, ◌-◌, ◌*◌, ◌/◌, Bool, true, false, Option, none, some, leb, if◌then◌else◌,
}
use axel_sol.Prelude.Int.{ℤ, pos, negsuc, ◌+ℤ◌, ◌-ℤ◌}
use axel_sol.Demo.{Key, same_key}

pub record Entry : Type 0 where
  pub value : ℤ
  pub expires_at : Option ℕ

abbrev pub Entries : Type 0
Entries = Key → Option Entry

-- The entries with one key set or deleted.
abbrev pub put : Key → Option Entry → Entries → Entries
put key e s k = if same_key k key then e else s k

abbrev pub delete : Key → Entries → Entries
delete key s = put key none s

abbrev pub is_expired : ℕ → Option ℕ → Bool
is_expired now none = false
is_expired now (some at) = leb at now

unfoldable pub live : ℕ → Key → Entries → Option Entry × Entries
live now key s = elim (s key) [
  | none ↦ (none, s)
  | some e ↦ if is_expired now e.expires_at then (none, delete key s) else (some e, s)
]

abbrev pub expiry : ℕ → Option ℕ → Option ℕ
expiry now none = none
expiry now (some ttl_seconds) = some (now + ttl_seconds * 1000)

abbrev pub or_entry : Option Entry → Entry → Entry
or_entry none e = e
or_entry (some found) e = found

abbrev pub set_found : Entry → Key → Option Entry × Entries → Bool × Entries
set_found fresh key (none, s) = (true, put key (some fresh) s)
set_found fresh key (some e, s) = (false, s)

unfoldable pub set_if_absent : ℕ → Key → Option ℕ → Entries → Bool × Entries
set_if_absent now key ttl s =
    set_found (record { value = pos 1; expires_at = expiry now ttl }) key (live now key s)

abbrev pub put_value : Key → Entry → ℤ → Entries → ℤ × Entries
put_value key e v s = (v, put key (some (record e { value = v })) s)

unfoldable pub increment : ℕ → Key → Option ℕ → Entries → ℤ × Entries
increment now key ttl s =
    let (found, kept) = live now key s in
    let e = or_entry found (record { value = pos 0; expires_at = expiry now ttl }) in
    put_value key e (e.value +ℤ pos 1) kept

unfoldable pub decrement : ℕ → Key → Entries → ℤ × Entries
decrement now key s =
    let (found, kept) = live now key s in
    let e = or_entry found (record { value = pos 0; expires_at = none }) in
    put_value key e (e.value -ℤ pos 1) kept

unfoldable pub count : ℕ → Key → Entries → ℤ × Entries
count now key s =
    let (found, kept) = live now key s in
    ((or_entry found (record { value = pos 0; expires_at = none })).value, kept)
