-- ===== src/Indexer/Feed.antt =====
-- backend/src/indexer/indexer.service.ts: `onLogs`, `checkChain` and `newSignatures`, with what the
-- RPC and the subscription give. What the RPC answers comes in as an argument.
use mathlib.Core.List.{reverse}
use axel_sol.Prelude.{
  ℕ, zero, suc, String, Bool, true, false, not, ◌||◌, Option, none, some, List, [], ◌∷◌, ◌++◌,
  length, ltb, leb, if◌then◌else◌, str_eq, select, drop, Text,
}
use axel_sol.Indexer.Store.{Tables, set_state, is_indexed}

-- An entry of `getSignaturesForAddress`; of the error only whether there is one.
pub record SignatureInfo : Type 0 where
  pub signature : String
  pub slot : ℕ
  pub block_time : Option ℕ
  pub failed : Bool

-- What `getTransaction` does: it throws, has no transaction or no meta, a failed one, one with no
-- log messages, or one with them.
pub data TransactionAnswer : Type 0 where
  throws missing failed_on_chain without_logs : TransactionAnswer
  with_logs : (slot : ℕ) (block_time : Option ℕ) (logs : List Text) → TransactionAnswer

-- An entry of the map `notified`, with its key.
pub record Notified : Type 0 where
  pub signature : String
  pub logs : List Text
  pub received_at : ℕ

-- A call of `onLogs`.
pub record Arrival : Type 0 where
  pub entry : Notified
  pub failed : Bool
  pub stopped : Bool

pub record Indexer : Type 0 where
  pub tables : Tables
  pub notified : List Notified

abbrev pub page_size : ℕ
page_size = 1_000

abbrev pub notified_ttl_ms : ℕ
notified_ttl_ms = 120_000

abbrev pub max_notified : ℕ
max_notified = 1_000

abbrev pub is_entry : String → Notified → Bool
is_entry signature n = str_eq n.signature signature

-- `Map.delete` and `Map.set`.
unfoldable pub forget : String → List Notified → List Notified
forget signature entries = select (λ n. not (is_entry signature n)) entries

unfoldable pub put : Notified → List Notified → List Notified
put n [] = n ∷ []
put n (m ∷ entries) = elim (is_entry n.signature m) [
  | true ↦ n ∷ entries
  | false ↦ m ∷ put n entries
]

-- With whether a sync is requested.
unfoldable pub on_logs : Arrival → Indexer → Indexer × Bool
on_logs a s =
    if a.stopped || a.failed || is_indexed a.entry.signature s.tables then (s, false) else (
      record s {
        notified =
            put a.entry
              (if leb max_notified (length s.notified) then drop 1 s.notified else s.notified);
      },
      true,
    )

unfoldable pub all_logs : List Arrival → Indexer → Indexer
all_logs [] s = s
all_logs (a ∷ arrivals) s = all_logs arrivals (on_logs a s).0

-- `checkChain`; `none` stands for an RPC that throws.
pub data GenesisCheck : Type 0 where
  chain_ok chain_unknown chain_mismatch : GenesisCheck

abbrev pub opt_eq : Option String → String → Bool
opt_eq none s = false
opt_eq (some t) s = str_eq t s

abbrev pub compared : Bool → GenesisCheck
compared differs = if differs then chain_mismatch else chain_ok

abbrev pub checked_against :
    Option String → Option String → String → String → Tables → Tables × GenesisCheck
checked_against none none genesis program s =
    (set_state "program_id" program (set_state "genesis_hash" genesis s), chain_ok)
checked_against stored_genesis stored_program genesis program s =
    (s, compared (not (opt_eq stored_genesis genesis) || not (opt_eq stored_program program)))

abbrev pub check_answer : Option String → String → Tables → Tables × GenesisCheck
check_answer none program s = (s, chain_unknown)
check_answer (some genesis) program s =
    checked_against (s.indexer_state "genesis_hash") (s.indexer_state "program_id") genesis program
      s

unfoldable pub check_chain : Option String → String → Tables → Tables × GenesisCheck
check_chain genesis program s = check_answer genesis program s

-- `newSignatures`: the RPC throws, the fuel runs out, or all pages are there.
pub data Fetch : Type 0 where
  rpc_failed out_of_fuel : Fetch
  fetched : List SignatureInfo → Fetch

abbrev pub last_signature : List SignatureInfo → Option String
last_signature [] = none
last_signature (x ∷ []) = some x.signature
last_signature (x ∷ y ∷ rest) = last_signature (y ∷ rest)

abbrev pub Pages : Type 0
Pages = (before until : Option String) → Option (List SignatureInfo)

unfoldable pub new_signatures :
    ℕ → Pages → (until before : Option String) → List SignatureInfo → Fetch
new_signatures zero pages until before newest_first = out_of_fuel
new_signatures (suc fuel) pages until before newest_first = elim (pages before until) [
  | none ↦ rpc_failed
  | some page ↦
      let rest = new_signatures fuel pages until (last_signature page) (newest_first ++ page) in
      if ltb (length page) page_size then fetched (reverse (newest_first ++ page)) else rest
]
