-- ===== src/Reports/Deposit.antt =====
-- backend/src/reports/attestation.service.ts: `readDeposit`, `checkProject` and `checkParams`. The
-- message of the transaction is what the wallet library decodes. Its check of a signature and the
-- coder of the program's instructions come in as arguments.
pub mod Shape
pub mod Read
use axel_sol.Prelude.{
  ℕ, zero, suc, ◌+◌, String, Bool, true, false, not, ◌&&◌, ◌||◌, Option, none, some, List, [], ◌∷◌,
  ◌++◌, length, get_elem?, ltb, leb, ◌==◌, if◌then◌else◌, str_eq, Text,
}
use axel_sol.Reports.{ReportKind, regular, final}
use axel_sol.Reports.Overlaps.{Conflict}

-- Why a deposit is not signed. `crashes` is an index that the code reads past the end of a list.
pub data Refusal : Type 0 where
  lookup_tables oracle_pays oracle_not_asked oracle_writable only_deposit other_oracle : Refusal
  operator_not_signer crashes other_project not_the_oracle not_operating other_operator : Refusal
  not_in_fleet no_project chain_diverged chain_error report_refused : Refusal
  nothing_to_distribute params_mismatch no_oracle_key bad_request no_config draft_exists : Refusal
  not_signed : (key : String) → Refusal
  missing_days : List ℕ → Refusal
  differs : List String → Refusal
  conflicts : Conflict → Refusal

pub data Result (A : Type 0) : Type 0 where
  ok : A → Result A
  refused : Refusal → Result A

infixl 5 ◌>>=◌ ◌>>◌
abbrev pub ◌>>=◌ : {A B : Type 0} → Result A → (A → Result B) → Result B
ok a >>= f = f a
refused e >>= f = refused e

abbrev pub ◌>>◌ : {B : Type 0} → Result (Unit {0}) → Result B → Result B
m >> k = m >>= λ _. k

abbrev pub require : Bool → Refusal → Result (Unit {0})
require true e = ok tt
require false e = refused e

abbrev pub or_crash : {A : Type 0} → Option A → Result A
or_crash none = refused crashes
or_crash (some a) = ok a

pub record Instruction : Type 0 where
  pub program_id_index : ℕ
  pub account_key_indexes : List ℕ
  pub instruction_data : Text

pub record Message : Type 0 where
  pub address_table_lookups : ℕ
  pub static_account_keys : List String
  pub num_required_signatures : ℕ
  pub is_account_writable : ℕ → Bool
  pub compiled_instructions : List Instruction
  pub recent_blockhash : String
  pub serialized : Text

pub record Transaction : Type 0 where
  pub message : Message
  pub signatures : List Text

pub record DepositRevenueParams : Type 0 where
  pub gross : ℕ
  pub period_start : ℕ
  pub period_end : ℕ
  pub report_hash : String
  pub kind : ReportKind

-- What the coder reads in the data of an instruction of the program.
pub data Decoded : Type 0 where
  deposit_revenue : DepositRevenueParams → Decoded
  other_instruction : Decoded

pub record DepositRequest : Type 0 where
  pub transaction : Transaction
  pub operator : String
  pub project : String
  pub period : String
  pub params : DepositRevenueParams

-- The accounts of `deposit_revenue` in the IDL, by their place.
abbrev pub deposit_accounts : ℕ
deposit_accounts = 13

abbrev pub operator_account : ℕ
operator_account = 0

abbrev pub oracle_account : ℕ
oracle_account = 1

abbrev pub project_account : ℕ
project_account = 3

abbrev pub period_account : ℕ
period_account = 4

-- `keys.findIndex`.
unfoldable pub find_index : String → List String → Option ℕ
find_index key [] = none
find_index key (k ∷ keys) = elim (str_eq k key) [
  | true ↦ some 0
  | false ↦ elim (find_index key keys) [ none ↦ none | some i ↦ some (suc i) ]
]

pub record Found : Type 0 where
  pub instruction : Instruction
  pub params : DepositRevenueParams

abbrev pub key_at : List String → List ℕ → ℕ → Result String
key_at keys indexes place = do i ← or_crash (get_elem? indexes place); or_crash (get_elem? keys i)

abbrev pub sole : List Found → Result Found
sole [] = refused only_deposit
sole (found ∷ []) =
    if length found.instruction.account_key_indexes == deposit_accounts
    then ok found
    else refused only_deposit
sole (found ∷ another ∷ rest) = refused only_deposit

module _ (compute_budget program_id : String) (decode : Text → Option Decoded) where
  abbrev pub as_deposit : Instruction → Option Decoded → Result (List Found)
  as_deposit i (some (deposit_revenue params)) =
      ok (record { instruction = i; params = params } ∷ [])
  as_deposit i (some other_instruction) = refused only_deposit
  as_deposit i none = refused only_deposit

  abbrev pub classified : String → Instruction → Result (List Found)
  classified program i =
      if str_eq program compute_budget
      then ok []
      else as_deposit i (if str_eq program program_id then decode i.instruction_data else none)

  -- What `flatMap` makes of an instruction.
  unfoldable pub deposit_of : List String → Instruction → Result (List Found)
  deposit_of keys i = do
    program ← or_crash (get_elem? keys i.program_id_index)
    classified program i

  unfoldable pub deposits : List String → List Instruction → Result (List Found)
  deposits keys [] = ok []
  deposits keys (i ∷ is) = do found ← deposit_of keys i; rest ← deposits keys is; ok (found ++ rest)

module _ (verify : (message signature : Text) (key : String) → Bool) where
  abbrev pub is_signed : Text → String → Option Text → Bool
  is_signed bytes key none = false
  is_signed bytes key (some signature) = verify bytes signature key

  -- The loop over the signers from `index` on, of whom `count` are left.
  unfoldable pub check_signatures : (count index oracle_index : ℕ) → Transaction → Result (Unit {0})
  check_signatures zero index oracle_index t = ok tt
  check_signatures (suc count) index oracle_index t =
      let rest = check_signatures count (suc index) oracle_index t in
      if index == oracle_index then rest else do
        key ← or_crash (get_elem? t.message.static_account_keys index)
        require (is_signed t.message.serialized key (get_elem? t.signatures index)) (not_signed key)
        rest

abbrev pub index_below : ℕ → Option ℕ → Result ℕ
index_below signers none = refused oracle_not_asked
index_below signers (some i) =
    if i == 0 then refused oracle_pays else if ltb i signers then ok i else refused oracle_not_asked

module _ (compute_budget program_id : String) (decode : Text → Option Decoded)
    (verify : (message signature : Text) (key : String) → Bool) where
  unfoldable pub read_deposit : Transaction → (oracle : String) → Result DepositRequest
  read_deposit t oracle = do
    let message = t.message
    let keys = message.static_account_keys
    let signers = message.num_required_signatures
    require (message.address_table_lookups == 0) lookup_tables
    oracle_index ← index_below signers (find_index oracle keys)
    require (not (message.is_account_writable oracle_index)) oracle_writable
    all ← deposits compute_budget program_id decode keys message.compiled_instructions
    found ← sole all
    let indexes = found.instruction.account_key_indexes
    named ← key_at keys indexes oracle_account
    require (str_eq named oracle) other_oracle
    operator_index ← or_crash (get_elem? indexes operator_account)
    require (ltb operator_index signers) operator_not_signer
    check_signatures verify signers 0 oracle_index t
    operator ← key_at keys indexes operator_account
    project ← key_at keys indexes project_account
    period ← key_at keys indexes period_account
    ok (record {
      transaction = t;
      operator = operator;
      project = project;
      period = period;
      params = found.params;
    })
