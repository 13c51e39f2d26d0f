-- ===== src/Reports/Attest.antt =====
-- backend/src/reports/attestation.service.ts: `attest` and `draft`. What comes in as arguments: the
-- report that ReportsService builds of an input, how it differs from the submitted one, the
-- addresses that the program derives, the oracle's signature, the deposit that the wallet library
-- builds, and what the RPC answers to `checkOverlaps`. Of a refusal the text is left out.
pub mod Signed
pub mod Tests
use axel_sol.Prelude.{
  ℕ, String, Bool, true, false, ◌&&◌, Option, none, some, List, [], ◌∷◌, ltb, ◌==◌, if◌then◌else◌,
  str_eq, get_elem?, Text,
}
use axel_sol.Prelude.Int.{pos_part}
use axel_sol.Reports.{ReportKind, regular, final}
use axel_sol.Reports.Report.{CombinedOrigin, ReportInput, RevenueReport}
use axel_sol.Reports.Store.{
  Store, StoredReport, Attestation, DepositDraft, save_attested, save_draft,
}
use axel_sol.Reports.Overlaps.{
  RevenuePeriod, SignatureStatus, CosignTarget, Conflict, check_overlaps,
}
use axel_sol.Reports.Deposit.{
  Refusal, not_the_oracle, not_operating, other_project, other_operator, nothing_to_distribute,
  params_mismatch, no_oracle_key, bad_request, no_config, draft_exists, differs, conflicts, Result,
  ok, refused, ◌>>=◌, ◌>>◌, require, or_crash, Transaction, DepositRevenueParams, Decoded,
  DepositRequest, find_index, read_deposit,
}

-- What the service reads of the project's account.
pub record ProjectAccount : Type 0 where
  pub oracle : String
  pub operator : String
  pub is_operating : Bool
  pub period_count : ℕ

pub record BuiltReport : Type 0 where
  pub mint_address : String
  pub project : ProjectAccount
  pub report : RevenueReport
  pub canonical : Text
  pub report_hash : String

unfoldable pub deposit_params : BuiltReport → DepositRevenueParams
deposit_params built = record {
  gross = built.report.gross;
  period_start = built.report.period_start;
  period_end = built.report.period_end;
  report_hash = built.report_hash;
  kind = built.report.kind;
}

unfoldable pub refuse_differences : List String → Result (Unit {0})
refuse_differences [] = ok tt
refuse_differences (m ∷ mismatches) = refused (differs (m ∷ mismatches))

unfoldable pub check_attestable : BuiltReport → String → Result (Unit {0})
check_attestable built oracle = do
  require (str_eq built.project.oracle oracle) not_the_oracle
  require built.project.is_operating not_operating

unfoldable pub check_distributable : BuiltReport → Result (Unit {0})
check_distributable built =
    require (ltb 0 (pos_part built.report.distributable)) nothing_to_distribute

unfoldable pub stored_report : BuiltReport → StoredReport
stored_report built = record {
  report_hash = built.report_hash;
  mint = built.mint_address;
  kind = built.report.kind;
  period_start = built.report.period_start;
  period_end = built.report.period_end;
  gross = built.report.gross;
  data_origin = built.report.data_origin;
  canonical = built.canonical;
}

abbrev pub same_kind : ReportKind → ReportKind → Bool
same_kind regular regular = true
same_kind final final = true
same_kind _ _ = false

unfoldable pub check_params : DepositRevenueParams → BuiltReport → Result (Unit {0})
unfolding deposit_params check_distributable
check_params params built = do
  let expected = deposit_params built
  check_distributable built
  require
      (params.gross == expected.gross
        && params.period_start == expected.period_start
        && params.period_end == expected.period_end
        && str_eq params.report_hash expected.report_hash
        && same_kind params.kind expected.kind)
      params_mismatch

abbrev pub no_conflict : Option Conflict → Result (Unit {0})
no_conflict none = ok tt
no_conflict (some c) = refused (conflicts c)

pub record AttestResponse : Type 0 where
  pub report_hash : String
  pub data_origin : CombinedOrigin
  pub transaction : String
  pub signature : String

pub record DepositDraftResponse : Type 0 where
  pub report_hash : String
  pub data_origin : CombinedOrigin
  pub report : RevenueReport
  pub deposit_params : DepositRevenueParams
  pub period_index : ℕ
  pub operator : String
  pub transaction : String
  pub last_valid_block_height : ℕ

-- The request's body: the transaction where it can be decoded, and the input where it can be read.
pub record AttestBody : Type 0 where
  pub transaction : Option Transaction
  pub input : Option ReportInput

-- The deposit that `depositTransaction` builds and the oracle signs.
pub record DraftedDeposit : Type 0 where
  pub transaction : Transaction
  pub last_valid_block_height : ℕ

abbrev pub or_refuse : {A : Type 0} → Option A → Refusal → Result A
or_refuse none e = refused e
or_refuse (some a) e = ok a

-- What the service calls on its way.
pub record Outside : Type 0 where
  pub compute_budget : String
  pub program_id : String
  pub decode : Text → Option Decoded
  pub verify : (message signature : Text) (key : String) → Bool
  pub base58 : Text → String
  pub sign : Transaction → Transaction
  pub serialize : Transaction → String
  pub project_address : String → String
  pub period_address : String → ℕ → String
  pub build : ReportInput → Result BuiltReport
  pub differences : RevenueReport → List String
  pub stated_differences : RevenueReport → List String
  pub revenue_periods : String → List RevenuePeriod
  pub statuses : String → Option SignatureStatus
  pub is_blockhash_valid : String → Bool
  pub now : ℕ
  pub deposit_transaction : BuiltReport → Option DraftedDeposit

module _ (o : Outside) where
  unfoldable pub check_project : DepositRequest → BuiltReport → String → Result (Unit {0})
  unfolding check_attestable
  check_project deposit built oracle = do
    require (str_eq deposit.project (o.project_address built.mint_address)) other_project
    check_attestable built oracle
    require (str_eq deposit.operator built.project.operator) other_operator

  abbrev pub overlaps : BuiltReport → CosignTarget → Store → Option Conflict
  overlaps built target s =
      check_overlaps o.statuses o.is_blockhash_valid built.mint_address built.report.period_start
        built.report.period_end built.project.period_count
        (o.revenue_periods (o.project_address built.mint_address)) target s

  abbrev pub target_of : DepositRequest → BuiltReport → String → CosignTarget
  target_of deposit built signature = record {
    signature = some signature;
    period_index =
        if str_eq deposit.period (o.period_address deposit.project built.project.period_count)
        then some built.project.period_count
        else none;
  }

  unfoldable pub attest_deposit :
      DepositRequest → ReportInput → String → Store → Result (Store × AttestResponse)
  attest_deposit deposit input oracle s = do
    built ← o.build input
    refuse_differences (o.differences built.report)
    check_project deposit built oracle
    check_params deposit.params built
    first ← or_crash (get_elem? deposit.transaction.signatures 0)
    let signature = o.base58 first
    no_conflict (overlaps built (target_of deposit built signature) s)
    ok (
      save_attested (stored_report built)
          (record {
            deposit_signature = signature;
            report_hash = built.report_hash;
            mint = built.mint_address;
            recent_blockhash = deposit.transaction.message.recent_blockhash;
            attested_at = o.now;
          })
          s,
      record {
        report_hash = built.report_hash;
        data_origin = built.report.data_origin;
        transaction = o.serialize (o.sign deposit.transaction);
        signature = signature;
      },
    )

  -- With the key of the oracle, where one is configured.
  unfoldable pub attest :
      Option AttestBody → Option String → Store → Result (Store × AttestResponse)
  attest body oracle_key s = do
    request ← or_refuse body bad_request
    oracle ← or_refuse oracle_key no_oracle_key
    transaction ← or_refuse request.transaction bad_request
    deposit ← read_deposit o.compute_budget o.program_id o.decode o.verify transaction oracle
    input ← or_refuse request.input bad_request
    attest_deposit deposit input oracle s

  abbrev pub saved : Option Store → DepositDraftResponse → Result (Store × DepositDraftResponse)
  saved none response = refused draft_exists
  saved (some s) response = ok (s, response)

  unfoldable pub draft_deposit :
      ReportInput → String → Store → Result (Store × DepositDraftResponse)
  draft_deposit input oracle s = do
    built ← o.build input
    refuse_differences (o.stated_differences built.report)
    check_attestable built oracle
    check_distributable built
    let period_index = built.project.period_count
    no_conflict (overlaps built (record { signature = none; period_index = some period_index }) s)
    deposit ← or_refuse (o.deposit_transaction built) no_config
    let transaction = deposit.transaction
    oracle_index ← or_crash (find_index oracle transaction.message.static_account_keys)
    oracle_signature ← or_crash (get_elem? transaction.signatures oracle_index)
    saved
        (save_draft (stored_report built)
          (record {
            oracle_signature = o.base58 oracle_signature;
            report_hash = built.report_hash;
            mint = built.mint_address;
            operator = built.project.operator;
            period_index = period_index;
            recent_blockhash = transaction.message.recent_blockhash;
            drafted_at = o.now;
          })
          s)
        (record {
          report_hash = built.report_hash;
          data_origin = built.report.data_origin;
          report = built.report;
          deposit_params = deposit_params built;
          period_index = period_index;
          operator = built.project.operator;
          transaction = o.serialize transaction;
          last_valid_block_height = deposit.last_valid_block_height;
        })

  unfoldable pub draft :
      Option ReportInput → Option String → Store → Result (Store × DepositDraftResponse)
  draft parsed oracle_key s = do
    oracle ← or_refuse oracle_key no_oracle_key
    input ← or_refuse parsed bad_request
    draft_deposit input oracle s
