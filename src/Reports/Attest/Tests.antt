-- ===== src/Reports/Attest/Tests.antt =====
-- The theorems on the attestation, at a deposit of one day's revenue.
use axel_sol.Prelude.{◌≡◌, refl, true, false, none, some, [], ◌∷◌, replicate, select, str_eq}
use axel_sol.Prelude.Int.{pos}
use axel_sol.Telemetry.{simulated}
use axel_sol.Reports.{regular}
use axel_sol.Reports.Report.{one_origin, RevenueReport, ReportInput}
use axel_sol.Reports.Store.{Store, conflicting_attestations}
use axel_sol.Reports.Overlaps.{check_overlaps, check_drafts}
use axel_sol.Reports.Deposit.{
  Message, Transaction, deposit_revenue, ok, find_index, deposit_of, deposits, check_signatures,
  read_deposit,
}
use axel_sol.Reports.Attest.{
  BuiltReport, AttestBody, AttestResponse, Outside, refuse_differences, check_params, check_project,
  attest_deposit, attest,
}
use axel_sol.Reports.Attest.Signed.{IsVouched, attest-IsVouched}

abbrev report : RevenueReport
report = record {
  mint = "car";
  project = "proj";
  kind = regular;
  period_start = 20260901;
  period_end = 20260901;
  period_days = 1;
  data_origin = one_origin simulated;
  income = record { rent = 900; days_active = 1; trips = 2; km = 30 };
  park_fee_bps = 0;
  park_fee = 0;
  maintenance = [];
  insurance = [];
  car_sale = none;
  total_maintenance = 0;
  total_insurance = 0;
  distributable = pos 900;
  payment_mint = "kzt";
  decimals = 0;
  gross = 900;
  telemetry = record {
    first_position = 1;
    last_position = 1;
    head_before = [];
    head_after = [];
    days = [];
  };
}

abbrev built : BuiltReport
built = record {
  mint_address = "car";
  project = record {
    oracle = "oracle";
    operator = "operator";
    is_operating = true;
    period_count = 3;
  };
  report = report;
  canonical = [];
  report_hash = "hash";
}

abbrev message : Message
message = record {
  address_table_lookups = 0;
  static_account_keys =
      "operator" ∷ "oracle" ∷ "budget" ∷ "axel" ∷ "proj" ∷ "period3" ∷ "other" ∷ [];
  num_required_signatures = 2;
  is_account_writable = λ i. false;
  compiled_instructions =
      record { program_id_index = 2; account_key_indexes = []; instruction_data = [] }
      ∷ record {
        program_id_index = 3;
        account_key_indexes = 0 ∷ 1 ∷ 6 ∷ 4 ∷ 5 ∷ replicate 8 6;
        instruction_data = b'D' ∷ [];
      }
      ∷ [];
  recent_blockhash = "block";
  serialized = [];
}

abbrev deposit : Transaction
deposit = record { message = message; signatures = (b'S' ∷ []) ∷ [] ∷ [] }

abbrev input : ReportInput
input = record {
  mint = "car";
  kind = regular;
  period_start = 20260901;
  period_end = 20260901;
  maintenance = [];
  insurance = [];
  car_sale = none;
}

abbrev pub outside : Outside
outside = record {
  compute_budget = "budget";
  program_id = "axel";
  decode = λ data_bytes. some (
      deposit_revenue (record {
        gross = 900;
        period_start = 20260901;
        period_end = 20260901;
        report_hash = "hash";
        kind = regular;
      }));
  verify = λ m signature key. str_eq key "operator";
  base58 = λ signature. "sig";
  sign = λ t. t;
  serialize = λ t. "AQAB";
  project_address = λ mint. "proj";
  period_address = λ project n. "period3";
  build = λ i. ok built;
  differences = λ r. [];
  stated_differences = λ r. [];
  revenue_periods = λ project. [];
  statuses = λ s. none;
  is_blockhash_valid = λ b. true;
  now = 7;
  deposit_transaction = λ b. none;
}

abbrev pub empty : Store
empty = record { revenue_reports = []; report_attestations = []; deposit_drafts = [] }

abbrev pub body : AttestBody
body = record { transaction = some deposit; input = some input }

signs : (r : Store × AttestResponse) × (attest outside (some body) (some "oracle") empty ≡ ok r)
unfolding attest attest_deposit read_deposit find_index deposits deposit_of check_signatures
    refuse_differences check_project check_params check_overlaps check_drafts
    conflicting_attestations select
signs = (_, refl)

attest-IsVouched_example : IsVouched outside body "oracle" empty signs.0.0 signs.0.1
attest-IsVouched_example = attest-IsVouched outside body "oracle" empty signs.0.0 signs.0.1 signs.1
