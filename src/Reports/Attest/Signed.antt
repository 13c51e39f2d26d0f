-- ===== src/Reports/Attest/Signed.antt =====
-- What `attest` of backend/src/reports/attestation.service.ts signs and what it records.
use axel_sol.Prelude.{
  ◌<◌, ◌≡◌, refl, sym, ap, ◌∙◌, arith, String, Bool, true, false, Option, none, some, List, [], ◌∷◌,
  get_elem?, ltb, ltb→lt, str_eq, eq_iff, Text,
}
use axel_sol.Prelude.Int.{pos_part}
use axel_sol.Reports.{ReportKind, regular, final}
use axel_sol.Reports.Report.{ReportInput}
use axel_sol.Reports.Store.{Store, save_attested}
use axel_sol.Reports.Overlaps.{Conflict}
use axel_sol.Reports.Deposit.{
  Refusal, not_the_oracle, not_operating, other_project, other_operator, nothing_to_distribute,
  params_mismatch, bad_request, ok, require, or_crash, Transaction, DepositRevenueParams,
  DepositRequest, read_deposit,
}
use axel_sol.Reports.Deposit.Shape.{passes, ok-injective, require-eq-ok, or_crash-eq-ok}
use axel_sol.Reports.Deposit.Read.{IsDeposit, read_deposit-IsDeposit}
use axel_sol.Reports.Attest.{
  BuiltReport, deposit_params, refuse_differences, check_attestable, stored_report, same_kind,
  check_params, no_conflict, AttestResponse, AttestBody, or_refuse, Outside, check_project,
  overlaps, target_of, attest_deposit, attest,
}

pub or_refuse-eq-ok :
    {A : Type 0} (o : Option A) (e : Refusal) {a : A} → or_refuse o e ≡ ok a → o ≡ some a
or_refuse-eq-ok none e h = cc
or_refuse-eq-ok (some x) e h = cc

refuse_differences-eq-ok : (m : List String) {u : Unit {0}} → refuse_differences m ≡ ok u → m ≡ []
unfolding refuse_differences
refuse_differences-eq-ok [] h = refl
refuse_differences-eq-ok (x ∷ m) h = cc

no_conflict-eq-ok : (o : Option Conflict) {u : Unit {0}} → no_conflict o ≡ ok u → o ≡ none
no_conflict-eq-ok none h = refl
no_conflict-eq-ok (some c) h = cc

require_last : (b : Bool) (e : Refusal) {u : Unit {0}} → require b e ≡ ok u → b ≡ true
require_last true e h = refl
require_last false e h = cc

same_kind-eq : (a b : ReportKind) → same_kind a b ≡ true → a ≡ b
same_kind-eq regular regular h = refl
same_kind-eq regular final h = cc
same_kind-eq final regular h = cc
same_kind-eq final final h = refl

check_attestable-eq-ok :
    (built : BuiltReport) (oracle : String) {u : Unit {0}}
    → check_attestable built oracle ≡ ok u
    → (built.project.oracle ≡ oracle) × (built.project.is_operating ≡ true)
unfolding check_attestable
check_attestable-eq-ok built oracle h =
    let (own, rest) = require-eq-ok (str_eq built.project.oracle oracle) not_the_oracle _ h in
    (
      (eq_iff built.project.oracle oracle).0 own,
      require_last built.project.is_operating not_operating rest,
    )

check_params-eq-ok :
    (params : DepositRevenueParams) (built : BuiltReport) {u : Unit {0}}
    → check_params params built ≡ ok u
    → (0 < pos_part built.report.distributable) × (params ≡ deposit_params built)
unfolding check_params deposit_params
check_params-eq-ok params built h =
    let (some_left, rest) =
      require-eq-ok (ltb 0 (pos_part built.report.distributable)) nothing_to_distribute _ h in
    let same = require_last _ params_mismatch rest in
    (
      ltb→lt 0 (pos_part built.report.distributable) some_left,
      ground (
        arith,
        eq_iff params.report_hash built.report_hash,
        same_kind-eq params.kind built.report.kind,
      ),
    )

module _ (o : Outside) where
  -- What stands behind a signature of the oracle.
  pub record IsVouched (body : AttestBody) (oracle : String) (s s' : Store) (r : AttestResponse)
      : Type 0 where
    pub transaction : Transaction
    pub input : ReportInput
    pub deposit : DepositRequest
    pub built : BuiltReport
    pub sent : body.transaction ≡ some transaction
    pub asked : body.input ≡ some input
    pub shape : IsDeposit o.compute_budget o.program_id o.decode o.verify transaction oracle deposit
    -- The report is rebuilt from the input, as it was submitted, and there is something to pay.
    pub builds : o.build input ≡ ok built
    pub no_difference : o.differences built.report ≡ []
    pub pays : 0 < pos_part built.report.distributable
    -- The deposit is for the report and for the report's project.
    pub params : deposit.params ≡ deposit_params built
    pub project : deposit.project ≡ o.project_address built.mint_address
    pub own_oracle : built.project.oracle ≡ oracle
    pub operating : built.project.is_operating ≡ true
    pub operator : deposit.operator ≡ built.project.operator
    -- No other deposit stands in the way, and this one is recorded.
    pub first_signature : Text
    pub first : get_elem? transaction.signatures 0 ≡ some first_signature
    pub free : overlaps o built (target_of o deposit built (o.base58 first_signature)) s ≡ none
    pub answer : r ≡ record {
      report_hash = built.report_hash;
      data_origin = built.report.data_origin;
      transaction = o.serialize (o.sign transaction);
      signature = o.base58 first_signature;
    }
    pub records :
        s'
        ≡ save_attested
            (stored_report built)
            (record {
              deposit_signature = o.base58 first_signature;
              report_hash = built.report_hash;
              mint = built.mint_address;
              recent_blockhash = transaction.message.recent_blockhash;
              attested_at = o.now;
            })
            s

  check_project-eq-ok :
      (deposit : DepositRequest) (built : BuiltReport) (oracle : String) {u : Unit {0}}
      → check_project o deposit built oracle ≡ ok u
      → (deposit.project ≡ o.project_address built.mint_address)
        × (built.project.oracle ≡ oracle)
        × (built.project.is_operating ≡ true)
        × (deposit.operator ≡ built.project.operator)
  unfolding check_project
  check_project-eq-ok deposit built oracle h =
      let (own, h1) =
        require-eq-ok (str_eq deposit.project (o.project_address built.mint_address)) other_project
          _ h in
      let (u, attests, h2) = passes (check_attestable built oracle) _ h1 in
      let (oracle_is, operating) = check_attestable-eq-ok built oracle attests in
      (
        (eq_iff deposit.project (o.project_address built.mint_address)).0 own,
        oracle_is,
        operating,
        (eq_iff deposit.operator built.project.operator).0 (require_last _ other_operator h2),
      )

  -- A call that signs has come to the deposit that was read of the transaction.
  attest-eq-ok :
      (body : AttestBody) (oracle : String) (s : Store) {r : Store × AttestResponse}
      → attest o (some body) (some oracle) s ≡ ok r
      → (t : Transaction) × (deposit : DepositRequest) × (input : ReportInput) × (body.transaction
          ≡ some t)
        × (read_deposit o.compute_budget o.program_id o.decode o.verify t oracle ≡ ok deposit)
        × (body.input ≡ some input)
        × (attest_deposit o deposit input oracle s ≡ ok r)
  unfolding attest
  attest-eq-ok body oracle s h =
      let (t, sent, h1) = passes (or_refuse body.transaction bad_request) _ h in
      let (deposit, reads, h2) =
        passes (read_deposit o.compute_budget o.program_id o.decode o.verify t oracle) _ h1 in
      let (input, asked, h3) = passes (or_refuse body.input bad_request) _ h2 in
      (
        t,
        deposit,
        input,
        or_refuse-eq-ok body.transaction bad_request sent,
        reads,
        or_refuse-eq-ok body.input bad_request asked,
        h3,
      )

  -- When the oracle signs a deposit, the transaction holds one deposit of the program and nothing
  -- else but compute budget instructions, the oracle only has to sign and all others have; the
  -- report is rebuilt from the input without a difference and has something to pay; the deposit's
  -- amount, period, hash and kind are the report's, its project is the car's, which operates with
  -- this oracle, and its operator the project's; no other deposit stands in the way; and just
  -- this deposit is recorded as attested and answered.
  pub attest-IsVouched :
      (body : AttestBody) (oracle : String) (s s' : Store) (r : AttestResponse)
      → attest o (some body) (some oracle) s ≡ ok (s', r)
      → IsVouched body oracle s s' r
  unfolding attest_deposit
  attest-IsVouched body oracle s s' r h =
      let (t, deposit, input, sent, reads, asked, h3) = attest-eq-ok body oracle s h in
      let (built, builds, h4) = passes (o.build input) _ h3 in
      let (u1, same, h5) = passes (refuse_differences (o.differences built.report)) _ h4 in
      let (u2, projects, h6) = passes (check_project o deposit built oracle) _ h5 in
      let (u3, matches, h7) = passes (check_params deposit.params built) _ h6 in
      let (first, at, h8) = passes (or_crash (get_elem? deposit.transaction.signatures 0)) _ h7 in
      let (u4, free, h9) =
        passes (no_conflict (overlaps o built (target_of o deposit built (o.base58 first)) s)) _
          h8 in
      let shape =
        read_deposit-IsDeposit o.compute_budget o.program_id o.decode o.verify t oracle deposit
          reads in
      let (project, own_oracle, operating, operator) =
        check_project-eq-ok deposit built oracle projects in
      let (pays, params) = check_params-eq-ok deposit.params built matches in
      let ends = ok-injective h9 in
      record {
        transaction = t;
        input = input;
        deposit = deposit;
        built = built;
        sent = sent;
        asked = asked;
        shape = shape;
        builds = builds;
        no_difference = refuse_differences-eq-ok _ same;
        pays = pays;
        params = params;
        project = project;
        own_oracle = own_oracle;
        operating = operating;
        operator = operator;
        first_signature = first;
        first =
            sym (ap (λ (x : Transaction). get_elem? x.signatures 0) shape.own)
            ∙ or_crash-eq-ok _ at;
        free = no_conflict-eq-ok _ free;
        answer =
            sym (ap (λ (p : Store × AttestResponse). p.1) ends)
            ∙ ap
                (λ (x : Transaction). record {
                  report_hash = built.report_hash;
                  data_origin = built.report.data_origin;
                  transaction = o.serialize (o.sign x);
                  signature = o.base58 first;
                })
                shape.own;
        records =
            sym (ap (λ (p : Store × AttestResponse). p.0) ends)
            ∙ ap
                (λ (x : Transaction).
                  save_attested (stored_report built)
                    (record {
                      deposit_signature = o.base58 first;
                      report_hash = built.report_hash;
                      mint = built.mint_address;
                      recent_blockhash = x.message.recent_blockhash;
                      attested_at = o.now;
                    })
                    s)
                shape.own;
      }
