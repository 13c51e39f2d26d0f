-- ===== src/Reports/Deposit/Read.antt =====
-- What `readDeposit` of backend/src/reports/attestation.service.ts makes sure of.
use axel_sol.Prelude.{
  ℕ, ◌<◌, ◌≡◌, ◌≢◌, refl, sym, ap, ◌∙◌, arith, String, Bool, true, false, not, Option, some, List,
  get_elem?, ltb, ltb→lt, ◌==◌, ==_iff, str_eq, eq_iff, Text,
}
use axel_sol.Reports.Deposit.{
  lookup_tables, oracle_writable, other_oracle, operator_not_signer, ok, ◌>>=◌, or_crash,
  Transaction, Decoded, DepositRequest, operator_account, oracle_account, project_account,
  period_account, find_index, Found, key_at, sole, deposits, check_signatures, index_below,
  read_deposit,
}
use axel_sol.Reports.Deposit.Shape.{
  passes, ok-injective, require-eq-ok, or_crash-eq-ok, find_index-get, index_below-eq-ok,
  sole-eq-ok, IsOnly, deposits-IsOnly, HasSigned, check_signatures-HasSigned,
}

not-true : (b : Bool) → not b ≡ true → b ≡ false
not-true true h = ground arith
not-true false h = refl

key_at-eq-ok :
    (keys : List String) (indexes : List ℕ) (place i : ℕ) {key : String}
    → get_elem? indexes place ≡ some i
    → key_at keys indexes place ≡ ok key
    → get_elem? keys i ≡ some key
key_at-eq-ok keys indexes place i {key} at h =
    or_crash-eq-ok (get_elem? keys i)
      (sym (ap (λ o. or_crash o >>= λ (j : ℕ). or_crash (get_elem? keys j)) at) ∙ h)

module _ (compute_budget program_id : String) (decode : Text → Option Decoded)
    (verify : (message signature : Text) (key : String) → Bool) where
  -- The transaction holds a deposit for the oracle's signature, and the request is read from it.
  pub record IsDeposit (t : Transaction) (oracle : String) (d : DepositRequest) : Type 0 where
    pub own : d.transaction ≡ t
    pub no_lookups : t.message.address_table_lookups ≡ 0
    -- The oracle has to sign, and neither pays nor can be written to.
    pub oracle_index : ℕ
    pub oracle_at : get_elem? t.message.static_account_keys oracle_index ≡ some oracle
    pub not_payer : 0 < oracle_index
    pub is_asked : oracle_index < t.message.num_required_signatures
    pub read_only : t.message.is_account_writable oracle_index ≡ false
    -- The one instruction apart from the compute budget is a deposit of the program.
    pub found : Found
    pub only :
        IsOnly compute_budget program_id decode t.message.static_account_keys
          t.message.compiled_instructions found
    pub params : d.params ≡ found.params
    -- It names the oracle, and an operator that signs.
    pub names_oracle :
        key_at t.message.static_account_keys found.instruction.account_key_indexes oracle_account
        ≡ ok oracle
    pub operator_index : ℕ
    pub operator_at :
        get_elem? found.instruction.account_key_indexes operator_account ≡ some operator_index
    pub operator_asked : operator_index < t.message.num_required_signatures
    pub operator : get_elem? t.message.static_account_keys operator_index ≡ some d.operator
    pub project :
        key_at t.message.static_account_keys found.instruction.account_key_indexes project_account
        ≡ ok d.project
    -- All the others have signed.
    pub signed :
        (j : ℕ) → j < t.message.num_required_signatures → j ≢ oracle_index → HasSigned verify t j

  pub read_deposit-IsDeposit :
      (t : Transaction) (oracle : String) (d : DepositRequest)
      → read_deposit compute_budget program_id decode verify t oracle ≡ ok d
      → IsDeposit t oracle d
  unfolding read_deposit
  read_deposit-IsDeposit t oracle d h =
      let keys = t.message.static_account_keys in
      let signers = t.message.num_required_signatures in
      let (no_lookups, h1) =
        require-eq-ok (t.message.address_table_lookups == 0) lookup_tables _ h in
      let (i, at, h2) = passes (index_below signers (find_index oracle keys)) _ h1 in
      let (found_at, not_payer, asked) = index_below-eq-ok signers (find_index oracle keys) i at in
      let (quiet, h3) =
        require-eq-ok (not (t.message.is_account_writable i)) oracle_writable _ h2 in
      let (all, reads, h4) =
        passes (deposits compute_budget program_id decode keys t.message.compiled_instructions) _
          h3 in
      let (found, one, h5) = passes (sole all) _ h4 in
      let indexes = found.instruction.account_key_indexes in
      let (named, name_at, h6) = passes (key_at keys indexes oracle_account) _ h5 in
      let (same, h7) = require-eq-ok (str_eq named oracle) other_oracle _ h6 in
      let (k, k_at, h8) = passes (or_crash (get_elem? indexes operator_account)) _ h7 in
      let (k_asked, h9) = require-eq-ok (ltb k signers) operator_not_signer _ h8 in
      let (u, signed, h10) = passes (check_signatures verify signers 0 i t) _ h9 in
      let (operator, operator_is, h11) = passes (key_at keys indexes operator_account) _ h10 in
      let (project, project_is, h12) = passes (key_at keys indexes project_account) _ h11 in
      let (period, period_is, h13) = passes (key_at keys indexes period_account) _ h12 in
      let whole : record {
        transaction = t;
        operator = operator;
        project = project;
        period = period;
        params = found.params;
      }
          ≡ d =
        ok-injective h13 in
      record {
        own = sym (ap (λ (r : DepositRequest). r.transaction) whole);
        no_lookups = (==_iff _ 0).0 no_lookups;
        oracle_index = i;
        oracle_at = find_index-get oracle keys i found_at;
        not_payer = not_payer;
        is_asked = asked;
        read_only = not-true _ quiet;
        found = found;
        only =
            deposits-IsOnly compute_budget program_id decode keys t.message.compiled_instructions
              found (reads ∙ ap ok (sole-eq-ok all found one));
        params = sym (ap (λ (r : DepositRequest). r.params) whole);
        names_oracle = name_at ∙ ap ok ((eq_iff named oracle).0 same);
        operator_index = k;
        operator_at = or_crash-eq-ok _ k_at;
        operator_asked = ltb→lt k signers k_asked;
        operator =
            key_at-eq-ok keys indexes operator_account k (or_crash-eq-ok _ k_at) operator_is
            ∙ ap (λ (r : DepositRequest). some r.operator) whole;
        project = project_is ∙ ap (λ (r : DepositRequest). ok r.project) whole;
        signed = λ j below other.
            check_signatures-HasSigned verify signers 0 i t signed j (omega arith) (omega arith)
              other;
      }
