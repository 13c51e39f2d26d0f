-- ===== src/Reports/Store.antt =====
-- backend/src/reports/reports.store.ts: the tables as lists of rows in the order of insertion. A
-- statement that throws gives `none`.
use axel_sol.Prelude.{
  ℕ, String, Bool, true, false, ◌&&◌, ◌||◌, Option, none, some, List, [], ◌∷◌, ◌++◌, leb,
  if◌then◌else◌, str_eq, find, select,
}
use axel_sol.Reports.Report.{CombinedOrigin}
use axel_sol.Reports.{ReportKind, regular, final}

pub record StoredReport : Type 0 where
  pub report_hash : String
  pub mint : String
  pub kind : ReportKind
  pub period_start : ℕ
  pub period_end : ℕ
  pub gross : ℕ
  pub data_origin : CombinedOrigin
  pub canonical : List ℕ

pub record Attestation : Type 0 where
  pub deposit_signature : String
  pub report_hash : String
  pub mint : String
  pub recent_blockhash : String
  pub attested_at : ℕ

pub record DepositDraft : Type 0 where
  pub oracle_signature : String
  pub report_hash : String
  pub mint : String
  pub operator : String
  pub period_index : ℕ
  pub recent_blockhash : String
  pub drafted_at : ℕ

pub record Store : Type 0 where
  pub revenue_reports : List StoredReport
  pub report_attestations : List Attestation
  pub deposit_drafts : List DepositDraft

abbrev is_some {ℓ} : {A : Type ℓ} → Option A → Bool
is_some none = false
is_some (some a) = true

abbrev pub has_hash : String → StoredReport → Bool
has_hash report_hash r = str_eq r.report_hash report_hash

-- `ON CONFLICT (report_hash) DO NOTHING`.
unfoldable pub insert_report : StoredReport → List StoredReport → List StoredReport
insert_report report reports =
    if is_some (find (has_hash report.report_hash) reports) then reports else reports ++ report ∷ []

abbrev pub has_signature : String → Attestation → Bool
has_signature signature a = str_eq a.deposit_signature signature

unfoldable pub save_attested : StoredReport → Attestation → Store → Store
save_attested report attestation s = record s {
  revenue_reports = insert_report report s.revenue_reports;
  report_attestations =
      if is_some (find (has_signature attestation.deposit_signature) s.report_attestations)
      then s.report_attestations
      else s.report_attestations ++ attestation ∷ [];
}

-- The oracle's signature is the key of a draft: a second one throws, and nothing is stored.
unfoldable pub save_draft : StoredReport → DepositDraft → Store → Option Store
save_draft report draft s =
    if is_some (find (λ d. str_eq d.oracle_signature draft.oracle_signature) s.deposit_drafts)
    then none
    else some (record s {
      revenue_reports = insert_report report s.revenue_reports;
      deposit_drafts = s.deposit_drafts ++ draft ∷ [];
    })

unfoldable pub report : String → String → Store → Option StoredReport
report mint report_hash s =
    find (λ r. str_eq r.mint mint && str_eq r.report_hash report_hash) s.revenue_reports

abbrev is_final : ReportKind → Bool
is_final final = true
is_final regular = false

-- `(period_start <= end AND period_end >= start) OR kind = 'final'`.
abbrev pub in_the_way : ℕ → ℕ → StoredReport → Bool
in_the_way start end r = (leb r.period_start end && leb start r.period_end) || is_final r.kind

-- The join with the report of a hash, which is the table's key.
abbrev pub joined : Option StoredReport → ℕ → ℕ → Bool
joined none start end = false
joined (some r) start end = in_the_way start end r

unfoldable pub conflicting_attestations : String → ℕ → ℕ → Store → List Attestation
conflicting_attestations mint start end s =
    select
      (λ a.
        str_eq a.mint mint && joined (find (has_hash a.report_hash) s.revenue_reports) start end)
      s.report_attestations

unfoldable pub conflicting_drafts : String → ℕ → ℕ → Store → List DepositDraft
conflicting_drafts mint start end s =
    select
      (λ d.
        str_eq d.mint mint && joined (find (has_hash d.report_hash) s.revenue_reports) start end)
      s.deposit_drafts
