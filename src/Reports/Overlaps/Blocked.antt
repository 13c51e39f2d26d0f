-- ===== src/Reports/Overlaps/Blocked.antt =====
-- An attested deposit stands in the way of overlapping ones.
use axel_sol.Prelude.{
  ℕ, ◌≡◌, ◌≢◌, inl, inr, refl, ap, ◌∙◌, String, Bool, true, false, Option, none, some, List, [],
  ◌∷◌, find, In, In-append_left, In-append_last, In-select, find-append, find-append_last, str_eq,
  eq_iff, Option-cases,
}
use axel_sol.Reports.Store.{
  Store, StoredReport, Attestation, DepositDraft, has_hash, insert_report, save_attested,
  save_draft, has_signature, in_the_way, conflicting_attestations,
}
use axel_sol.Reports.Overlaps.{
  RevenuePeriod, SignatureStatus, Conflict, deposit_can_land, CosignTarget, first_of, or_else,
  check_overlaps, attestation_conflict, is_signature, period_conflict, check_drafts,
}

first_of-In :
    {A : Type 0} (f : A → Option Conflict) (a : A) (xs : List A) {c : Conflict}
    → In a xs
    → f a ≡ some c
    → first_of f xs ≢ none
first_of-In f a [] h e = elim h [ ]
first_of-In f a (x ∷ xs) {c} (inl same) e =
    let own : f x ≡ some c = ap f same ∙ e in rw (first_of, own) (λ bad. cc)
first_of-In f a (x ∷ xs) (inr i) e = elim (Option-cases (f x)) [
  | inl clear ↦ rw (first_of, clear) (first_of-In f a xs i e)
  | inr (c, found) ↦ rw (first_of, found) (λ bad. cc)
]

or_else_left : (x y : Option Conflict) → x ≢ none → or_else x y ≢ none
or_else_left none y h = absurd (h refl)
or_else_left (some c) y h = λ bad. cc

or_else_right : (x y : Option Conflict) → y ≢ none → or_else x y ≢ none
or_else_right none y h = h
or_else_right (some c) y h = λ bad. cc

-- The attestation is stored, and so is its report.
abbrev pub Recorded : Attestation → StoredReport → Store → Type 0
Recorded a r s =
    In a s.report_attestations × (find (has_hash a.report_hash) s.revenue_reports ≡ some r)

insert_report-find :
    (report : StoredReport) (reports : List StoredReport) (h : String) {q : StoredReport}
    → find (has_hash h) reports ≡ some q
    → find (has_hash h) (insert_report report reports) ≡ some q
unfolding insert_report
insert_report-find report reports h e =
    elim (Option-cases (find (has_hash report.report_hash) reports)) [
      | inl fresh ↦ rw fresh (find-append (has_hash h) reports (report ∷ []) e)
      | inr (q, known) ↦ rw known e
    ]

insert_report_finds :
    (report : StoredReport) (reports : List StoredReport)
    → ((q : StoredReport) → find (has_hash report.report_hash) reports ≡ some q → q ≡ report)
    → find (has_hash report.report_hash) (insert_report report reports) ≡ some report
unfolding insert_report
insert_report_finds report reports same =
    elim (Option-cases (find (has_hash report.report_hash) reports)) [
      | inl fresh ↦ rw fresh (
          find-append_last (has_hash report.report_hash) reports report fresh
            ((eq_iff report.report_hash report.report_hash).1 refl))
      | inr (q, known) ↦ rw known (known ∙ ap some (same q known))
    ]

save_attested-Recorded :
    (report : StoredReport) (a : Attestation) (s : Store)
    → a.report_hash ≡ report.report_hash
    → ((q : StoredReport)
        → find (has_hash report.report_hash) s.revenue_reports ≡ some q
        → q ≡ report)
    → find (has_signature a.deposit_signature) s.report_attestations ≡ none
    → Recorded a report (save_attested report a s)
unfolding save_attested
save_attested-Recorded report a s hash same fresh = (
  rw fresh (In-append_last a s.report_attestations),
  rw hash (insert_report_finds report s.revenue_reports same),
)

-- What is stored later.
pub data Save : Type 0 where
  attested : StoredReport → Attestation → Save
  drafted : StoredReport → DepositDraft → Save

abbrev kept_or : Store → Option Store → Store
kept_or s none = s
kept_or s (some s') = s'

unfoldable pub save_all : List Save → Store → Store
save_all [] s = s
save_all (attested r a ∷ rest) s = save_all rest (save_attested r a s)
save_all (drafted r d ∷ rest) s = save_all rest (kept_or s (save_draft r d s))

save_attested_keeps :
    (a : Attestation) (r : StoredReport) (report : StoredReport) (b : Attestation) (s : Store)
    → Recorded a r s
    → Recorded a r (save_attested report b s)
unfolding save_attested
save_attested_keeps a r report b s (i, e) =
    elim (Option-cases (find (has_signature b.deposit_signature) s.report_attestations)) [
      | inl fresh ↦ (
        rw fresh (In-append_left a s.report_attestations (b ∷ []) i),
        insert_report-find report s.revenue_reports a.report_hash e,
      )
      | inr (c, known) ↦ (rw known i, insert_report-find report s.revenue_reports a.report_hash e)
    ]

save_draft_keeps :
    (a : Attestation) (r : StoredReport) (report : StoredReport) (d : DepositDraft) (s : Store)
    → Recorded a r s
    → Recorded a r (kept_or s (save_draft report d s))
unfolding save_draft
save_draft_keeps a r report d s (i, e) =
    elim (Option-cases
      (find (λ x. str_eq x.oracle_signature d.oracle_signature) s.deposit_drafts)) [
        | inl fresh ↦ rw fresh (i, insert_report-find report s.revenue_reports a.report_hash e)
        | inr (c, known) ↦ rw known (i, e)
      ]

save_all_keeps :
    (a : Attestation) (r : StoredReport) (later : List Save) (s : Store)
    → Recorded a r s
    → Recorded a r (save_all later s)
unfolding save_all
save_all_keeps a r [] s h = h
save_all_keeps a r (attested report b ∷ rest) s h =
    save_all_keeps a r rest _ (save_attested_keeps a r report b s h)
save_all_keeps a r (drafted report d ∷ rest) s h =
    save_all_keeps a r rest _ (save_draft_keeps a r report d s h)

module _ (statuses : String → Option SignatureStatus) (is_blockhash_valid : String → Bool) where
  check_overlaps-Recorded :
      (a : Attestation) (r : StoredReport) (start end period_count : ℕ)
      (periods : List RevenuePeriod) (target : CosignTarget) (s : Store)
      → Recorded a r s
      → in_the_way start end r ≡ true
      → statuses a.deposit_signature ≡ none
      → is_blockhash_valid a.recent_blockhash ≡ true
      → is_signature a.deposit_signature target.signature ≡ false
      → check_overlaps statuses is_blockhash_valid a.mint start end period_count periods target s
        ≢ none
  unfolding check_overlaps conflicting_attestations
  check_overlaps-Recorded a r start end period_count periods target s (i, e) overlaps unseen valid
        other =
      let own : str_eq a.mint a.mint ≡ true = (eq_iff a.mint a.mint).1 refl in
      let conflicting = In-select _ a s.report_attestations i (rw (own, e, overlaps) refl) in
      let earlier = In-select _ a _ conflicting (rw other refl) in
      let can_land : attestation_conflict statuses is_blockhash_valid a
          ≡ some (deposit_can_land a.deposit_signature) =
        rw (attestation_conflict, unseen, valid) refl in
      or_else_right (first_of (period_conflict start end) periods) _ (
        or_else_left _
          (check_drafts statuses is_blockhash_valid a.mint start end period_count target s)
          (first_of-In _ a _ earlier can_land))

  -- Once a deposit was attested, another deposit of the same car for days that overlap the report's
  -- or after a final report is refused, whatever was stored since, as long as the attested one was
  -- not seen on the chain and its blockhash is valid. It is assumed that its signature is new and
  -- that a report stored under the report's hash is the same report.
  pub check_overlaps-save_attested :
      (report : StoredReport) (a : Attestation) (s : Store) (later : List Save)
      (start end period_count : ℕ) (periods : List RevenuePeriod) (target : CosignTarget)
      → a.report_hash ≡ report.report_hash
      → ((q : StoredReport)
          → find (has_hash report.report_hash) s.revenue_reports ≡ some q
          → q ≡ report)
      → find (has_signature a.deposit_signature) s.report_attestations ≡ none
      → in_the_way start end report ≡ true
      → statuses a.deposit_signature ≡ none
      → is_blockhash_valid a.recent_blockhash ≡ true
      → is_signature a.deposit_signature target.signature ≡ false
      → check_overlaps statuses is_blockhash_valid a.mint start end period_count periods target
          (save_all later (save_attested report a s))
        ≢ none
  check_overlaps-save_attested report a s later start end n periods target hash same fresh =
      check_overlaps-Recorded a report start end n periods target _
        (save_all_keeps a report later _ (save_attested-Recorded report a s hash same fresh))
