-- ===== src/Telemetry/Store/Links.antt =====
-- What `recordSubmission` and `abandonSubmission` do to the rows of `telemetry_days`.
use axel_sol.Prelude.{
  ℕ, ◌≡◌, refl, ap₂, ◌∙◌, arith, String, false, none, some, List, [], ◌∷◌, map, All, eq_iff, inl,
  inr, Option-cases, Bool-cases, length, select, ◌==◌,
}
use axel_sol.Telemetry.Store.{
  Store, DayRow, PlannedLink, Submission, Outcome, signed_by, is_target, link_row, link_all,
  record_submission, abandon_row, abandon_submission,
}

-- A row that is in no batch has no place in the chain.
abbrev pub IsClear : DayRow → Type 0
IsClear row =
    row.tx_signature ≡ none
    → (row.chain_position ≡ none) × (row.head_before ≡ none) × (row.head_after ≡ none)

abandon-link :
    (signature mint : String) (p : PlannedLink) (row : DayRow)
    → IsClear row
    → abandon_row signature (link_row signature mint p row) ≡ abandon_row signature row
abandon-link signature mint p row clear = elim (Option-cases row.tx_signature) [
  | inl e ↦ ground (arith, clear e, eq_iff signature signature)
  | inr (s, e) ↦ ground arith
]

link-IsClear :
    (signature mint : String) (p : PlannedLink) (row : DayRow)
    → IsClear row
    → IsClear (link_row signature mint p row)
link-IsClear signature mint p row clear = elim (Bool-cases (is_target mint p.date row)) [
  | inl e ↦ rw e (λ h. cc)
  | inr e ↦ rw e clear
]

All-link :
    (signature mint : String) (p : PlannedLink) (rows : List DayRow)
    → All IsClear rows
    → All IsClear (map (link_row signature mint p) rows)
All-link signature mint p [] h = tt
All-link signature mint p (r ∷ rows) (h, hs) =
    (link-IsClear signature mint p r h, All-link signature mint p rows hs)

abandon-map :
    (signature mint : String) (p : PlannedLink) (rows : List DayRow)
    → All IsClear rows
    → map (abandon_row signature) (map (link_row signature mint p) rows)
      ≡ map (abandon_row signature) rows
abandon-map signature mint p [] h = refl
abandon-map signature mint p (r ∷ rows) (h, hs) =
    ap₂ (λ a l. a ∷ l) (abandon-link signature mint p r h) (abandon-map signature mint p rows hs)

abandon-link_all :
    (signature mint : String) (links : List PlannedLink) (rows : List DayRow) {rows' : List DayRow}
    → All IsClear rows
    → link_all signature mint links rows ≡ some rows'
    → map (abandon_row signature) rows' ≡ map (abandon_row signature) rows
unfolding link_all
abandon-link_all signature mint [] rows h e = ground arith
abandon-link_all signature mint (p ∷ links) rows {rows'} h e =
    elim (Bool-cases (length (select (is_target mint p.date) rows) == 1)) [
      | inl one ↦
          abandon-link_all signature mint links (map (link_row signature mint p) rows)
            (All-link signature mint p rows h) (rw one at e)
          ∙ abandon-map signature mint p rows h
      | inr other ↦ let bad : none ≡ some rows' = rw other at e in cc
    ]

abandon_unsigned :
    (signature : String) (rows : List DayRow)
    → All (λ r. signed_by signature r ≡ false) rows
    → map (abandon_row signature) rows ≡ rows
abandon_unsigned signature [] h = refl
abandon_unsigned signature (r ∷ rows) (h, hs) =
    ap₂ (λ a l. a ∷ l) (ground arith) (abandon_unsigned signature rows hs)

-- In a store whose unsubmitted days have no place in the chain, and where no day carries the
-- signature yet, abandoning a batch that was recorded gives back every row of the days as it was.
pub abandon-record :
    (submission : Submission) (links : List PlannedLink) (now : ℕ) (outcome : Outcome) (s : Store)
    {s' : Store}
    → All IsClear s.days
    → All (λ r. signed_by submission.signature r ≡ false) s.days
    → record_submission submission links now s ≡ some s'
    → (abandon_submission submission.signature outcome s').days ≡ s.days
unfolding record_submission abandon_submission
abandon-record submission links now outcome s {s'} clear fresh e =
    let rows : link_all submission.signature submission.mint links s.days ≡ some s'.days =
      ground arith in
    abandon-link_all submission.signature submission.mint links s.days clear rows
    ∙ abandon_unsigned submission.signature s.days fresh
