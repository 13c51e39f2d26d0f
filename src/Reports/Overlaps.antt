-- ===== src/Reports/Overlaps.antt =====
-- `checkOverlaps` of backend/src/reports/attestation.service.ts. What the RPC answers comes in as
-- arguments: the revenue periods of the project, the status of a signature where it was seen, and
-- whether a blockhash is still valid.
pub mod Blocked
use axel_sol.Prelude.{
  ℕ, String, Bool, true, false, not, ◌&&◌, Option, none, some, List, [], ◌∷◌, leb, ◌==◌,
  if◌then◌else◌, str_eq, select,
}
use axel_sol.Reports.{ReportKind, regular, final}
use axel_sol.Reports.Store.{
  Store, Attestation, DepositDraft, conflicting_attestations, conflicting_drafts,
}

pub record RevenuePeriod : Type 0 where
  pub index : ℕ
  pub period_start : ℕ
  pub period_end : ℕ
  pub kind : ReportKind

-- The status of a transaction that the RPC knows.
pub data SignatureStatus : Type 0 where
  succeeded failed : SignatureStatus

pub data Conflict : Type 0 where
  sale_paid_out : (index : ℕ) → Conflict
  period_covered : (index : ℕ) → Conflict
  deposit_landed deposit_can_land : (signature : String) → Conflict
  draft_can_land : (index : ℕ) → Conflict

pub record CosignTarget : Type 0 where
  pub signature : Option String
  pub period_index : Option ℕ

-- The first of several that is a conflict.
abbrev pub first_of : {A : Type 0} → (A → Option Conflict) → List A → Option Conflict
first_of f [] = none
first_of f (x ∷ xs) = elim (f x) [ some c ↦ some c | none ↦ first_of f xs ]

abbrev pub or_else : Option Conflict → Option Conflict → Option Conflict
or_else (some c) next = some c
or_else none next = next

abbrev pub period_conflict : ℕ → ℕ → RevenuePeriod → Option Conflict
period_conflict start end p = elim p.kind [
  | final ↦ some (sale_paid_out p.index)
  | regular ↦
      if leb p.period_start end && leb start p.period_end
      then some (period_covered p.index)
      else none
]

abbrev pub is_signature : String → Option String → Bool
is_signature s none = false
is_signature s (some t) = str_eq s t

abbrev pub is_index : ℕ → Option ℕ → Bool
is_index n none = false
is_index n (some m) = m == n

module _ (statuses : String → Option SignatureStatus) (is_blockhash_valid : String → Bool) where
  abbrev pub attestation_conflict : Attestation → Option Conflict
  attestation_conflict a = elim (statuses a.deposit_signature) [
    | some succeeded ↦ some (deposit_landed a.deposit_signature)
    | some failed ↦ none
    | none ↦
        if is_blockhash_valid a.recent_blockhash
        then some (deposit_can_land a.deposit_signature)
        else none
  ]

  abbrev pub draft_conflict : DepositDraft → Option Conflict
  draft_conflict d =
      if is_blockhash_valid d.recent_blockhash then some (draft_can_land d.period_index) else none

  unfoldable pub check_drafts : String → ℕ → ℕ → ℕ → CosignTarget → Store → Option Conflict
  check_drafts mint start end period_count target s =
      if is_index period_count target.period_index
      then none
      else first_of draft_conflict
          (select (λ d. d.period_index == period_count) (conflicting_drafts mint start end s))

  -- The first conflict of a report of the car, over these days, with what was deposited or can
  -- still be.
  unfoldable pub check_overlaps :
      (mint : String) (start end period_count : ℕ)
      → List RevenuePeriod
      → CosignTarget
      → Store
      → Option Conflict
  check_overlaps mint start end period_count periods target s =
      or_else (first_of (period_conflict start end) periods) (
        or_else
          (first_of attestation_conflict (
            select (λ a. not (is_signature a.deposit_signature target.signature))
              (conflicting_attestations mint start end s)))
          (check_drafts mint start end period_count target s))
