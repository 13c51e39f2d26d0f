-- ===== src/Kyc.antt =====
-- The on-chain KYC record of a wallet: what backend/src/kyc/investor-plan.ts makes of it, and what
-- frontend/src/lib/solana/eligibility.ts and kyc.ts read from it and write to it.
pub mod Plan
pub mod Webhook
pub mod Session
use axel_sol.Prelude.{
  ℕ, ◌+◌, ◌-◌, ◌*◌, ◌%◌, ◌/◌, Bool, true, false, not, ◌&&◌, Option, none, some, leb, ◌==◌,
  if◌then◌else◌,
}
use axel_sol.Dates.Utc.{add_months}

pub data InvestorStatus : Type 0 where
  active revoked frozen : InvestorStatus

pub data KycProvider : Type 0 where
  manual sumsub demo : KycProvider

abbrev pub is_active : InvestorStatus → Bool
is_active active = true
is_active _ = false

abbrev pub is_revoked_status : InvestorStatus → Bool
is_revoked_status revoked = true
is_revoked_status _ = false

abbrev pub is_sumsub : KycProvider → Bool
is_sumsub sumsub = true
is_sumsub _ = false

pub record InvestorRecord : Type 0 where
  pub status : InvestorStatus
  pub flags : ℕ
  pub jurisdiction : ℕ
  pub expires_at : ℕ
  pub provider : KycProvider

abbrev pub kyc_validity_months : ℕ
kyc_validity_months = 12

abbrev pub renewal_window_seconds : ℕ
renewal_window_seconds = 30 * 24 * 60 * 60

pub data Reason : Type 0 where
  frozen_record already_active no_record not_granted_by_sumsub already_revoked : Reason

pub data InvestorPlan : Type 0 where
  write : InvestorRecord → InvestorPlan
  unchanged blocked : Reason → InvestorPlan

-- `flags & ~FLAG_DEMO`, the flag being the lowest bit.
abbrev pub without_demo : ℕ → ℕ
without_demo flags = flags - flags % 2

abbrev pub is_renewed : InvestorRecord → InvestorRecord → Bool
is_renewed current planned =
    is_active current.status
    && is_sumsub current.provider
    && current.flags == planned.flags
    && current.jurisdiction == planned.jurisdiction
    && leb planned.expires_at (current.expires_at + renewal_window_seconds)

abbrev pub approved_record : ℕ → ℕ → ℕ → InvestorRecord
approved_record flags jurisdiction now_ms = record {
  status = active;
  flags = flags;
  jurisdiction = jurisdiction;
  expires_at = add_months now_ms kyc_validity_months;
  provider = sumsub;
}

abbrev plan_renewal : InvestorRecord → InvestorRecord → InvestorPlan
plan_renewal current planned =
    if is_renewed current planned then unchanged already_active else write planned

unfoldable pub plan_approval : Option InvestorRecord → ℕ → ℕ → InvestorPlan
plan_approval none jurisdiction now_ms = write (approved_record 0 jurisdiction now_ms)
plan_approval (some current) jurisdiction now_ms = elim current.status [
  | frozen ↦ blocked frozen_record
  | _ ↦ plan_renewal current (approved_record (without_demo current.flags) jurisdiction now_ms)
]

unfoldable pub plan_revocation : Option InvestorRecord → InvestorPlan
plan_revocation none = unchanged no_record
plan_revocation (some current) = elim current.status [
  | frozen ↦ blocked frozen_record
  | _ ↦
      if not (is_sumsub current.provider)
      then unchanged not_granted_by_sumsub
      else if is_revoked_status current.status
      then unchanged already_revoked
      else write (record current { status = revoked })
]

pub data Eligibility : Type 0 where
  eligible unverified is_revoked is_frozen is_expired demo_not_allowed : Eligibility

-- The frontend's reading; `none` is no record, or one whose status is unset.
unfoldable pub eligibility : Option InvestorRecord → Bool → ℕ → Eligibility
eligibility none allows_demo now = unverified
eligibility (some investor) allows_demo now = elim investor.status [
  | frozen ↦ is_frozen
  | revoked ↦ is_revoked
  | active ↦
      if leb investor.expires_at now
      then is_expired
      else if investor.flags % 2 == 1 && not allows_demo
      then demo_not_allowed
      else eligible
]

pub data KycRole : Type 0 where
  kyc_key demo_key : KycRole

pub data ConsoleDecision : Type 0 where
  approve_wallet revoke_wallet : ConsoleDecision

abbrev pub kyc_approval_seconds : ℕ
kyc_approval_seconds = 365 * 24 * 60 * 60

abbrev pub demo_approval_seconds : ℕ
demo_approval_seconds = 29 * 24 * 60 * 60

abbrev pub approval_seconds : KycRole → ℕ
approval_seconds kyc_key = kyc_approval_seconds
approval_seconds demo_key = demo_approval_seconds

-- The record that a decision in the console writes.
unfoldable pub kyc_record : KycRole → ConsoleDecision → ℕ → InvestorRecord
kyc_record role decision now = record {
  status = elim decision [ approve_wallet ↦ active | revoke_wallet ↦ revoked ];
  expires_at = elim decision [ approve_wallet ↦ now + approval_seconds role | revoke_wallet ↦ now ];
  jurisdiction = 0;
  flags = elim role [ kyc_key ↦ 0 | demo_key ↦ 1 ];
  provider = elim role [ kyc_key ↦ manual | demo_key ↦ demo ];
}
