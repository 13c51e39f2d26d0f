-- ===== src/Kyc/Plan.antt =====
-- Approvals and revocations of backend/src/kyc/investor-plan.ts, read by the frontend.
use axel_sol.Prelude.{ℕ, ◌+◌, ◌≤◌, ◌<◌, ◌≡◌, ◌↔◌, refl, arith, Bool, Option, none, some}
use axel_sol.Dates.Utc.{add_months}
use axel_sol.Kyc.{
  InvestorRecord, write, unchanged, active, revoked, sumsub, already_active, plan_approval,
  plan_revocation, eligibility, eligible, kyc_validity_months, renewal_window_seconds,
}

-- What an approval writes makes the wallet eligible in every project until the record expires, and
-- not from then on.
pub plan_approval-eligible :
    (current : Option InvestorRecord) (jurisdiction now_ms : ℕ) {r : InvestorRecord}
    (allows_demo : Bool) (t : ℕ)
    → plan_approval current jurisdiction now_ms ≡ write r
    → (r.expires_at ≡ add_months now_ms kyc_validity_months)
      × ((eligibility (some r) allows_demo t ≡ eligible) ↔ (t < r.expires_at))
unfolding plan_approval eligibility
plan_approval-eligible none jurisdiction now_ms allows_demo t e = ground arith
plan_approval-eligible (some current) jurisdiction now_ms allows_demo t e = ground arith

-- An approval repeated after it was written changes nothing, for the same country and as long as
-- its expiry would grow by at most the renewal window.
pub plan_approval_repeated :
    (current : Option InvestorRecord) (jurisdiction now_ms later_ms : ℕ) {r : InvestorRecord}
    → plan_approval current jurisdiction now_ms ≡ write r
    → add_months later_ms kyc_validity_months
      ≤ add_months now_ms kyc_validity_months + renewal_window_seconds
    → plan_approval (some r) jurisdiction later_ms ≡ unchanged already_active
unfolding plan_approval
plan_approval_repeated none jurisdiction now_ms later_ms e h = ground arith
plan_approval_repeated (some current) jurisdiction now_ms later_ms e h = ground arith

-- A revocation writes exactly for an active record that Sumsub granted, and then only its status
-- changes.
pub plan_revocation_iff :
    (current : Option InvestorRecord) (r : InvestorRecord)
    → (plan_revocation current ≡ write r) ↔ (
        (c : InvestorRecord) × (current ≡ some c)
        × (c.status ≡ active)
        × (c.provider ≡ sumsub)
        × (r ≡ record c { status = revoked }))
unfolding plan_revocation
plan_revocation_iff none r = ground arith
plan_revocation_iff (some c) r =
    ((λ e. (c, refl, ground arith, ground arith, ground arith)), λ h. ground arith)
