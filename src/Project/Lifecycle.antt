-- ===== src/Project/Lifecycle.antt =====
-- The raise over time: frontend/src/lib/solana/lifecycle.ts.
use axel_sol.Prelude.{ℕ, ◌≤◌, ◌≡◌, arith, true, false, not, some}
use axel_sol.Project.{
  ProjectAccount, funded, RaiseOutcome, finalize_outcome, is_refundable, can_activate, can_claim,
}

-- An outcome that a raise has at one time it has at every later time, as long as the account is
-- not written.
pub finalize_outcome_later :
    (p : ProjectAccount) (now later : ℕ) {o : RaiseOutcome}
    → now ≤ later
    → finalize_outcome p now ≡ some o
    → finalize_outcome p later ≡ some o
unfolding finalize_outcome
finalize_outcome_later p now later le e = ground arith

-- A project whose buyers can be refunded can be neither activated nor claimed from, and a funded
-- one can be activated or refunded, at any time one of the two.
pub is_refundable_or_can_activate :
    (p : ProjectAccount) (now : ℕ)
    → (is_refundable p now ≡ true → (can_activate p now ≡ false) × (can_claim p.status ≡ false))
      × (p.status ≡ funded → can_activate p now ≡ not (is_refundable p now))
unfolding is_refundable can_activate finalize_outcome
is_refundable_or_can_activate p now = (λ h. ground arith, λ h. ground arith)
