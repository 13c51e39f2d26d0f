-- ===== src/Project.antt =====
-- frontend/src/lib/solana/lifecycle.ts: what can be done with a project in each of its states. Of
-- the project account (accounts.ts) there are the fields that the lifecycle and the solvency view
-- read. Times are seconds since the epoch.
pub mod Lifecycle
pub mod Solvency
pub mod Due
pub mod Claims
mod Tests
use axel_sol.Prelude.{
  ℕ, Bool, true, false, not, ◌&&◌, ◌||◌, Option, none, some, leb, ltb, ◌==◌, if◌then◌else◌,
}

pub data ProjectStatus : Type 0 where
  fundraising funded failed operating paused closed : ProjectStatus

pub record ProjectAccount : Type 0 where
  pub status : ProjectStatus
  pub price_per_share : ℕ
  pub total_shares : ℕ
  pub soft_cap_shares : ℕ
  pub shares_sold : ℕ
  pub shares_refunded : ℕ
  pub shares_retired : ℕ
  pub raise_deadline : ℕ
  pub activation_deadline : ℕ
  pub acc_per_share : ℕ
  pub total_deposited_net : ℕ
  pub total_claimed : ℕ

abbrev pub can_claim : ProjectStatus → Bool
can_claim operating = true
can_claim paused = true
can_claim closed = true
can_claim _ = false

abbrev pub can_refund : ProjectStatus → Bool
can_refund failed = true
can_refund _ = false

abbrev pub can_transfer : ProjectStatus → Bool
can_transfer operating = true
can_transfer _ = false

pub data RaiseOutcome : Type 0 where
  becomes_funded becomes_failed : RaiseOutcome

-- What `finalize_raise` does with a raise that is still open.
unfoldable pub settle_raise : ProjectAccount → ℕ → Option RaiseOutcome
settle_raise project now =
    let raise_over = leb project.raise_deadline now in
    let sold_out = project.shares_sold == project.total_shares in
    let soft_cap_met = leb project.soft_cap_shares project.shares_sold in
    if soft_cap_met && (sold_out || raise_over)
    then some becomes_funded
    else if raise_over
    then some becomes_failed
    else none

unfoldable pub finalize_outcome : ProjectAccount → ℕ → Option RaiseOutcome
unfolding settle_raise
finalize_outcome project now = elim project.status [
  | fundraising ↦ settle_raise project now
  | funded ↦ if ltb project.activation_deadline now then some becomes_failed else none
  | _ ↦ none
]

abbrev is_set : Option RaiseOutcome → Bool
is_set none = false
is_set (some o) = true

abbrev pub is_failure : Option RaiseOutcome → Bool
is_failure (some becomes_failed) = true
is_failure _ = false

unfoldable pub can_finalize : ProjectAccount → ℕ → Bool
can_finalize project now = is_set (finalize_outcome project now)

unfoldable pub is_refundable : ProjectAccount → ℕ → Bool
is_refundable project now = can_refund project.status || is_failure (finalize_outcome project now)

abbrev pub is_funded : ProjectStatus → Bool
is_funded funded = true
is_funded _ = false

unfoldable pub can_activate : ProjectAccount → ℕ → Bool
can_activate project now = is_funded project.status && leb now project.activation_deadline
