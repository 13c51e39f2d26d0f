-- ===== src/Project/Solvency.antt =====
-- `solvencyOf` of frontend/src/lib/solana/solvency.ts: the invariants of one project from its
-- account, its positions and its balances. BigInt differences that may be negative are in ℤ.
use axel_sol.Prelude.{
  ℕ, ◌+◌, ◌-◌, Bool, true, false, not, ◌&&◌, ◌||◌, Option, none, some, List, [], ◌∷◌, leb, ltb,
  ◌==◌, if◌then◌else◌, sum_by,
}
use axel_sol.Prelude.Int.{ℤ, pos, pos_part, neg_part, ◌-ℤ◌}
use axel_sol.Money.{Checked, ok, err, overflow, ◌>>=◌, Position, pending_revenue, shares_value}
use axel_sol.Project.{ProjectAccount, ProjectStatus, fundraising, funded, failed}

pub record VaultSnapshot : Type 0 where
  pub revenue : Option ℕ
  pub escrow : Option ℕ
  pub supply : Option ℕ

pub record IncomeCheck : Type 0 where
  pub vault : Option ℕ
  pub liability : ℤ
  pub owed : ℕ
  pub surplus : Option ℤ
  pub is_ok : Bool

pub record EscrowCheck : Type 0 where
  pub is_open : Bool
  pub balance : Option ℕ
  pub owed : ℕ
  pub is_ok : Bool

pub record SupplyCheck : Type 0 where
  pub mint : Option ℕ
  pub ledger : ℤ
  pub positions : ℕ
  pub is_ok : Bool

pub record CheckpointCheck : Type 0 where
  pub ahead : ℕ
  pub is_ok : Bool

pub record ProjectSolvency : Type 0 where
  pub income : IncomeCheck
  pub escrow : EscrowCheck
  pub supply : SupplyCheck
  pub checkpoints : CheckpointCheck
  pub is_ok : Bool

abbrev pub holds_escrow : ProjectStatus → Bool
holds_escrow fundraising = true
holds_escrow funded = true
holds_escrow failed = true
holds_escrow _ = false

-- The variables of the loop over the positions.
pub record Tally : Type 0 where
  pub owed : ℕ
  pub ahead : ℕ

unfoldable pub tally : ℕ → Tally → List Position → Checked Tally
tally acc t [] = ok t
tally acc t (p ∷ ps) =
    if ltb acc p.acc_checkpoint
    then tally acc (record t { ahead = t.ahead + 1 }) ps
    else (do pending ← pending_revenue p acc; tally acc (record t { owed = t.owed + pending }) ps)

abbrev pub le_ℤ : ℤ → ℤ → Bool
le_ℤ a b = leb (pos_part a + neg_part b) (pos_part b + neg_part a)

abbrev pub eq_ℤ : ℤ → ℤ → Bool
eq_ℤ a b = pos_part a + neg_part b == pos_part b + neg_part a

abbrev pub holds_at_least : Option ℕ → ℤ → Bool
holds_at_least none owed = false
holds_at_least (some balance) owed = le_ℤ owed (pos balance)

abbrev pub surplus_over : Option ℕ → ℤ → Option ℤ
surplus_over none liability = none
surplus_over (some balance) liability = some (pos balance -ℤ liability)

abbrev pub is_exactly : Option ℕ → ℤ → Bool
is_exactly none n = false
is_exactly (some m) n = eq_ℤ (pos m) n

unfoldable pub outstanding_shares : ProjectAccount → ℤ
outstanding_shares p = pos p.shares_sold -ℤ pos p.shares_refunded -ℤ pos p.shares_retired

unfoldable pub income_check : ProjectAccount → Option ℕ → ℕ → IncomeCheck
income_check project revenue owed =
    let liability = pos project.total_deposited_net -ℤ pos project.total_claimed in
    record {
      vault = revenue;
      liability = liability;
      owed = owed;
      surplus = surplus_over revenue liability;
      is_ok = le_ℤ (pos owed) liability && holds_at_least revenue liability;
    }

-- `sharesValue(sold - refunded, price)`, which throws below zero, while the escrow is open.
unfoldable pub escrow_owed : ProjectAccount → Checked ℕ
escrow_owed project =
    if holds_escrow project.status
    then (if ltb project.shares_sold project.shares_refunded && not (project.price_per_share == 0)
        then err overflow
        else shares_value (project.shares_sold - project.shares_refunded) project.price_per_share)
    else ok 0

abbrev pub escrow_check : ProjectAccount → Option ℕ → ℕ → EscrowCheck
escrow_check project balance owed = record {
  is_open = holds_escrow project.status;
  balance = balance;
  owed = owed;
  is_ok = not (holds_escrow project.status) || holds_at_least balance (pos owed);
}

unfoldable pub supply_check : ProjectAccount → Option ℕ → List Position → SupplyCheck
unfolding outstanding_shares
supply_check project supply positions =
    let ledger = outstanding_shares project in
    let held = sum_by (λ p. p.shares) positions in
    record {
      mint = supply;
      ledger = ledger;
      positions = held;
      is_ok = is_exactly supply ledger && eq_ℤ (pos held) ledger;
    }

unfoldable pub solvency_of :
    ProjectAccount → List Position → VaultSnapshot → Checked ProjectSolvency
solvency_of project positions snapshot = do
  t ← tally project.acc_per_share (record { owed = 0; ahead = 0 }) positions
  escrow_due ← escrow_owed project
  let income = income_check project snapshot.revenue t.owed
  let escrow = escrow_check project snapshot.escrow escrow_due
  let supply = supply_check project snapshot.supply positions
  let checkpoints : CheckpointCheck = record { ahead = t.ahead; is_ok = t.ahead == 0 }
  ok (record {
    income = income;
    escrow = escrow;
    supply = supply;
    checkpoints = checkpoints;
    is_ok = income.is_ok && escrow.is_ok && supply.is_ok && checkpoints.is_ok;
  })
