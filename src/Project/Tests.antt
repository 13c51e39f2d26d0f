-- ===== src/Project/Tests.antt =====
-- The theorems on a project's lifecycle and solvency, for a raise and for a car with two holders.
use axel_sol.Prelude.{
  ℕ, ◌-◌, ◌*◌, ◌+◌, ◌^◌, ◌≤◌, ◌≡◌, refl, true, false, not, none, some, [], ◌∷◌, ◌++◌,
}
use axel_sol.Money.{ok, Position, pending_revenue, settled_accrued, owed, u64}
use axel_sol.Project.{
  ProjectAccount, fundraising, funded, operating, becomes_failed, finalize_outcome, settle_raise,
  is_refundable, can_activate, can_claim,
}
use axel_sol.Project.Lifecycle.{is_refundable_or_can_activate}
use axel_sol.Project.Solvency.{
  VaultSnapshot, ProjectSolvency, solvency_of, tally, escrow_owed, income_check, supply_check,
  outstanding_shares,
}
use axel_sol.Prelude.Int.{◌-ℤ◌}
use axel_sol.Project.Due.{pay_all}
use axel_sol.Project.Claims.{solvency_of-pay_all, claimed_at, solvency_of-claimed_at}

abbrev raise : ProjectAccount
raise = record {
  status = fundraising;
  price_per_share = 100;
  total_shares = 10;
  soft_cap_shares = 6;
  shares_sold = 5;
  shares_refunded = 0;
  shares_retired = 0;
  raise_deadline = 1000;
  activation_deadline = 0;
  acc_per_share = 0;
  total_deposited_net = 0;
  total_claimed = 0;
}

failed_at_deadline : finalize_outcome raise 1000 ≡ some becomes_failed
unfolding finalize_outcome settle_raise
failed_at_deadline = refl

abbrev car : ProjectAccount
car = record raise {
  status = operating;
  shares_sold = 10;
  acc_per_share = 5 * 2 ^ 64;
  total_deposited_net = 50;
  total_claimed = 20;
}

abbrev ann : Position
ann = record { shares = 4; acc_checkpoint = 5 * 2 ^ 64; accrued = 0 }

abbrev bob : Position
bob = record { shares = 6; acc_checkpoint = 0; accrued = 0 }

abbrev balances : VaultSnapshot
balances = record { revenue = some 33; escrow = none; supply = some 10 }

is_refundable_or_can_activate_example :
    (is_refundable car 7 ≡ true → (can_activate car 7 ≡ false) × (can_claim car.status ≡ false))
    × (car.status ≡ funded → can_activate car 7 ≡ not (is_refundable car 7))
is_refundable_or_can_activate_example = is_refundable_or_can_activate car 7

solvent_car :
    (s : ProjectSolvency) × (solvency_of car (ann ∷ bob ∷ []) balances ≡ ok s) × (s.is_ok ≡ true)
unfolding solvency_of tally pending_revenue settled_accrued owed u64 escrow_owed income_check
    supply_check outstanding_shares ◌-ℤ◌
solvent_car = (_, refl, refl)

solvency_of-pay_all_example :
    (vault rest : ℕ) × (balances.revenue ≡ some vault)
    × (pay_all car.acc_per_share (ann ∷ bob ∷ []) vault ≡ some rest)
solvency_of-pay_all_example =
    solvency_of-pay_all car (ann ∷ bob ∷ []) balances solvent_car.1 solvent_car.2

solvency_of-claimed_at_example :
    (q vault : ℕ) × (s' : ProjectSolvency) × (pending_revenue bob car.acc_per_share ≡ ok q)
    × (balances.revenue ≡ some vault)
    × (q ≤ vault)
    × (solvency_of
          (record car { total_claimed = car.total_claimed + q })
          ((ann ∷ []) ++ claimed_at car.acc_per_share bob ∷ [])
          (record balances { revenue = some (vault - q) })
        ≡ ok s')
    × (s'.is_ok ≡ true)
solvency_of-claimed_at_example =
    solvency_of-claimed_at car (ann ∷ []) bob [] balances solvent_car.1 solvent_car.2
