-- ===== src/Payouts/Ledger.antt =====
-- What the program does to the positions of one project, as a relation between the ledger before
-- an event and after it: the specification that the replay of backend/src/indexer/payouts.ts is
-- held against. The amounts are unsigned, as the accounts hold them.
use axel_sol.Prelude.{
  ℕ, ◌+◌, ◌-◌, ◌*◌, ◌/◌, ◌^◌, ◌≤◌, ◌≡◌, ◌≢◌, String, ◌||◌, List, [], ◌∷◌, ◌++◌, if◌then◌else◌,
  str_eq, sum_by, change,
}
use axel_sol.Money
use axel_sol.Payouts.{
  EventData, StoredEvent, DepositKind, project_created, revenue_deposited, position_opened,
  position_closed, shares_purchased, refunded, shares_transferred, claimed, recovery_executed,
  other,
}

pub record Ledger : Type 0 where
  pub acc : ℕ
  -- What deposits brought in for holders, after the platform fee.
  pub deposited : ℕ
  pub position : String → Money.Position
  -- What each wallet was paid.
  pub paid : String → ℕ

abbrev pub empty_at : ℕ → Money.Position
empty_at acc = record { shares = 0; acc_checkpoint = acc; accrued = 0 }

abbrev pub start : Ledger
start = record { acc = 0; deposited = 0; position = λ w. empty_at 0; paid = λ w. 0 }

abbrev pub earned : ℕ → Money.Position → ℕ
earned acc p = p.shares * (acc - p.acc_checkpoint) / 2 ^ 64

abbrev pub settled : ℕ → Money.Position → Money.Position
settled acc p = record p { accrued = p.accrued + earned acc p; acc_checkpoint = acc }

abbrev pub move : String → String → ℕ → ℕ → (String → Money.Position) → String → Money.Position
move from to acc amount position w =
    if str_eq from w || str_eq to w
    then record (settled acc (position w)) {
      shares =
          (position w).shares
          + (if str_eq to w then amount else 0)
          - (if str_eq from w then amount else 0);
    }
    else position w

abbrev pub take_shares : ℕ → ℕ → Money.Position → Money.Position
take_shares n a p = record p { shares = p.shares - n; accrued = p.accrued - a }

abbrev pub give_shares : ℕ → ℕ → Money.Position → Money.Position
give_shares n a p = record p { shares = p.shares + n; accrued = p.accrued + a }

abbrev pub recover :
    String → String → ℕ → ℕ → ℕ → (String → Money.Position) → String → Money.Position
recover from to acc n a position w =
    if str_eq to w
    then give_shares n a (settled acc (position w))
    else if str_eq from w
    then take_shares n a (settled acc (position w))
    else position w

-- No position is ahead of the accumulator.
abbrev pub IsBehind : Ledger → Type 0
IsBehind l = (w : String) → (l.position w).acc_checkpoint ≤ l.acc

-- How often a wallet stands in a list.
abbrev pub count : String → List String → ℕ
count w ws = sum_by (λ v. if str_eq w v then 1 else 0) ws

-- No wallet stands in the list twice.
abbrev pub IsDistinct : List String → Type 0
IsDistinct ws = (w : String) → count w ws ≤ 1

-- `wallets` are those that ever open a position.
module _ (wallets : List String) where
  abbrev pub outstanding : Ledger → ℕ
  outstanding l = sum_by (λ w. (l.position w).shares) wallets

  abbrev pub Listed : String → Type 0
  Listed w = 1 ≤ count w wallets

  pub data Step (l : Ledger) : EventData → Ledger → Type 0 where
    create : (mint : String) → Step l (project_created mint) l
    -- A deposit is split over the shares outstanding, the increment rounded down.
    deposit :
        (index period_start period_end : ℕ) (kind : DepositKind) (net acc_after : ℕ)
        → 1 ≤ outstanding l
        → acc_after ≡ l.acc + net * 2 ^ 64 / outstanding l
        → Step l
            (revenue_deposited index period_start period_end kind net (outstanding l) acc_after)
            (record l { acc = acc_after; deposited = l.deposited + net })
    opened :
        (w : String)
        → Listed w
        → Step l
            (position_opened w)
            (record l { position = change w (λ _. empty_at l.acc) l.position })
    closed :
        (w : String)
        → Listed w
        → Step l
            (position_closed w)
            (record l { position = change w (λ _. empty_at l.acc) l.position })
    -- Shares are sold only before the first deposit, so there is nothing to settle.
    bought :
        (w : String) (n : ℕ)
        → Listed w
        → (l.position w).acc_checkpoint ≡ l.acc
        → Step l
            (shares_purchased w n)
            (record l { position = change w (λ p. record p { shares = p.shares + n }) l.position })
    refund :
        (w : String)
        → Listed w
        → Step l
            (refunded w)
            (record l { position = change w (λ p. record p { shares = 0 }) l.position })
    transfer :
        (from to : String) (amount : ℕ)
        → Listed from
        → Listed to
        → amount ≤ (l.position from).shares
        → Step l
            (shares_transferred from to amount)
            (record l { position = move from to l.acc amount l.position })
    -- A claim pays everything that is accrued once the position is settled.
    claim :
        (w : String) (amount : ℕ)
        → Listed w
        → amount ≡ (settled l.acc (l.position w)).accrued
        → Step l (claimed w amount) (record l {
          position = change w (λ p. record (settled l.acc p) { accrued = 0 }) l.position;
          paid = change w (λ n. n + amount) l.paid;
        })
    recovery :
        (from to : String) (n a : ℕ)
        → Listed from
        → Listed to
        → from ≢ to
        → n ≤ (l.position from).shares
        → a ≤ (settled l.acc (l.position from)).accrued
        → Step l
            (recovery_executed from to n a)
            (record l { position = recover from to l.acc n a l.position })
    unrelated : Step l other l

  -- A history of events takes one ledger to another.
  pub data Run : Ledger → List StoredEvent → Ledger → Type 0 where
    done : {l : Ledger} → Run l [] l
    next :
        {l m k : Ledger} (e : StoredEvent) {es : List StoredEvent}
        → Step l e.content m
        → Run m es k
        → Run l (e ∷ es) k

  pub Run-append :
      {l m k : Ledger} {es fs : List StoredEvent} → Run l es m → Run m fs k → Run l (es ++ fs) k
  Run-append done s = s
  Run-append (next e st r) s = next e st (Run-append r s)
