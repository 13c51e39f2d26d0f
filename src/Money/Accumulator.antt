-- ===== src/Money/Accumulator.antt =====
-- The accumulator of frontend/src/lib/solana/math.ts: deposits and what holders are owed.
use axel_sol.Prelude.{ℕ, ◌+◌, ◌-◌, ◌*◌, ◌/◌, ◌^◌, ◌≤◌, ◌≡◌, refl, ap, arith, List, [], ◌∷◌, sum_by}
use axel_sol.Money.{
  Checked, ok, ◌>>=◌, Deposited, deposit, owed, u64_max, split_fee, acc_increment, u128_max,
}

abbrev pub total_shares : List ℕ → ℕ
total_shares holders = sum_by (λ s. s) holders

-- What holders with these shares are owed together between two values of the accumulator.
pub owed_all : List ℕ → ℕ → ℕ → Checked ℕ
owed_all [] acc checkpoint = ok 0
owed_all (shares ∷ rest) acc checkpoint = do
  first ← owed shares acc checkpoint
  others ← owed_all rest acc checkpoint
  ok (first + others)

owed_bounded :
    (shares acc growth : ℕ)
    → shares * growth ≤ u64_max * 2 ^ 64
    → owed shares (acc + growth) acc ≡ ok (shares * growth / 2 ^ 64)
unfolding owed
owed_bounded shares acc growth h =
    let e : acc + growth - acc ≡ growth = omega arith in rw e (ground arith)

owed_all_bounded :
    (holders : List ℕ) (acc growth : ℕ)
    → total_shares holders * growth ≤ u64_max * 2 ^ 64
    → (total : ℕ) × (owed_all holders (acc + growth) acc ≡ ok total)
      × (total * 2 ^ 64 ≤ total_shares holders * growth)
unfolding owed_all
owed_all_bounded [] acc growth h = (0, refl, omega arith)
owed_all_bounded (s ∷ rest) acc growth h =
    let (total, e, le) = owed_all_bounded rest acc growth (grind arith) in
    (s * growth / 2 ^ 64 + total, rw (owed_bounded s acc growth (grind arith), e), omega arith)

pub record IsDeposit (acc gross fee_bps supply : ℕ) (d : Deposited) : Type 0 where
  pub positive : 1 ≤ supply
  pub split : d.fee + d.net ≡ gross
  pub growth : d.acc_after ≡ acc + d.net * 2 ^ 64 / supply
  pub net_fits : d.net ≤ u64_max
  pub acc_fits : d.acc_after ≤ u128_max

pub deposit-IsDeposit :
    (acc gross fee_bps supply : ℕ) {d : Deposited}
    → deposit acc gross fee_bps supply ≡ ok d
    → IsDeposit acc gross fee_bps supply d
unfolding deposit split_fee acc_increment
deposit-IsDeposit acc gross fee_bps supply h = ground arith

floor_share : (net supply : ℕ) → 1 ≤ supply → supply * (net * 2 ^ 64 / supply) ≤ net * 2 ^ 64
floor_share net supply h = grind arith

-- After a deposit is applied, holders whose shares are at most the supply it was split over are
-- owed an amount each of whose parts is computed without an error, and together at most the net
-- of the deposit.
pub owed_all-deposit :
    (acc gross fee_bps supply : ℕ) (holders : List ℕ) {d : Deposited}
    → deposit acc gross fee_bps supply ≡ ok d
    → total_shares holders ≤ supply
    → (total : ℕ) × (owed_all holders d.acc_after acc ≡ ok total) × (total ≤ d.net)
owed_all-deposit acc gross fee_bps supply holders {d} h le =
    let facts = deposit-IsDeposit acc gross fee_bps supply h in
    let g : ℕ = d.net * 2 ^ 64 / supply in
    let bound : total_shares holders * g ≤ d.net * 2 ^ 64 =
      grind (arith, floor_share d.net supply facts.positive) in
    let (total, e, below) = owed_all_bounded holders acc g (omega (arith, facts.net_fits)) in
    (total, rw facts.growth e, omega arith)

pub owed_floor :
    (shares acc checkpoint : ℕ) {v : ℕ}
    → owed shares acc checkpoint ≡ ok v
    → (checkpoint ≤ acc) × (v ≡ shares * (acc - checkpoint) / 2 ^ 64)
unfolding owed
owed_floor shares acc checkpoint h = ground arith

spread : (s c m a : ℕ) → c ≤ m → m ≤ a → s * (a - c) ≡ s * (m - c) + s * (a - m)
spread s c m a h k =
    let e : a - c ≡ (m - c) + (a - m) = omega arith in omega (arith, ap (λ t. s * t) e)

-- Settling a holder at a value of the accumulator in between never makes it owed more than one
-- settlement at the end does, and less by at most one base unit.
pub owed_split :
    (shares checkpoint mid acc : ℕ) {first second whole : ℕ}
    → owed shares mid checkpoint ≡ ok first
    → owed shares acc mid ≡ ok second
    → owed shares acc checkpoint ≡ ok whole
    → (first + second ≤ whole) × (whole ≤ first + second + 1)
owed_split shares checkpoint mid acc {first} {second} {whole} p q r =
    let (h, e) = owed_floor shares mid checkpoint p in
    let (k, e') = owed_floor shares acc mid q in
    let (_, e'') = owed_floor shares acc checkpoint r in
    omega (arith, spread shares checkpoint mid acc h k)
