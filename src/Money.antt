-- ===== src/Money.antt =====
-- The fixed-point revenue math of frontend/src/lib/solana/math.ts.
-- The arguments are the unsigned values that the program's accounts hold, so they are natural
-- numbers. Where the code checks a difference that may be negative, the check is written out.
pub mod Fees
pub mod Accumulator
mod Tests
use axel_sol.Prelude.{ℕ, ◌+◌, ◌-◌, ◌*◌, ◌/◌, ◌^◌, ◌≡◌, Bool, arith, ltb, ◌==◌, if◌then◌else◌}

pub data MathErrorKind : Type 0 where
  overflow division_by_zero checkpoint_ahead invalid_bps : MathErrorKind

pub data Checked {ℓ} (A : Type ℓ) : Type ℓ where
  ok : A → Checked A
  err : MathErrorKind → Checked A

infixl 5 ◌>>=◌
abbrev pub ◌>>=◌ {ℓ κ} : {A : Type ℓ} {B : Type κ} → Checked A → (A → Checked B) → Checked B
ok a >>= f = f a
err e >>= f = err e

abbrev pub bps_denominator : ℕ
bps_denominator = 10_000

abbrev pub u64_max : ℕ
u64_max = 2 ^ 64 - 1

abbrev pub u128_max : ℕ
u128_max = 2 ^ 128 - 1

unfoldable pub u64 : ℕ → Checked ℕ
u64 value = if ltb u64_max value then err overflow else ok value

-- `u64(a - b)`: a negative difference is refused like one that is too large.
unfoldable pub u64_sub : ℕ → ℕ → Checked ℕ
unfolding u64
u64_sub a b = if ltb a b then err overflow else u64 (a - b)

pub record FeeSplit : Type 0 where
  pub fee : ℕ
  pub rest : ℕ

unfoldable pub split_fee : ℕ → ℕ → Checked FeeSplit
unfolding u64 u64_sub
split_fee amount bps = if ltb bps_denominator bps then err invalid_bps else do
  fee ← u64 (amount * bps / bps_denominator)
  rest ← u64_sub amount fee
  ok (record { fee = fee; rest = rest })

unfoldable pub shares_value : ℕ → ℕ → Checked ℕ
unfolding u64
shares_value shares price_per_share = u64 (shares * price_per_share)

unfoldable pub pro_rata : ℕ → ℕ → ℕ → Checked ℕ
unfolding u64
pro_rata amount part whole =
    if whole == 0 then err division_by_zero else u64 (amount * part / whole)

unfoldable pub acc_increment : ℕ → ℕ → Checked ℕ
acc_increment net supply = if supply == 0 then err division_by_zero else ok (net * 2 ^ 64 / supply)

unfoldable pub owed : ℕ → ℕ → ℕ → Checked ℕ
unfolding u64
owed shares acc checkpoint =
    if ltb acc checkpoint
    then err checkpoint_ahead
    else let product = shares * (acc - checkpoint) in
      if ltb u128_max product then err overflow else u64 (product / 2 ^ 64)

unfoldable pub settled_accrued : ℕ → ℕ → ℕ → ℕ → Checked ℕ
unfolding u64
settled_accrued shares checkpoint accrued acc = do
  earned ← owed shares acc checkpoint
  u64 (accrued + earned)

pub record Deposited : Type 0 where
  pub fee : ℕ
  pub net : ℕ
  pub acc_after : ℕ

unfoldable pub deposit : ℕ → ℕ → ℕ → ℕ → Checked Deposited
deposit acc gross fee_bps supply = do
  split ← split_fee gross fee_bps
  growth ← acc_increment split.rest supply
  let acc_after = acc + growth
  if ltb u128_max acc_after
      then err overflow
      else ok (record { fee = split.fee; net = split.rest; acc_after = acc_after })

pub record Position : Type 0 where
  pub shares : ℕ
  pub acc_checkpoint : ℕ
  pub accrued : ℕ

unfoldable pub pending_revenue : Position → ℕ → Checked ℕ
pending_revenue position acc_per_share =
    settled_accrued position.shares position.acc_checkpoint position.accrued acc_per_share
