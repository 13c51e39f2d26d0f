-- ===== src/Money/Tests.antt =====
-- The theorems on frontend/src/lib/solana/math.ts at concrete inputs.
use axel_sol.Prelude.{ℕ, ◌+◌, ◌*◌, ◌/◌, ◌≤◌, ◌≡◌, refl, arith, [], ◌∷◌}
use axel_sol.Money.{ok, FeeSplit, split_fee, Deposited, deposit, owed, acc_increment}
use axel_sol.Money.Fees.{split_fee_exact}
use axel_sol.Money.Accumulator.{owed_all, owed_all-deposit, owed_split}

split_fee_exact_example :
    (s : FeeSplit) × (split_fee 1_000_999 250 ≡ ok s)
    × (s.fee + s.rest ≡ 1_000_999)
    × (s.fee ≡ 1_000_999 * 250 / 10_000)
split_fee_exact_example = split_fee_exact 1_000_999 250 (omega arith) (omega arith)

abbrev month : Deposited
month = record { fee = 50; net = 950; acc_after = 5841468956674691352 }

month_lem : deposit 7 1000 500 3000 ≡ ok month
unfolding deposit split_fee acc_increment
month_lem = refl

owed_all-deposit_example :
    (total : ℕ) × (owed_all (1000 ∷ 1500 ∷ 500 ∷ []) month.acc_after 7 ≡ ok total) × (total ≤ 950)
owed_all-deposit_example =
    owed_all-deposit 7 1000 500 3000 (1000 ∷ 1500 ∷ 500 ∷ []) month_lem (omega arith)

abbrev half_unit : ℕ
half_unit = 9223372036854775808

first_half : owed 1 half_unit 0 ≡ ok 0
unfolding owed
first_half = refl

second_half : owed 1 18446744073709551616 half_unit ≡ ok 0
unfolding owed
second_half = refl

both_halves : owed 1 18446744073709551616 0 ≡ ok 1
unfolding owed
both_halves = refl

owed_split_example : (0 + 0 ≤ 1) × (1 ≤ 0 + 0 + 1)
owed_split_example =
    owed_split 1 0 half_unit 18446744073709551616 first_half second_half both_halves
