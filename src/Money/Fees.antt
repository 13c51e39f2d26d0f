-- ===== src/Money/Fees.antt =====
-- splitFee, sharesValue and proRata of frontend/src/lib/solana/math.ts.
use axel_sol.Prelude.{ℕ, ◌+◌, ◌-◌, ◌*◌, ◌/◌, ◌≤◌, ◌≡◌, refl, arith}
use axel_sol.Money.{ok, FeeSplit, split_fee, u64_max}

-- At a rate of at most 10 000 basis points every u64 amount is split, into the floor of the
-- fee and a rest such that the two add up to the amount.
pub split_fee_exact :
    (amount bps : ℕ)
    → amount ≤ u64_max
    → bps ≤ 10_000
    → (s : FeeSplit) × (split_fee amount bps ≡ ok s)
      × (s.fee + s.rest ≡ amount)
      × (s.fee ≡ amount * bps / 10_000)
unfolding split_fee
split_fee_exact amount bps fits rate =
    let le : amount * bps / 10_000 ≤ amount = grind arith in
    (
      record { fee = amount * bps / 10_000; rest = amount - amount * bps / 10_000 },
      ground arith,
      omega arith,
      refl,
    )
