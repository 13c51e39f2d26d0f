-- ===== src/Payouts/Solvency.antt =====
-- What the replays of backend/src/indexer/payouts.ts show all wallets of a project together.
use axel_sol.Prelude.{
  ℕ, ◌+◌, ◌-◌, ◌*◌, ◌/◌, ◌^◌, ◌≤◌, ◌≡◌, ◌≢◌, refl, ap, arith, String, List, [], ◌∷◌, str_eq, eq_iff,
  inl, inr, Bool-cases, if◌then◌else◌, sum_by,
}
use axel_sol.Prelude.Int.{pos_part}
use axel_sol.Money
use axel_sol.Payouts.{EventData, StoredEvent, replay_position, revenue_deposited}
use axel_sol.Payouts.Ledger.{
  Ledger, start, settled, recover, outstanding, Step, create, deposit, opened, closed, bought,
  refund, transfer, claim, recovery, unrelated, Run, done, next, IsBehind, count, IsDistinct,
}
use axel_sol.Payouts.Refinement.{Step-IsBehind, replay_position-Run}

-- What a history deposited for holders.
abbrev pub net_of : EventData → ℕ
net_of (revenue_deposited _ _ _ _ net _ _) = net
net_of _ = 0

abbrev pub total_net : List StoredEvent → ℕ
total_net es = sum_by (λ e. net_of e.content) es

-- A wallet's claim on the vault in units of 2^-64, with what it was paid.
stake : Ledger → String → ℕ
stake l w =
    ((l.position w).accrued + l.paid w) * 2 ^ 64
    + (l.position w).shares * (l.acc - (l.position w).acc_checkpoint)

sum_by_le :
    (f g : String → ℕ) (ws : List String) → ((w : String) → f w ≤ g w) → sum_by f ws ≤ sum_by g ws
sum_by_le f g [] h = omega arith
sum_by_le f g (w ∷ ws) h = omega (arith, h w, sum_by_le f g ws h)

-- Two sums where one wallet gives what another gets.
sum_by_transfer :
    (f g : String → ℕ) (from to : String) (x : ℕ) (ws : List String)
    → ((w : String) → f w + (if str_eq from w then x else 0) ≤ g w + (if str_eq to w then x else 0))
    → sum_by f ws + count from ws * x ≤ sum_by g ws + count to ws * x
sum_by_transfer f g from to x [] h = omega arith
sum_by_transfer f g from to x (w ∷ ws) h = ground (arith, h w, sum_by_transfer f g from to x ws h)

sum_by_growth :
    (f g : String → ℕ) (shares : String → ℕ) (growth : ℕ) (ws : List String)
    → ((w : String) → f w ≤ g w + shares w * growth)
    → sum_by f ws ≤ sum_by g ws + sum_by shares ws * growth
sum_by_growth f g shares growth [] h = omega arith
sum_by_growth f g shares growth (w ∷ ws) h =
    omega (arith, h w, sum_by_growth f g shares growth ws h)

floor_share : (net supply : ℕ) → 1 ≤ supply → supply * (net * 2 ^ 64 / supply) ≤ net * 2 ^ 64
floor_share net supply h = grind arith

-- Settling loses what is rounded off.
settled_le :
    (acc : ℕ) (p : Money.Position)
    → (settled acc p).accrued * 2 ^ 64 ≤ p.accrued * 2 ^ 64 + p.shares * (acc - p.acc_checkpoint)
settled_le acc p = omega arith

grown :
    (shares acc growth checkpoint : ℕ)
    → checkpoint ≤ acc
    → shares * (acc + growth - checkpoint) ≡ shares * (acc - checkpoint) + shares * growth
grown shares acc growth checkpoint h =
    let e : acc + growth - checkpoint ≡ (acc - checkpoint) + growth = omega arith in
    omega (arith, ap (λ t. shares * t) e)

deposit_stake :
    (l : Ledger) (w : String) (net growth : ℕ)
    → (l.position w).acc_checkpoint ≤ l.acc
    → stake (record l { acc = l.acc + growth; deposited = l.deposited + net }) w
      ≤ stake l w + (l.position w).shares * growth
unfolding stake
deposit_stake l w net growth h =
    omega (arith, grown (l.position w).shares l.acc growth (l.position w).acc_checkpoint h)

recovery_stake :
    (l : Ledger) (w f t : String) (n a : ℕ)
    → f ≢ t
    → n ≤ (l.position f).shares
    → a ≤ (settled l.acc (l.position f)).accrued
    → stake (record l { position = recover f t l.acc n a l.position }) w
        + (if str_eq f w then a * 2 ^ 64 else 0)
      ≤ stake l w + (if str_eq t w then a * 2 ^ 64 else 0)
unfolding stake
recovery_stake l w f t n a ne e e' = elim (Bool-cases (str_eq f w)) [
  | inl own ↦
      let same : f ≡ w = (eq_iff f w).0 own in
      let fits : a ≤ (settled l.acc (l.position w)).accrued = rw same at e' in
      rw own (ground (arith, settled_le l.acc (l.position w), eq_iff t w))
  | inr not_own ↦ rw not_own (ground (arith, settled_le l.acc (l.position w)))
]

module _ (wallets : List String) (distinct : IsDistinct wallets) where
  total_stake : Ledger → ℕ
  total_stake l = sum_by (stake l) wallets

  Step-stake :
      {l m : Ledger} {c : EventData}
      → Step wallets l c m
      → IsBehind l
      → total_stake m ≤ total_stake l + net_of c * 2 ^ 64
  unfolding total_stake stake
  Step-stake (create _) h = omega arith
  Step-stake {l} {m} (deposit _ _ _ _ net acc some_ e) h =
      let g : ℕ = net * 2 ^ 64 / outstanding wallets l in
      rw e (
        omega (
          arith,
          floor_share net (outstanding wallets l) some_,
          sum_by_growth (stake (record l { acc = l.acc + g; deposited = l.deposited + net }))
              (stake l) (λ w. (l.position w).shares) g wallets (λ w. deposit_stake l w net g (h w)),
        ))
  Step-stake {l} {m} (opened o _) h =
      omega (arith, sum_by_le (stake m) (stake l) wallets (λ w. ground arith))
  Step-stake {l} {m} (closed o _) h =
      omega (arith, sum_by_le (stake m) (stake l) wallets (λ w. ground arith))
  Step-stake {l} {m} (bought o n _ e) h =
      omega (arith, sum_by_le (stake m) (stake l) wallets (λ w. ground (arith, eq_iff o w)))
  Step-stake {l} {m} (refund o _) h =
      omega (arith, sum_by_le (stake m) (stake l) wallets (λ w. ground arith))
  Step-stake {l} {m} (transfer f t n _ _ e) h = omega (
    arith,
    sum_by_le (stake m) (stake l) wallets (λ w. ground (arith, settled_le l.acc (l.position w))),
  )
  Step-stake {l} {m} (claim o n _ e) h = omega (
    arith,
    sum_by_le (stake m) (stake l) wallets
        (λ w. ground (arith, settled_le l.acc (l.position w), eq_iff o w)),
  )
  Step-stake {l} {m} (recovery f t n a listed _ ne e e') h =
      let total =
        sum_by_transfer (stake m) (stake l) f t (a * 2 ^ 64) wallets
          (λ w. recovery_stake l w f t n a ne e e') in
      let once : count f wallets ≡ 1 = omega (arith, distinct f) in
      let gives = rw once at total in
      let gets : count t wallets * (a * 2 ^ 64) ≤ 1 * (a * 2 ^ 64) = grind (arith, distinct t) in
      omega arith
  Step-stake unrelated h = omega arith

  Run-stake :
      {l k : Ledger} {es : List StoredEvent}
      → Run wallets l es k
      → IsBehind l
      → total_stake k ≤ total_stake l + total_net es * 2 ^ 64
  Run-stake done h = omega arith
  Run-stake (next e st rest) h =
      omega (arith, Step-stake st h, Run-stake rest (Step-IsBehind wallets st h))

  start-stake : (ws : List String) → sum_by (stake start) ws ≡ 0
  unfolding stake
  start-stake [] = refl
  start-stake (w ∷ ws) = omega (arith, start-stake ws)

  shown_le :
      (f : String → ℕ) (l : Ledger) (ws : List String)
      → ((w : String) → f w ≡ (settled l.acc (l.position w)).accrued + l.paid w)
      → sum_by f ws * 2 ^ 64 ≤ sum_by (stake l) ws
  unfolding stake
  shown_le f l [] h = omega arith
  shown_le f l (w ∷ ws) h = omega (arith, h w, settled_le l.acc (l.position w), shown_le f l ws h)

  -- For every history that the program allows, what the replays of all wallets of a project show
  -- as paid and as still to be claimed is together at most what its deposits brought in.
  pub replay_position_solvent :
      (project : String) (es : List StoredEvent) (l : Ledger)
      → Run wallets start es l
      → sum_by
          (λ w.
            pos_part (replay_position project w es).summary.pending
            + (replay_position project w es).summary.claimed)
          wallets
        ≤ total_net es
  unfolding total_stake
  replay_position_solvent project es l r =
      let shown =
        shown_le
          (λ w.
            pos_part (replay_position project w es).summary.pending
            + (replay_position project w es).summary.claimed)
          l wallets
          (λ w. let (_, p, q) = replay_position-Run wallets project w es l r in rw (p, q)) in
      let bound = Run-stake r (λ w. omega arith) in omega (arith, start-stake wallets)
