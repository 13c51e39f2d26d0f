-- ===== src/Payouts/Refinement.antt =====
-- The replay of backend/src/indexer/payouts.ts refines the program's ledger.
use axel_sol.Prelude.{
  ℕ, ◌+◌, ◌-◌, ◌*◌, ◌/◌, ◌^◌, ◌≤◌, ◌≡◌, refl, ap, ◌∙◌, arith, String, List, Bool, true, false,
  str_eq, eq_iff, ◌||◌, if◌then◌else◌,
}
use axel_sol.Prelude.Int.{pos, ◌+ℤ◌, ◌-ℤ◌, shr, pos-add, pos-sub, pos-mul}
use axel_sol.Money
use axel_sol.Money.{pending_revenue, settled_accrued}
use axel_sol.Payouts.{
  EventData, StoredEvent, State, Position, moved, recovered, owed, settle, step, run, initial,
  replay_position,
}
use axel_sol.Payouts.Ledger.{
  Ledger, start, settled, Step, create, deposit, opened, closed, bought, refund, transfer, claim,
  recovery, unrelated, Run, done, next, IsBehind,
}

owed-pos :
    (shares acc checkpoint : ℕ)
    → checkpoint ≤ acc
    → owed (pos shares) (pos acc) (pos checkpoint) ≡ pos (shares * (acc - checkpoint) / 2 ^ 64)
unfolding owed shr
owed-pos shares acc checkpoint h = rw (pos-sub acc checkpoint h, pos-mul)

-- The replay's variables hold the ledger's values for the wallet.
pub record Matches (s : State) (l : Ledger) (w : String) : Type 0 where
  pub acc : s.acc ≡ pos l.acc
  pub shares : s.position.shares ≡ pos (l.position w).shares
  pub checkpoint : s.position.checkpoint ≡ pos (l.position w).acc_checkpoint
  pub accrued : s.position.accrued ≡ pos (l.position w).accrued
  pub paid : s.claimed ≡ l.paid w

module _ (wallets : List String) where
  pub Step-IsBehind : {l m : Ledger} {c : EventData} → Step wallets l c m → IsBehind l → IsBehind m
  Step-IsBehind (create _) h w = h w
  Step-IsBehind (deposit _ _ _ _ _ _ _ e) h w = omega (arith, h w)
  Step-IsBehind {l} (opened o _) h w = ground (arith, h w)
  Step-IsBehind (closed o _) h w = ground (arith, h w)
  Step-IsBehind (bought o n _ e) h w = ground (arith, h w)
  Step-IsBehind (refund o _) h w = ground (arith, h w)
  Step-IsBehind (transfer f t n _ _ e) h w = ground (arith, h w)
  Step-IsBehind (claim o n _ e) h w = ground (arith, h w)
  Step-IsBehind (recovery f t n a listed _ ne e e') h w = ground (arith, h w)
  Step-IsBehind unrelated h w = h w

-- The shares of a position that an amount moves from, to, or both.
moved-pos :
    (from to : Bool) (n held : ℕ) (p : Position)
    → p.shares ≡ pos held
    → (from ≡ true → n ≤ held)
    → (moved from to n p).shares ≡ pos (held + (if to then n else 0) - (if from then n else 0))
unfolding ◌+ℤ◌ ◌-ℤ◌
moved-pos true true n held p e h = ground (arith, h refl)
moved-pos true false n held p e h = ground (arith, h refl)
moved-pos false true n held p e h = ground arith
moved-pos false false n held p e h = ground arith

-- What a recovery leaves of one side's position.
recovered-pos :
    (from to : Bool) (n a held owing : ℕ) (p : Position)
    → p.shares ≡ pos held
    → p.accrued ≡ pos owing
    → (from ≡ true → (n ≤ held) × (a ≤ owing))
    → (from || to) ≡ true
    → ((recovered to n a p).shares ≡ pos (if to then held + n else held - n))
      × ((recovered to n a p).accrued ≡ pos (if to then owing + a else owing - a))
      × ((recovered to n a p).checkpoint ≡ p.checkpoint)
unfolding ◌+ℤ◌ ◌-ℤ◌
recovered-pos from true n a held owing p e e' h own = ground arith
recovered-pos true false n a held owing p e e' h own = ground (arith, h refl)
recovered-pos false false n a held owing p e e' h own = cc

held_of_own :
    (l : Ledger) (from w : String) (n : ℕ)
    → n ≤ (l.position from).shares
    → str_eq from w ≡ true
    → n ≤ (l.position w).shares
held_of_own l from w n h own = rw ((eq_iff from w).0 own) at h

module _ (wallets : List String) (project w : String) where
  settle-Matches :
      {s : State} {l : Ledger}
      → Matches s l w
      → IsBehind l
      → (settle s.acc s.position).accrued ≡ pos (settled l.acc (l.position w)).accrued
  unfolding settle
  settle-Matches {s} {l} m h =
      rw (m.acc, m.shares, m.checkpoint, m.accrued, owed-pos _ _ _ (h w), pos-add)

  Step-Matches :
      {l l' : Ledger} {c : EventData} (s : State) (e : StoredEvent)
      → Step wallets l c l'
      → IsBehind l
      → Matches s l w
      → Matches (step project w s (record e { content = c })) l' w
  unfolding step settle ◌+ℤ◌ ◌-ℤ◌
  Step-Matches s e (create _) h m = ground arith
  Step-Matches s e (deposit _ _ _ _ _ _ _ _) h m = ground arith
  Step-Matches s e (opened o _) h m = ground arith
  Step-Matches s e (closed o _) h m = ground arith
  Step-Matches s e (bought o n _ _) h m = ground arith
  Step-Matches s e (refund o _) h m = ground arith
  Step-Matches {l} s e (transfer f t n _ _ fits) h m = ground (
    arith,
    settle-Matches m h,
    moved-pos (str_eq f w) (str_eq t w) n (l.position w).shares (settle s.acc s.position) m.shares
        (held_of_own l f w n fits),
  )
  Step-Matches s e (claim o n _ _) h m = ground (arith, settle-Matches m h)
  Step-Matches {l} s e (recovery f t n a _ _ _ fits fits') h m = ground (
    arith,
    recovered-pos (str_eq f w) (str_eq t w) n a (l.position w).shares
        (settled l.acc (l.position w)).accrued (settle s.acc s.position) m.shares
        (settle-Matches m h)
        (λ own. (held_of_own l f w n fits own, rw ((eq_iff f w).0 own) at fits')),
  )
  Step-Matches s e unrelated h m = m

  Run-Matches :
      {l k : Ledger} {es : List StoredEvent} (s : State)
      → Run wallets l es k
      → IsBehind l
      → Matches s l w
      → Matches (run project w s es) k w × IsBehind k
  unfolding run
  Run-Matches s done h m = (m, h)
  Run-Matches s (next e st rest) h m =
      Run-Matches (step project w s e) rest (Step-IsBehind wallets st h) (Step-Matches s e st h m)

  initial-Matches : Matches initial start w
  initial-Matches = record {
    acc = refl;
    shares = refl;
    checkpoint = refl;
    accrued = refl;
    paid = refl;
  }

  -- For every history of a project that the program allows, the replay of a wallet returns what
  -- the ledger holds of it: its shares, what it was paid, and as `pending` what is accrued plus
  -- what the shares earned since the position's checkpoint, rounded down.
  pub replay_position-Run :
      (es : List StoredEvent) (l : Ledger)
      → Run wallets start es l
      → ((replay_position project w es).summary.shares ≡ pos (l.position w).shares)
        × ((replay_position project w es).summary.claimed ≡ l.paid w)
        × ((replay_position project w es).summary.pending
            ≡ pos (settled l.acc (l.position w)).accrued)
  unfolding replay_position
  replay_position-Run es l r =
      let (m, behind) = Run-Matches initial r (λ v. omega arith) initial-Matches in
      (m.shares, m.paid, unfold settle in settle-Matches m behind)

  -- For every history of a project that the program allows, wherever `pendingRevenue` of the
  -- frontend's math gives an amount for the ledger's position, the replay's `pending` is that
  -- amount.
  pub replay_position-pending_revenue :
      (es : List StoredEvent) (l : Ledger) (amount : ℕ)
      → Run wallets start es l
      → pending_revenue (l.position w) l.acc ≡ Money.ok amount
      → (replay_position project w es).summary.pending ≡ pos amount
  unfolding pending_revenue settled_accrued Money.owed
  replay_position-pending_revenue es l amount r e =
      let (_, _, p) = replay_position-Run es l r in p ∙ ap pos (ground arith)
