-- ===== src/Payouts/Tests.antt =====
-- The theorems on backend/src/indexer/payouts.ts at a short history of a car with two holders.
use axel_sol.Prelude.{
  ℕ, ◌+◌, ◌≤◌, ◌≡◌, ◌≢◌, ◌++◌, refl, sym, ◌∙◌, arith, none, String, List, [], ◌∷◌, eq_iff, sum_by,
}
use axel_sol.Prelude.Int.{pos, pos_part, ◌+ℤ◌, ◌-ℤ◌, ◌*ℤ◌, shr}
use axel_sol.Money.{ok, pending_revenue, settled_accrued}
use axel_sol.Payouts.{
  EventData, StoredEvent, regular, project_created, revenue_deposited, position_opened,
  shares_purchased, shares_transferred, claimed, recovery_executed, replay_position,
  position_events, run, step, settle, owed,
}
use axel_sol.Payouts.Ledger.{
  Ledger, start, settled, IsDistinct, Step, create, opened, bought, deposit, transfer, claim,
  recovery, Run, done, next, Run-append,
}
use axel_sol.Payouts.Refinement.{replay_position-Run, replay_position-pending_revenue}
use axel_sol.Payouts.Query.{replay_position-position_events}
use axel_sol.Payouts.Solvency.{total_net, replay_position_solvent}

abbrev at : ℕ → EventData → StoredEvent
at i c = record { id = i; signature = "s"; block_time = none; content = c }

abbrev holders : List String
holders = "ann" ∷ "bob" ∷ []

abbrev history : List StoredEvent
history =
    at 1 (project_created "mint")
    ∷ at 2 (position_opened "ann")
    ∷ at 3 (shares_purchased "ann" 3)
    ∷ at 4 (position_opened "bob")
    ∷ at 5 (revenue_deposited 0 20260901 20260930 regular 100 3 614891469123651720533)
    ∷ at 6 (shares_transferred "ann" "bob" 1)
    ∷ at 7 (claimed "ann" 99)
    ∷ at 8 (revenue_deposited 1 20261001 20261031 regular 100 3 1229782938247303441066)
    ∷ at 9 (recovery_executed "bob" "ann" 1 33)
    ∷ []

bob-ne-ann : ◌≢◌ {A = String} "bob" "ann"
bob-ne-ann e = cc ((eq_iff "bob" "ann").1 e)

add :
    {l m : Ledger} {es : List StoredEvent}
    → Run holders start es l
    → (e : StoredEvent) → Step holders l e.content m
    → Run holders start (es ++ e ∷ []) m
add r e st = Run-append holders r (next e st done)

steps : (l : Ledger) × Run holders start history l
steps =
    let a = add done (at 1 (project_created "mint")) (create "mint") in
    let b = add a (at 2 (position_opened "ann")) (opened "ann" (omega arith)) in
    let c = add b (at 3 (shares_purchased "ann" 3)) (bought "ann" 3 (omega arith) refl) in
    let d = add c (at 4 (position_opened "bob")) (opened "bob" (omega arith)) in
    let e =
      add d (at 5 (revenue_deposited 0 20260901 20260930 regular 100 3 614891469123651720533))
        (deposit 0 20260901 20260930 regular 100 _ (omega arith) refl) in
    let f =
      add e (at 6 (shares_transferred "ann" "bob" 1))
        (transfer "ann" "bob" 1 (omega arith) (omega arith) (omega arith)) in
    let g = add f (at 7 (claimed "ann" 99)) (claim "ann" 99 (omega arith) refl) in
    let h =
      add g (at 8 (revenue_deposited 1 20261001 20261031 regular 100 3 1229782938247303441066))
        (deposit 1 20261001 20261031 regular 100 _ (omega arith) refl) in
    (
      _,
      add h (at 9 (recovery_executed "bob" "ann" 1 33)) (
          recovery "bob" "ann" 1 33 (omega arith) (omega arith) bob-ne-ann (omega arith)
            (omega arith)),
    )

holders-IsDistinct : IsDistinct holders
holders-IsDistinct w = ground (arith, eq_iff w "ann", eq_iff w "bob", ann_or_bob w)
  where
    ann_or_bob : (w : String) → w ≡ "ann" → w ≡ "bob" → ⊥
    ann_or_bob w p q = bob-ne-ann (sym q ∙ p)

replay_position-Run_example :
    ((replay_position "car" "ann" history).summary.shares ≡ pos (steps.0.position "ann").shares)
    × ((replay_position "car" "ann" history).summary.claimed ≡ steps.0.paid "ann")
    × ((replay_position "car" "ann" history).summary.pending
        ≡ pos (settled steps.0.acc (steps.0.position "ann")).accrued)
replay_position-Run_example = replay_position-Run holders "car" "ann" history steps.0 steps.1

ann_after : pending_revenue (steps.0.position "ann") steps.0.acc ≡ ok 99
unfolding steps pending_revenue settled_accrued axel_sol.Money.owed
ann_after = refl

replay_position-pending_revenue_example :
    (replay_position "car" "ann" history).summary.pending ≡ pos 99
replay_position-pending_revenue_example =
    replay_position-pending_revenue holders "car" "ann" history steps.0 99 steps.1 ann_after

replay_position_solvent_example :
    sum_by
      (λ w.
        pos_part (replay_position "car" w history).summary.pending
        + (replay_position "car" w history).summary.claimed)
      holders
    ≤ total_net history
replay_position_solvent_example =
    replay_position_solvent holders holders-IsDistinct "car" history steps.0 steps.1

replay_position-position_events_example :
    replay_position "car" "bob" (position_events "bob" history)
    ≡ replay_position "car" "bob" history
replay_position-position_events_example = replay_position-position_events "car" "bob" history

-- What the replay shows at the end of the history.
ann_summary :
    ((replay_position "car" "ann" history).summary.claimed ≡ 99)
    × ((replay_position "car" "ann" history).summary.pending ≡ pos 99)
unfolding replay_position run step settle owed ◌+ℤ◌ ◌-ℤ◌ ◌*ℤ◌ shr
ann_summary = (refl, refl)
