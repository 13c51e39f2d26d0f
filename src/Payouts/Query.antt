-- ===== src/Payouts/Query.antt =====
-- `positionEvents` of backend/src/indexer/indexer.store.ts against the replay that it feeds.
use axel_sol.Prelude.{
  String, ◌≡◌, refl, false, List, [], ◌∷◌, arith, inl, inr, Bool-cases, select, select-cons_pass,
  select-cons_skip,
}
use axel_sol.Payouts.{
  EventData, StoredEvent, State, step, run, replay_position, concerns, position_events,
  project_created, revenue_deposited, position_opened, position_closed, shares_purchased, refunded,
  shares_transferred, claimed, recovery_executed, other,
}

module _ (project wallet : String) where
  step_of_unconcerned :
      (s : State) (e : StoredEvent) → concerns wallet e ≡ false → step project wallet s e ≡ s
  unfolding step concerns
  step_of_unconcerned s e h = by_kind e.content h
    where
      by_kind :
          (c : EventData)
          → concerns wallet (record e { content = c }) ≡ false
          → step project wallet s (record e { content = c }) ≡ s
      by_kind (project_created m) h = cc
      by_kind (revenue_deposited _ _ _ _ _ _ _) h = cc
      by_kind (position_opened o) h = ground arith
      by_kind (position_closed o) h = ground arith
      by_kind (shares_purchased o n) h = ground arith
      by_kind (refunded o) h = ground arith
      by_kind (shares_transferred f t n) h = ground arith
      by_kind (claimed o n) h = ground arith
      by_kind (recovery_executed f t n a) h = ground arith
      by_kind other h = refl

  run-select :
      (s : State) (es : List StoredEvent)
      → run project wallet s (select (concerns wallet) es) ≡ run project wallet s es
  unfolding run
  run-select s [] = unfold select in refl
  run-select s (e ∷ es) = elim (Bool-cases (concerns wallet e)) [
    | inl kept ↦ rw (select-cons_pass _ e es kept) (run-select (step project wallet s e) es)
    | inr skipped ↦
        rw (select-cons_skip _ e es skipped, step_of_unconcerned s e skipped) (run-select s es)
  ]

  -- The replay over the events that the query selects for the wallet is the replay over all of
  -- the project's events.
  pub replay_position-position_events :
      (events : List StoredEvent)
      → replay_position project wallet (position_events wallet events)
        ≡ replay_position project wallet events
  unfolding replay_position position_events
  replay_position-position_events events = rw run-select
