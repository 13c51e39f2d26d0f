-- ===== src/Indexer/Stream/Tests.antt =====
-- A stream that loses its connection, reconnects and is closed.
use axel_sol.Prelude.{◌≡◌, refl, true, some, List, [], ◌∷◌}
use axel_sol.Indexer.Stream.{
  Stream, Input, subscribe, close, timer_fires, opened, lost, message, answer, notification,
  initial, step, run, outputs, connect, on_message, on_close,
}
use axel_sol.Indexer.Stream.Reconnect.{
  HasGap, announced, announced-outputs, Waits, run-Waits, opens_none, outputs_after_close,
}

abbrev reconnecting : List Input
reconnecting =
    opened 0
    ∷ message 0 (answer (some 7))
    ∷ message 0 (notification (some 7) (some ("logs", 3)))
    ∷ lost 0
    ∷ []

abbrev coming_back : List Input
coming_back =
    timer_fires
    ∷ message 1 (answer (some 8))
    ∷ message 1 (notification (some 8) (some ("more", 5)))
    ∷ []

abbrev after_loss : Stream
after_loss = run (step initial subscribe).0 reconnecting

gap_after_loss : HasGap after_loss
unfolding run step connect on_message on_close
gap_after_loss = (refl, refl)

announced-outputs_example : announced (outputs after_loss coming_back) ≡ true
announced-outputs_example = announced-outputs after_loss coming_back gap_after_loss

run-Waits_example : Waits (run (step initial subscribe).0 reconnecting)
run-Waits_example = run-Waits reconnecting

outputs_after_close_example : opens_none (outputs (step after_loss close).0 coming_back) ≡ true
outputs_after_close_example = outputs_after_close after_loss coming_back (refl, (refl, (refl, tt)))
