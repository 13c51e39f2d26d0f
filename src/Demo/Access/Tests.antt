-- ===== src/Demo/Access/Tests.antt =====
-- The limits on three requests, two of them of one wallet, that run at once.
use axel_sol.Prelude.{ℕ, ◌≡◌, refl, String, Bool, true, false, List, [], ◌∷◌, map}
use axel_sol.Prelude.Int.{◌+ℤ◌, ◌-ℤ◌}
use axel_sol.Demo.{utc_day}
use axel_sol.Demo.Store.{live, set_if_absent, increment, decrement, count}
use axel_sol.Demo.Access.{
  arrived, granted, refused, in_progress, transaction_failed, AccessRequest, Turn, next_call,
  take_turn, run,
}
use axel_sol.Demo.Access.Runs.{opened}

abbrev asks : String → AccessRequest
asks wallet = record { wallet = wallet; ip = "127.0.0.1"; now = 1_790_000_000; phase = arrived }

abbrev requests : List AccessRequest
requests = asks "W" ∷ asks "W" ∷ asks "V" ∷ []

abbrev turn : Bool → ℕ → Turn
turn landed i = record { request = i; ms = 1_790_000_000_000; landed = landed }

abbrev turns : List Turn
turns = map (turn true) (0 ∷ 1 ∷ 1 ∷ 0 ∷ 2 ∷ 1 ∷ 1 ∷ 2 ∷ 2 ∷ 2 ∷ 1 ∷ [])

-- The transaction of the third request is refused.
abbrev third_fails : List Turn
third_fails = map (turn false) (2 ∷ 2 ∷ 2 ∷ [])

ends :
    map (λ (r : AccessRequest). r.phase) (run third_fails (run turns (opened requests))).requests
    ≡ refused in_progress ∷ granted ∷ refused transaction_failed ∷ []
unfolding run take_turn next_call live set_if_absent increment decrement count utc_day ◌+ℤ◌ ◌-ℤ◌
ends = refl
