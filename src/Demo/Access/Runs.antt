-- ===== src/Demo/Access/Runs.antt =====
-- Any interleaving of the access requests of frontend/src/lib/demo/server.
use axel_sol.Prelude.{ℕ, ◌*◌, ◌≡◌, String, none, some, List, get_elem?, sum_by}
use axel_sol.Demo.Access.{arrived, granted, AccessRequest, World}
use axel_sol.Demo.Access.Counted.{holds, exceeds, marks, own, Stands}

unfoldable pub held : List AccessRequest → ℕ
held rs = sum_by (λ r. holds r.phase) rs

unfoldable pub exceeding : List AccessRequest → ℕ
exceeding rs = sum_by (λ r. exceeds r.phase) rs

marked_for : List AccessRequest → String → ℕ
marked_for rs w = sum_by (λ r. marks r.phase * own r.wallet w) rs

-- The counter and the markers say of the requests what they should.
Counted : World → Type 0
Counted w = Stands w.entries (held w.requests) (exceeding w.requests) (marked_for w.requests)

abbrev pub HasArrived : AccessRequest → Type 0
HasArrived r = r.phase ≡ arrived

abbrev pub opened : List AccessRequest → World
opened rs = record { entries = λ k. none; requests = rs }

abbrev pub HasAccess : World → ℕ → String → Type 0
HasAccess w i wallet =
    (r : AccessRequest) × (get_elem? w.requests i ≡ some r)
    × (r.wallet ≡ wallet)
    × (r.phase ≡ granted)
