-- ===== src/Telemetry/Chain/Plan.antt =====
-- The links that `plan` of the chain service gives the collected days, and their batches.
use axel_sol.Prelude.{ℕ, zero, suc, ◌+◌, ◌≡◌, List, [], ◌∷◌, take, drop, Text}
use axel_sol.Telemetry.{next_head}
use axel_sol.Telemetry.Store.{StoredDay, PlannedLink}

-- The program's side: appending days to a chain, one `next_head` for each.
pub record Chain : Type 0 where
  pub count : ℕ
  pub head : Text

module _ (digest : List ℕ → List ℕ) where
  unfoldable pub append_all : Chain → List StoredDay → Chain
  append_all c [] = c
  append_all c (d ∷ days) =
      append_all (record { count = c.count + 1; head = next_head digest c.head d.date d.data_hash })
        days

  -- Links that lead a chain from one state to another, a day at each step.
  pub data Leads : Chain → List StoredDay → List PlannedLink → Chain → Type 0 where
    stay : {c : Chain} → Leads c [] [] c
    step :
        {c k : Chain} {days : List StoredDay} {links : List PlannedLink} (d : StoredDay)
        (l : PlannedLink)
        → l.date ≡ d.date
        → l.position ≡ c.count + 1
        → l.head_before ≡ c.head
        → l.head_after ≡ next_head digest l.head_before d.date d.data_hash
        → Leads (record { count = l.position; head = l.head_after }) days links k
        → Leads c (d ∷ days) (l ∷ links) k

  -- A batch of the days and the same batch of the links lead to where the rest goes on.
  pub Leads-batch :
      {c k : Chain} {days : List StoredDay} {links : List PlannedLink} (n : ℕ)
      → Leads c days links k
      → Leads c (take n days) (take n links) (append_all c (take n days))
        × Leads (append_all c (take n days)) (drop n days) (drop n links) k
  unfolding append_all
  Leads-batch zero h = (stay, h)
  Leads-batch (suc n) stay = (stay, stay)
  Leads-batch {c} (suc n) (step {days = days} d l date position before after rest) =
      let here : append_all (record { count = l.position; head = l.head_after }) (take n days)
          ≡ append_all
              (record { count = c.count + 1; head = next_head digest c.head d.date d.data_hash })
              (take n days) =
        rw (position, after, before) in
      let (taken, left) = Leads-batch n rest in
      (step d l date position before after (rw here at taken), rw here at left)
