-- ===== src/Payouts.antt =====
-- backend/src/indexer/payouts.ts: one wallet's position in one project, replayed from the indexed
-- events, and the query of backend/src/indexer/indexer.store.ts that selects those events.
-- Amounts that the code keeps as decimal strings are numbers here. An event's data is typed by
-- the kind of event; the types that the replay does not name are `other`.
pub mod Ledger
pub mod Refinement
pub mod Solvency
pub mod Query
mod Tests
use axel_sol.Prelude.{
  ℕ, ◌+◌, ◌^◌, String, Bool, true, false, ◌||◌, Option, none, some, List, [], ◌∷◌, ◌++◌,
  if◌then◌else◌, str_eq, select,
}
use axel_sol.Prelude.Int.{ℤ, pos, ◌+ℤ◌, ◌-ℤ◌, ◌*ℤ◌, shr, lt_ℤ}

pub data DepositKind : Type 0 where
  regular final : DepositKind

pub data EventData : Type 0 where
  project_created : (share_mint : String) → EventData
  revenue_deposited :
      (index period_start period_end : ℕ) (kind : DepositKind) (net supply acc_after : ℕ)
      → EventData
  position_opened position_closed : (owner : String) → EventData
  shares_purchased : (owner : String) (shares : ℕ) → EventData
  refunded : (owner : String) → EventData
  shares_transferred : (from_owner to_owner : String) (amount : ℕ) → EventData
  claimed : (owner : String) (amount : ℕ) → EventData
  recovery_executed : (from_owner to_owner : String) (shares accrued_moved : ℕ) → EventData
  other : EventData

pub record StoredEvent : Type 0 where
  pub id : ℕ
  pub signature : String
  pub block_time : Option ℕ
  pub content : EventData

pub record PeriodPayout : Type 0 where
  pub id : ℕ
  pub project : String
  pub index : ℕ
  pub period_start : ℕ
  pub period_end : ℕ
  pub kind : DepositKind
  pub net : ℕ
  pub supply : ℕ
  pub deposited_at : Option ℕ
  pub signature : String
  pub earned : ℤ

pub record ClaimPayout : Type 0 where
  pub id : ℕ
  pub project : String
  pub amount : ℕ
  pub claimed_at : Option ℕ
  pub signature : String

pub record ProjectPayout : Type 0 where
  pub project : String
  pub mint : Option String
  pub shares : ℤ
  pub claimed : ℕ
  pub pending : ℤ

pub record PositionReplay : Type 0 where
  pub summary : ProjectPayout
  pub periods : List PeriodPayout
  pub claims : List ClaimPayout

pub record Position : Type 0 where
  pub shares : ℤ
  pub checkpoint : ℤ
  pub accrued : ℤ

-- The local variables of `replayPosition`.
pub record State : Type 0 where
  pub acc : ℤ
  pub position : Position
  pub mint : Option String
  pub claimed : ℕ
  pub periods : List PeriodPayout
  pub claims : List ClaimPayout

unfoldable pub owed : ℤ → ℤ → ℤ → ℤ
owed shares acc checkpoint = shr (shares *ℤ (acc -ℤ checkpoint)) (2 ^ 64)

abbrev pub empty : ℤ → Position
empty acc = record { shares = pos 0; checkpoint = acc; accrued = pos 0 }

unfoldable pub settle : ℤ → Position → Position
settle acc p = record p { accrued = p.accrued +ℤ owed p.shares acc p.checkpoint; checkpoint = acc }

abbrev pub initial : State
initial = record {
  acc = pos 0;
  position = empty (pos 0);
  mint = none;
  claimed = 0;
  periods = [];
  claims = [];
}

-- The three cases that settle, each over the position that `settle` leaves.
abbrev moved : Bool → Bool → ℕ → Position → Position
moved from to amount p = record p {
  shares = p.shares +ℤ ((if to then pos amount else pos 0) -ℤ (if from then pos amount else pos 0));
}

abbrev recovered : Bool → ℕ → ℕ → Position → Position
recovered to shares accrued_moved p =
    if to
    then record p { shares = p.shares +ℤ pos shares; accrued = p.accrued +ℤ pos accrued_moved }
    else record p { shares = p.shares -ℤ pos shares; accrued = p.accrued -ℤ pos accrued_moved }

module _ (project wallet : String) where
  unfoldable pub step : State → StoredEvent → State
  step s e = elim e.content [
    | project_created share_mint ↦ record s { mint = some share_mint }
    | revenue_deposited index period_start period_end kind net supply acc_after ↦ record s {
      acc = pos acc_after;
      periods =
          if lt_ℤ (pos 0) s.position.shares
          then s.periods
            ++ record {
              id = e.id;
              project = project;
              index = index;
              period_start = period_start;
              period_end = period_end;
              kind = kind;
              net = net;
              supply = supply;
              deposited_at = e.block_time;
              signature = e.signature;
              earned = owed s.position.shares (pos acc_after) s.acc;
            }
              ∷ []
          else s.periods;
    }
    | position_opened owner ↦ if str_eq owner wallet then record s { position = empty s.acc } else s
    | position_closed owner ↦ if str_eq owner wallet then record s { position = empty s.acc } else s
    | shares_purchased owner shares ↦
        if str_eq owner wallet
        then record s { position = record s.position { shares = s.position.shares +ℤ pos shares } }
        else s
    | refunded owner ↦
        if str_eq owner wallet
        then record s { position = record s.position { shares = pos 0 } }
        else s
    | shares_transferred from to amount ↦
        if str_eq from wallet || str_eq to wallet
        then record s {
          position = moved (str_eq from wallet) (str_eq to wallet) amount (settle s.acc s.position);
        }
        else s
    | claimed owner amount ↦
        if str_eq owner wallet
        then record s {
          position = record (settle s.acc s.position) { accrued = pos 0 };
          claimed = s.claimed + amount;
          claims =
              s.claims
              ++ record {
                id = e.id;
                project = project;
                amount = amount;
                claimed_at = e.block_time;
                signature = e.signature;
              }
                ∷ [];
        }
        else s
    | recovery_executed from to shares accrued_moved ↦
        if str_eq from wallet || str_eq to wallet
        then record s {
          position = recovered (str_eq to wallet) shares accrued_moved (settle s.acc s.position);
        }
        else s
    | other ↦ s
  ]

  -- The loop over the events.
  unfoldable pub run : State → List StoredEvent → State
  run s [] = s
  run s (e ∷ es) = run (step s e) es

  unfoldable pub replay_position : List StoredEvent → PositionReplay
  replay_position events =
      let s = run initial events in
      record {
        summary = record {
          project = project;
          mint = s.mint;
          shares = s.position.shares;
          claimed = s.claimed;
          pending = s.position.accrued +ℤ owed s.position.shares s.acc s.position.checkpoint;
        };
        periods = s.periods;
        claims = s.claims;
      }

-- `IndexerStore.positionEvents` over the events of one project, which are in the order of ids.
unfoldable pub concerns : String → StoredEvent → Bool
concerns owner e = elim e.content [
  | project_created _ ↦ true
  | revenue_deposited _ _ _ _ _ _ _ ↦ true
  | position_opened o ↦ str_eq o owner
  | position_closed o ↦ str_eq o owner
  | shares_purchased o _ ↦ str_eq o owner
  | refunded o ↦ str_eq o owner
  | shares_transferred from to _ ↦ str_eq from owner || str_eq to owner
  | claimed o _ ↦ str_eq o owner
  | recovery_executed from to _ _ ↦ str_eq from owner || str_eq to owner
  | other ↦ false
]

unfoldable pub position_events : String → List StoredEvent → List StoredEvent
position_events owner events = select (concerns owner) events
