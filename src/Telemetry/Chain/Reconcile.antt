-- ===== src/Telemetry/Chain/Reconcile.antt =====
-- What `reconcile` of the chain service makes of a batch whose outcome it did not see.
use axel_sol.Prelude.{
  ℕ, ◌+◌, ◌≤◌, ◌<◌, ◌≡◌, refl, arith, String, true, false, none, some, List, map, length, Text,
  text_eq_refl, leb, ==_refl, le→leb,
}
use axel_sol.Telemetry.Store.{
  Store, StoredDay, PlannedLink, ChainLink, Submission, expired, confirm_submission,
  abandon_submission, last,
}
use axel_sol.Telemetry.Chain.{
  Project, in_sync, pending, settle_pending, first_link, follows, precedes, chain_tip,
}
use axel_sol.Telemetry.Chain.Plan.{Chain, Leads, stay, step}

-- A planned link as the store gives it back while its batch is pending.
abbrev pub as_sent : String → PlannedLink → ChainLink
as_sent signature l = record {
  position = l.position;
  head_before = l.head_before;
  head_after = l.head_after;
  tx_signature = signature;
  confirmed_at = none;
}

-- The project account holds the chain.
abbrev pub Holds : Project → Chain → Type 0
Holds p c = (p.telemetry_count ≡ c.count) × (p.telemetry_head ≡ c.head)

module _ (digest : List ℕ → List ℕ) (signature : String) where
  first-Leads :
      {c k : Chain} {days : List StoredDay} {links : List PlannedLink} (first : ChainLink)
      → Leads digest c days links k
      → first_link (map (as_sent signature) links) ≡ some first
      → (first.position ≡ c.count + 1) × (first.head_before ≡ c.head)
  first-Leads first stay e = cc
  first-Leads first (step d l date position before after rest) e = (ground arith, ground arith)

  last-Leads :
      {c k : Chain} {days : List StoredDay} {links : List PlannedLink} (final : ChainLink)
      → Leads digest c days links k
      → last (map (as_sent signature) links) ≡ some final
      → (final.position ≡ k.count) × (final.head_after ≡ k.head)
  last-Leads final stay e = cc
  last-Leads final (step d l date position before after stay) e = (ground arith, ground arith)
  last-Leads final (step d l date position before after (step d' l' a b e' f rest)) e =
      last-Leads final (step d' l' a b e' f rest) e

  count-Leads :
      {c k : Chain} {days : List StoredDay} {links : List PlannedLink}
      → Leads digest c days links k
      → k.count ≡ c.count + length days
  count-Leads stay = omega arith
  count-Leads (step d l date position before after rest) = let h = count-Leads rest in omega arith

  follows-Holds :
      (p : Project) (k : Chain) (position : ℕ) (head : Text)
      → (position ≡ k.count) × (head ≡ k.head)
      → Holds p k
      → follows position head (chain_tip p) ≡ true
  unfolding chain_tip
  follows-Holds p k position head (a, b) (count, at) =
      rw (count, at, a, b, ==_refl k.count, text_eq_refl k.head) refl

  precedes-Holds :
      (p : Project) (c : Chain) (position : ℕ) (head : Text)
      → (position ≡ c.count + 1) × (head ≡ c.head)
      → Holds p c
      → precedes position head (chain_tip p) ≡ true
  unfolding chain_tip
  precedes-Holds p c position head (a, b) (count, at) =
      rw (count, at, a, b, ==_refl (c.count + 1), text_eq_refl c.head) refl

  ahead_of :
      (p : Project) (c : Chain) (position : ℕ) (head : Text)
      → c.count < position
      → Holds p c
      → follows position head (chain_tip p) ≡ false
  unfolding chain_tip
  ahead_of p c position head lt (count, at) = ground arith

  some_days :
      {days : List StoredDay} {c k : Chain} {links : List PlannedLink} (first : ChainLink)
      → Leads digest c days links k
      → first_link (map (as_sent signature) links) ≡ some first
      → c.count < k.count
  some_days first stay e = cc
  some_days first (step d l date position before after rest) e =
      let h = count-Leads rest in omega arith

  -- A pending batch that was planned from the chain `c` and would make it `k` is settled by what
  -- the project account holds. If it holds `k` the batch is confirmed. If it still holds `c` the
  -- batch stays pending up to its last valid block height, and is abandoned after it. In none of
  -- these cases is the car's chain found diverged.
  pub settle_pending-Leads :
      {c k : Chain} {days : List StoredDay} {links : List PlannedLink} (p : Project)
      (sub : Submission) (first final : ChainLink) (height now : ℕ) (s : Store)
      → Leads digest c days links k
      → first_link (map (as_sent signature) links) ≡ some first
      → last (map (as_sent signature) links) ≡ some final
      → (Holds p k
          → settle_pending p sub first final height now s
            ≡ (confirm_submission sub.signature now s, in_sync p))
        × (Holds p c
            → height ≤ sub.last_valid_block_height
            → settle_pending p sub first final height now s ≡ (s, pending p))
        × (Holds p c
            → sub.last_valid_block_height < height
            → settle_pending p sub first final height now s
              ≡ (abandon_submission sub.signature expired s, in_sync p))
  unfolding settle_pending
  settle_pending-Leads {c = c} {k = k} p sub first final height now s leads e f =
      let at_first = first-Leads first leads e in
      let at_last = last-Leads final leads f in
      let more = some_days first leads e in
      let past : c.count < final.position = rw at_last.0 more in
      (
        (λ h. rw (follows-Holds p k final.position final.head_after at_last h) refl),
        (λ h le.
            rw
              (
                ahead_of p c final.position final.head_after past h,
                precedes-Holds p c first.position first.head_before at_first h,
                le→leb height sub.last_valid_block_height le,
              )
              refl),
        (λ h lt.
            let off : leb height sub.last_valid_block_height ≡ false = ground arith in
            rw
              (
                ahead_of p c final.position final.head_after past h,
                precedes-Holds p c first.position first.head_before at_first h,
                off,
              )
              refl),
      )
