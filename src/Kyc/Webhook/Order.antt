-- ===== src/Kyc/Webhook/Order.antt =====
-- Events that arrive out of order.
use axel_sol.Prelude.{
  ℕ, ◌≤◌, ◌<◌, ◌≡◌, refl, sym, subst, ap, ◌∙◌, arith, String, Bool, true, false, Option, none, some,
  List, [], ◌∷◌, map, All, find, max, if◌then◌else◌,
}
use axel_sol.Kyc.{InvestorPlan, write, unchanged, blocked, plan_approval, plan_revocation}
use axel_sol.Kyc.Webhook.{
  Env, World, WalletBinding, WebhookResult, ignored, approve, finish, carry_out, unless_refused,
  IgnoreReason, refusal, jurisdiction_from_country, on_binding, on_decision, Action, act, ignore,
  done, UpdateOutcome, SumsubWebhookEvent, KycDecision, classify_event, decision_for, action_for,
  find_by_external_user_id, is_user, note_event, newest, record_applied_event, decide, apply,
  process, process_all, world_after, last_event_at, is_stale, update,
}

-- An event of the user from before a time.
abbrev pub IsOlder : String → ℕ → Env × SumsubWebhookEvent → Type 0
IsOlder user l (env, e) =
    (t : ℕ) × (e.created_at ≡ some t) × (t < l) × (e.external_user_id ≡ some user)

process_older :
    (user : String) (l : ℕ) (env : Env) (e : SumsubWebhookEvent) (w : World)
    → (m : ℕ) → last_event_at user w.bindings ≡ some m
    → l ≤ m
    → IsOlder user l (env, e)
    → world_after w (process env e w) ≡ w
unfolding process apply classify_event last_event_at
process_older user l env e w m at le (t, created, lt, named) = ground arith

find-map :
    (user applicant u : String) (at : Option ℕ) (bs : List WalletBinding) (b : WalletBinding)
    → find (is_user u) bs ≡ some b
    → find (is_user u) (map (note_event user applicant at) bs)
      ≡ some (note_event user applicant at b)
unfolding find
find-map user applicant u at [] b e = cc
find-map user applicant u at (x ∷ bs) b e = ground (arith, find-map user applicant u at bs b)

find-pass :
    (user : String) (bs : List WalletBinding) (b : WalletBinding)
    → find (is_user user) bs ≡ some b
    → is_user user b ≡ true
unfolding find
find-pass user [] b e = cc
find-pass user (x ∷ bs) b e = ground (arith, find-pass user bs b)

newest_ge : (last : Option ℕ) (t : ℕ) → (m : ℕ) × (newest last (some t) ≡ some m) × (t ≤ m)
newest_ge none t = (t, refl, omega arith)
newest_ge (some l) t = (max l t, refl, omega arith)

noted_at :
    (user applicant : String) (t : ℕ) (bs : List WalletBinding) (b : WalletBinding)
    → find_by_external_user_id user bs ≡ some b
    → (m : ℕ) × (last_event_at user (record_applied_event user applicant (some t) bs) ≡ some m)
      × (t ≤ m)
unfolding find_by_external_user_id last_event_at record_applied_event
noted_at user applicant t bs b e =
    let (m, em, le) = newest_ge b.last_event_at t in
    let own = find-pass user bs b e in
    let noted : find (is_user user) (map (note_event user applicant (some t)) bs)
        ≡ some (note_event user applicant (some t) b) =
      find-map user applicant user (some t) bs b e in
    (m, ground (arith, noted, own, em), le)

-- The user's binding has an event time of at least `t`.
abbrev Noted : String → ℕ → World → Type 0
Noted user t w = (m : ℕ) × (last_event_at user w.bindings ≡ some m) × (t ≤ m)

module _ (user : String) (t : ℕ) where
  -- Where a call acted on an event of the user at `t`, its time is noted.
  abbrev Notes : Option (World × WebhookResult) → Type 0
  Notes none = Unit
  Notes (some (w, ignored reason)) = Unit
  Notes (some (w, done o)) = Noted user t w

  finish-Notes :
      (p : InvestorPlan) (lands : Bool) (owner applicant : String) (w : World) (b : WalletBinding)
      → find_by_external_user_id user w.bindings ≡ some b
      → Notes (finish (carry_out p lands owner w) user applicant (some t))
  finish-Notes (unchanged x) lands owner applicant w b e = noted_at user applicant t w.bindings b e
  finish-Notes (blocked x) lands owner applicant w b e = noted_at user applicant t w.bindings b e
  finish-Notes (write r) false owner applicant w b e = tt
  finish-Notes (write r) true owner applicant w b e = noted_at user applicant t w.bindings b e

  unless_refused-Notes :
      (o : Option IgnoreReason) (w : World) (x : Option (World × WebhookResult))
      → Notes x
      → Notes (unless_refused o w x)
  unless_refused-Notes none w x h = h
  unless_refused-Notes (some reason) w x h = tt

  if_Notes :
      (b : Bool) (x y : Option (World × WebhookResult))
      → Notes x
      → Notes y
      → Notes (if b then x else y)
  if_Notes true x y h k = h
  if_Notes false x y h k = k

  module _ (env : Env) (w : World) where
    apply-Notes :
        (action : Action) (applicant owner : String) (b : WalletBinding)
        → find_by_external_user_id user w.bindings ≡ some b
        → Notes (apply env (some t) action applicant user owner w)
    unfolding apply decide update
    apply-Notes approve applicant owner b e =
        if_Notes (is_stale (some t) (last_event_at user w.bindings)) _ _ tt (
          unless_refused-Notes (refusal env (env.get_applicant applicant) user) w _ (
            finish-Notes
              (plan_approval (w.investors owner)
                (jurisdiction_from_country env (env.get_applicant applicant).country) env.now)
              env.lands owner applicant w b e))
    apply-Notes _ applicant owner b e =
        if_Notes (is_stale (some t) (last_event_at user w.bindings)) _ _ tt
          (finish-Notes (plan_revocation (w.investors owner)) env.lands owner applicant w b e)

    on_binding-Notes :
        (b : Option WalletBinding) (action : Action) (applicant : String)
        → find_by_external_user_id user w.bindings ≡ b
        → Notes (on_binding env b (some t) action applicant user w)
    on_binding-Notes none action applicant e = tt
    on_binding-Notes (some b) action applicant e =
        if_Notes env.has_authority _ none (apply-Notes action applicant b.wallet b e) tt

    -- A decision on an event names the user that the event names.
    abbrev Names : KycDecision → Type 0
    Names (ignore reason) = Unit
    Names (act action applicant u) = u ≡ user

    on_decision-Notes : (d : KycDecision) → Names d → Notes (on_decision env d (some t) w)
    on_decision-Notes (ignore reason) h = tt
    on_decision-Notes (act action applicant u) h =
        rw h (on_binding-Notes (find_by_external_user_id user w.bindings) action applicant refl)

    decision_for-Names :
        (other : IgnoreReason) (a : Option Action) (applicant named : Option String)
        → named ≡ some user
        → Names (decision_for other a applicant named)
    decision_for-Names other none applicant named h = tt
    decision_for-Names other (some a) none named h = tt
    decision_for-Names other (some a) (some x) none h = tt
    decision_for-Names other (some a) (some x) (some u) h = ground arith

    classify_event-Names :
        (e : SumsubWebhookEvent) → e.external_user_id ≡ some user → Names (classify_event e)
    unfolding classify_event
    classify_event-Names e h =
        decision_for-Names _ (action_for e) e.applicant_id e.external_user_id h

  done-Noted :
      (x : Option (World × WebhookResult)) (w : World) (o : UpdateOutcome)
      → x ≡ some (w, done o)
      → Notes x
      → Noted user t w
  done-Noted x w o e h = rw e at h

older_ignored :
    (user : String) (t : ℕ) (events : List (Env × SumsubWebhookEvent)) (w : World)
    → Noted user t w
    → All (IsOlder user t) events
    → process_all events w ≡ w
unfolding process_all
older_ignored user t [] w n h = refl
older_ignored user t ((env, e) ∷ events) w (m, at, le) (h, hs) =
    let same = process_older user t env e w m at le h in
    ap (process_all events) same ∙ older_ignored user t events w (m, at, le) hs

-- Once an event of a user was acted on, whatever its outcome, no older event of the same user
-- changes anything, in whatever number and circumstances they arrive.
pub process_all_older :
    (env : Env) (e : SumsubWebhookEvent) (w w' : World) (o : UpdateOutcome) (user : String) (t : ℕ)
    (older : List (Env × SumsubWebhookEvent))
    → e.external_user_id ≡ some user
    → e.created_at ≡ some t
    → process env e w ≡ some (w', done o)
    → All (IsOlder user t) older
    → process_all older w' ≡ w'
unfolding process
process_all_older env e w w' o user t older named created acted h =
    older_ignored user t older w'
      (done-Noted user t _ w' o acted (
        subst (λ c. Notes user t (on_decision env (classify_event e) c w)) (sym created)
          (on_decision-Notes user t env w (classify_event e)
            (classify_event-Names user t env w e named))))
      h
