-- ===== src/Kyc/Webhook/Frozen.antt =====
-- A sanctions freeze and the webhook.
use axel_sol.Prelude.{
  ℕ, ◌≡◌, ◌≢◌, refl, ap, ◌∙◌, arith, String, Bool, true, false, Option, none, some, List, [], ◌∷◌,
  str_eq, eq_iff, inl, inr, Bool-cases, if◌then◌else◌,
}
use axel_sol.Kyc.{
  InvestorRecord, InvestorPlan, frozen, write, unchanged, blocked, plan_approval, plan_revocation,
}
use axel_sol.Kyc.Webhook.{
  Env, World, Action, approve, carry_out, finish, unless_refused, on_binding, on_decision,
  IgnoreReason, WalletBinding, WebhookResult, UpdateOutcome, SumsubWebhookEvent, KycDecision, act,
  ignore, classify_event, find_by_external_user_id, update, refusal, decide, apply, process,
  process_all, world_after, last_event_at, is_stale, jurisdiction_from_country,
}

-- The wallet's record on the chain is frozen.
abbrev pub IsFrozen : String → InvestorRecord → World → Type 0
IsFrozen wallet r w = (w.investors wallet ≡ some r) × (r.status ≡ frozen)

-- A plan that writes nothing over a frozen record.
abbrev Respects : (Option InvestorRecord → InvestorPlan) → Type 0
Respects plan = (r s : InvestorRecord) → r.status ≡ frozen → plan (some r) ≢ write s

module _ (wallet : String) (r : InvestorRecord) where
  approval-Respects : (j now : ℕ) → Respects (λ c. plan_approval c j now)
  unfolding plan_approval
  approval-Respects j now a s h e = ground arith

  revocation-Respects : Respects plan_revocation
  unfolding plan_revocation
  revocation-Respects a s h e = ground arith

  -- Frozen still, wherever a call returns.
  abbrev Stays {ℓ} : {A : Type ℓ} → Option (World × A) → Type 0
  Stays none = Unit
  Stays (some (w, a)) = IsFrozen wallet r w

  carry_out-Stays :
      (p : InvestorPlan) (lands : Bool) (owner : String) (w : World)
      → IsFrozen wallet r w
      → (str_eq owner wallet ≡ true → (s : InvestorRecord) → p ≢ write s)
      → Stays (carry_out p lands owner w)
  carry_out-Stays (unchanged x) lands owner w f h = f
  carry_out-Stays (blocked x) lands owner w f h = f
  carry_out-Stays (write s) false owner w f h = tt
  carry_out-Stays (write s) true owner w f h = elim (Bool-cases (str_eq owner wallet)) [
    | inl own ↦ absurd (h own s refl)
    | inr other ↦ (rw other f.0, f.1)
  ]

  update-Stays :
      (owner : String) (plan : Option InvestorRecord → InvestorPlan) (lands : Bool) (w : World)
      → Respects plan
      → IsFrozen wallet r w
      → Stays (update owner plan lands w)
  unfolding update
  update-Stays owner plan lands w resp f =
      carry_out-Stays (plan (w.investors owner)) lands owner w f (λ own s e.
        let same : w.investors owner ≡ some r =
          ap w.investors ((eq_iff owner wallet).0 own) ∙ f.0 in
        resp r s f.1 (rw same at e))

  finish-Stays :
      (x : Option (World × UpdateOutcome)) (user applicant : String) (created_at : Option ℕ)
      → Stays x
      → Stays (finish x user applicant created_at)
  finish-Stays none user applicant created_at h = tt
  finish-Stays (some (w, o)) user applicant created_at h = h

  unless_refused-Stays :
      (o : Option IgnoreReason) (w : World) (x : Option (World × WebhookResult))
      → IsFrozen wallet r w
      → Stays x
      → Stays (unless_refused o w x)
  unless_refused-Stays none w x f h = h
  unless_refused-Stays (some reason) w x f h = f

  decide-Stays :
      (env : Env) (created_at : Option ℕ) (action : Action) (applicant user owner : String)
      (w : World)
      → IsFrozen wallet r w
      → Stays (decide env created_at action applicant user owner w)
  unfolding decide
  decide-Stays env created_at approve applicant user owner w f =
      let a = env.get_applicant applicant in
      let j = jurisdiction_from_country env a.country in
      unless_refused-Stays (refusal env a user) w _ f (
        finish-Stays _ user applicant created_at (
          update-Stays owner (λ c. plan_approval c j env.now) env.lands w
            (approval-Respects j env.now) f))
  decide-Stays env created_at _ applicant user owner w f =
      finish-Stays _ user applicant created_at
        (update-Stays owner plan_revocation env.lands w revocation-Respects f)

  if_Stays :
      {A : Type 0} (b : Bool) (x y : Option (World × A))
      → Stays x
      → Stays y
      → Stays (if b then x else y)
  if_Stays true x y h k = h
  if_Stays false x y h k = k

  module _ (env : Env) (w : World) (f : IsFrozen wallet r w) where
    apply-Stays :
        (created_at : Option ℕ) (action : Action) (applicant user owner : String)
        → Stays (apply env created_at action applicant user owner w)
    unfolding apply
    apply-Stays created_at action applicant user owner =
        if_Stays (is_stale created_at (last_event_at user w.bindings)) _ _ f
          (decide-Stays env created_at action applicant user owner w f)

    on_binding-Stays :
        (b : Option WalletBinding) (created_at : Option ℕ) (action : Action)
        (applicant user : String)
        → Stays (on_binding env b created_at action applicant user w)
    on_binding-Stays none created_at action applicant user = f
    on_binding-Stays (some b) created_at action applicant user =
        if_Stays env.has_authority _ none (apply-Stays created_at action applicant user b.wallet) tt

    on_decision-Stays :
        (d : KycDecision) (created_at : Option ℕ) → Stays (on_decision env d created_at w)
    on_decision-Stays (ignore reason) created_at = f
    on_decision-Stays (act action applicant user) created_at =
        on_binding-Stays (find_by_external_user_id user w.bindings) created_at action applicant user

  after-Stays :
      (w : World) (x : Option (World × WebhookResult))
      → IsFrozen wallet r w
      → Stays x
      → IsFrozen wallet r (world_after w x)
  after-Stays w none f h = f
  after-Stays w (some (w', result)) f h = h

  -- A wallet's frozen record stays as it is through any webhook events, in any circumstances.
  pub process_all-IsFrozen :
      (events : List (Env × SumsubWebhookEvent)) (w : World)
      → IsFrozen wallet r w
      → IsFrozen wallet r (process_all events w)
  unfolding process_all process
  process_all-IsFrozen [] w f = f
  process_all-IsFrozen ((env, e) ∷ events) w f = process_all-IsFrozen events _ (
      after-Stays w (process env e w) f (on_decision-Stays env w f (classify_event e) e.created_at))
