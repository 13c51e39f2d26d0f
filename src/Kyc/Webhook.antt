-- ===== src/Kyc/Webhook.antt =====
-- backend/src/kyc: Sumsub's events (sumsub-webhook.ts), the bindings of wallets to applicants
-- (kyc.store.ts), the registry's update (investor-registry.service.ts) and the webhook service
-- (kyc-webhook.service.ts). The HMAC of the body is checked and its JSON read before an event
-- comes in here. Sumsub's API, the country table and the outcome of sending a transaction are
-- arguments. `none` is a call that throws; a transaction that is not confirmed is taken not to have
-- landed. A result leaves out the transaction's signature, and the reason of an update that was
-- applied, which is the event's action. The queue runs the events of one wallet one at a time.
pub mod Order
pub mod Frozen
mod Tests
use axel_sol.Prelude.{
  ℕ, String, Bool, true, false, not, ◌&&◌, ◌||◌, Option, none, some, List, [], ◌∷◌, map, ltb, max,
  if◌then◌else◌, str_eq, find, change,
}
use axel_sol.Kyc.{
  InvestorRecord, InvestorPlan, Reason, write, unchanged, blocked, plan_approval, plan_revocation,
}

pub record SumsubWebhookEvent : Type 0 where
  pub type : String
  pub applicant_id : Option String
  pub external_user_id : Option String
  pub review_answer : Option String
  pub review_reject_type : Option String
  -- Milliseconds since the epoch, where the payload has a time.
  pub created_at : Option ℕ

pub data Action : Type 0 where
  approve rejected reset deactivated : Action

abbrev is_text : String → Option String → Bool
is_text t none = false
is_text t (some s) = str_eq s t

unfoldable pub action_for : SumsubWebhookEvent → Option Action
action_for e =
    if str_eq e.type "applicantReviewed"
    then (if is_text "GREEN" e.review_answer
        then some approve
        else if is_text "RED" e.review_answer && is_text "FINAL" e.review_reject_type
        then some rejected
        else none)
    else if str_eq e.type "applicantReset"
    then some reset
    else if str_eq e.type "applicantDeactivated"
    then some deactivated
    else none

pub data IgnoreReason : Type 0 where
  review_not_final event_type missing_applicant unknown_user stale_event applicant_mismatch
        not_approved level_mismatch :
      IgnoreReason

pub data KycDecision : Type 0 where
  act : (action : Action) (applicant_id external_user_id : String) → KycDecision
  ignore : IgnoreReason → KycDecision

-- The decision, by the event's action and its two ids.
abbrev pub decision_for : IgnoreReason → Option Action → Option String → Option String → KycDecision
decision_for other none applicant_id external_user_id = ignore other
decision_for other (some action) none external_user_id = ignore missing_applicant
decision_for other (some action) (some applicant) none = ignore missing_applicant
decision_for other (some action) (some applicant) (some user) = act action applicant user

unfoldable pub classify_event : SumsubWebhookEvent → KycDecision
classify_event e =
    decision_for (if str_eq e.type "applicantReviewed" then review_not_final else event_type)
      (action_for e) e.applicant_id e.external_user_id

pub record WalletBinding : Type 0 where
  pub wallet : String
  pub external_user_id : String
  pub applicant_id : Option String
  pub last_event_at : Option ℕ
  pub created_at : ℕ

-- The table of bindings, and the program's `Investor` accounts.
pub record World : Type 0 where
  pub bindings : List WalletBinding
  pub investors : String → Option InvestorRecord

abbrev pub is_user : String → WalletBinding → Bool
is_user user b = str_eq b.external_user_id user

unfoldable pub find_by_external_user_id : String → List WalletBinding → Option WalletBinding
find_by_external_user_id user bindings = find (is_user user) bindings

unfoldable pub last_event_at : String → List WalletBinding → Option ℕ
unfolding find_by_external_user_id
last_event_at user bindings = elim (find_by_external_user_id user bindings) [
  | none ↦ none
  | some b ↦ b.last_event_at
]

-- `CASE WHEN ? IS NULL THEN last_event_at ELSE MAX(COALESCE(last_event_at, 0), ?) END`.
abbrev pub newest : Option ℕ → Option ℕ → Option ℕ
newest last none = last
newest none (some t) = some t
newest (some l) (some t) = some (max l t)

abbrev pub note_event : String → String → Option ℕ → WalletBinding → WalletBinding
note_event user applicant event_at b =
    if is_user user b
    then record b { applicant_id = some applicant; last_event_at = newest b.last_event_at event_at }
    else b

unfoldable pub record_applied_event :
    String → String → Option ℕ → List WalletBinding → List WalletBinding
record_applied_event user applicant event_at bindings =
    map (note_event user applicant event_at) bindings

pub data UpdateOutcome : Type 0 where
  applied : UpdateOutcome
  kept stopped : Reason → UpdateOutcome

pub data WebhookResult : Type 0 where
  done : UpdateOutcome → WebhookResult
  ignored : IgnoreReason → WebhookResult

pub record Applicant : Type 0 where
  pub external_user_id : Option String
  pub review_status : Option String
  pub review_answer : Option String
  pub level_name : Option String
  pub country : Option String

abbrev carry_out : InvestorPlan → Bool → String → World → Option (World × UpdateOutcome)
carry_out (unchanged reason) lands wallet w = some (w, kept reason)
carry_out (blocked reason) lands wallet w = some (w, stopped reason)
carry_out (write r) lands wallet w =
    if lands
    then some (record w { investors = change wallet (λ _. some r) w.investors }, applied)
    else none

-- `InvestorRegistry.update`: `lands` tells whether the transaction is confirmed.
unfoldable pub update :
    String → (Option InvestorRecord → InvestorPlan) → Bool → World → Option (World × UpdateOutcome)
update wallet plan lands w = carry_out (plan (w.investors wallet)) lands wallet w

-- What a run of the service depends on.
pub record Env : Type 0 where
  pub get_applicant : String → Applicant
  -- `i18n-iso-countries`, by the upper-case alpha-3 code.
  pub alpha3_to_numeric : String → Option ℕ
  pub level_name : String
  pub now : ℕ
  pub lands : Bool
  pub has_authority : Bool

abbrev pub is_stale : Option ℕ → Option ℕ → Bool
is_stale none last = false
is_stale (some t) none = false
is_stale (some t) (some l) = ltb t l

abbrev finish :
    Option (World × UpdateOutcome) → String → String → Option ℕ → Option (World × WebhookResult)
finish none user applicant created_at = none
finish (some (w, outcome)) user applicant created_at = some (
  record w { bindings = record_applied_event user applicant created_at w.bindings },
  done outcome,
)

abbrev unless_refused :
    Option IgnoreReason → World → Option (World × WebhookResult) → Option (World × WebhookResult)
unless_refused (some reason) w next = some (w, ignored reason)
unless_refused none w next = next

module _ (env : Env) where
  unfoldable pub jurisdiction_from_country : Option String → ℕ
  jurisdiction_from_country none = 0
  jurisdiction_from_country (some alpha3) = elim (env.alpha3_to_numeric alpha3) [
    | none ↦ 0
    | some n ↦ n
  ]

  -- Why an approval is not acted on, if Sumsub's API does not confirm it.
  unfoldable pub refusal : Applicant → String → Option IgnoreReason
  refusal a user =
      if not (is_text user a.external_user_id)
      then some applicant_mismatch
      else if not (is_text "completed" a.review_status) || not (is_text "GREEN" a.review_answer)
      then some not_approved
      else if not (is_text env.level_name a.level_name)
      then some level_mismatch
      else none

  unfoldable pub decide :
      Option ℕ → Action → String → String → String → World → Option (World × WebhookResult)
  unfolding refusal
  decide created_at approve applicant user wallet w =
      let a = env.get_applicant applicant in
      unless_refused (refusal a user) w (
        finish
          (update wallet
            (λ current. plan_approval current (jurisdiction_from_country a.country) env.now)
            env.lands w)
          user applicant created_at)
  decide created_at _ applicant user wallet w =
      finish (update wallet plan_revocation env.lands w) user applicant created_at

  unfoldable pub apply :
      Option ℕ → Action → String → String → String → World → Option (World × WebhookResult)
  apply created_at action applicant user wallet w =
      if is_stale created_at (last_event_at user w.bindings)
      then some (w, ignored stale_event)
      else decide created_at action applicant user wallet w

  abbrev on_binding :
      Option WalletBinding
      → Option ℕ
      → Action
      → String
      → String
      → World
      → Option (World × WebhookResult)
  on_binding none created_at action applicant user w = some (w, ignored unknown_user)
  on_binding (some binding) created_at action applicant user w =
      if env.has_authority then apply created_at action applicant user binding.wallet w else none

  abbrev on_decision : KycDecision → Option ℕ → World → Option (World × WebhookResult)
  on_decision (ignore reason) created_at w = some (w, ignored reason)
  on_decision (act action applicant user) created_at w =
      on_binding (find_by_external_user_id user w.bindings) created_at action applicant user w

  unfoldable pub process : SumsubWebhookEvent → World → Option (World × WebhookResult)
  process e w = on_decision (classify_event e) e.created_at w

-- The world after a call: one that throws has changed nothing.
abbrev pub world_after : World → Option (World × WebhookResult) → World
world_after w none = w
world_after w (some (w', result)) = w'

-- Events one after another, each in its own circumstances.
unfoldable pub process_all : List (Env × SumsubWebhookEvent) → World → World
process_all [] w = w
process_all ((env, e) ∷ rest) w = process_all rest (world_after w (process env e w))
