-- ===== src/Kyc/Webhook/Tests.antt =====
-- The theorems on the KYC record and the webhook, at concrete events.
use axel_sol.Prelude.{
  ℕ, ◌<◌, ◌≡◌, ◌↔◌, refl, arith, none, some, [], ◌∷◌, true, false, if◌then◌else◌, str_eq, find,
}
use axel_sol.Dates.Utc.{add_months}
use axel_sol.Kyc.{
  InvestorRecord, InvestorPlan, write, unchanged, already_active, active, revoked, frozen, sumsub,
  manual, plan_approval, plan_revocation, eligibility, eligible, kyc_validity_months,
  approved_record,
}
use axel_sol.Kyc.Plan.{plan_approval-eligible}
use axel_sol.Kyc.Webhook.{
  Env, World, WalletBinding, WebhookResult, Applicant, SumsubWebhookEvent, UpdateOutcome, applied,
  done, process, process_all,
}
use axel_sol.Kyc.Webhook.Frozen.{IsFrozen, process_all-IsFrozen}
use axel_sol.Kyc.Webhook.Order.{process_all_older}

abbrev now_ms : ℕ
now_ms = 1_780_000_000_000

-- A record that the console wrote, with the demo flag.
abbrev by_hand : InvestorRecord
by_hand = record {
  status = active;
  flags = 1;
  jurisdiction = 643;
  expires_at = 1_790_000_000;
  provider = manual;
}

abbrev renewed : InvestorRecord
renewed = approved_record 0 643 now_ms

approval_written : plan_approval (some by_hand) 643 now_ms ≡ write renewed
unfolding plan_approval
approval_written = refl

plan_approval-eligible_example :
    (renewed.expires_at ≡ add_months now_ms kyc_validity_months)
    × ((eligibility (some renewed) false 1_800_000_000 ≡ eligible)
        ↔ (1_800_000_000 < renewed.expires_at))
plan_approval-eligible_example =
    plan_approval-eligible (some by_hand) 643 now_ms false 1_800_000_000 approval_written

abbrev bound : WalletBinding
bound = record {
  wallet = "W1";
  external_user_id = "user-1";
  applicant_id = none;
  last_event_at = none;
  created_at = 1;
}

abbrev env : Env
env = record {
  get_applicant = λ _. record {
    external_user_id = some "user-1";
    review_status = some "completed";
    review_answer = some "GREEN";
    level_name = some "basic-kyc";
    country = some "KGZ";
  };
  alpha3_to_numeric = λ _. some 417;
  level_name = "basic-kyc";
  now = now_ms;
  lands = true;
  has_authority = true;
}

abbrev green : ℕ → SumsubWebhookEvent
green at = record {
  type = "applicantReviewed";
  applicant_id = some "app-1";
  external_user_id = some "user-1";
  review_answer = some "GREEN";
  review_reject_type = none;
  created_at = some at;
}

abbrev red : ℕ → SumsubWebhookEvent
red at = record (green at) { review_answer = some "RED"; review_reject_type = some "FINAL" }

abbrev holder : InvestorRecord → World
holder r = record { bindings = bound ∷ []; investors = λ w. if str_eq w "W1" then some r else none }

abbrev locked : InvestorRecord
locked = record by_hand { status = frozen }

process_all-IsFrozen_example :
    IsFrozen "W1" locked (process_all ((env, green 10) ∷ (env, red 20) ∷ []) (holder locked))
process_all-IsFrozen_example =
    process_all-IsFrozen "W1" locked ((env, green 10) ∷ (env, red 20) ∷ []) (holder locked)
      (refl, refl)

-- The world after the approval.
acted : (w : World) × (process env (green 10) (holder by_hand) ≡ some (w, done applied))
unfolding process axel_sol.Kyc.Webhook.classify_event axel_sol.Kyc.Webhook.action_for
    axel_sol.Kyc.Webhook.find_by_external_user_id axel_sol.Kyc.Webhook.apply
    axel_sol.Kyc.Webhook.decide axel_sol.Kyc.Webhook.refusal axel_sol.Kyc.Webhook.update
    axel_sol.Kyc.Webhook.last_event_at axel_sol.Kyc.Webhook.jurisdiction_from_country plan_approval
    axel_sol.Kyc.Webhook.record_applied_event find
acted = (_, refl)

process_all_older_example : process_all ((env, red 9) ∷ []) acted.0 ≡ acted.0
process_all_older_example =
    process_all_older env (green 10) (holder by_hand) acted.0 applied "user-1" 10
      ((env, red 9) ∷ []) refl refl acted.1 ((9, refl, omega arith, refl), tt)
