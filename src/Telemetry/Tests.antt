-- ===== src/Telemetry/Tests.antt =====
-- The theorems on backend/src/telemetry at concrete days. The digest of these runs repeats the sum
-- of the bytes.
use axel_sol.Prelude.{
  ℕ, ◌+◌, ◌%◌, ◌≡◌, ◌≤◌, ◌<◌, ◌⊎◌, String, true, Text, refl, Option, none, some, List, [], ◌∷◌,
  sum_by, replicate, length, map, find, sort_by, select,
}
use axel_sol.Telemetry.{yandex_fleet, DayFigures, active, simulated, empty_head, next_head}
use axel_sol.Telemetry.Store.{
  Store, DayRow, PlannedLink, Submission, record_submission, abandon_submission, expired, to_day,
  link_all, ChainLink, confirm_submission, pending_submission, confirmed_tip, confirmed_rows,
  unsubmitted_after,
}
use axel_sol.Telemetry.Collector.{FleetCar}
use axel_sol.Telemetry.Chain.{
  Tip, plan, Project, operating, View, in_sync, pending, settle_pending, Answers, landed, write_all,
  sync_now, SyncResult, is_recordable, reconcile_now, append_days, reconcile_with, compare_tip,
  write_batch, plan_from,
}
use axel_sol.Telemetry.Chain.Plan.{Chain, Leads, stay, step}
use axel_sol.Telemetry.Chain.Reconcile.{Holds, as_sent, settle_pending-Leads}
use axel_sol.Telemetry.Chain.Writing.{Tally, write_all_counts, sync_now_guarded}
use axel_sol.Telemetry.Store.Links.{abandon-record}

abbrev pub sum_digest : List ℕ → List ℕ
sum_digest bytes = replicate 32 (sum_by (λ b. b) bytes % 256)

abbrev row : ℕ → DayRow
row date = record {
  mint = "car";
  date = date;
  canonical_json = 1 ∷ 2 ∷ [];
  data_hash = [];
  data_origin = simulated;
  figures = record { status = active; trips = 12; km = 90; rent_charged = 11_000 };
  collected_at = 5;
  chain_position = none;
  head_before = none;
  head_after = none;
  tx_signature = none;
  confirmed_at = none;
}

abbrev two_days : Store
two_days = record { days = row 20260901 ∷ row 20260902 ∷ []; submissions = [] }

abbrev batch : List PlannedLink
batch =
    record { date = 20260901; position = 1; head_before = empty_head; head_after = 7 ∷ [] }
    ∷ record { date = 20260902; position = 2; head_before = 7 ∷ []; head_after = 8 ∷ [] }
    ∷ []

abbrev sent : Submission
sent = record { signature = "sig"; mint = "car"; last_valid_block_height = 9 }

linked_row : ℕ → ℕ → List ℕ → List ℕ → DayRow
linked_row date position before after = record (row date) {
  chain_position = some position;
  head_before = some before;
  head_after = some after;
  tx_signature = some "sig";
}

recorded : (s : Store) × (record_submission sent batch 6 two_days ≡ some s)
unfolding record_submission link_all axel_sol.Prelude.select axel_sol.Prelude.find
recorded = (_, refl)

abandon-record_example : (abandon_submission "sig" expired recorded.0).days ≡ two_days.days
abandon-record_example =
    abandon-record sent batch 6 expired two_days
      ((λ _. (refl, refl, refl)), ((λ _. (refl, refl, refl)), tt)) (refl, (refl, tt)) recorded.1

abbrev tip : Tip
tip = record { count = 4; head = empty_head; last_date = 20260831 }

abbrev chain_at : ℕ → Chain
chain_at count = record { count = count; head = empty_head }

abbrev link_at : Text → Text → PlannedLink
link_at before after = record {
  date = 20260901;
  position = 5;
  head_before = before;
  head_after = after;
}

abbrev next : Text
next = next_head sum_digest empty_head 20260901 []

one_day_leads :
    Leads sum_digest
      (chain_at 4)
      (to_day (row 20260901) ∷ [])
      (link_at empty_head next ∷ [])
      (record { count = 5; head = next })
unfolding to_day
one_day_leads = step (to_day (row 20260901)) (link_at empty_head next) refl refl refl refl stay

abbrev car_project : ℕ → Project
car_project count = record {
  telemetry_count = count;
  telemetry_head = empty_head;
  last_telemetry_date = 20260831;
  oracle = "oracle";
  state = operating;
}

abbrev sent_link : ChainLink
sent_link = as_sent "sig" (link_at empty_head next)

settle_pending-Leads_example :
    (Holds (car_project 4) (record { count = 5; head = next })
      → settle_pending (car_project 4) sent sent_link sent_link 12 6 two_days
        ≡ (confirm_submission "sig" 6 two_days, in_sync (car_project 4)))
    × (Holds (car_project 4) (chain_at 4)
        → 12 ≤ 9
        → settle_pending (car_project 4) sent sent_link sent_link 12 6 two_days
          ≡ (two_days, pending (car_project 4)))
    × (Holds (car_project 4) (chain_at 4)
        → 9 < 12
        → settle_pending (car_project 4) sent sent_link sent_link 12 6 two_days
          ≡ (abandon_submission "sig" expired two_days, in_sync (car_project 4)))
settle_pending-Leads_example =
    settle_pending-Leads sum_digest "sig" (car_project 4) sent sent_link sent_link 12 6 two_days
      one_day_leads refl refl

-- Every batch is confirmed.
abbrev all_land : Answers
all_land i entries = record { signature = "sig"; last_valid_block_height = 9; sending = landed }

write_all_counts_example :
    Tally
      (map to_day two_days.days)
      0
      (write_all 2 "car" all_land 6 0 (map to_day two_days.days) batch 0 two_days)
write_all_counts_example =
    write_all_counts "car" all_land 6 (map to_day two_days.days) batch two_days

abbrev one_day : Store
one_day = record { days = row 20260901 ∷ []; submissions = [] }

-- What the run leaves, and its result.
synced_run :
    (o : Store × SyncResult) × (sync_now sum_digest
        (some (car_project 4))
        (some "oracle")
        "car"
        all_land
        12
        6
        one_day
      ≡ some o)
unfolding sync_now reconcile_now append_days reconcile_with pending_submission find confirmed_tip
    confirmed_rows sort_by select compare_tip write_all unsubmitted_after write_batch
    record_submission link_all plan plan_from to_day
synced_run = (_, refl)

sync_now_guarded_example :
    ((p : Project) × (some (car_project 4) ≡ some p)
      × (some "oracle" ≡ some p.oracle)
      × (is_recordable p.state ≡ true))
    ⊎ ((synced_run.0.1.written ≡ 0)
        × ((v : View) × (reconcile_now (some (car_project 4)) "car" 12 6 one_day
              ≡ some (synced_run.0.0, v))))
sync_now_guarded_example =
    sync_now_guarded sum_digest (some (car_project 4)) (some "oracle") "car" all_land 12 6 one_day
      synced_run.1

-- Two cars over three days, of which the fleet system answers for the first alone.
abbrev fleet : List FleetCar
fleet =
    record { mint = "car"; source = simulated; start_date = some 20_700 }
    ∷ record { mint = "taxi"; source = yandex_fleet; start_date = some 20_701 }
    ∷ []

abbrev plain_figures : DayFigures
plain_figures = record { status = active; trips = 2; km = 30; rent_charged = 9_000 }

abbrev no_days : Store
no_days = record { days = []; submissions = [] }
