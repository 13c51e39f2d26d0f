-- ===== src/Reports/Build/Tests.antt =====
-- A signed deposit of one day's revenue, with the report that is built of the stored day.
use axel_sol.Prelude.{String, some, List, [], ◌∷◌, Text}
use axel_sol.Telemetry.{simulated, active}
use axel_sol.Telemetry.Store as Days
use axel_sol.Telemetry.Store.{DayRow}
use axel_sol.Telemetry.Chain.{Project, operating}
use axel_sol.Reports.Store as Attested
use axel_sol.Reports.Build.{FleetCar, ChainState}

abbrev cars : List FleetCar
cars = record { mint_address = "car"; park_fee_bps = 0 } ∷ []

abbrev head : Text
head = b'h' ∷ []

abbrev project : Project
project = record {
  telemetry_count = 1;
  telemetry_head = head;
  last_telemetry_date = 20260901;
  oracle = "oracle";
  state = operating;
}

abbrev chain : String → ChainState
chain mint = record {
  project = some project;
  operator = "operator";
  period_count = 3;
  payment_mint = "kzt";
  decimals = 0;
  height = 100;
  now = 7;
}

abbrev row : DayRow
row = record {
  mint = "car";
  date = 20260901;
  canonical_json = [];
  data_hash = [];
  data_origin = simulated;
  figures = record { rent_charged = 900; km = 30; trips = 2; status = active };
  collected_at = 5;
  chain_position = some 1;
  head_before = some [];
  head_after = some head;
  tx_signature = some "tx";
  confirmed_at = some 6;
}

abbrev stored : Days.Store
stored = record { days = row ∷ []; submissions = [] }
