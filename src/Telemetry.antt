-- ===== src/Telemetry.antt =====
-- backend/src/telemetry: the oracle's record of a car's days and of their on-chain chain.
-- Dates are YYYYMMDD numbers: the texts that the code compares are in the same order. Hashes and
-- heads are hex texts. `digest` stands for SHA-256 of Node's crypto module, on bytes.
pub mod Store
pub mod Chain
pub mod Collector
mod Tests
use axel_sol.Prelude.{ℕ, Bool, ◌&&◌, List, ◌++◌, leb, Text, replicate, String}
use axel_sol.Hex.{to_hex, buffer_from_hex, u32_le}

pub data DataOrigin : Type 0 where
  yandex_fleet simulated : DataOrigin

pub data VehicleStatus : Type 0 where
  active idle maintenance : VehicleStatus

pub record DayFigures : Type 0 where
  pub status : VehicleStatus
  pub trips : ℕ
  pub km : ℕ
  pub rent_charged : ℕ

abbrev pub vehicle_status_codes : VehicleStatus → ℕ
vehicle_status_codes active = 1
vehicle_status_codes idle = 2
vehicle_status_codes maintenance = 3

-- The guard of `publishDay`: the figures fit the fields of the on-chain entry.
unfoldable pub figures_in_range : DayFigures → Bool
figures_in_range f =
    leb f.trips 65_535 && leb f.km 4_294_967_295 && leb f.rent_charged 4_294_967_295

abbrev pub empty_head : Text
empty_head = replicate 64 b'0'

unfoldable pub next_head : (digest : List ℕ → List ℕ) → Text → ℕ → Text → Text
next_head digest head date data_hash =
    to_hex (digest (buffer_from_hex head ++ u32_le date ++ buffer_from_hex data_hash))
