-- ===== src/Reports.antt =====
-- backend/src/reports: the revenue reports that the oracle attests. Dates are YYYYMMDD numbers;
-- the texts that the code compares are in the same order. Addresses and hashes are strings.
pub mod Report
pub mod Balance
pub mod Store
pub mod Overlaps
pub mod Deposit
pub mod Attest
pub mod Build
mod Tests

pub data ReportKind : Type 0 where
  regular final : ReportKind
