-- ===== src/Telemetry/Store/Tables.antt =====
-- The records and the rows of backend/src/telemetry/telemetry.store.ts.
use axel_sol.Prelude.{ℕ, String, Option, List, Text}
use axel_sol.Telemetry.{DataOrigin, DayFigures}

pub record ChainLink : Type 0 where
  pub position : ℕ
  pub head_before : Text
  pub head_after : Text
  pub tx_signature : String
  pub confirmed_at : Option ℕ

pub record StoredDay : Type 0 where
  pub mint : String
  pub date : ℕ
  pub canonical : List ℕ
  pub data_hash : Text
  pub data_origin : DataOrigin
  pub figures : DayFigures
  pub collected_at : ℕ
  pub chain : Option ChainLink

pub record Submission : Type 0 where
  pub signature : String
  pub mint : String
  pub last_valid_block_height : ℕ

pub record PlannedLink : Type 0 where
  pub date : ℕ
  pub position : ℕ
  pub head_before : Text
  pub head_after : Text

pub record DayRow : Type 0 where
  pub mint : String
  pub date : ℕ
  pub canonical_json : List ℕ
  pub data_hash : Text
  pub data_origin : DataOrigin
  pub figures : DayFigures
  pub collected_at : ℕ
  pub chain_position : Option ℕ
  pub head_before : Option Text
  pub head_after : Option Text
  pub tx_signature : Option String
  pub confirmed_at : Option ℕ

pub data Outcome : Type 0 where
  pending confirmed failed expired : Outcome

pub record SubmissionRow : Type 0 where
  pub signature : String
  pub mint : String
  pub last_valid_block_height : ℕ
  pub submitted_at : ℕ
  pub outcome : Outcome

pub record Store : Type 0 where
  pub days : List DayRow
  pub submissions : List SubmissionRow
