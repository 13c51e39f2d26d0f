-- ===== src/Lib.antt =====
-- AXEL: tokenised cars on Solana. The chain program keeps each car's project: its shares, the
-- revenue that is paid into a vault, who may hold shares, and a hash chain of the car's days. The
-- TypeScript code around it, which this library is about, repeats the program's arithmetic, reads
-- its events, writes the days with the oracle's key, writes KYC records with the KYC key, and lets
-- a browser check what is published.
--
-- Parts, their files here and their code:
--
-- - Money: frontend/src/lib/solana/math.ts, one definition per function. Money/Fees and
--   Money/Accumulator are about splitting a fee and about the revenue accumulator.
-- - Payouts: backend/src/indexer/payouts.ts. `step` is the body of the loop of `replayPosition`,
--   `State` its variables. Payouts/Ledger specifies a position by amounts and times alone,
--   Payouts/Refinement relates the replay to it, Payouts/Solvency is about what is owed, and
--   Payouts/Query about `positionEvents` of backend/src/indexer/indexer.store.ts.
-- - Hex and Dates: frontend/src/lib/verify/sha256.ts, `dateNumber` of
--   frontend/src/lib/verify/telemetry.ts, `isoFromDateNumber` of backend/src/common/dates.ts and
--   the calendar behind `setUTCMonth`.
-- - Telemetry: backend/src/telemetry. Telemetry/Store is telemetry.store.ts, with the two tables
--   as lists of rows. Telemetry/Chain is telemetry-chain.service.ts: `reconcile_now` and
--   `sync_now` with their exits. Telemetry/Chain/Plan, Reconcile and Writing are about
--   the planned links, an unseen outcome and the loop over the batches. Telemetry/Collector is
--   telemetry-collector.service.ts; Dates, Gapless, Runs and Collected in it are about its days.
-- - Verify: frontend/src/lib/verify/telemetry.ts. Verify/Chain relates it to what Telemetry/Chain
--   plans.
-- - Kyc: backend/src/kyc/investor-plan.ts with frontend/src/lib/solana/eligibility.ts and kyc.ts.
--   Kyc/Webhook is the path of a Sumsub event through sumsub-webhook.ts, kyc-webhook.service.ts,
--   investor-registry.service.ts and kyc.store.ts. Kyc/Session is the nonces and the bindings of
--   kyc.store.ts and `openSession` of kyc-session.service.ts.
-- - Project: frontend/src/lib/solana/lifecycle.ts. Project/Solvency is `solvencyOf` of
--   frontend/src/lib/solana/solvency.ts; Project/Due and Project/Claims are about the claims of the
--   holders.
-- - Indexer: backend/src/indexer. Indexer/Logs is program-logs.ts, and Indexer/Logs/Trace the tree
--   of invocations behind the lines. Indexer/Stream is log-stream.ts as a state machine.
--   Indexer/Store is indexer.store.ts. Indexer/Feed and Indexer/Sync are indexer.service.ts, from
--   the pages of signatures to `sync`; Indexer/Sync/Service is when syncs run. In Indexer/Sync,
--   History says what the RPC lists, and Paging, Truth, Mirror, Rounds and Complete lead from a
--   page and a transaction to whole syncs.
-- - Reports: backend/src/reports. Reports/Report is `buildReport` of revenue-report.ts,
--   Reports/Store is reports.store.ts. Of attestation.service.ts, Reports/Overlaps is
--   `checkOverlaps`, Reports/Deposit is `readDeposit`, and Reports/Attest is `attest` and `draft`,
--   whose signed deposits Reports/Attest/Signed is about. Reports/Build is `build` of
--   reports.service.ts over the days of Telemetry/Store, and Reports/Build/Paid puts the two
--   together.
-- - Demo: frontend/src/lib/demo/server. Demo/Store is `MemoryStore` of store.ts, with
--   Demo/Store/Lasting on the keys that never expire. Demo/Access is the calls of `hasAccess` and
--   `reserveAccess` of limits.ts that `handleAccess` makes, as turns of requests that run at once.
--
-- How they meet: Payouts uses the accumulator of Money. Telemetry/Chain reads and writes
-- Telemetry/Store, and Verify rebuilds the chain that it plans. Indexer/Sync reads logs by
-- Indexer/Logs and fills the tables whose events Payouts replays. Kyc/Webhook writes the records
-- that Kyc plans, which the eligibility of the frontend reads. Reports/Build reconciles the chain by
-- Telemetry/Chain and reports the days of Telemetry/Store, and Reports/Attest signs for its reports.
--
-- Numbers: amounts are BigInt in the code and natural numbers here, with the 64- and 128-bit limits
-- where the code tests them. Where the replay could go below zero it is in ℤ. Dates are the
-- YYYYMMDD numbers that the program stores; in the collector they are day numbers. Texts that the
-- code takes apart are lists of character codes, other texts are strings. A call that throws is
-- `none` or an error value.
--
-- Bounds: the loop over the batches of a sync has a number of rounds, one for each day: a
-- batch takes at least one. `newSignatures` has a number of pages, one more than the history has
-- entries: a full page is not empty. All other loops run over lists.
--
-- Arguments in place of code that is not here: SHA-256, the accounts and the block height that the
-- RPC returns, its pages and transactions, the event decoder, what becomes of a sent transaction,
-- the decoding, building and signing of a deposit, Sumsub's answer about an applicant, and the
-- table of countries.
--
-- Not modelled: the user interface, the building and signing of transactions, HTTP controllers and
-- clients, configuration and migrations, log lines, and the text of details that go to logs. The
-- canonical JSON of a day or a report is an argument, the operator's input is taken as read, and
-- the queues that run the calls for one car or wallet one after another are left out.
mod Prelude
pub mod Money
pub mod Indexer
pub mod Payouts
pub mod Project
pub mod Hex
pub mod Dates
pub mod Telemetry
pub mod Reports
pub mod Verify
pub mod Kyc
pub mod Demo
