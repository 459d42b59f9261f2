-- ===== src/History.antt =====
-- src/internal/history: the replay of a run's audit chain. `Payload` holds the events, `State` what
-- a replay knows, `Refusals` the rules on votes, panel decisions and authorizations, `Replay` the
-- fold; the other children prove what an accepted chain is.
pub mod Payload
pub mod State
pub mod Grammar
pub mod Refusals
pub mod Replay
pub mod Invariants
pub mod Launches
pub mod Requests
pub mod Orderly
pub mod Decisions
pub mod Delivery
pub mod Authorized
pub mod Authorizing
pub mod Earned
pub mod Latest
pub mod Panel
pub mod Panelled
pub mod Order
pub mod Queries
pub mod Standing
pub mod Delivered
pub mod Reviewed
pub mod Parking
mod SampleRun
mod Examples
mod OutcomeExamples
